-- ===== src/Base64url.antt =====
-- The base64url helpers: `bufToB64u` and `b64uToBuf` of credentials.js and `urlBase64ToUint8Array` of
-- app.js. `btoa` and `atob` are the browser's; `atob` fails on a text that is no base64.
pub mod Agree
mod Tests
use cal_stack.Base.{
  ℕ, zero, suc, ◌-◌, ◌%◌, Option, none, some, List, [], ◌∷◌, ◌++◌, map, ◌==◌, if◌then◌else◌, length,
  Text, is_empty, ◌&&◌, ◌>>=◌,
}

-- `.replace(/x/g, 'y')` for single characters.
unfoldable pub replace_char : ℕ → ℕ → Text → Text
replace_char x y s = map (λ c. if c == x then y else c) s

abbrev pub repeat_char : ℕ → ℕ → Text
repeat_char c zero = []
repeat_char c (suc n) = c ∷ repeat_char c n

-- `while (s.length % 4) { s += '='; }`, with fuel.
unfoldable pub pad_loop : ℕ → Text → Option Text
pad_loop zero s = none
pad_loop (suc fuel) s =
    let rest = pad_loop fuel (s ++ (b'=' ∷ [])) in if length s % 4 == 0 then some s else rest

-- `.replace(/=+$/, '')`
unfoldable pub strip_padding : Text → Text
strip_padding [] = []
strip_padding (c ∷ s) =
    let rest = strip_padding s in if is_empty rest && (c == b'=') then [] else c ∷ rest

unfoldable pub from_url : Text → Text
unfolding replace_char
from_url s = replace_char b'_' b'/' (replace_char b'-' b'+' s)

unfoldable pub to_url : Text → Text
unfolding replace_char
to_url s = replace_char b'/' b'_' (replace_char b'+' b'-' s)

-- The elements of a `Uint8Array` that the character codes are stored in.
unfoldable pub to_bytes : Text → List ℕ
to_bytes bin = map (λ c. c % 256) bin

module _ (atob : Text → Option Text) where
  -- `b64uToBuf`
  unfoldable pub b64u_to_buf : Text → Option (List ℕ)
  unfolding pad_loop
  b64u_to_buf value = do s ← pad_loop 4 (from_url value); bin ← atob s; some (to_bytes bin)

  -- `urlBase64ToUint8Array`
  unfoldable pub url_base64_to_uint8_array : Text → Option (List ℕ)
  url_base64_to_uint8_array b64 = do
    let padding = repeat_char b'=' ((4 - length b64 % 4) % 4)
    raw ← atob (from_url b64 ++ padding)
    some (to_bytes raw)

module _ (btoa : Text → Text) where
  -- `bufToB64u`: a byte is the character of its code.
  unfoldable pub buf_to_b64u : List ℕ → Text
  unfolding strip_padding
  buf_to_b64u bytes = strip_padding (to_url (btoa bytes))
