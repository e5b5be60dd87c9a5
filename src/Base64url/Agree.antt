-- ===== src/Base64url/Agree.antt =====
-- The two decoders of base64url, and the encoder before them.
use cal_stack.Base.{
  ℕ, zero, suc, ◌+◌, ◌-◌, ◌%◌, ◌<◌, ◌≡◌, refl, sym, ap, ap₂, ◌∙◌, arith, Bool, true, false, ◌&&◌,
  Option, some, List, [], ◌∷◌, ◌++◌, append_assoc, ◌==◌, leb, ◌||◌, if◌then◌else◌, length,
  length-append, All, Text, is_empty, append-nil,
}
use cal_stack.Base64url.{
  replace_char, repeat_char, pad_loop, strip_padding, from_url, to_url, to_bytes, b64u_to_buf,
  url_base64_to_uint8_array, buf_to_b64u,
}

length-replace_char : (x y : ℕ) (s : Text) → length (replace_char x y s) ≡ length s
unfolding replace_char
length-replace_char x y [] = refl
length-replace_char x y (c ∷ s) = ap suc (length-replace_char x y s)

length-from_url : (s : Text) → length (from_url s) ≡ length s
unfolding from_url
length-from_url s = length-replace_char _ _ _ ∙ length-replace_char _ _ _

-- `n` turns of the loop are enough where `n` characters are missing.
pad_loop-repeat_char :
    (fuel n : ℕ) (s : Text)
    → n < fuel
    → n < 4
    → (length s + n) % 4 ≡ 0
    → pad_loop fuel s ≡ some (s ++ repeat_char b'=' n)
unfolding pad_loop
pad_loop-repeat_char zero n s f lt e = absurd (omega arith)
pad_loop-repeat_char (suc fuel) zero s f lt e =
    let z : (length s % 4 == 0) ≡ true = ground arith in rw z (ap some (sym (append-nil s)))
pad_loop-repeat_char (suc fuel) (suc n) s f lt e =
    let nz : (length s % 4 == 0) ≡ false = ground arith in
    let more = length-append s (b'=' ∷ []) in
    let ih =
      pad_loop-repeat_char fuel n (s ++ (b'=' ∷ [])) (omega arith) (omega arith) (omega arith) in
    rw nz (ih ∙ ap some (append_assoc s (b'=' ∷ []) (repeat_char b'=' n)))

-- The loop ends, with as many characters as the formula says.
pad_loop-formula : (s : Text) → pad_loop 4 s ≡ some (s ++ repeat_char b'=' ((4 - length s % 4) % 4))
pad_loop-formula s =
    pad_loop-repeat_char 4 ((4 - length s % 4) % 4) s (omega arith) (omega arith) (omega arith)

-- Both decoders give the same for every text and every `atob`: the loop that appends `=` ends and
-- appends as many of them as the formula of the other one.
pub b64u_to_buf-url_base64_to_uint8_array :
    (atob : Text → Option Text) (value : Text)
    → b64u_to_buf atob value ≡ url_base64_to_uint8_array atob value
unfolding b64u_to_buf url_base64_to_uint8_array
b64u_to_buf-url_base64_to_uint8_array atob value =
    rw (pad_loop-formula (from_url value), length-from_url value) refl

-- `[A-Za-z0-9+/]`
abbrev pub is_base64_char : ℕ → Bool
is_base64_char c =
    (leb b'A' c && leb c b'Z')
    || (leb b'a' c && leb c b'z')
    || (leb b'0' c && leb c b'9')
    || (c == b'+')
    || (c == b'/')

abbrev pub IsBase64Chars : Text → Type 0
IsBase64Chars = All (λ c. is_base64_char c ≡ true)

from_url-to_url : (s : Text) → IsBase64Chars s → from_url (to_url s) ≡ s
unfolding from_url to_url replace_char
from_url-to_url [] h = refl
from_url-to_url (c ∷ s) h = ap₂ ◌∷◌ (back c h.0) (from_url-to_url s h.1)
  where
    back :
        (c : ℕ)
        → is_base64_char c ≡ true
        → (let d = if c == b'+' then b'-' else c in
            let e = if d == b'/' then b'_' else d in
            let f = if e == b'-' then b'+' else e in if f == b'_' then b'/' else f)
          ≡ c
    back c h = ground arith

replace_char-append :
    (x y : ℕ) (s t : Text) → replace_char x y (s ++ t) ≡ replace_char x y s ++ replace_char x y t
unfolding replace_char
replace_char-append x y [] t = refl
replace_char-append x y (c ∷ s) t = ap ((if c == x then y else c) ∷◌) (replace_char-append x y s t)

to_url-append : (s t : Text) → to_url (s ++ t) ≡ to_url s ++ to_url t
unfolding to_url
to_url-append s t = rw (replace_char-append b'+' b'-' s t) (replace_char-append b'/' b'_' _ _)

to_url-repeat_char : (n : ℕ) → to_url (repeat_char b'=' n) ≡ repeat_char b'=' n
unfolding to_url replace_char
to_url-repeat_char zero = refl
to_url-repeat_char (suc n) = ap (b'=' ∷◌) (to_url-repeat_char n)

strip_padding-repeat_char : (n : ℕ) → strip_padding (repeat_char b'=' n) ≡ []
unfolding strip_padding
strip_padding-repeat_char zero = refl
strip_padding-repeat_char (suc n) = rw (strip_padding-repeat_char n) refl

&&_false : (b : Bool) → (b && false) ≡ false
&&_false b = ground arith

-- The padding goes and nothing else, from a text of the alphabet.
strip_padding-to_url :
    (s : Text) (n : ℕ) → IsBase64Chars s → strip_padding (to_url s ++ repeat_char b'=' n) ≡ to_url s
unfolding strip_padding to_url replace_char
strip_padding-to_url [] n h = strip_padding-repeat_char n
strip_padding-to_url (c ∷ s) n h =
    rw (strip_padding-to_url s n h.1, no_padding c h.0, &&_false (is_empty (to_url s))) refl
  where
    no_padding :
        (c : ℕ)
        → is_base64_char c ≡ true
        → ((let d = if c == b'+' then b'-' else c in if d == b'/' then b'_' else d) == b'=') ≡ false
    no_padding c h = ground arith

to_bytes-byte : (bs : List ℕ) → All (λ b. b < 256) bs → to_bytes bs ≡ bs
unfolding to_bytes
to_bytes-byte [] h = refl
to_bytes-byte (b ∷ bs) h = ap₂ ◌∷◌ (let lt = h.0 in omega arith) (to_bytes-byte bs h.1)

buf_to_b64u-base64 :
    (btoa : Text → Text) (bytes : List ℕ) (body : Text) (n : ℕ)
    → btoa bytes ≡ body ++ repeat_char b'=' n
    → IsBase64Chars body
    → buf_to_b64u btoa bytes ≡ to_url body
unfolding buf_to_b64u
buf_to_b64u-base64 btoa bytes body n e h =
    rw (e, to_url-append body (repeat_char b'=' n), to_url-repeat_char n)
      (strip_padding-to_url body n h)

-- Decoding what was encoded gives the bytes back, where `btoa` writes characters of the alphabet and
-- at most two `=` behind them, four characters at a time, and `atob` reads what it wrote.
pub b64u_to_buf-buf_to_b64u :
    (btoa : Text → Text) (atob : Text → Option Text) (bytes : List ℕ) (body : Text) (n : ℕ)
    → All (λ b. b < 256) bytes
    → btoa bytes ≡ body ++ repeat_char b'=' n
    → IsBase64Chars body
    → n < 3
    → (length body + n) % 4 ≡ 0
    → atob (btoa bytes) ≡ some bytes
    → b64u_to_buf atob (buf_to_b64u btoa bytes) ≡ some bytes
unfolding b64u_to_buf
b64u_to_buf-buf_to_b64u btoa atob bytes body n small e h lt len back =
    let padded = pad_loop-repeat_char 4 n body (omega arith) (omega arith) len in
    let read : atob (body ++ repeat_char b'=' n) ≡ some bytes = ap atob (sym e) ∙ back in
    rw
      (
        buf_to_b64u-base64 btoa bytes body n e h,
        from_url-to_url body h,
        padded,
        read,
        to_bytes-byte bytes small,
      )
      refl
