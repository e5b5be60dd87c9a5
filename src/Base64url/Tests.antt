-- ===== src/Base64url/Tests.antt =====
-- Tests of the base64url helpers, with an encoder and a decoder of base64.
use cal_stack.Base.{
  ℕ, ◌+◌, ◌-◌, ◌*◌, ◌/◌, ◌%◌, ◌≡◌, refl, arith, Option, none, some, List, [], ◌∷◌, ◌++◌, ltb, leb,
  ◌==◌, if◌then◌else◌, Text, codes, ◌>>=◌,
}
use cal_stack.Base64url.{
  replace_char, pad_loop, strip_padding, from_url, to_url, to_bytes, b64u_to_buf,
  url_base64_to_uint8_array, buf_to_b64u,
}
use cal_stack.Base64url.Agree.{b64u_to_buf-url_base64_to_uint8_array, b64u_to_buf-buf_to_b64u}

abbrev digit : ℕ → ℕ
digit n =
    if ltb n 26
    then b'A' + n
    else if ltb n 52
    then b'a' + (n - 26)
    else if ltb n 62
    then b'0' + (n - 52)
    else if n == 62
    then b'+'
    else b'/'

abbrev value : ℕ → ℕ
value c =
    if leb b'a' c
    then c - b'a' + 26
    else if leb b'A' c
    then c - b'A'
    else if c == b'/'
    then 63
    else if c == b'+'
    then 62
    else c - b'0' + 52

abbrev encode : List ℕ → Text
encode [] = []
encode (a ∷ []) = digit (a / 4) ∷ digit (a % 4 * 16) ∷ codes "=="
encode (a ∷ b ∷ []) = digit (a / 4) ∷ digit (a % 4 * 16 + b / 16) ∷ digit (b % 16 * 4) ∷ codes "="
encode (a ∷ b ∷ c ∷ s) =
    digit (a / 4)
    ∷ digit (a % 4 * 16 + b / 16)
    ∷ digit (b % 16 * 4 + c / 64)
    ∷ digit (c % 64)
    ∷ encode s

abbrev quad : ℕ → ℕ → ℕ → ℕ → List ℕ
quad a b c d =
    let x = value a * 4 + value b / 16 in
    let y = value b % 16 * 16 + value c / 4 in
    let z = value c % 4 * 64 + value d in
    if c == b'=' then x ∷ [] else if d == b'=' then x ∷ y ∷ [] else x ∷ y ∷ z ∷ []

abbrev decode : Text → Option Text
decode [] = some []
decode (a ∷ b ∷ c ∷ d ∷ s) = decode s >>= λ rest. some (quad a b c d ++ rest)
decode _ = none

abbrev bytes : List ℕ
bytes = 251 ∷ 255 ∷ 7 ∷ 62 ∷ []

encoded : buf_to_b64u encode bytes ≡ codes "-_8HPg"
unfolding buf_to_b64u to_url replace_char strip_padding
encoded = refl

decoded : b64u_to_buf decode (codes "-_8HPg") ≡ some bytes
unfolding b64u_to_buf pad_loop from_url replace_char to_bytes
decoded = refl

decoded_key : url_base64_to_uint8_array decode (codes "-_8HPg") ≡ some bytes
unfolding url_base64_to_uint8_array from_url replace_char to_bytes
decoded_key = refl

b64u_to_buf-url_base64_to_uint8_array_example :
    b64u_to_buf decode (codes "-_8HPg") ≡ url_base64_to_uint8_array decode (codes "-_8HPg")
b64u_to_buf-url_base64_to_uint8_array_example =
    b64u_to_buf-url_base64_to_uint8_array decode (codes "-_8HPg")

b64u_to_buf-buf_to_b64u_example : b64u_to_buf decode (buf_to_b64u encode bytes) ≡ some bytes
b64u_to_buf-buf_to_b64u_example =
    b64u_to_buf-buf_to_b64u encode decode bytes (codes "+/8HPg") 2
      (omega arith, (omega arith, (omega arith, (omega arith, tt)))) refl
      (refl, (refl, (refl, (refl, (refl, (refl, tt)))))) (omega arith) refl refl
