-- ===== src/Credentials/Passkeys.antt =====
-- What the registration of a passkey in credentials.js decodes, encodes and reports. The authenticator
-- is the browser's.
use cal_stack.Base.{
  ℕ, Option, some, List, [], ◌∷◌, ◌++◌, if◌then◌else◌, Text, codes, text_or?, truthy, ◌>>=◌,
}
use cal_stack.Base64url.{b64u_to_buf, buf_to_b64u}

-- The challenge of the server, as texts and with the bytes that the browser gets.
pub record Challenge (A : Type 0) : Type 0 where
  pub challenge : A
  pub user_id : A
  pub exclude : List A

-- What the authenticator answers, as bytes and as the texts that are sent.
pub record Attested (A : Type 0) : Type 0 where
  pub id : Text
  pub raw_id : A
  pub kind : Text
  pub attestation_object : A
  pub client_data : A

abbrev decode_all : (Text → Option (List ℕ)) → List Text → Option (List (List ℕ))
decode_all f [] = some []
decode_all f (s ∷ ss) = f s >>= λ b. decode_all f ss >>= λ bs. some (b ∷ bs)

-- The challenge for `navigator.credentials.create`; none if a text is no base64url.
unfoldable pub decode_challenge :
    (Text → Option Text) → Challenge Text → Option (Challenge (List ℕ))
decode_challenge atob c = do
  challenge ← b64u_to_buf atob c.challenge
  user ← b64u_to_buf atob c.user_id
  exclude ← decode_all (b64u_to_buf atob) c.exclude
  some (record { challenge = challenge; user_id = user; exclude = exclude })

-- The credential of the request that ends the registration.
unfoldable pub encode_attested : (Text → Text) → Attested (List ℕ) → Attested Text
encode_attested btoa c = record {
  id = c.id;
  raw_id = buf_to_b64u btoa c.raw_id;
  kind = c.kind;
  attestation_object = buf_to_b64u btoa c.attestation_object;
  client_data = buf_to_b64u btoa c.client_data;
}

-- The note after a failure: of a request, with what the server says, or of the browser.
pub data PkFailure : Type 0 where
  request_failed : Option Text → PkFailure
  browser_failed : Option Text → PkFailure

unfoldable pub pk_note : PkFailure → Text
pk_note (request_failed error) = text_or? error (codes "Passkey registration failed.")
pk_note (browser_failed name) =
    codes "Passkey registration was cancelled or failed"
    ++ (if truthy (text_or? name [])
        then codes " (" ++ text_or? name [] ++ codes ")."
        else codes ".")
