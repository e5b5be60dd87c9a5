-- ===== src/Credentials/Tests.antt =====
-- Tests of the credentials page.
use cal_stack.Base.{◌≡◌, refl, true, false, none, some, List, [], ◌∷◌, ◌++◌, codes}
use cal_stack.Base64url.{
  replace_char, pad_loop, strip_padding, from_url, to_url, to_bytes, b64u_to_buf, buf_to_b64u,
}
use cal_stack.Credentials.{
  token, app_password, passkey, blank_t, fmt_date, Token, rows, no_rows, join_scopes, render_tokens,
  render_passwords, render_passkeys, revoke_url, token_body,
}
use cal_stack.Credentials.Passkeys.{
  decode_challenge, encode_attested, request_failed, browser_failed, pk_note,
}
use cal_stack.Credentials.Totp.{
  TotpEvent, status, set_up, verified, type_code, fresh_totp, handle_totp, run_totp,
  run_totp-verified,
}

abbrev key : Token
key = record {
  id = codes "t1";
  name = codes "Sync";
  scopes = some (codes "read" ∷ codes "write" ∷ []);
  created_at = some (codes "2026-03-01T09:30:00Z");
  expires_at = none;
}

tokens :
    render_tokens (key ∷ [])
    ≡ rows (
        record {
          cells = codes "Sync" ∷ codes "read, write" ∷ codes "2026-03-01 09:30" ∷ codes "—" ∷ [];
          kind = token;
          id = codes "t1";
        }
        ∷ [])
unfolding render_tokens fmt_date blank_t join_scopes
tokens = refl

no_passwords : render_passwords [] ≡ no_rows (codes "No app passwords.")
unfolding render_passwords
no_passwords = refl

nameless_passkey :
    render_passkeys (
      record {
        id = codes "p1";
        name = none;
        created_at = none;
        last_used_at = none;
        expires_at = none;
      }
      ∷ [])
    ≡ rows (
        record {
          cells = codes "Passkey" ∷ codes "—" ∷ codes "—" ∷ [];
          kind = passkey;
          id = codes "p1";
        }
        ∷ [])
unfolding render_passkeys fmt_date
nameless_passkey = refl

revoked : revoke_url app_password (codes "a1") ≡ codes "/api/auth/app-passwords/a1"
unfolding revoke_url
revoked = refl

removed : revoke_url passkey (codes "p1") ≡ codes "/api/auth/webauthn/p1"
unfolding revoke_url
removed = refl

limited :
    token_body some (record { name = codes "x"; read_only = true; expires = codes "2026-03-01" })
    ≡ some (record {
      name = codes "x";
      scopes = codes "read" ∷ [];
      expires_at = some (codes "2026-03-01T23:59:59");
    })
unfolding token_body
limited = refl

-- The status that follows the creation of a token closes the panel of a set-up that is not finished.
interrupted :
    (run_totp
      (status false ∷ set_up (codes "S") (codes "u") ∷ status false ∷ [])
      fresh_totp).setup_shown
    ≡ false
unfolding run_totp handle_totp
interrupted = refl

abbrev before : List TotpEvent
before = status false ∷ set_up (codes "S") (codes "u") ∷ type_code (codes "123456") ∷ []

abbrev after : List TotpEvent
after = status true ∷ type_code (codes "1") ∷ status true ∷ []

run_totp-verified_example :
    ((run_totp (before ++ (verified (codes "r1" ∷ []) ∷ after)) fresh_totp).recovery_shown ≡ true)
    × ((run_totp (before ++ (verified (codes "r1" ∷ []) ∷ after)) fresh_totp).recovery_codes
        ≡ codes "r1" ∷ [])
    × ((run_totp (before ++ (verified (codes "r1" ∷ []) ∷ after)) fresh_totp).setup_shown ≡ false)
run_totp-verified_example =
    run_totp-verified before after (codes "r1" ∷ []) (refl, (tt, (refl, tt)))

challenged :
    decode_challenge some
      (record { challenge = codes "AA-_"; user_id = codes "AB"; exclude = codes "-" ∷ [] })
    ≡ some
        (record { challenge = codes "AA+/"; user_id = codes "AB=="; exclude = codes "+===" ∷ [] })
unfolding decode_challenge b64u_to_buf pad_loop from_url replace_char to_bytes
challenged = refl

attested :
    encode_attested
      (λ s. s)
      (record {
        id = codes "c";
        raw_id = codes "+=";
        kind = codes "public-key";
        attestation_object = codes "a/b";
        client_data = [];
      })
    ≡ record {
      id = codes "c";
      raw_id = codes "-";
      kind = codes "public-key";
      attestation_object = codes "a_b";
      client_data = [];
    }
unfolding encode_attested buf_to_b64u to_url replace_char strip_padding
attested = refl

refused : pk_note (request_failed none) ≡ codes "Passkey registration failed."
unfolding pk_note
refused = refl

cancelled :
    pk_note (browser_failed (some (codes "NotAllowedError")))
    ≡ codes "Passkey registration was cancelled or failed (NotAllowedError)."
unfolding pk_note
cancelled = refl
