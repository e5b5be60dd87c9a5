-- ===== src/Credentials.antt =====
-- The credentials page, credentials.js: the tables, the form of a token, and the revocation of a
-- credential; the children are two-factor authentication and passkeys. `new Date(s).toISOString()` is
-- a parameter, and what `esc` escapes is shown as it is.
pub mod Totp
pub mod Passkeys
mod Tests
use cal_stack.Base.{
  ℕ, Bool, true, false, not, Option, none, some, List, [], ◌∷◌, ◌++◌, ◌==◌, if◌then◌else◌, map,
  take, is_empty, or_else, Text, codes, text_eq, text_or?, truthy, ◌>>=◌,
}
use cal_stack.Base64url.{b64u_to_buf, buf_to_b64u}

-- `.replace('T', ' ')`
unfoldable pub blank_t : Text → Text
blank_t [] = []
blank_t (c ∷ s) = let rest = blank_t s in if c == b'T' then b' ' ∷ s else c ∷ rest

-- `fmtDate`
unfoldable pub fmt_date : Option Text → Text
unfolding blank_t
fmt_date none = codes "—"
fmt_date (some s) = if truthy s then take 16 (blank_t s) else codes "—"

pub data CredentialKind : Type 0 where
  token app_password passkey : CredentialKind

-- The `data-kind` of a button.
abbrev pub kind_name : CredentialKind → Text
kind_name token = codes "token"
kind_name app_password = codes "app-password"
kind_name passkey = codes "passkey"

pub record Token : Type 0 where
  pub id : Text
  pub name : Text
  pub scopes : Option (List Text)
  pub created_at : Option Text
  pub expires_at : Option Text

-- An app password or a passkey.
pub record Credential : Type 0 where
  pub id : Text
  pub name : Option Text
  pub created_at : Option Text
  pub last_used_at : Option Text
  pub expires_at : Option Text

-- A row: its cells, and the kind and the id of its button.
pub record TableRow : Type 0 where
  pub cells : List Text
  pub kind : CredentialKind
  pub id : Text

-- A table: its rows, or the line that says that there are none.
pub data Table : Type 0 where
  no_rows : Text → Table
  rows : List TableRow → Table

abbrev table_of : Text → List TableRow → Table
table_of nothing [] = no_rows nothing
table_of nothing (r ∷ rs) = rows (r ∷ rs)

-- `join(', ')`
unfoldable pub join_scopes : List Text → Text
join_scopes [] = []
join_scopes (s ∷ []) = s
join_scopes (s ∷ t ∷ ss) = s ++ codes ", " ++ join_scopes (t ∷ ss)

abbrev scopes_text : Option (List Text) → Text
scopes_text none = codes "full"
scopes_text (some []) = codes "full"
scopes_text (some (s ∷ ss)) = join_scopes (s ∷ ss)

-- `renderTokens`
unfoldable pub render_tokens : List Token → Table
unfolding fmt_date join_scopes
render_tokens list = table_of (codes "No tokens.") (
    map
      (λ (t : Token). record {
        cells = t.name ∷ scopes_text t.scopes ∷ fmt_date t.created_at ∷ fmt_date t.expires_at ∷ [];
        kind = token;
        id = t.id;
      })
      list)

-- `renderPasswords`
unfoldable pub render_passwords : List Credential → Table
unfolding fmt_date
render_passwords list = table_of (codes "No app passwords.") (
    map
      (λ (p : Credential). record {
        cells =
            text_or? p.name []
            ∷ fmt_date p.created_at
            ∷ fmt_date p.last_used_at
            ∷ fmt_date p.expires_at
            ∷ [];
        kind = app_password;
        id = p.id;
      })
      list)

-- `renderPasskeys`
unfoldable pub render_passkeys : List Credential → Table
unfolding fmt_date
render_passkeys list = table_of (codes "No passkeys.") (
    map
      (λ (p : Credential). record {
        cells =
            text_or? p.name (codes "Passkey")
            ∷ fmt_date p.created_at
            ∷ fmt_date p.last_used_at
            ∷ [];
        kind = passkey;
        id = p.id;
      })
      list)

-- The address of the request that a click on a button sends once it is confirmed.
unfoldable pub revoke_url : CredentialKind → Text → Text
revoke_url passkey id = codes "/api/auth/webauthn/" ++ id
revoke_url k id = codes "/api/auth/" ++ kind_name k ++ codes "s/" ++ id

-- The form of a token, and the body of its request; none if the date is invalid, which throws.
pub record TokenForm : Type 0 where
  pub name : Text
  pub read_only : Bool
  pub expires : Text

pub record TokenBody : Type 0 where
  pub name : Text
  pub scopes : List Text
  pub expires_at : Option Text

abbrev token_with : TokenForm → Option Text → TokenBody
token_with f expires = record {
  name = f.name;
  scopes = if f.read_only then codes "read" ∷ [] else [];
  expires_at = expires;
}

unfoldable pub token_body : (Text → Option Text) → TokenForm → Option TokenBody
token_body to_iso f =
    if truthy f.expires
    then (to_iso (f.expires ++ codes "T23:59:59") >>= λ t. some (token_with f (some t)))
    else some (token_with f none)

-- The form after the token was made.
abbrev pub fresh_token_form : TokenForm
fresh_token_form = record { name = []; read_only = false; expires = [] }
