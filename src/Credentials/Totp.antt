-- ===== src/Credentials/Totp.antt =====
-- The panels of two-factor authentication in credentials.js: `loadTotp` and the buttons.
use cal_stack.Base.{
  Option, none, some, if◌then◌else◌, ◌≡◌, refl, ap, ◌∙◌, arith, Bool, true, false, not, ◌&&◌, some,
  List, [], ◌∷◌, ◌++◌, All, Text, if◌then◌else◌,
}

-- What the page shows of two-factor authentication. The status is none before it was loaded.
pub record TotpPage : Type 0 where
  pub enabled : Option Bool
  pub setup_button_hidden : Bool
  pub disable_button_hidden : Bool
  pub setup_shown : Bool
  pub recovery_shown : Bool
  pub secret : Text
  pub url : Text
  pub code : Text
  pub recovery_codes : List Text

abbrev pub fresh_totp : TotpPage
fresh_totp = record {
  enabled = none;
  setup_button_hidden = true;
  disable_button_hidden = true;
  setup_shown = false;
  recovery_shown = false;
  secret = [];
  url = [];
  code = [];
  recovery_codes = [];
}

-- The answers of the server: the status, a secret, the codes after the check, and what the user types.
pub data TotpEvent : Type 0 where
  status : Bool → TotpEvent
  set_up : Text → Text → TotpEvent
  verified : List Text → TotpEvent
  type_code : Text → TotpEvent

unfoldable pub handle_totp : TotpEvent → TotpPage → TotpPage
handle_totp (status on) p = record p {
  enabled = some on;
  setup_button_hidden = on;
  disable_button_hidden = not on;
  setup_shown = if on then p.setup_shown else false;
  recovery_shown = if on then p.recovery_shown else false;
}
handle_totp (set_up secret url) p = record p {
  secret = secret;
  url = url;
  code = [];
  recovery_shown = false;
  setup_shown = true;
}
handle_totp (verified recovery) p = record p {
  setup_shown = false;
  recovery_codes = recovery;
  recovery_shown = true;
}
handle_totp (type_code s) p = record p { code = s }

unfoldable pub run_totp : List TotpEvent → TotpPage → TotpPage
unfolding handle_totp
run_totp [] p = p
run_totp (e ∷ es) p = run_totp es (handle_totp e p)

-- One panel at most; and once the status is known, one of the two buttons.
abbrev pub IsConsistent : TotpPage → Type 0
IsConsistent p =
    ((p.setup_shown && p.recovery_shown) ≡ false)
    × ((b : Bool)
        → p.enabled ≡ some b
        → (p.setup_button_hidden ≡ b) × (p.disable_button_hidden ≡ not b))

handle_totp-IsConsistent :
    (e : TotpEvent) (p : TotpPage) → IsConsistent p → IsConsistent (handle_totp e p)
unfolding handle_totp
handle_totp-IsConsistent (status true) p h = (h.0, (λ b e. (cc (e), cc (e))))
handle_totp-IsConsistent (status false) p h = (refl, (λ b e. (cc (e), cc (e))))
handle_totp-IsConsistent (set_up secret url) p h = (refl, h.1)
handle_totp-IsConsistent (verified recovery) p h = (refl, h.1)
handle_totp-IsConsistent (type_code s) p h = h

run_totp-IsConsistent :
    (es : List TotpEvent) (p : TotpPage) → IsConsistent p → IsConsistent (run_totp es p)
unfolding run_totp
run_totp-IsConsistent [] p h = h
run_totp-IsConsistent (e ∷ es) p h =
    run_totp-IsConsistent es (handle_totp e p) (handle_totp-IsConsistent e p h)

-- What leaves the recovery codes alone: typing, and the news that the authentication is enabled.
abbrev pub KeepsCodes : TotpEvent → Type 0
KeepsCodes (status on) = on ≡ true
KeepsCodes (set_up secret url) = ⊥
KeepsCodes (verified recovery) = ⊥
KeepsCodes (type_code s) = Unit

kept_codes :
    (es : List TotpEvent) (p : TotpPage)
    → All KeepsCodes es
    → ((run_totp es p).recovery_shown ≡ p.recovery_shown)
      × ((run_totp es p).recovery_codes ≡ p.recovery_codes)
unfolding run_totp handle_totp
kept_codes [] p k = (refl, refl)
kept_codes (status true ∷ es) p k = kept_codes es (handle_totp (status true) p) k.1
kept_codes (status false ∷ es) p k = absurd (cc (k.0))
kept_codes (set_up secret url ∷ es) p k = elim k.0 [ ]
kept_codes (verified recovery ∷ es) p k = elim k.0 [ ]
kept_codes (type_code s ∷ es) p k = kept_codes es (handle_totp (type_code s) p) k.1

run_totp-append :
    (es later : List TotpEvent) (p : TotpPage)
    → run_totp (es ++ later) p ≡ run_totp later (run_totp es p)
unfolding run_totp
run_totp-append [] later p = refl
run_totp-append (e ∷ es) later p = run_totp-append es later (handle_totp e p)

-- Once a code was accepted its recovery codes are shown, and stay while the user types and the status
-- that is loaded is "enabled"; the panel of the set-up is not shown next to them. This holds whatever
-- the server answered before, in any order.
pub run_totp-verified :
    (before after : List TotpEvent) (recovery : List Text)
    → All KeepsCodes after
    → ((run_totp (before ++ (verified recovery ∷ after)) fresh_totp).recovery_shown ≡ true)
      × ((run_totp (before ++ (verified recovery ∷ after)) fresh_totp).recovery_codes ≡ recovery)
      × ((run_totp (before ++ (verified recovery ∷ after)) fresh_totp).setup_shown ≡ false)
unfolding handle_totp run_totp
run_totp-verified before after recovery k =
    let p = handle_totp (verified recovery) (run_totp before fresh_totp) in
    let whole = run_totp-append before (verified recovery ∷ after) fresh_totp in
    let (shown, codes) = kept_codes after p k in
    let start : IsConsistent fresh_totp = (refl, (λ b e. absurd (cc (e)))) in
    let one = run_totp-IsConsistent (before ++ (verified recovery ∷ after)) fresh_totp start in
    let visible = ap (λ (q : TotpPage). q.recovery_shown) whole ∙ shown in
    (
      visible,
      ap (λ (q : TotpPage). q.recovery_codes) whole ∙ codes,
      let both = one.0 in ground (arith, both, visible),
    )
