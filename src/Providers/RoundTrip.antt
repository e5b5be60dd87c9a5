-- ===== src/Providers/RoundTrip.antt =====
-- Editing a provider in providers.js: what the form sends of a configuration that it showed.
use cal_stack.Base.{
  ◌≡◌, refl, true, Bool-cases, inl, inr, Option, none, some, [], ◌∷◌, All, All-at, In, Text, codes,
  text_or?, truthy, truthy?,
}
use cal_stack.Providers.{
  Kind, postmark, smtp, twilio, webpush, FieldSpec, field_specs, Config, get, build_fields, put,
  read_fields, sent_config,
}

text_or?-truthy : (o : Option Text) → truthy? o ≡ true → some (text_or? o []) ≡ o
text_or?-truthy none h = absurd (cc h)
text_or?-truthy (some []) h = absurd (cc h)
text_or?-truthy (some (c ∷ s)) h = refl

truthy-text_or? : (o : Option Text) → truthy? o ≡ truthy (text_or? o [])
truthy-text_or? none = refl
truthy-text_or? (some []) = refl
truthy-text_or? (some (c ∷ s)) = refl

module _ (config : Config) where
  -- The form sends the value of a field that is not empty.
  abbrev Kept : Kind → FieldSpec → Type 0
  Kept kind f =
      truthy? (get f.key config) ≡ true
      → get f.key (sent_config kind (build_fields kind (some config))) ≡ get f.key config

  kept : (kind : Kind) → All (Kept kind) (field_specs kind)
  unfolding sent_config build_fields get put read_fields
  kept smtp = (text_or?-truthy _, (text_or?-truthy _, (text_or?-truthy _, tt)))
  kept twilio = (text_or?-truthy _, (text_or?-truthy _, (text_or?-truthy _, tt)))
  kept webpush = (text_or?-truthy _, tt)
  kept postmark = elim (Bool-cases (truthy (text_or? (get (codes "message_stream") config) []))) [
    | inl e ↦ rw e (text_or?-truthy _, (text_or?-truthy _, (text_or?-truthy _, tt)))
    | inr e ↦ rw e (
      text_or?-truthy _,
      (
        text_or?-truthy _,
        (λ h. absurd (cc (h, truthy-text_or? (get (codes "message_stream") config), e)), tt),
      ),
    )
  ]

-- Submitting the editor right after it was opened for a provider keeps every field that has a value:
-- the configuration that is sent has the value of the stored one.
pub sent_config-build_fields :
    (kind : Kind) (config : Config) (f : FieldSpec)
    → In f (field_specs kind)
    → truthy? (get f.key config) ≡ true
    → get f.key (sent_config kind (build_fields kind (some config))) ≡ get f.key config
sent_config-build_fields kind config f i =
    All-at (Kept config kind) f (field_specs kind) (kept config kind) i
