-- ===== src/Providers/Tests.antt =====
-- A run of the provider's editor, and the theorem about it at a concrete configuration.
use cal_stack.Base.{◌≡◌, refl, inl, some, [], ◌∷◌, codes, truthy?, true}
use cal_stack.Providers.{postmark, required, Config, get, build_fields, sent_config}
use cal_stack.Providers.RoundTrip.{sent_config-build_fields}

abbrev stored : Config
stored =
    (codes "from", codes "a@b.c") ∷ (codes "token", codes "t") ∷ (codes "server", codes "x") ∷ []

sent_again :
    sent_config postmark (build_fields postmark (some stored))
    ≡ (codes "from", codes "a@b.c")
      ∷ (codes "token", codes "t")
      ∷ (codes "server", codes "postmark")
      ∷ []
unfolding sent_config build_fields get
sent_again = refl

stored_from : get (codes "from") stored ≡ some (codes "a@b.c")
unfolding get
stored_from = refl

has_from : truthy? (get (codes "from") stored) ≡ true
has_from = rw stored_from refl

sent_config-build_fields_example :
    get (codes "from") (sent_config postmark (build_fields postmark (some stored)))
    ≡ get (codes "from") stored
sent_config-build_fields_example =
    sent_config-build_fields postmark stored
      (required (codes "from") (codes "From address") (codes "email")) (inl refl) has_from
