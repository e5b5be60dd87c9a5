-- ===== src/Providers/PageTests.antt =====
-- Tests of the dialogs of the providers.
use cal_stack.Base.{◌≡◌, refl, true, false, none, [], ◌∷◌, codes, text_eq}
use cal_stack.Providers.{twilio, smtp, sent_config, read_fields, read_from, put, get, build_fields}
use cal_stack.Providers.Page.{
  Provider, provider_cells, open_edit, submit_edit, choose_kind, fresh_provider, open_test,
  submit_test, test_refused, test_answered,
}

abbrev texts : Provider
texts = record {
  id = codes "n1";
  kind = twilio;
  name = codes "Texts";
  enabled = true;
  config =
      (codes "account_sid", codes "s")
      ∷ (codes "auth_token", codes "t")
      ∷ (codes "from", codes "+1")
      ∷ [];
}

shown : provider_cells texts ≡ codes "twilio" ∷ codes "Texts" ∷ codes "Yes" ∷ []
unfolding provider_cells
shown = refl

unchanged : submit_edit (open_edit texts) ≡ record {
  url = codes "/api/notification-providers/n1";
  name = codes "Texts";
  enabled = true;
  config = texts.config;
}
unfolding submit_edit open_edit sent_config read_fields read_from put get build_fields text_eq
unchanged = refl

chosen : (choose_kind smtp fresh_provider).fields ≡ build_fields smtp none
unfolding choose_kind
chosen = refl

tested : (submit_test (open_test texts false false)).1 ≡ record {
  url = codes "/api/notification-providers/n1/test";
  to = [];
  subject = none;
  body = none;
}
unfolding submit_test open_test
tested = refl

refused :
    (test_answered (test_refused none) (open_test texts false false)).result
    ≡ codes "Send failed: unknown error"
unfolding test_answered open_test
refused = refl
