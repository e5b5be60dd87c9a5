-- ===== src/Providers/Page.antt =====
-- The table of providers.js, the dialog that changes a provider, and the one that sends a test.
use cal_stack.Base.{
  Bool, true, false, Option, none, some, List, [], ◌∷◌, ◌++◌, if◌then◌else◌, Text, codes, text_or?,
  text_or_null, or_else,
}
use cal_stack.Providers.{
  Kind, postmark, smtp, twilio, webpush, Config, Field, build_fields, sent_config,
}

pub record Provider : Type 0 where
  pub id : Text
  pub kind : Kind
  pub name : Text
  pub enabled : Bool
  pub config : Config

abbrev pub kind_text : Kind → Text
kind_text postmark = codes "postmark"
kind_text smtp = codes "smtp"
kind_text twilio = codes "twilio"
kind_text webpush = codes "webpush"

-- The cells of a row of `renderProviders`.
unfoldable pub provider_cells : Provider → List Text
provider_cells p = kind_text p.kind ∷ p.name ∷ (if p.enabled then codes "Yes" else codes "No") ∷ []

-- The dialog that changes a provider; `editKind` is none before the first one was opened.
pub record EditDialog : Type 0 where
  pub kind : Kind
  pub id : Text
  pub name : Text
  pub enabled : Bool
  pub fields : List Field

-- `openEdit`, once the provider was loaded.
unfoldable pub open_edit : Provider → EditDialog
open_edit p = record {
  kind = p.kind;
  id = p.id;
  name = p.name;
  enabled = p.enabled;
  fields = build_fields p.kind (some p.config);
}

-- The body of `#provider-edit-form` and its address.
pub record ProviderPatch : Type 0 where
  pub url : Text
  pub name : Text
  pub enabled : Bool
  pub config : Config

abbrev pub provider_url : Text → Text
provider_url id = codes "/api/notification-providers/" ++ id

unfoldable pub submit_edit : EditDialog → ProviderPatch
submit_edit d = record {
  url = provider_url d.id;
  name = d.name;
  enabled = d.enabled;
  config = sent_config d.kind d.fields;
}

-- The form of a new provider, after `reset` and `renderFields`.
pub record NewProvider : Type 0 where
  pub kind : Kind
  pub name : Text
  pub fields : List Field

abbrev pub fresh_provider : NewProvider
fresh_provider = record { kind = postmark; name = []; fields = build_fields postmark none }

unfoldable pub choose_kind : Kind → NewProvider → NewProvider
choose_kind kind f = record f { kind = kind; fields = build_fields kind none }

-- `TEST_TO_PLACEHOLDER` and `TEST_IS_SMS`; there are none for web push.
abbrev pub test_placeholder : Kind → Text
test_placeholder postmark = codes "you@example.com"
test_placeholder smtp = codes "you@example.com"
test_placeholder twilio = codes "+15551234567"
test_placeholder webpush = []

abbrev pub test_is_sms : Kind → Option Bool
test_is_sms postmark = some false
test_is_sms smtp = some false
test_is_sms twilio = some true
test_is_sms webpush = none

-- The dialog that sends a test; the result is none before one was sent.
pub record TestDialog : Type 0 where
  pub id : Text
  pub label : Text
  pub placeholder : Text
  pub to : Text
  pub subject : Text
  pub body : Text
  pub subject_hidden : Bool
  pub failed : Bool
  pub result : Text

-- `openTest`, after the dialog was shown or not: the color of the last result stays, and `prop` sets
-- nothing for a missing value.
unfoldable pub open_test : Provider → Bool → Bool → TestDialog
open_test p failed was_hidden = record {
  id = p.id;
  label = kind_text p.kind ++ codes " · " ++ p.name;
  placeholder = test_placeholder p.kind;
  to = [];
  subject = [];
  body = [];
  subject_hidden = or_else (test_is_sms p.kind) was_hidden;
  failed = failed;
  result = [];
}

-- The body of a test and its address.
pub record TestBody : Type 0 where
  pub url : Text
  pub to : Text
  pub subject : Option Text
  pub body : Option Text

unfoldable pub submit_test : TestDialog → TestDialog × TestBody
submit_test d = (
  record d { result = codes "Sending…" },
  record {
    url = provider_url d.id ++ codes "/test";
    to = d.to;
    subject = text_or_null d.subject;
    body = text_or_null d.body;
  },
)

-- The answer: sent, refused with an error of the provider, or a failed request.
pub data TestAnswer : Type 0 where
  test_sent : TestAnswer
  test_refused : Option Text → TestAnswer
  test_failed : TestAnswer

unfoldable pub test_answered : TestAnswer → TestDialog → TestDialog
test_answered test_sent d = record d { failed = false; result = codes "Sent." }
test_answered (test_refused error) d = record d {
  failed = true;
  result = codes "Send failed: " ++ text_or? error (codes "unknown error");
}
test_answered test_failed d = record d { failed = true; result = codes "Send failed." }
