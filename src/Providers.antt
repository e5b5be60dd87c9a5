-- ===== src/Providers.antt =====
-- The page of the notification providers, providers.js: the fields of a kind of provider, and what a
-- form sends as its configuration.
pub mod RoundTrip
pub mod Page
mod PageTests
mod Tests
use cal_stack.Base.{
  Bool, true, false, ◌&&◌, not, Option, none, some, List, [], ◌∷◌, ◌++◌, if◌then◌else◌, map, find,
  Text, codes, text_eq, text_or?, truthy, text_or_null,
}

pub data Kind : Type 0 where
  postmark smtp twilio webpush : Kind

pub record FieldSpec : Type 0 where
  pub key : Text
  pub label : Text
  pub input_type : Text
  pub placeholder : Option Text
  pub optional : Bool

abbrev pub required : Text → Text → Text → FieldSpec
required key label input_type = record {
  key = key;
  label = label;
  input_type = input_type;
  placeholder = none;
  optional = false;
}

-- `FIELD_SPECS`
abbrev pub field_specs : Kind → List FieldSpec
field_specs postmark =
    required (codes "from") (codes "From address") (codes "email")
    ∷ required (codes "token") (codes "Server token") (codes "text")
    ∷ (record {
      key = codes "message_stream";
      label = codes "Message stream";
      input_type = codes "text";
      placeholder = some (codes "outbound");
      optional = true;
    })
    ∷ []
field_specs smtp =
    required (codes "server") (codes "Host:port") (codes "text")
    ∷ required (codes "from") (codes "From address") (codes "email")
    ∷ required (codes "token") (codes "Password (optional)") (codes "password")
    ∷ []
field_specs twilio =
    required (codes "account_sid") (codes "Account SID") (codes "text")
    ∷ required (codes "auth_token") (codes "Auth token") (codes "password")
    ∷ required (codes "from") (codes "From phone number") (codes "text")
    ∷ []
field_specs webpush =
    (record {
      key = codes "subject";
      label = codes "Contact address (mailto:)";
      input_type = codes "text";
      placeholder = some (codes "mailto:admin@example.com");
      optional = false;
    })
    ∷ []

-- A configuration: its keys and values.
abbrev pub Config : Type 0
Config = List (Text × Text)

unfoldable pub get : Text → Config → Option Text
unfolding text_eq
get k [] = none
get k ((j, v) ∷ config) = if text_eq j k then some v else get k config

-- A key that is there keeps its place.
unfoldable pub put : Text → Text → Config → Config
unfolding text_eq
put k v [] = (k, v) ∷ []
put k v ((j, w) ∷ config) = if text_eq j k then (k, v) ∷ config else (j, w) ∷ put k v config

-- An input: its spec and its value.
abbrev pub Field : Type 0
Field = FieldSpec × Text

-- `values ? (values[f.key] || '') : ''`
abbrev pub initial_value : Option Config → Text → Text
initial_value none key = []
initial_value (some config) key = text_or? (get key config) []

-- `buildFields`; the fields keep any text.
unfoldable pub build_fields : Kind → Option Config → List Field
unfolding get
build_fields kind values = map (λ f. (f, initial_value values f.key)) (field_specs kind)

abbrev pub is_left_out : Field → Bool
is_left_out (f, v) = f.optional && not (truthy v)

unfoldable pub read_from : List Field → Config → Config
unfolding put
read_from [] config = config
read_from (f ∷ fields) config =
    read_from fields (if is_left_out f then config else put f.0.key f.1 config)

-- `readFields`, over the fields of the kind.
unfoldable pub read_fields : List Field → Config
unfolding read_from
read_fields fields = read_from fields []

abbrev pub is_postmark : Kind → Bool
is_postmark postmark = true
is_postmark _ = false

-- The configuration that both submit handlers send.
unfoldable pub sent_config : Kind → List Field → Config
unfolding read_fields put
sent_config kind fields =
    if is_postmark kind
    then put (codes "server") (codes "postmark") (read_fields fields)
    else read_fields fields
