-- ===== src/Shell.antt =====
-- What every page uses: the request helpers of app.js and of api.js, the dialogs of dialogs.js, the
-- color mode of theme.js, and the notifications of sw.js.
pub mod Requests
mod Tests
use cal_stack.Base.{
  Bool, true, false, not, ◌&&◌, Option, none, some, List, [], ◌∷◌, ◌++◌, ◌==◌, ℕ, if◌then◌else◌,
  Text, codes, text_eq, text_or, text_or?, truthy,
}

-- The data of a request: none, a value that JavaScript takes for false, another value, both as JSON,
-- or the content of a file.
pub data Payload : Type 0 where
  no_data : Payload
  falsy : Text → Payload
  value : Text → Payload
  blob : Text → Payload

-- The options of `$.ajax`, and whether the button that has the focus is disabled meanwhile.
pub record Ajax : Type 0 where
  pub method : Text
  pub url : Text
  pub body : Option Text
  pub content_type : Text
  pub process_data : Bool
  pub headers : List (Text × Text)
  pub button_disabled : Bool

abbrev pub is_get : Text → Bool
is_get method = text_eq method (codes "GET")

-- `X-CSRF-Token`, which a `GET` does not need.
abbrev pub csrf_headers : Text → Text → List (Text × Text)
csrf_headers method csrf = if is_get method then [] else (codes "X-CSRF-Token", csrf) ∷ []

abbrev pub is_blob : Payload → Bool
is_blob (blob s) = true
is_blob _ = false

abbrev pub body_of : Payload → Option Text
body_of no_data = none
body_of (falsy json) = some json
body_of (value json) = some json
body_of (blob s) = some s

-- `api` of app.js; the keys of the further headers are others.
unfoldable pub app_api : Text → Text → Text → Payload → List (Text × Text) → Ajax
unfolding text_eq
app_api csrf method url payload extra = record {
  method = method;
  url = url;
  body = body_of payload;
  content_type = if is_blob payload then codes "text/calendar" else codes "application/json";
  process_data = not (is_blob payload);
  headers = csrf_headers method csrf ++ extra;
  button_disabled = not (is_get method);
}

-- `data ? JSON.stringify(data) : null`; a file is an object without fields of its own.
abbrev pub truthy_body : Payload → Option Text
truthy_body no_data = none
truthy_body (falsy json) = none
truthy_body (value json) = some json
truthy_body (blob s) = some (codes "{}")

-- `api` of api.js.
unfoldable pub page_api : Option Text → Text → Text → Payload → Ajax
unfolding text_eq
page_api csrf method url payload = record {
  method = method;
  url = url;
  body = truthy_body payload;
  content_type = codes "application/json";
  process_data = true;
  headers = csrf_headers method (text_or? csrf []);
  button_disabled = not (is_get method);
}

-- What follows a failed request.
pub data Failure : Type 0 where
  to_login : Failure
  error_dialog : Text → Failure
  quiet : Failure

unfoldable pub request_failed : Bool → ℕ → Option Text → Failure
request_failed silent status error =
    if status == 401
    then to_login
    else if silent
    then quiet
    else error_dialog (text_or? error (codes "Request failed"))

-- `errorDialog`
unfoldable pub error_title : Text → Text
error_title message = text_or message (codes "Something went wrong")

-- What SweetAlert answers: whether the user confirmed, and the text of the field.
pub record DialogResult : Type 0 where
  pub confirmed : Bool
  pub text : Option Text

-- `confirmDialog`: whether it resolves.
unfoldable pub confirm_dialog : DialogResult → Option Bool
confirm_dialog r = if r.confirmed then some true else none

-- `promptDialog`
unfoldable pub prompt_dialog : DialogResult → Option Text
prompt_dialog r = if r.confirmed then some (text_or? r.text []) else none

-- `data-bs-theme` and what is stored; the storage may refuse.
pub record Theme : Type 0 where
  pub mode : Text
  pub stored : Option Text

abbrev pub is_mode : Text → Bool
is_mode s = if text_eq s (codes "dark") then true else text_eq s (codes "light")

abbrev pub system_mode : Bool → Text
system_mode prefers_dark = if prefers_dark then codes "dark" else codes "light"

-- The mode of a page that is opened.
unfoldable pub open_theme : Bool → Bool → Option Text → Theme
unfolding text_eq
open_theme readable prefers_dark none = record { mode = system_mode prefers_dark; stored = none }
open_theme readable prefers_dark (some s) = record {
  mode = if readable && is_mode s then s else system_mode prefers_dark;
  stored = some s;
}

abbrev pub next_mode : Text → Text
next_mode mode = if text_eq mode (codes "dark") then codes "light" else codes "dark"

-- A click on `#theme-toggle`.
unfoldable pub toggle_theme : Bool → Theme → Theme
unfolding text_eq
toggle_theme writable t = record {
  mode = next_mode t.mode;
  stored = if writable then some (next_mode t.mode) else t.stored;
}

-- The data of a push, if it is JSON.
pub record Push : Type 0 where
  pub title : Option Text
  pub body : Option Text
  pub url : Option Text

pub record Notification : Type 0 where
  pub title : Text
  pub body : Text
  pub url : Text

-- The handler of `push`.
unfoldable pub show_push : Option Push → Notification
show_push none = record { title = codes "Daymark"; body = []; url = codes "/" }
show_push (some p) = record {
  title = text_or? p.title (codes "Daymark");
  body = text_or? p.body [];
  url = text_or? p.url (codes "/");
}

-- The address that a click on it opens.
unfoldable pub open_push : Notification → Text
open_push n = text_or n.url (codes "/")
