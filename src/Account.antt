-- ===== src/Account.antt =====
-- The account dialog of app.js: the password, the preferences of notifications, and web push. What
-- the browser and the server answer to the steps of web push are parameters.
mod Tests
use cal_stack.Base.{
  ℕ, Bool, true, false, not, ◌&&◌, Option, none, some, List, [], ◌∷◌, ◌++◌, ltb, if◌then◌else◌,
  length, Text, codes, text_eq, truthy,
}
use cal_stack.Base64url.{url_base64_to_uint8_array}

-- The fields of the password, and how a click on `#account-password-save` ends.
pub record PasswordForm : Type 0 where
  pub current : Text
  pub next : Text
  pub confirm : Text

pub data PasswordClick : Type 0 where
  password_message : Text → PasswordClick
  change_password : Text → Text → PasswordClick

unfoldable pub save_password : PasswordForm → PasswordClick
unfolding text_eq
save_password f =
    if ltb (length f.next) 8
    then password_message (codes "New password must be at least 8 characters.")
    else if not (text_eq f.next f.confirm)
    then password_message (codes "New password and confirmation do not match.")
    else change_password f.current f.next

-- `state.userPrefs`, and the checkboxes of the dialog.
pub record Prefs : Type 0 where
  pub email : Bool
  pub sms : Bool
  pub push : Bool

-- The preferences of the user that the page was opened with; a missing one is on.
unfoldable pub prefs_of : Option Bool → Option Bool → Option Bool → Prefs
prefs_of email sms push = record { email = is_on email; sms = is_on sms; push = is_on push }
  where
    is_on : Option Bool → Bool
    is_on none = true
    is_on (some b) = b

-- The preferences of the page and the checkboxes.
pub record PrefsPage : Type 0 where
  pub prefs : Prefs
  pub boxes : Prefs
  pub message : Text

pub data PrefsEvent : Type 0 where
  open_account : PrefsEvent
  check : Prefs → PrefsEvent
  save_prefs : PrefsEvent
  prefs_saved : PrefsEvent

-- The handlers, with the body of the request; the answer takes the checkboxes as they are by then.
unfoldable pub handle_prefs : PrefsEvent → PrefsPage → PrefsPage × Option Prefs
handle_prefs open_account p = (record p { boxes = p.prefs; message = [] }, none)
handle_prefs (check boxes) p = (record p { boxes = boxes }, none)
handle_prefs save_prefs p = (p, some p.boxes)
handle_prefs prefs_saved p = (record p { prefs = p.boxes; message = codes "Saved." }, none)

-- How a click on `#push-enable-btn` ends.
pub data PushClick : Type 0 where
  push_message : Text → PushClick
  subscribe : List ℕ → PushClick

-- What the steps answer: whether the browser can push, the registration of the worker or its error,
-- the key or the error of its request.
pub record PushSteps : Type 0 where
  pub worker_supported : Bool
  pub push_supported : Bool
  pub registered : Option Text
  pub public_key : Text

abbrev pub push_failed : Text → PushClick
push_failed why = push_message (codes "Could not enable push: " ++ why)

abbrev pub with_key : (Text → Option Text) → Text → Text → PushClick
with_key atob bad key =
    if truthy key
    then (elim (url_base64_to_uint8_array atob key) [
      | none ↦ push_failed bad
      | some bytes ↦ subscribe bytes
    ])
    else push_message
        (codes "No push provider configured yet (admins: add one on the Providers page).")

-- `registered` is the error of the registration, if it fails; `bad` is the message of `atob`.
unfoldable pub enable_push : (Text → Option Text) → Text → PushSteps → PushClick
enable_push atob bad s =
    if not (s.worker_supported && s.push_supported)
    then push_message (codes "This browser does not support push notifications.")
    else elim s.registered [
      | some error ↦ push_failed error
      | none ↦ with_key atob bad s.public_key
    ]
