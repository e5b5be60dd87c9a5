-- ===== src/Shell/Tests.antt =====
-- Tests of the request helpers, the dialogs, the color mode and the notifications.
use cal_stack.Base.{◌≡◌, refl, true, false, none, some, [], ◌∷◌, codes, text_eq}
use cal_stack.Shell.{
  falsy, blob, app_api, page_api, to_login, quiet, request_failed, error_title, confirm_dialog,
  prompt_dialog, open_theme, toggle_theme, show_push, open_push,
}

file_sent : app_api (codes "t") (codes "POST") (codes "/i") (blob (codes "BEGIN")) [] ≡ record {
  method = codes "POST";
  url = codes "/i";
  body = some (codes "BEGIN");
  content_type = codes "text/calendar";
  process_data = false;
  headers = (codes "X-CSRF-Token", codes "t") ∷ [];
  button_disabled = true;
}
unfolding app_api text_eq
file_sent = refl

-- The helpers differ on a value that JavaScript takes for false.
falsy_sent : (app_api [] (codes "POST") (codes "/i") (falsy (codes "0")) []).body ≡ some (codes "0")
unfolding app_api
falsy_sent = refl

falsy_dropped : (page_api none (codes "POST") (codes "/i") (falsy (codes "0"))).body ≡ none
unfolding page_api
falsy_dropped = refl

signed_out : request_failed true 401 none ≡ to_login
unfolding request_failed
signed_out = refl

silent_failure : request_failed true 500 none ≡ quiet
unfolding request_failed
silent_failure = refl

nameless_error : error_title [] ≡ codes "Something went wrong"
unfolding error_title
nameless_error = refl

cancelled : confirm_dialog (record { confirmed = false; text = none }) ≡ none
unfolding confirm_dialog
cancelled = refl

answered : prompt_dialog (record { confirmed = true; text = some (codes "x") }) ≡ some (codes "x")
unfolding prompt_dialog
answered = refl

toggled :
    toggle_theme true (open_theme true true (some (codes "plaid")))
    ≡ record { mode = codes "light"; stored = some (codes "light") }
unfolding toggle_theme open_theme text_eq
toggled = refl

pushed : open_push (show_push none) ≡ codes "/"
unfolding open_push show_push
pushed = refl
