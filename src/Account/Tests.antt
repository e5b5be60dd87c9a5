-- ===== src/Account/Tests.antt =====
-- Tests of the account dialog.
use cal_stack.Base.{◌≡◌, refl, true, false, none, some, [], codes, text_eq}
use cal_stack.Base64url.{url_base64_to_uint8_array, from_url, replace_char, to_bytes}
use cal_stack.Account.{
  password_message, change_password, save_password, Prefs, prefs_of, prefs_saved, handle_prefs,
  push_message, subscribe, enable_push,
}

short :
    save_password (record { current = []; next = codes "1234567"; confirm = codes "1234567" })
    ≡ password_message (codes "New password must be at least 8 characters.")
unfolding save_password
short = refl

changed :
    save_password
      (record { current = codes "a"; next = codes "12345678"; confirm = codes "12345678" })
    ≡ change_password (codes "a") (codes "12345678")
unfolding save_password text_eq
changed = refl

defaults : prefs_of none (some false) none ≡ record { email = true; sms = false; push = true }
unfolding prefs_of
defaults = refl

abbrev all_on : Prefs
all_on = record { email = true; sms = true; push = true }

abbrev all_off : Prefs
all_off = record { email = false; sms = false; push = false }

-- A checkbox that changes before the answer is kept as if it had been sent.
unsent_kept :
    (handle_prefs prefs_saved (record { prefs = all_on; boxes = all_off; message = [] })).0.prefs
    ≡ all_off
unfolding handle_prefs
unsent_kept = refl

no_worker :
    enable_push some [] (record {
      worker_supported = false;
      push_supported = true;
      registered = none;
      public_key = [];
    })
    ≡ push_message (codes "This browser does not support push notifications.")
unfolding enable_push
no_worker = refl

subscribed :
    enable_push some [] (record {
      worker_supported = true;
      push_supported = true;
      registered = none;
      public_key = codes "AB-_";
    })
    ≡ subscribe (codes "AB+/")
unfolding enable_push url_base64_to_uint8_array from_url replace_char to_bytes
subscribed = refl
