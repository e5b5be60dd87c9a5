-- ===== src/Sharing/Tests.antt =====
-- Tests of the share dialog.
use cal_stack.Base.{
  ◌≡◌, refl, true, false, none, some, List, [], ◌∷◌, Text, codes, text_eq, trim, show_nat,
}
use cal_stack.Sharing.{
  AclEntry, Person, AclEvent, acl_loaded, typed, found, pick, add, cap_text, acl_row, result_lines,
  fresh_acl, handle_acl, run_acl, share_line, render_shares, share_url, export_link, choose_file,
  click_import, import_message,
}

abbrev owner : AclEntry
owner = record { user_id = codes "u1"; capability = some (codes "owner"); can_manage_acl = true }

abbrev ann : Person
ann = record {
  id = codes "u2";
  full_name = some (codes "Ann");
  email = some (codes "ann@example.com");
  directory = true;
}

abbrev contact : Person
contact = record { id = codes "c3"; full_name = none; email = none; directory = false }

owner_row : acl_row owner ≡ (codes "u1", codes "owner")
unfolding acl_row cap_text text_eq
owner_row = refl

ann_lines : result_lines ann ≡ (codes "Ann", codes "ann@example.com · directory")
unfolding result_lines
ann_lines = refl

abbrev clicks : List AclEvent
clicks =
    acl_loaded (owner ∷ [])
    ∷ typed (codes "an")
    ∷ found (contact ∷ ann ∷ [])
    ∷ pick 0
    ∷ add (some (codes "read_only"))
    ∷ typed (codes "u9")
    ∷ add (some (codes "read_only"))
    ∷ []

sent :
    (run_acl fresh_acl clicks).1
    ≡ none
      ∷ none
      ∷ none
      ∷ none
      ∷ some (
          owner
          ∷ record {
            user_id = codes "u2";
            capability = some (codes "read_only");
            can_manage_acl = false;
          }
          ∷ [])
      ∷ none
      ∷ none
      ∷ []
unfolding run_acl handle_acl trim
sent = refl

-- Users have ids that begin with "u".
abbrev IsUser : Text → Type 0
IsUser [] = ⊥
IsUser (c ∷ s) = c ≡ b'u'

link_line :
    render_shares
      (codes "w")
      (record { id = codes "s1"; allows_caldav = true; created_at = codes "today" } ∷ [])
    ≡ (codes "CalDAV link — created today", codes "/api/calendars/w/shares/s1") ∷ []
unfolding render_shares share_line
link_line = refl

link_address : share_url (codes "http://h") (codes "t") ≡ codes "http://h/share/t/calendar.ics"
unfolding share_url
link_address = refl

-- A subscription is exported from an address of no calendar, and an import into it is not refused.
subscription_export :
    export_link (some (record { id = codes "sub:1"; slug = none; read_only = none }))
    ≡ some (codes "/api/calendars/sub:1/export.ics", codes "undefined.ics")
unfolding export_link
subscription_export = refl

subscription_import :
    click_import (some (record { id = codes "sub:1"; slug = none; read_only = none })) ≡ choose_file
unfolding click_import
subscription_import = refl

import_text : import_message 12 0 1 ≡ codes "12 imported, 0 skipped, 1 rejected."
unfolding import_message show_nat
import_text = refl
