-- ===== src/Calendars/ListTests.antt =====
-- Tests of the import of a file and of the lists.
use cal_stack.Base.{
  ◌≡◌, refl, true, false, Option, none, some, List, [], ◌∷◌, In, inl, inr, codes, text_eq,
  starts_with, trim,
}
use cal_stack.Calendars.{Subscription, sub_to_cal}
use cal_stack.Calendars.Form.{CalRow}
use cal_stack.Calendars.Import.{
  lines_of, starts_folded, calendar_name, strip_ics, suggested_name, post_calendar, import_file,
  load_calendars, delete_calendar, submit_asks, submit_asks-delete_calendar,
}
use cal_stack.Calendars.Listing.{
  ListedCal, cal_item, render_cal_list, show_conn_info, cal_url, render_subscriptions, sub_item,
  add_subscription, fmt_search_when, render_search_results, search_url,
}
use cal_stack.Categories.{cal_color_hex, hex_of}
use cal_stack.Sharing.{cap_text}

named_in_file :
    suggested_name
      (codes " ")
      (codes "x.ics")
      (codes "BEGIN:VCALENDAR\r\nx-wr-calname: Team \r\nEND")
    ≡ codes "Team"
unfolding suggested_name calendar_name strip_ics trim lines_of starts_folded starts_with
named_in_file = refl

named_by_file : suggested_name [] (codes "team.ICS") (codes "BEGIN:VCALENDAR") ≡ codes "team"
unfolding suggested_name calendar_name strip_ics trim lines_of starts_folded starts_with
named_by_file = refl

failed_import :
    submit_asks none true (some (codes "c1")) false
    ≡ post_calendar
      ∷ load_calendars
      ∷ import_file (codes "c1")
      ∷ delete_calendar (codes "c1")
      ∷ load_calendars
      ∷ []
unfolding submit_asks
failed_import = refl

abbrev new_calendar : Option CalRow
new_calendar = none

submit_asks-delete_calendar_example :
    (new_calendar ≡ none)
    × (some (codes "c1") ≡ some (codes "c1"))
    × (true ≡ true)
    × (false ≡ false)
    × In (import_file (codes "c1")) (submit_asks none true (some (codes "c1")) false)
unfolding submit_asks
submit_asks-delete_calendar_example =
    submit_asks-delete_calendar new_calendar true (some (codes "c1")) false (codes "c1")
      (inr (inr (inr (inl refl))))

abbrev team : ListedCal
team = record {
  id = codes "c1";
  slug = codes "team";
  name = codes "Team";
  color = some (codes "pink");
  read_only = false;
  my_capability = some (codes "read_write");
}

listed :
    render_cal_list (team ∷ [])
    ≡ record {
      id = codes "c1";
      dot = some (codes "#d6336c");
      label = codes "Team (read / write)";
      can_edit = true;
      can_delete = false;
    }
      ∷ []
unfolding render_cal_list cal_item cal_color_hex hex_of cap_text text_eq
listed = refl

connected :
    (show_conn_info (codes "http://h") (codes "ann") none (team ∷ []) (record {
      server = [];
      username = [];
      caldav_root = [];
      caldav_known = [];
      carddav = [];
      carddav_known = [];
      one_shown = true;
      list_shown = false;
      one = none;
      urls = [];
    })).urls
    ≡ (codes "http://h/calendars/ann/team/", codes "Team") ∷ []
unfolding show_conn_info cal_url
connected = refl

abbrev subscriptions : List Subscription
subscriptions =
    record { id = codes "1"; calendar_name = codes "Old"; live = false }
    ∷ record { id = codes "2"; calendar_name = codes "New"; live = true }
    ∷ []

live_only :
    (render_subscriptions subscriptions).0
    ≡ sub_to_cal (record { id = codes "2"; calendar_name = codes "New"; live = true }) ∷ []
unfolding render_subscriptions sub_item
live_only = refl

no_token : add_subscription (codes "  ") ≡ none
unfolding add_subscription trim
no_token = refl

hits :
    render_search_results
      (λ s. s)
      (λ s. s)
      (record { summary = none; starts_at = none; start_date = some (codes "2026-03-08") } ∷ [])
    ≡ codes "(untitled) — 2026-03-08T00:00:00" ∷ []
unfolding render_search_results fmt_search_when
hits = refl

asked : search_url (λ s. s) (codes " lunch ") ≡ some (codes "/api/search?q=lunch")
unfolding search_url trim
asked = refl
