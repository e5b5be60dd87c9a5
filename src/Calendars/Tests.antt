-- ===== src/Calendars/Tests.antt =====
-- Runs of the page, and the theorems about it at a concrete list of calendars.
use cal_stack.Base.{
  ◌≡◌, refl, true, false, none, some, [], ◌∷◌, Text, codes, text_eq, trim, truthy, is_empty,
}
use cal_stack.Calendars.{
  Cal, App, calendar, tasks, all_calendars, hidden_for, url_of, select_calendar, calendars_loaded,
  wanted, show_tab,
}
use cal_stack.Calendars.Slug.{slug_of, is_words}
use cal_stack.Calendars.Form.{
  CalRow, CalForm, open_calendar_modal, components_of, changed, created, submit_calendar,
}
use cal_stack.Calendars.Submit.{submit_calendar-created, submit_calendar-open_calendar_modal}
use cal_stack.Calendars.Agree.{Agrees, select_calendar-Agrees}
use cal_stack.Calendars.Page.{selected, clicked, loaded, deleted, run, run-Agrees, run-deleted}

abbrev home : Cal
home = record {
  id = codes "c1";
  name = codes "Home";
  subscription_id = none;
  read_only = false;
  unified = false;
}

-- The page as it is sent: nothing is selected, and the address names nothing.
abbrev fresh : App
fresh = record {
  current = none;
  calendars = [];
  tab = calendar;
  bar_hidden = true;
  hidden = hidden_for none false;
  share_hidden = false;
  calendar_hidden = true;
  url = url_of none calendar;
  loads = [];
  activated = false;
  chosen = false;
  want_calendar = none;
  want_tab = none;
  user_is_admin = false;
}

fresh-Agrees : Agrees fresh
fresh-Agrees = record {
  bar = refl;
  view = refl;
  buttons = refl;
  shown = λ h. absurd (cc h);
  address = refl;
}

-- The tab of the tasks is left when the aggregate of all calendars is selected.
left : (run (loaded (home ∷ []) ∷ clicked tasks ∷ selected all_calendars ∷ []) fresh).tab ≡ calendar
unfolding run select_calendar calendars_loaded wanted show_tab
left = refl

run-Agrees_example :
    Agrees (run (loaded (home ∷ []) ∷ clicked tasks ∷ selected all_calendars ∷ []) fresh)
run-Agrees_example =
    run-Agrees (loaded (home ∷ []) ∷ clicked tasks ∷ selected all_calendars ∷ []) fresh
      (refl, (refl, (refl, tt))) fresh-Agrees

abbrev at_home : App
at_home = select_calendar home (record fresh { chosen = true })

selected_home : at_home.current ≡ some home
unfolding select_calendar
selected_home = refl

already : at_home.chosen ≡ true
unfolding select_calendar
already = refl

run-deleted_example :
    ((run (deleted home ∷ loaded [] ∷ []) at_home).current ≡ none)
    × ((run (deleted home ∷ loaded [] ∷ []) at_home).bar_hidden ≡ false)
    × ((run (deleted home ∷ loaded [] ∷ []) at_home).url.calendar ≡ some home.id)
run-deleted_example =
    run-deleted home [] at_home (select_calendar-Agrees home (record fresh { chosen = true }))
      already selected_home refl

abbrev same : Text → Text
same s = s

slug_of_name : slug_of same (codes " my work -- 2026!") ≡ codes "my-work-2026"
unfolding slug_of
slug_of_name = refl

abbrev new_form : CalForm
new_form = record {
  name = codes "my work";
  source = [];
  vevent = true;
  vtodo = false;
  vjournal = false;
}

made :
    submit_calendar same none new_form
    ≡ created (codes "my-work") (codes "my work") (codes "VEVENT" ∷ []) none
unfolding submit_calendar slug_of trim
made = refl

submit_calendar-created_example :
    (truthy (codes "my work") ≡ true)
    × (is_words true (codes "my-work") ≡ true)
    × (is_empty (codes "VEVENT" ∷ []) ≡ false)
submit_calendar-created_example =
    submit_calendar-created same none new_form (codes "my-work") (codes "my work")
      (codes "VEVENT" ∷ []) none made

abbrev work : CalRow
work = record {
  id = codes "c2";
  name = codes "Work";
  source_url = none;
  components = codes "VTODO" ∷ codes "VEVENT" ∷ [];
}

trimmed : trim (codes "Work") ≡ codes "Work"
unfolding trim
trimmed = refl

empty_trimmed : trim [] ≡ []
unfolding trim
empty_trimmed = refl

some_kind : is_empty (components_of (open_calendar_modal (some work))) ≡ false
unfolding open_calendar_modal
some_kind = refl

submit_calendar-open_calendar_modal_example :
    submit_calendar same (some work) (open_calendar_modal (some work))
    ≡ changed (codes "/api/calendars/c2") (codes "Work") (codes "VEVENT" ∷ codes "VTODO" ∷ []) none
unfolding text_eq
submit_calendar-open_calendar_modal_example =
    submit_calendar-open_calendar_modal same work trimmed refl empty_trimmed some_kind
