-- ===== src/Calendars/Page.antt =====
-- The page under the events that change the selection and the tab, as sequences of steps.
use cal_stack.Base.{
  ◌≡◌, refl, ap, ◌∙◌, Bool, true, false, ◌||◌, not, Bool-cases, inl, inr, Option-cases, Option,
  none, some, List, [], ◌∷◌, All, is_some, if◌then◌else◌, Text, truthy, truthy?, text_eq_sound,
  text_eq_refl,
}
use cal_stack.Calendars.{
  Cal, Tab, App, is_hidden, url_calendar, url_tab, show, update_tabs, update_calendar_visibility,
  select_calendar, select_first, wanted, show_wanted, calendars_loaded, calendar_deleted,
  is_subscription, unsubscribed,
}
use cal_stack.Calendars.Agree.{Agrees, show-Agrees, show_tab-Agrees, select_calendar-Agrees}

pub data Event : Type 0 where
  -- a click on a calendar, a subscription or "All Calendars"
  selected : Cal → Event
  -- a click on a tab
  clicked : Tab → Event
  -- answers of the server
  loaded : List Cal → Event
  unsubscribe : Text → Event
  deleted : Cal → Event

unfoldable pub handle : Event → App → App
handle (selected cal) s = select_calendar cal s
handle (clicked t) s = if s.bar_hidden || is_hidden s.hidden t then s else show t s
handle (loaded list) s = calendars_loaded list s
handle (unsubscribe id) s = unsubscribed id s
handle (deleted cal) s = calendar_deleted cal s

unfoldable pub run : List Event → App → App
unfolding handle
run [] s = s
run (e ∷ es) s = run es (handle e s)

-- The events that are considered: no calendar is deleted, and the id of a subscription is not empty.
abbrev pub keeps_calendars : Event → Bool
keeps_calendars (deleted cal) = false
keeps_calendars (unsubscribe id) = truthy id
keeps_calendars _ = true

clicked-Agrees : (t : Tab) (s : App) → Agrees s → Agrees (handle (clicked t) s)
unfolding handle
clicked-Agrees t s a = elim (Bool-cases (s.bar_hidden || is_hidden s.hidden t)) [
  | inl e ↦ rw e a
  | inr e ↦ rw e (show-Agrees t s a (visible s.bar_hidden (is_hidden s.hidden t) e))
]
  where
    visible : (p q : Bool) → (p || q) ≡ false → q ≡ false
    visible true q h = absurd (cc h)
    visible false q h = h

no_address :
    (o : Option Cal) (id : Text)
    → is_subscription o id ≡ true
    → truthy id ≡ true
    → url_calendar o ≡ none
no_address none id e t = refl
no_address (some cal) id e t = elim (Option-cases cal.subscription_id) [
  | inl n ↦ absurd (cc (rw n at e))
  | inr (i, q) ↦
      let same : i ≡ id = text_eq_sound i id (rw q at e) in
      let h : truthy i ≡ true = ap truthy same ∙ t in rw q (rw h refl)
]

unsubscribed-Agrees :
    (id : Text) (s : App) → truthy id ≡ true → Agrees s → Agrees (unsubscribed id s)
unfolding unsubscribed update_tabs update_calendar_visibility
unsubscribed-Agrees id s t a = elim (Bool-cases (is_subscription s.current id)) [
  | inl e ↦ rw e (record {
    bar = refl;
    view = refl;
    buttons = refl;
    shown = λ k. absurd (cc k);
    address =
        a.address
        ∙ ap (λ c. record { calendar = c; tab = url_tab s.tab }) (no_address s.current id e t);
  })
  | inr e ↦ rw e a
]

select_first-Agrees :
    (o : Option Cal) (list : List Cal) (s : App) → Agrees s → Agrees (select_first o list s)
select_first-Agrees (some cal) list s a = select_calendar-Agrees cal s
select_first-Agrees none [] s a = a
select_first-Agrees none (cal ∷ list) s a = select_calendar-Agrees cal s

show_wanted-Agrees : (o : Option Text) (s : App) → Agrees s → Agrees (show_wanted o s)
show_wanted-Agrees none s a = a
show_wanted-Agrees (some name) s a = elim (Bool-cases (truthy name)) [
  | inl e ↦ rw e (
      show_tab-Agrees name (record s { want_tab = none })
        (record {
          bar = a.bar;
          view = a.view;
          buttons = a.buttons;
          shown = a.shown;
          address = a.address;
        }))
  | inr e ↦ rw e a
]

calendars_loaded-Agrees : (list : List Cal) (s : App) → Agrees s → Agrees (calendars_loaded list s)
unfolding calendars_loaded update_calendar_visibility
calendars_loaded-Agrees list s a = elim (Bool-cases s.chosen) [
  | inl e ↦ rw e (record {
    bar = a.bar;
    view = refl;
    buttons = a.buttons;
    shown = a.shown;
    address = a.address;
  })
  | inr e ↦
      let first : App = select_first (wanted s.want_calendar list) list (record s {
        calendars = list;
        calendar_hidden = not (is_some s.current);
        chosen = true;
        want_calendar = none;
      }) in
      rw e (
        show_wanted-Agrees first.want_tab first (
          select_first-Agrees (wanted s.want_calendar list) list _ (record {
            bar = a.bar;
            view = refl;
            buttons = a.buttons;
            shown = a.shown;
            address = a.address;
          })))
]

-- Whatever is selected, clicked, loaded or unsubscribed, and in whatever order, the page stays
-- consistent: no event is the deletion of a calendar, and the page was consistent at the start.
pub run-Agrees :
    (es : List Event) (s : App)
    → All (λ e. keeps_calendars e ≡ true) es
    → Agrees s
    → Agrees (run es s)
unfolding run handle
run-Agrees [] s h a = a
run-Agrees (selected cal ∷ es) s h a = run-Agrees es _ h.1 (select_calendar-Agrees cal s)
run-Agrees (clicked t ∷ es) s h a = run-Agrees es _ h.1 (clicked-Agrees t s a)
run-Agrees (loaded list ∷ es) s h a = run-Agrees es _ h.1 (calendars_loaded-Agrees list s a)
run-Agrees (unsubscribe id ∷ es) s h a = run-Agrees es _ h.1 (unsubscribed-Agrees id s h.0 a)
run-Agrees (deleted cal ∷ es) s h a = absurd (cc (h.0))

-- After the deletion of the selected calendar, and after the calendars were loaded again, no
-- calendar is selected but the tab row is still shown, and the address still names the calendar.
-- The page was consistent, and the calendar is one of the user's own, no subscription.
pub run-deleted :
    (cal : Cal) (list : List Cal) (s : App)
    → Agrees s
    → s.chosen ≡ true
    → s.current ≡ some cal
    → truthy? cal.subscription_id ≡ false
    → ((run (deleted cal ∷ loaded list ∷ []) s).current ≡ none)
      × ((run (deleted cal ∷ loaded list ∷ []) s).bar_hidden ≡ false)
      × ((run (deleted cal ∷ loaded list ∷ []) s).url.calendar ≡ some cal.id)
unfolding run handle calendar_deleted calendars_loaded update_calendar_visibility
run-deleted cal list s a c e n =
    let bar : s.bar_hidden ≡ false = a.bar ∙ rw e refl in
    let named : s.url.calendar ≡ some cal.id = ap (λ u. u.calendar) a.address ∙ rw e (rw n refl) in
    rw (e, text_eq_refl cal.id, c) (refl, bar, named)
