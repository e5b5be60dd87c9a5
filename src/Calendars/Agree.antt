-- ===== src/Calendars/Agree.antt =====
-- The selection, the tabs, what is hidden and the address of app.js agree with each other.
use cal_stack.Base.{
  ℕ, ◌≡◌, refl, sym, ap, ◌∙◌, true, false, ◌&&◌, not, Bool-cases, inl, inr, ==_iff, Option, none,
  some, is_some, if◌then◌else◌, ◌==◌, Text, codes,
}
use cal_stack.Calendars.{
  Cal, Tab, calendar, categories, tasks, journals, rules, tab_index, App, HiddenTabs, is_hidden,
  hidden_for, url_of, set_url, refresh_active_pane, show, visible_tab, tab_named, show_tab, flagged,
  update_tabs, update_calendar_visibility, select_calendar,
}

-- The tab row and the calendar are shown exactly if a calendar is selected, the hidden buttons are
-- those of the selected calendar, the tab that is shown is none of them, and the address names the
-- selected calendar, unless it has no address, and the tab.
pub record Agrees (s : App) : Type 0 where
  pub bar : s.bar_hidden ≡ not (is_some s.current)
  pub view : s.calendar_hidden ≡ not (is_some s.current)
  pub buttons : s.hidden ≡ hidden_for s.current s.user_is_admin
  pub shown : is_some s.current ≡ true → is_hidden s.hidden s.tab ≡ false
  pub address : s.url ≡ url_of s.current s.tab

tab_at : ℕ → Tab
tab_at n =
    if n == 1
    then categories
    else if n == 2
    then tasks
    else if n == 3
    then journals
    else if n == 4
    then rules
    else calendar

tab_at-tab_index : (t : Tab) → tab_at (tab_index t) ≡ t
unfolding tab_at
tab_at-tab_index calendar = refl
tab_at-tab_index categories = refl
tab_at-tab_index tasks = refl
tab_at-tab_index journals = refl
tab_at-tab_index rules = refl

tab_index_inj : (t u : Tab) → (tab_index t == tab_index u) ≡ true → t ≡ u
tab_index_inj t u e =
    sym (tab_at-tab_index t)
    ∙ ap tab_at ((==_iff (tab_index t) (tab_index u)).0 e)
    ∙ tab_at-tab_index u

-- Showing a tab that is not hidden keeps the page consistent.
pub show-Agrees : (t : Tab) (s : App) → Agrees s → is_hidden s.hidden t ≡ false → Agrees (show t s)
unfolding show set_url refresh_active_pane
show-Agrees t s a h = elim (Bool-cases (tab_index t == tab_index s.tab)) [
  | inl e ↦ rw e a
  | inr e ↦
      rw e
        (record { bar = a.bar; view = a.view; buttons = a.buttons; shown = λ k. h; address = refl })
]

visible_tab-shown : (h : HiddenTabs) (o : Option Tab) → is_hidden h (visible_tab h o) ≡ false
visible_tab-shown h none = refl
visible_tab-shown h (some t) = elim (Bool-cases (is_hidden h t)) [
  | inl e ↦ rw e refl
  | inr e ↦ rw e e
]

-- A tab that is asked for by any name keeps the page consistent.
pub show_tab-Agrees : (name : Text) (s : App) → Agrees s → Agrees (show_tab name s)
unfolding show_tab
show_tab-Agrees name s a =
    show-Agrees (visible_tab s.hidden (tab_named name)) s a
      (visible_tab-shown s.hidden (tab_named name))

-- What `updateTabs` leaves as it is, and what it makes so.
record Updated (s t : App) : Type 0 where
  current : t.current ≡ s.current
  admin : t.user_is_admin ≡ s.user_is_admin
  bar : t.bar_hidden ≡ not (is_some s.current)
  buttons : t.hidden ≡ hidden_for s.current s.user_is_admin
  shown : is_some s.current ≡ true → is_hidden (hidden_for s.current s.user_is_admin) t.tab ≡ false

show-calendar_Updated : (s : App) → Updated s (show_tab (codes "calendar") (flagged s))
unfolding show_tab tab_named show set_url refresh_active_pane
show-calendar_Updated s = elim (Bool-cases (tab_index calendar == tab_index s.tab)) [
  | inl e ↦ rw e (record {
    current = refl;
    admin = refl;
    bar = refl;
    buttons = refl;
    shown = λ k.
        ap (is_hidden (hidden_for s.current s.user_is_admin))
          (sym (tab_index_inj calendar s.tab e));
  })
  | inr e ↦
      rw e (record { current = refl; admin = refl; bar = refl; buttons = refl; shown = λ k. refl })
]

update_tabs-Updated : (s : App) → Updated s (update_tabs s)
unfolding update_tabs
update_tabs-Updated s =
    elim (Bool-cases (is_some s.current && is_hidden (flagged s).hidden s.tab)) [
      | inl e ↦ rw e (show-calendar_Updated s)
      | inr e ↦ rw e (record {
        current = refl;
        admin = refl;
        bar = refl;
        buttons = refl;
        shown = λ k. rw k at e;
      })
    ]

-- A page that `updateTabs` and `updateCalendarVisibility` just passed over, apart from its address.
Updated-Agrees :
    (s t : App)
    → Updated s t
    → t.calendar_hidden ≡ not (is_some t.current)
    → t.url ≡ url_of t.current t.tab
    → Agrees t
Updated-Agrees s t u v w = record {
  bar = u.bar ∙ ap (λ c. not (is_some c)) (sym u.current);
  view = v;
  buttons = u.buttons ∙ sym same;
  shown = λ k. ap (λ h. is_hidden h t.tab) u.buttons ∙ u.shown (ap is_some (sym u.current) ∙ k);
  address = w;
}
  where
    same : hidden_for t.current t.user_is_admin ≡ hidden_for s.current s.user_is_admin
    same = ap (λ c. hidden_for c t.user_is_admin) u.current ∙ ap (hidden_for s.current) u.admin

-- Selecting a calendar makes the page consistent, from whatever state.
pub select_calendar-Agrees : (cal : Cal) (s : App) → Agrees (select_calendar cal s)
unfolding select_calendar set_url refresh_active_pane update_calendar_visibility
select_calendar-Agrees cal s =
    let u = update_tabs-Updated (record s { current = some cal }) in
    Updated-Agrees (record s { current = some cal }) (select_calendar cal s)
      (record {
        current = u.current;
        admin = u.admin;
        bar = u.bar;
        buttons = u.buttons;
        shown = u.shown;
      })
      refl refl
