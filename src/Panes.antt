-- ===== src/Panes.antt =====
-- What loads the rows of the panes: `TasksPane` with `loadTasks` of tasks.js, `JournalsPane` with
-- `loadJournals` of journals.js, `CategoriesPane` of categories.js and `RulesPane` of rules.js. The
-- panes of tasks and of journals are one definition; the name of the component is its parameter.
pub mod Answers
pub mod Scopes
mod Tests
use cal_stack.Base.{
  Bool, true, false, not, Option, none, some, List, [], ◌∷◌, ◌++◌, if◌then◌else◌, any, or_else,
  Text, codes, text_eq, truthy?,
}

-- What the panes read of a calendar.
pub record PaneCal : Type 0 where
  pub id : Text
  pub components : Option (List Text)
  pub read_only : Bool

-- A string that may be null, compared by `===`.
unfoldable pub same_id : Option Text → Option Text → Bool
unfolding text_eq
same_id none none = true
same_id none (some t) = false
same_id (some s) none = false
same_id (some s) (some t) = text_eq s t

-- `_cal`, `calId`, the rows that were loaded last, those that the list shows, whether the note on an empty list is shown, and the
-- calendars of the requests that are on their way, in the order they were sent.
pub record ListPane (Row : Type 0) : Type 0 where
  pub memo : Option Text
  pub cal_id : Option Text
  pub rows : List Row
  pub shown : List Row
  pub note : Bool
  pub pending : List Text

abbrev pub tasks_component : Text
tasks_component = codes "VTODO"

abbrev pub journals_component : Text
journals_component = codes "VJOURNAL"

-- `(cal.components || []).indexOf(component) !== -1`
unfoldable pub accepts : Text → PaneCal → Bool
unfolding text_eq
accepts component cal = any (text_eq component) (or_else cal.components [])

module _ {Row : Type 0} where
  abbrev send_load : Option Text → ListPane Row → ListPane Row
  send_load none p = p
  send_load (some id) p =
      if truthy? (some id) then record p { note = false; pending = p.pending ++ (id ∷ []) } else p

  -- `loadTasks`, `loadJournals`
  unfoldable pub load_rows : ListPane Row → ListPane Row
  load_rows p = send_load p.cal_id p

  -- `load` of the pane
  unfoldable pub load_pane : Text → PaneCal → ListPane Row → ListPane Row
  unfolding same_id accepts load_rows
  load_pane component cal p =
      if same_id p.memo (some cal.id)
      then p
      else if not (accepts component cal)
      then record p { memo = some cal.id; cal_id = none; shown = []; note = true }
      else load_rows (record p { memo = some cal.id; cal_id = some cal.id })

  -- `done` of the request: what was asked for does not matter.
  unfoldable pub rows_loaded : List Row → ListPane Row → ListPane Row
  rows_loaded rows p = record p { rows = rows; shown = rows }

  -- `render`, where the filter leaves out nothing.
  unfoldable pub render_rows : ListPane Row → ListPane Row
  render_rows p = record p { shown = p.rows }

  abbrev pub fresh_list : ListPane Row
  fresh_list = record {
    memo = none;
    cal_id = none;
    rows = [];
    shown = [];
    note = false;
    pending = [];
  }

-- What happens to a pane: the page asks for a calendar, the filter is changed, or the server answers
-- the request that is on its way for the longest time.
pub data ListEvent : Type 0 where
  load : PaneCal → ListEvent
  filter : ListEvent
  answer : ListEvent

module _ {Row : Type 0} (component : Text) (rows_of : Text → List Row) where
  abbrev answer_first : List Text → ListPane Row → ListPane Row
  answer_first [] p = p
  answer_first (id ∷ ids) p = rows_loaded (rows_of id) (record p { pending = ids })

  unfoldable pub handle_list : ListEvent → ListPane Row → ListPane Row
  unfolding rows_loaded
  handle_list (load cal) p = load_pane component cal p
  handle_list filter p = render_rows p
  handle_list answer p = answer_first p.pending p

  unfoldable pub run_list : List ListEvent → ListPane Row → ListPane Row
  run_list [] p = p
  run_list (e ∷ es) p = run_list es (handle_list e p)

-- The scope of the panes of categories and of rules: `_cal`, `calendarId`, and the addresses of the
-- requests that were sent.
pub record ScopePane : Type 0 where
  pub memo : Option Text
  pub calendar_id : Option Text
  pub requests : List Text

abbrev pub fresh_scope : ScopePane
fresh_scope = record { memo = none; calendar_id = none; requests = [] }

abbrev pub with_calendar : Text → Option Text → Text
with_calendar url none = url
with_calendar url (some id) =
    if truthy? (some id) then url ++ (codes "?calendar_id=" ++ id) else url

abbrev pub scope_of : PaneCal → Option Text
scope_of cal = if cal.read_only then none else some cal.id

-- `loadCategories`, `loadRules`
unfoldable pub load_scope : Text → ScopePane → ScopePane
load_scope url p = record p { requests = p.requests ++ (with_calendar url p.calendar_id ∷ []) }

-- `CategoriesPane.load`
unfoldable pub load_categories : PaneCal → ScopePane → ScopePane
unfolding same_id load_scope
load_categories cal p =
    if same_id p.memo (scope_of cal)
    then p
    else load_scope (codes "/api/categories")
        (record p { memo = scope_of cal; calendar_id = scope_of cal })

-- `RulesPane.load`
unfoldable pub load_rules : PaneCal → ScopePane → ScopePane
unfolding same_id load_scope
load_rules cal p =
    if same_id p.memo (some cal.id)
    then p
    else load_scope (codes "/api/rules")
        (record p { memo = some cal.id; calendar_id = scope_of cal })

unfoldable pub show_categories : List PaneCal → ScopePane → ScopePane
show_categories [] p = p
show_categories (cal ∷ cals) p = show_categories cals (load_categories cal p)
