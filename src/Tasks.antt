-- ===== src/Tasks.antt =====
-- The tasks pane, crates/calendar-web/src/assets/js/tasks.js: the task rows, their order and what a
-- row shows. The children model the tree of subtasks, the choice of a parent and the editor.
pub mod Tree
pub mod Order
pub mod Shown
pub mod Ends
pub mod Descendants
pub mod Growth
pub mod Parents
pub mod Picker
pub mod Editor
pub mod Latch
pub mod Adding
mod AddingTests
pub mod Unedited
mod Tests
use Prim.Native.Nat.{Ordering}
use cal_stack.Base.{
  ℕ, Bool, true, false, ◌&&◌, ◌||◌, not, Option, none, some, List, [], ◌∷◌, ◌++◌, ltb, ◌==◌,
  if◌then◌else◌, Text, codes, text_eq, truthy?, text_or?, is_some, show_nat,
}

-- A row of `GET /api/calendars/{id}/tasks`; a field that may be null or missing is an option.
pub record Task : Type 0 where
  pub id : Text
  pub uid : Text
  pub parent_uid : Option Text
  pub summary : Option Text
  pub description_text : Option Text
  pub status : Option Text
  pub completed_at : Option Text
  pub due_at : Option Text
  pub due_date : Option Text
  pub rrule : Option Text
  pub priority : Option ℕ
  pub percent_complete : Option ℕ
  pub categories : Option (List Text)
  pub is_overdue : Bool
  pub subtasks_count : ℕ

-- `o === s` for a value that may be missing.
abbrev pub text_eq? : Option Text → Text → Bool
text_eq? none s = false
text_eq? (some r) s = text_eq r s

-- `isDone`
unfoldable pub is_done : Task → Bool
unfolding text_eq
is_done t =
    truthy? t.completed_at
    || text_eq? t.status (codes "COMPLETED")
    || text_eq? t.status (codes "CANCELLED")

-- `dueKey`
unfoldable pub due_key : Task → Text
due_key t =
    if truthy? t.due_at
    then text_or? t.due_at []
    else if truthy? t.due_date
    then text_or? t.due_date []
    else codes "9999"

abbrev pub is_gt : Ordering → Bool
is_gt Ordering.gt = true
is_gt _ = false

-- `localeCompare` is the browser's collation; dates are printed in the browser's locale.
module _ (collate : Text → Text → Ordering) where
  -- `cmp`
  unfoldable pub compare_tasks : Task → Task → Ordering
  compare_tasks a b =
      if is_done a && not (is_done b)
      then Ordering.gt
      else if not (is_done a) && is_done b
      then Ordering.lt
      else if is_done a
      then collate (text_or? b.completed_at []) (text_or? a.completed_at [])
      else collate (due_key a) (due_key b)

  -- `sort` is stable: a task goes in front of the first one that is not below it.
  unfoldable pub insert_task : Task → List Task → List Task
  insert_task t [] = t ∷ []
  insert_task t (u ∷ us) = if is_gt (compare_tasks t u) then u ∷ insert_task t us else t ∷ u ∷ us

  unfoldable pub sort_tasks : List Task → List Task
  unfolding insert_task
  sort_tasks [] = []
  sort_tasks (t ∷ ts) = insert_task t (sort_tasks ts)

-- What `taskRow` shows of a task.
pub record TaskRow : Type 0 where
  pub task : Text
  pub indented : Bool
  pub checked : Bool
  pub disabled : Bool
  pub check_title : Text
  pub struck : Bool
  pub summary : Text
  pub recurring : Bool
  pub overdue : Bool
  pub due : Option Text
  pub percent : Option Text
  pub subtasks : Option Text

abbrev pub percent_badge : Option ℕ → Bool → Option Text
percent_badge none done = none
percent_badge (some n) done = if ltb 0 n && not done then some (show_nat n ++ codes "%") else none

module _ (fmt_instant fmt_day : Text → Text) where
  -- `fmtDue`
  unfoldable pub fmt_due : Task → Text
  fmt_due t =
      if truthy? t.due_at
      then fmt_instant (text_or? t.due_at [])
      else if truthy? t.due_date
      then fmt_day (text_or? t.due_date [])
      else []

  -- `taskRow`
  unfoldable pub task_row : Task → ℕ → TaskRow
  unfolding fmt_due is_done
  task_row t depth = record {
    task = t.id;
    indented = not (depth == 0);
    checked = is_done t;
    disabled = truthy? t.rrule;
    check_title =
        if truthy? t.rrule
        then codes "Recurring tasks cannot be completed here yet"
        else codes "Toggle completed";
    struck = is_done t;
    summary = text_or? t.summary (codes "(no summary)");
    recurring = truthy? t.rrule;
    overdue = t.is_overdue;
    due = if truthy? t.due_at || truthy? t.due_date then some (fmt_due t) else none;
    percent = percent_badge t.percent_complete (is_done t);
    subtasks =
        if ltb 0 t.subtasks_count
        then some (show_nat t.subtasks_count ++ codes " subtasks")
        else none;
  }

-- `new Date(due)` fields aside, the checkbox sends the task to one of two routes.
unfoldable pub toggle_url : Task → Bool → Text
toggle_url t checked =
    codes "/api/tasks/" ++ (t.id ++ (if checked then codes "/complete" else codes "/reopen"))
