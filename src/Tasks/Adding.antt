-- ===== src/Tasks/Adding.antt =====
-- Quick add and deletion in tasks.js, and the deletion of a journal in journals.js: `#task-quick-add`,
-- `#tk-delete` and `#jv-delete`.
use cal_stack.Base.{
  ℕ, suc, ◌+◌, ◌≤◌, ◌≡◌, inl, inr, arith, Bool, true, false, not, ◌||◌, Option, none, some, List,
  [], ◌∷◌, ◌++◌, if◌then◌else◌, length, length-append, Text, codes, text_or?, truthy, truthy?,
  or_else, trim, Bool-cases,
}

-- The field `#task-quick-summary`, the busy flag of its form, and the calendar of the pane.
pub record QuickAdd : Type 0 where
  pub summary : Text
  pub busy : Bool
  pub cal_id : Option Text

-- A request for a new task: its address and the summary.
abbrev pub NewTask : Type 0
NewTask = Text × Text

pub data QuickEvent : Type 0 where
  type_summary : Text → QuickEvent
  submit_quick : QuickEvent
  quick_answered : Bool → QuickEvent
  select_cal : Option Text → QuickEvent

abbrev pub quick_url : Option Text → Text
quick_url cal = codes "/api/calendars/" ++ or_else cal [] ++ codes "/tasks"

-- The handlers; an answer that is no error clears the field.
unfoldable pub handle_quick : QuickAdd → QuickEvent → QuickAdd × List NewTask
unfolding trim
handle_quick p (type_summary s) = (record p { summary = s }, [])
handle_quick p submit_quick =
    if not (truthy (trim p.summary)) || not (truthy? p.cal_id) || p.busy
    then (p, [])
    else (record p { busy = true }, (quick_url p.cal_id, trim p.summary) ∷ [])
handle_quick p (quick_answered ok) =
    (record p { busy = false; summary = if ok then [] else p.summary }, [])
handle_quick p (select_cal cal) = (record p { cal_id = cal }, [])

unfoldable pub run_quick : QuickAdd → List QuickEvent → QuickAdd × List NewTask
unfolding handle_quick
run_quick p [] = (p, [])
run_quick p (e ∷ es) =
    let (q, sent) = handle_quick p e in let (r, later) = run_quick q es in (r, sent ++ later)

-- What a deletion asks, and its address once it is confirmed.
unfoldable pub delete_task : Option (Text × Option Text) → Option (Text × Text)
delete_task none = none
delete_task (some (id, summary)) = some (
  codes "Delete task \"" ++ text_or? summary [] ++ codes "\"? Its subtasks go with it.",
  codes "/api/tasks/" ++ id,
)

unfoldable pub delete_journal : Option (Text × Option Text) → Option (Text × Text)
delete_journal none = none
delete_journal (some (id, summary)) =
    some (
      codes "Delete journal \"" ++ text_or? summary [] ++ codes "\"?",
      codes "/api/journals/" ++ id,
    )

-- How many requests are on their way, for a form that is busy or not.
abbrev on_way : Bool → ℕ
on_way busy = if busy then 1 else 0

abbrev pub answers : List QuickEvent → ℕ
answers [] = 0
answers (quick_answered ok ∷ es) = suc (answers es)
answers (_ ∷ es) = answers es

handle_quick-le :
    (p : QuickAdd) (e : QuickEvent)
    → length (handle_quick p e).1 + on_way p.busy
      ≤ answers (e ∷ []) + on_way (handle_quick p e).0.busy
unfolding handle_quick
handle_quick-le p (type_summary s) = omega arith
handle_quick-le p (quick_answered ok) = ground arith
handle_quick-le p (select_cal cal) = omega arith
handle_quick-le p submit_quick =
    elim (Bool-cases (not (truthy (trim p.summary)) || not (truthy? p.cal_id) || p.busy)) [
      | inl e ↦ rw e (omega arith)
      | inr e ↦ let free : p.busy ≡ false = ground (arith, e) in rw (e, free) (omega arith)
    ]

answers-cons :
    (e : QuickEvent) (es : List QuickEvent) → answers (e ∷ es) ≡ answers (e ∷ []) + answers es
answers-cons (type_summary s) es = omega arith
answers-cons submit_quick es = omega arith
answers-cons (quick_answered ok) es = omega arith
answers-cons (select_cal cal) es = omega arith

run_quick-le :
    (es : List QuickEvent) (p : QuickAdd)
    → length (run_quick p es).1 + on_way p.busy ≤ answers es + on_way (run_quick p es).0.busy
unfolding run_quick
run_quick-le [] p = omega arith
run_quick-le (e ∷ es) p =
    let step = handle_quick-le p e in
    let rest = run_quick-le es (handle_quick p e).0 in
    omega (
      arith,
      step,
      rest,
      answers-cons e es,
      length-append (handle_quick p e).1 (run_quick (handle_quick p e).0 es).1,
    )

on_way-le : (busy : Bool) → on_way busy ≤ 1
on_way-le busy = ground arith

-- Quick add has at most one request on its way: it never sent more than one request more than it got
-- answers, whatever is typed, submitted and selected.
run_quick-one : (es : List QuickEvent) (p : QuickAdd) → length (run_quick p es).1 ≤ suc (answers es)
run_quick-one es p = omega (arith, run_quick-le es p, on_way-le (run_quick p es).0.busy)
