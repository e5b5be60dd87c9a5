-- ===== src/Tasks/Tests.antt =====
-- Runs of the tasks pane, and the theorems at concrete inputs.
use Prim.Native.Nat.{Ordering, compare}
use cal_stack.Base.{
  ◌≡◌, refl, sym, ap, ◌∙◌, subst, ◌↔◌, inl, inr, true, false, Option, none, some, List, [], ◌∷◌,
  arith, In, any, text_eq, Text, codes, trim,
}
use cal_stack.Tasks.{Task, is_done, due_key, compare_tasks, sort_tasks}
use cal_stack.Tasks.Descendants.{Picker, is_blocked, block, descendants_of, fill_parent_picker}
use cal_stack.Tasks.Tree.{add_tree, tree_of}
use cal_stack.Tasks.Order.{OpenFirst, sort_tasks-OpenFirst}
use cal_stack.Tasks.Growth.{Descends}
use cal_stack.Tasks.Parents.{descendants_of-Descends}
use cal_stack.Tasks.Picker.{reparent, reparent-not-Descends, offered_of_not-Descends}
use cal_stack.Tasks.Shown.{Shows, IsBelowRoot, tree_of-Shows}
use cal_stack.Tasks.Editor.{
  Browser, TaskForm, sent, save_editor, open_editor, task_form, select_status,
}
use cal_stack.Tasks.Unedited.{IsPlain, unedited, save_editor-open_editor}

-- Texts compared by their first code units.
collate : Text → Text → Ordering
collate [] [] = Ordering.eq
collate [] (d ∷ t) = Ordering.lt
collate (c ∷ s) [] = Ordering.gt
collate (c ∷ s) (d ∷ t) = compare c d

abbrev task : Text → Option Text → Option Text → Task
task uid parent status = record {
  id = uid;
  uid = uid;
  parent_uid = parent;
  summary = some uid;
  description_text = none;
  status = status;
  completed_at = none;
  due_at = none;
  due_date = none;
  rrule = none;
  priority = some 5;
  percent_complete = none;
  categories = some (codes "home" ∷ codes "work" ∷ []);
  is_overdue = false;
  subtasks_count = 0;
}

abbrev plan : Task
plan = task (codes "plan") none none

abbrev buy : Task
buy = task (codes "buy") (some (codes "plan")) (some (codes "COMPLETED"))

abbrev cook : Task
cook = task (codes "cook") (some (codes "plan")) none

abbrev tasks : List Task
tasks = buy ∷ cook ∷ plan ∷ []

-- The subtasks stand under their task, the open one first.
shown_tasks : tree_of collate tasks ≡ some ((plan, 0) ∷ (cook, 1) ∷ (buy, 1) ∷ [])
unfolding tree_of add_tree sort_tasks compare_tasks is_done due_key collate text_eq
shown_tasks = refl

-- Two tasks that are each other's parent are not shown.
cycle_hidden :
    tree_of collate
      (task (codes "a") (some (codes "b")) none ∷ task (codes "b") (some (codes "a")) none ∷ [])
    ≡ some []
unfolding tree_of add_tree sort_tasks compare_tasks is_done due_key collate text_eq
cycle_hidden = refl

below_plan : descendants_of tasks plan ≡ some (codes "cook" ∷ codes "buy" ∷ codes "plan" ∷ [])
unfolding descendants_of block is_blocked text_eq
below_plan = refl

sort_tasks-OpenFirst_example : OpenFirst (sort_tasks collate tasks)
sort_tasks-OpenFirst_example = sort_tasks-OpenFirst collate tasks

descendants_of-Descends_example :
    (r : List Text) × (descendants_of tasks plan ≡ some r)
    × ((v : Text) → In v r ↔ Descends tasks (codes "plan") v)
descendants_of-Descends_example = descendants_of-Descends tasks plan

abbrev cook_picker : Picker
cook_picker = record {
  options =
      ([], codes "(no parent)") ∷ (codes "buy", codes "buy") ∷ (codes "plan", codes "plan") ∷ [];
  selected = some (codes "plan");
}

picker_of_cook : fill_parent_picker tasks (some cook) ≡ some cook_picker
unfolding fill_parent_picker descendants_of block is_blocked text_eq
picker_of_cook = refl

cook_ids : (x : Task) → In x tasks → x.id ≡ cook.id → x.uid ≡ cook.uid
cook_ids x (inl e) h = ap (λ z. z.uid) e ∙ (sym (ap (λ z. z.id) e) ∙ h)
cook_ids x (inr (inl e)) h = ap (λ z. z.uid) e
cook_ids x (inr (inr (inl e))) h = ap (λ z. z.uid) e ∙ (sym (ap (λ z. z.id) e) ∙ h)
cook_ids x (inr (inr (inr i))) h = elim i [ ]

reparent-not-Descends_example :
    ¬ Descends (reparent tasks cook (codes "buy")) (codes "cook") (codes "buy")
reparent-not-Descends_example =
    reparent-not-Descends tasks cook (codes "buy") cook_picker (inr (inl refl)) cook_ids
      picker_of_cook (unfold text_eq in refl) (cc)

buy_not_below_cook : ¬ Descends tasks (codes "cook") (codes "buy")
unfolding descendants_of block is_blocked text_eq
buy_not_below_cook d =
    let (r, e, below) = descendants_of-Descends tasks cook in
    let only : r ≡ codes "cook" ∷ [] = cc in
    let i : In (codes "buy") (codes "cook" ∷ []) =
      subst (In (codes "buy")) only ((below (codes "buy")).1 d) in
    not_only i
  where
    not_only : In (codes "buy") (codes "cook" ∷ []) → ⊥
    not_only (inl e) = cc
    not_only (inr i) = i

offered_of_not-Descends_example : any (λ o. text_eq o.0 (codes "buy")) cook_picker.options ≡ true
offered_of_not-Descends_example =
    offered_of_not-Descends tasks cook buy cook_picker (inl refl) buy_not_below_cook picker_of_cook

tree_of-Shows_example :
    Shows ((plan, 0) ∷ (cook, 1) ∷ (buy, 1) ∷ []) cook ↔ IsBelowRoot collate tasks cook
tree_of-Shows_example =
    tree_of-Shows collate tasks ((plan, 0) ∷ (cook, 1) ∷ (buy, 1) ∷ []) cook shown_tasks

abbrev two : List Task
two = cook ∷ plan ∷ []

abbrev browser : Browser
browser = record {
  number_value = λ s. s;
  date_value = λ s. s;
  datetime_value = λ s. s;
  local_time = λ s. record { year = 2026; month = 3; day = 1; hours = 9; minutes = 5 };
  to_iso_string = some;
}

abbrev cook_form : TaskForm
cook_form = task_form browser cook cook_picker

cook-IsPlain : IsPlain browser cook cook_picker
unfolding trim select_status
cook-IsPlain = record {
  summary = refl;
  description = refl;
  priority = refl;
  priority_field = refl;
  percent = refl;
  percent_field = refl;
  status = refl;
  categories = (
    record { nonempty = refl; trimmed = refl; no_comma = omega arith },
    (record { nonempty = refl; trimmed = refl; no_comma = omega arith }, tt),
  );
  parent = refl;
  parent_trimmed = refl;
  no_due_at = refl;
  no_due_at_field = refl;
  due_date_field = refl;
}

save_editor-open_editor_example :
    (f : TaskForm) × (open_editor browser tasks cook ≡ some f)
    × (save_editor browser (some cook) f ≡ sent (codes "/api/tasks/cook") (unedited cook))
save_editor-open_editor_example =
    save_editor-open_editor browser tasks cook cook_picker picker_of_cook cook-IsPlain
