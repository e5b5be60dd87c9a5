-- ===== src/Tasks/Tree.antt =====
-- `render` of tasks.js: the filter, and the tree of subtasks. `addTree` calls itself for each child
-- and takes fuel; `none` means that the fuel ran out.
use Prim.Native.Nat.{Ordering}
use cal_stack.Base.{
  ℕ, zero, suc, ◌+◌, Bool, false, ◌&&◌, ◌||◌, not, Option, none, some, List, [], ◌∷◌, ◌++◌,
  if◌then◌else◌, any, keep, is_empty, map, ◌>>=◌, Text, codes, text_eq, text_or?, truthy, trim,
  includes, length,
}
use cal_stack.Tasks.{Task, TaskRow, is_done, text_eq?, sort_tasks, task_row}

abbrev pub has_parent_in : List Task → Option Text → Bool
has_parent_in rows none = false
has_parent_in rows (some p) = truthy p && any (λ y. text_eq y.uid p) rows

-- `!t.parent_uid || !byUid[t.parent_uid]`
unfoldable pub is_root : List Task → Task → Bool
is_root rows t = not (has_parent_in rows t.parent_uid)

module _ (lower : Text → Text) where
  -- The test of the filter: the search text and the mode of `#task-status-filter`.
  unfoldable pub is_visible : Text → Text → Task → Bool
  unfolding text_eq trim includes
  is_visible search mode t =
      let q = lower (trim search) in
      not (text_eq mode (codes "open") && is_done t)
      && not (text_eq mode (codes "done") && not (is_done t))
      && (not (truthy q) || includes q (lower (text_or? t.summary [])))

module _ (collate : Text → Text → Ordering) (rows : List Task) where
  abbrev pub children : Text → List Task
  children uid = sort_tasks collate (keep (λ t. text_eq? t.parent_uid uid) rows)

  -- `forEach` over tasks of one depth.
  unfoldable pub add_forest :
      (Task → ℕ → Option (List (Task × ℕ))) → ℕ → List Task → Option (List (Task × ℕ))
  add_forest add depth [] = some []
  add_forest add depth (t ∷ ts) = do
    tree ← add t depth
    forest ← add_forest add depth ts
    some (tree ++ forest)

  -- `addTree`: the task, then the trees of its children one step deeper.
  unfoldable pub add_tree : ℕ → Task → ℕ → Option (List (Task × ℕ))
  unfolding add_forest
  add_tree zero t depth = none
  add_tree (suc fuel) t depth = do
    below ← add_forest (add_tree fuel) (depth + 1) (children t.uid)
    some ((t, depth) ∷ below)

  unfoldable pub tree_of : Option (List (Task × ℕ))
  unfolding add_forest is_root
  tree_of =
      add_forest (add_tree (suc (length rows))) 0 (sort_tasks collate (keep (is_root rows) rows))

-- What the list shows: rows of tasks, or the one line "No tasks.".
pub data ListItem : Type 0 where
  item : TaskRow → ListItem
  no_tasks : ListItem

module _ (lower : Text → Text) (collate : Text → Text → Ordering)
    (fmt_instant fmt_day : Text → Text) where
  -- `render`
  unfoldable pub render : List Task → Text → Text → Option (List ListItem)
  unfolding is_visible tree_of
  render tasks search mode =
      let rows = keep (is_visible lower search mode) tasks in
      tree_of collate rows >>= λ shown. some (
        map (λ s. item (task_row fmt_instant fmt_day s.0 s.1)) shown
        ++ (if is_empty rows then no_tasks ∷ [] else []))
