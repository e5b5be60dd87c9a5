-- ===== src/Tasks/Descendants.antt =====
-- `descendantsOf` of tasks.js: the uids that may not become the parent of a task.
use cal_stack.Base.{
  ℕ, zero, suc, Bool, ◌&&◌, not, Option, none, some, List, [], ◌∷◌, if◌then◌else◌, any, length,
  Text, codes, text_eq, text_or?, truthy, ◌>>=◌, ◌++◌,
}
use cal_stack.Tasks.{Task, text_eq?}

-- The uids that are blocked, and the stack `frontier` with its top first.
pub record Search : Type 0 where
  pub blocked : List Text
  pub frontier : List Text

unfoldable pub is_blocked : Text → List Text → Bool
unfolding text_eq
is_blocked u blocked = any (text_eq u) blocked

-- One task of `tasks.forEach`.
unfoldable pub block : Text → Task → Search → Search
block uid x s =
    if text_eq? x.parent_uid uid && not (is_blocked x.uid s.blocked)
    then record { blocked = x.uid ∷ s.blocked; frontier = x.uid ∷ s.frontier }
    else s

unfoldable pub block_children : Text → List Task → Search → Search
unfolding block
block_children uid [] s = s
block_children uid (x ∷ xs) s = block_children uid xs (block uid x s)

-- `while (frontier.length)`; `none` means that the fuel ran out.
unfoldable pub search_down : ℕ → List Task → Search → Option (List Text)
unfolding block_children
search_down zero tasks s = none
search_down (suc fuel) tasks s = elim s.frontier [
  | [] ↦ some s.blocked
  | uid ∷ rest ↦
      search_down fuel tasks
        (block_children uid tasks (record { blocked = s.blocked; frontier = rest }))
]

unfoldable pub descendants_of : List Task → Task → Option (List Text)
unfolding search_down
descendants_of tasks t =
    search_down (suc (suc (length tasks))) tasks
      (record { blocked = t.uid ∷ []; frontier = t.uid ∷ [] })

-- `#tk-parent-uid`: the values and labels of its options, and the value that is shown; null where
-- the value is no option.
pub record Picker : Type 0 where
  pub options : List (Text × Text)
  pub selected : Option Text

abbrev pub offer : List Text → List Task → List (Text × Text)
offer blocked [] = []
offer blocked (x ∷ xs) =
    if is_blocked x.uid blocked
    then offer blocked xs
    else (x.uid, text_or? x.summary (codes "(no summary)")) ∷ offer blocked xs

-- A parent that is not among the tasks stays selectable.
abbrev pub foreign : List Task → Option Text → List (Text × Text)
foreign tasks none = []
foreign tasks (some p) =
    if truthy p && not (any (λ x. text_eq x.uid p) tasks) then (p, p) ∷ [] else []

abbrev pub select : Text → List (Text × Text) → Option Text
select v options = if any (λ o. text_eq o.0 v) options then some v else none

abbrev pub parent_picker : List Task → Option Text → List Text → Picker
parent_picker tasks parent blocked =
    let options = ([], codes "(no parent)") ∷ (offer blocked tasks ++ foreign tasks parent) in
    record { options = options; selected = select (text_or? parent []) options }

-- `fillParentPicker`; `none` means that `descendantsOf` ran out of fuel.
unfoldable pub fill_parent_picker : List Task → Option Task → Option Picker
fill_parent_picker tasks none = some (parent_picker tasks none [])
fill_parent_picker tasks (some t) =
    descendants_of tasks t >>= λ blocked. some (parent_picker tasks t.parent_uid blocked)
