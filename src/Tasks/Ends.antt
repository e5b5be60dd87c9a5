-- ===== src/Tasks/Ends.antt =====
-- `addTree` ends: along a branch of the tree no uid comes twice.
use Prim.Native.Nat.{Ordering}
use cal_stack.Base.{
  ℕ, ◌≡◌, true, not, Option, some, List, [], ◌∷◌, In, Text, truthy, keep, length, map,
}
use cal_stack.Tasks.{Task}
use cal_stack.Tasks.Descendants.{is_blocked}

-- The uids of the rows are not empty, and no two rows share one.
pub record HasKeys (rows : List Task) : Type 0 where
  pub nonempty : (t : Task) → In t rows → truthy t.uid ≡ true
  pub unique : (t u : Task) → In t rows → In u rows → t.uid ≡ u.uid → t ≡ u

abbrev uids : List Task → List Text
uids = map (λ t. t.uid)

abbrev tail_uids : List Task → List Text
tail_uids [] = []
tail_uids (t ∷ ts) = uids ts

module _ (rows : List Task) (keys : HasKeys rows) where
  -- A row on the path is a root, or its parent stands behind it.
  Behind : Task → List Task → Type 0
  Behind c l = (u : Text) × (c.parent_uid ≡ some u) × In u (tail_uids l)

  abbrev FirstOnce : List Task → Type 0
  FirstOnce [] = Unit
  FirstOnce (t ∷ ts) = ¬ In t.uid (uids ts)

  -- The rows that are not on the path.
  left : List Task → ℕ
  left l = length (keep (λ r. not (is_blocked r.uid (uids l))) rows)

  module _ (collate : Text → Text → Ordering) where
    abbrev Ends : Option (List (Task × ℕ)) → Type 0
    Ends o = (out : List (Task × ℕ)) × (o ≡ some out)
