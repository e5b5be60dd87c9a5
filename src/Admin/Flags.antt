-- ===== src/Admin/Flags.antt =====
-- A checkbox of a user against the flag on the server.
use cal_stack.Base.{◌≡◌, refl, Bool, true, false, not, if◌then◌else◌, List, [], ◌∷◌}
use cal_stack.Admin.{Toggle, ToggleEvent, click, accepted, rejected, handle_toggle, run_toggle}

-- A click and the answer to its request, one after another.
abbrev pub clicks : List Bool → List ToggleEvent
clicks [] = []
clicks (ok ∷ oks) = click ∷ (if ok then accepted else rejected) ∷ clicks oks

-- The checkbox of a flag, with nothing on its way.
abbrev pub settled : Bool → Toggle
settled b = record { checked = b; server = b; pending = [] }

-- Where each click waits for the answer to the one before it, the checkbox shows the flag of the
-- server after every answer, whether the server accepts the requests or not.
run_toggle-clicks :
    (oks : List Bool) (b : Bool) → (c : Bool) × (run_toggle (clicks oks) (settled b) ≡ settled c)
unfolding run_toggle handle_toggle
run_toggle-clicks [] b = (b, refl)
run_toggle-clicks (true ∷ oks) b = run_toggle-clicks oks (not b)
run_toggle-clicks (false ∷ oks) true = run_toggle-clicks oks true
run_toggle-clicks (false ∷ oks) false = run_toggle-clicks oks false
