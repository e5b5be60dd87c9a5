-- ===== src/Admin/Tests.antt =====
-- Tests of the admin page.
use cal_stack.Base.{◌≡◌, refl, true, false, [], ◌∷◌, codes}
use cal_stack.Admin.{
  click, accepted, rejected, handle_toggle, run_toggle, disabled, toggle_message, humanize,
  path_summary, audit_summary, audit_cells,
}
use cal_stack.Admin.Flags.{settled}

-- A second click before the answer to the first one leaves the checkbox on, and the flag off.
overlapping :
    run_toggle (click ∷ click ∷ rejected ∷ accepted ∷ []) (settled false)
    ≡ record { checked = true; server = false; pending = [] }
unfolding run_toggle handle_toggle
overlapping = refl

named : toggle_message disabled (codes "ann") true ≡ codes "ann disabled."
unfolding toggle_message
named = refl

logged :
    audit_cells
      (λ c. b'T' ∷ [])
      (record {
        created_at = codes "now";
        action = codes "task_update";
        object_type = codes "t";
        change_summary = path_summary (codes "/api/tasks") (codes "200");
      })
    ≡ codes "now" ∷ codes "Task update" ∷ codes "T" ∷ codes "/api/tasks (200)" ∷ []
unfolding audit_cells humanize audit_summary
logged = refl
