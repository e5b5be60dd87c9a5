-- ===== src/Tasks/AddingTests.antt =====
-- Tests of quick add and of deletions.
use cal_stack.Base.{◌≡◌, refl, true, false, none, some, [], ◌∷◌, codes, trim}
use cal_stack.Tasks.Adding.{
  type_summary, submit_quick, quick_answered, handle_quick, run_quick, delete_task, delete_journal,
}

-- The second submit comes before the answer to the first one.
twice :
    run_quick
      (record { summary = []; busy = false; cal_id = some (codes "w") })
      (submit_quick
        ∷ type_summary (codes " Cook ")
        ∷ submit_quick
        ∷ submit_quick
        ∷ quick_answered true
        ∷ submit_quick
        ∷ [])
    ≡ (
      record { summary = []; busy = false; cal_id = some (codes "w") },
      (codes "/api/calendars/w/tasks", codes "Cook") ∷ [],
    )
unfolding run_quick handle_quick trim
twice = refl

asked :
    delete_task (some (codes "t1", none))
    ≡ some (codes "Delete task \"\"? Its subtasks go with it.", codes "/api/tasks/t1")
unfolding delete_task
asked = refl

nothing_edited : delete_journal none ≡ none
unfolding delete_journal
nothing_edited = refl
