-- ===== src/Journals/Tests.antt =====
-- Runs of the list of journals, and its theorems at three journals.
use Prim.Native.Nat.{Ordering}
use cal_stack.Base.{◌≡◌, refl, Option, none, some, List, [], ◌∷◌, Text, codes, text_eq, keep}
use cal_stack.Journals.{
  Journal, month, undated_notes, row, date_key, matches, render, compare_journals,
}
use cal_stack.Journals.Groups.{count, count_shown, count_shown-render}
use cal_stack.Journals.Editor.{JournalForm}
use cal_stack.Journals.Filed.{AllUnder, render-AllUnder}

abbrev journal : Text → Option Text → Journal
journal id day = record {
  id = id;
  summary = some id;
  description_text = none;
  status = none;
  starts_at = none;
  start_date = day;
  created_at = [];
}

abbrev same : Text → Text
same s = s

abbrev level : Text → Text → Ordering
level s t = Ordering.eq

abbrev journals : List Journal
journals =
    journal (codes "a") (some (codes "2026-02-01"))
    ∷ journal (codes "b") none
    ∷ journal (codes "c") (some (codes "2026-03-05"))
    ∷ []

shown :
    render same level journals []
    ≡ month (codes "2026-03")
      ∷ row (journal (codes "c") (some (codes "2026-03-05")))
      ∷ month (codes "2026-02")
      ∷ row (journal (codes "a") (some (codes "2026-02-01")))
      ∷ undated_notes
      ∷ row (journal (codes "b") none)
      ∷ []
unfolding render date_key compare_journals
shown = refl

count_shown-render_example :
    count_shown (λ j. text_eq j.id (codes "b")) (render same level journals [])
    ≡ count (λ j. text_eq j.id (codes "b")) (keep (matches same []) journals)
count_shown-render_example =
    count_shown-render (λ j. text_eq j.id (codes "b")) same level journals []

render-AllUnder_example : AllUnder none (render same level journals [])
render-AllUnder_example = render-AllUnder same level journals []

abbrev form : JournalForm
form = record { summary = codes "a"; desc = []; date = []; status = none }
