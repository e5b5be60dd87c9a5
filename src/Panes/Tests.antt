-- ===== src/Panes/Tests.antt =====
-- Tests of the panes' loaders, on calendars with and without tasks.
use cal_stack.Base.{ℕ, ◌≡◌, refl, true, false, none, some, List, [], ◌∷◌, Text, codes, length}
use cal_stack.Panes.{
  PaneCal, ListPane, ListEvent, load, filter, answer, same_id, accepts, load_rows, load_pane,
  render_rows, rows_loaded, handle_list, run_list, fresh_list, tasks_component, fresh_scope,
  load_scope, load_categories, load_rules, show_categories,
}
use cal_stack.Panes.Answers.{run_list-settled}

abbrev work : PaneCal
work = record {
  id = codes "w";
  components = some (codes "VEVENT" ∷ tasks_component ∷ []);
  read_only = false;
}

abbrev home : PaneCal
home = record { id = codes "hm"; components = some (tasks_component ∷ []); read_only = false }

abbrev plain : PaneCal
plain = record { id = codes "w"; components = some (codes "VEVENT" ∷ []); read_only = false }

abbrev feed : PaneCal
feed = record { id = codes "sub:1"; components = none; read_only = true }

abbrev no_tasks : ListPane ℕ
no_tasks = fresh_list

abbrev rows_of : Text → List ℕ
rows_of id = length id ∷ []

-- A calendar without tasks clears the list, and the next change of the filter shows the rows of the
-- calendar before it again.
abbrev stale : List ListEvent
stale = load home ∷ answer ∷ load plain ∷ filter ∷ []

stale_rows : run_list tasks_component rows_of stale fresh_list ≡ record {
  memo = some (codes "w");
  cal_id = none;
  rows = 2 ∷ [];
  shown = 2 ∷ [];
  note = true;
  pending = [];
}
unfolding run_list handle_list load_pane same_id accepts load_rows rows_loaded render_rows
stale_rows = refl

abbrev switched : List ListEvent
switched = load home ∷ load work ∷ answer ∷ filter ∷ answer ∷ []

run_list-settled_example :
    (run_list tasks_component rows_of switched fresh_list).shown ≡ rows_of (codes "w")
unfolding run_list handle_list load_pane same_id accepts load_rows rows_loaded render_rows
run_list-settled_example =
    run_list-settled tasks_component rows_of switched (codes "w")
      (refl, (refl, (tt, (tt, (tt, tt))))) refl refl

-- The pane of rules asks for the rules also if a subscription is selected first.
rules_first : (load_rules feed fresh_scope).requests ≡ codes "/api/rules" ∷ []
unfolding load_rules same_id load_scope
rules_first = refl

categories_second :
    (show_categories (feed ∷ work ∷ feed ∷ []) fresh_scope).requests
    ≡ codes "/api/categories?calendar_id=w" ∷ codes "/api/categories" ∷ []
unfolding show_categories load_categories same_id load_scope
categories_second = refl
