-- ===== src/Tasks/Unedited.antt =====
-- Opening the editor of a task and saving it unchanged.
use cal_stack.Base.{
  ℕ, ◌≡◌, refl, sym, ap, ◌∙◌, inl, inr, true, false, Option, none, some, List, [], ◌∷◌, ◌++◌, arith,
  leb, if◌then◌else◌, Bool-cases, All, map, keep, Text, codes, text_or?, text_or_null, or_else,
  truthy, truthy?, trim, trim-show_nat, trim-blank, split_on, split_on-Lacks, split_on-append,
  split_on-cons, Lacks, show_nat, show_nat-cons, parse_int-show_nat, ◌>>=◌,
}
use cal_stack.Tasks.{Task}
use cal_stack.Tasks.Descendants.{Picker, fill_parent_picker}
use cal_stack.Tasks.Editor.{
  Browser, due_at_value, TaskForm, TaskBody, sent, select_status, show_number, join_comma,
  categories_text, open_editor, task_form, read_number, read_categories, read_due, task_body,
  save_editor,
}

-- A number that the editor shows is read back if it is within the bound, and dropped if it is not.
read_number-show_nat :
    (n max : ℕ) → read_number (show_nat n) max ≡ (if leb n max then some n else none)
unfolding read_number
read_number-show_nat n max =
    let (c, s, e) = show_nat-cons n in
    rw (trim-show_nat n, parse_int-show_nat n) (rw (ap truthy e) (ground arith))

no_number : (max : ℕ) → read_number [] max ≡ none
unfolding read_number trim
no_number max = refl

read_number-show_number :
    (o : Option ℕ) (max : ℕ) → leb (or_else o 0) max ≡ true → read_number (show_number o) max ≡ o
read_number-show_number none max h = no_number max
read_number-show_number (some n) max h = read_number-show_nat n max ∙ rw h refl

-- A category that the list of the editor keeps: not empty, no white space around, no comma.
pub record IsCategory (c : Text) : Type 0 where
  pub nonempty : truthy c ≡ true
  pub trimmed : trim c ≡ c
  pub no_comma : Lacks b',' c

-- The parts of the joined text, with the blank that stands in front of all but the first.
abbrev blanks : List Text → List Text
blanks [] = []
blanks (c ∷ cs) = (b' ' ∷ c) ∷ blanks cs

split_on-join_comma :
    (c : Text) (cs : List Text)
    → All IsCategory (c ∷ cs)
    → split_on b',' (join_comma (c ∷ cs)) ≡ c ∷ blanks cs
unfolding join_comma
split_on-join_comma c [] h = split_on-Lacks b',' c (h.0).no_comma
split_on-join_comma c (d ∷ cs) h =
    split_on-append b',' c (b' ' ∷ join_comma (d ∷ cs)) (h.0).no_comma
    ∙ ap (c ∷◌) (
        split_on-cons b',' b' ' (join_comma (d ∷ cs)) d (blanks cs) refl
          (split_on-join_comma d cs h.1))

keep-blanks : (cs : List Text) → All IsCategory cs → keep truthy (map trim (blanks cs)) ≡ cs
keep-blanks [] h = refl
keep-blanks (c ∷ cs) h =
    rw (trim-blank c, (h.0).trimmed) (rw ((h.0).nonempty) (ap (c ∷◌) (keep-blanks cs h.1)))

no_category : read_categories (join_comma []) ≡ []
unfolding read_categories join_comma split_on trim
no_category = refl

-- The categories are read back as they were joined.
pub read_categories-join_comma :
    (cs : List Text) → All IsCategory cs → read_categories (join_comma cs) ≡ cs
unfolding read_categories
read_categories-join_comma [] h = no_category
read_categories-join_comma (c ∷ cs) h =
    rw (split_on-join_comma c cs h)
      (rw ((h.0).trimmed) (rw ((h.0).nonempty) (ap (c ∷◌) (keep-blanks cs h.1))))

-- A task that the fields can hold, and whose parent the picker offers.
pub record IsPlain (b : Browser) (t : Task) (p : Picker) : Type 0 where
  pub summary : trim (text_or? t.summary []) ≡ text_or? t.summary []
  pub description : trim (text_or? t.description_text []) ≡ text_or? t.description_text []
  pub priority : leb (or_else t.priority 0) 9 ≡ true
  pub priority_field : b.number_value (show_number t.priority) ≡ show_number t.priority
  pub percent : leb (or_else t.percent_complete 0) 100 ≡ true
  pub percent_field :
      b.number_value (show_number t.percent_complete) ≡ show_number t.percent_complete
  pub status : select_status (text_or? t.status []) ≡ some (text_or? t.status [])
  pub categories : All IsCategory (or_else t.categories [])
  pub parent : p.selected ≡ some (text_or? t.parent_uid [])
  pub parent_trimmed : trim (text_or? t.parent_uid []) ≡ text_or? t.parent_uid []
  pub no_due_at : t.due_at ≡ none
  pub no_due_at_field : b.datetime_value [] ≡ []
  pub due_date_field : b.date_value (text_or? t.due_date []) ≡ text_or? t.due_date []

-- What a request says that changes nothing.
abbrev pub unedited : Task → TaskBody
unedited t = record {
  summary = text_or? t.summary [];
  description_text = text_or_null (text_or? t.description_text []);
  priority = t.priority;
  status = text_or_null (text_or? t.status []);
  percent_complete = t.percent_complete;
  categories = or_else t.categories [];
  parent_uid = text_or_null (text_or? t.parent_uid []);
  due_date = text_or_null (text_or? t.due_date []);
  due_at = none;
}

module _ (b : Browser) (t : Task) (p : Picker) (h : IsPlain b t p) where
  categories_text-categories : categories_text t.categories ≡ join_comma (or_else t.categories [])
  categories_text-categories = cases t.categories
    where
      cases : (o : Option (List Text)) → categories_text o ≡ join_comma (or_else o [])
      cases none = unfold join_comma in refl
      cases (some cs) = refl

  read_due-task_form :
      read_due b (task_form b t p) ≡ some (text_or_null (text_or? t.due_date []), none)
  unfolding read_due task_form
  read_due-task_form = elim (Bool-cases (truthy? t.due_date)) [
    | inl due ↦ rw due (ap (λ v. some (text_or_null v, none)) h.due_date_field)
    | inr no_due ↦
        rw no_due (no_due_time ∙ ap (λ v. some (v, none)) (sym (no_date t.due_date no_due)))
  ]
    where
      no_date : (o : Option Text) → truthy? o ≡ false → text_or_null (text_or? o []) ≡ none
      no_date none e = refl
      no_date (some []) e = refl
      no_date (some (c ∷ s)) e = absurd (cc)

      Due : Type 0
      Due = Option (Option Text × Option Text)

      time : Option Text → Due
      time o =
          if truthy (b.datetime_value (due_at_value b o))
          then (b.to_iso_string (b.datetime_value (due_at_value b o)) >>= λ at.
              some (none, some at))
          else some (none, none)

      no_due_time : time t.due_at ≡ some (none, none)
      no_due_time = ap time h.no_due_at ∙ rw (h.no_due_at_field) refl

  task_body-task_form : task_body b (task_form b t p) ≡ some (unedited t)
  unfolding task_body task_form read_due
  task_body-task_form =
      rw (h.parent, read_due-task_form)
        (λ i. some (record {
          summary = h.summary i;
          description_text = text_or_null (h.description i);
          priority =
              (ap (λ v. read_number v 9) h.priority_field
                  ∙ read_number-show_number t.priority 9 h.priority)
                i;
          status =
              text_or_null
                ((ap (λ o. text_or? o []) h.status ∙ status_text (text_or? t.status [])) i);
          percent_complete =
              (ap (λ v. read_number v 100) h.percent_field
                  ∙ read_number-show_number t.percent_complete 100 h.percent)
                i;
          categories =
              (ap read_categories categories_text-categories
                  ∙ read_categories-join_comma _ h.categories)
                i;
          parent_uid = text_or_null (h.parent_trimmed i);
          due_date = text_or_null (text_or? t.due_date []);
          due_at = none;
        }))
    where
      status_text : (s : Text) → text_or? (some s) [] ≡ s
      status_text [] = refl
      status_text (c ∷ s) = refl

-- Saving the editor right after it was opened sends what the task already says, field by field, if
-- the fields of the page can hold the task and the picker offers its parent: no due time, numbers
-- within their bounds, texts with no white space around them, and categories with no comma.
pub save_editor-open_editor :
    (b : Browser) (tasks : List Task) (t : Task) (p : Picker)
    → fill_parent_picker tasks (some t) ≡ some p
    → IsPlain b t p
    → (f : TaskForm) × (open_editor b tasks t ≡ some f)
      × (save_editor b (some t) f ≡ sent (codes "/api/tasks/" ++ t.id) (unedited t))
unfolding open_editor save_editor
save_editor-open_editor b tasks t p e h =
    (task_form b t p, rw e refl, rw (task_body-task_form b t p h) refl)
