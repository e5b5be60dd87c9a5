-- ===== src/Journals/Filed.antt =====
-- Each row of the list of journals.js stands below the header it belongs to.
use Prim.Native.Nat.{Ordering}
use cal_stack.Base.{
  ◌≡◌, refl, sym, subst, append_assoc, Bool, true, false, not, Bool-cases, inl, inr, Option, none,
  some, List, [], ◌∷◌, ◌++◌, if◌then◌else◌, map, keep, is_empty, All, All-append, Text, text_eq,
  text_eq_sound,
}
use cal_stack.Journals.{
  Journal, month_key, sort_journals, Months, add_to_month, by_month, text_lt, insert_month,
  sort_months, ListItem, month, undated_notes, row, no_journals, month_items, undated_items,
  has_date, matches, render,
}

-- A journal under the header of a month has that month, and one under the notes has no date.
abbrev pub Under : Option Text → Journal → Type 0
Under none j = has_date j ≡ false
Under (some key) j = month_key j ≡ key

-- The rows of a list, read with the header that was seen last.
abbrev pub AllUnder : Option Text → List ListItem → Type 0
AllUnder header [] = Unit {0}
AllUnder header (month key ∷ items) = AllUnder (some key) items
AllUnder header (undated_notes ∷ items) = AllUnder none items
AllUnder header (row j ∷ items) = Under header j × AllUnder header items
AllUnder header (no_journals ∷ items) = AllUnder header items

Filed : Months → Type 0
Filed = All (λ m. All (Under (some m.0)) m.1)

Filed-add_to_month :
    (j : Journal) (ms : Months) → Filed ms → Filed (add_to_month (month_key j) j ms)
unfolding add_to_month Filed
Filed-add_to_month j [] h = ((refl, tt), tt)
Filed-add_to_month j ((k, js) ∷ ms) h = elim (Bool-cases (text_eq k (month_key j))) [
  | inl e ↦
      rw e (
        All-append (Under (some k)) js (j ∷ []) h.0 (sym (text_eq_sound k (month_key j) e), tt),
        h.1,
      )
  | inr e ↦ rw e (h.0, Filed-add_to_month j ms h.1)
]

Filed-by_month : (js : List Journal) (ms : Months) → Filed ms → Filed (by_month js ms)
unfolding by_month
Filed-by_month [] ms h = h
Filed-by_month (j ∷ js) ms h =
    Filed-by_month js (add_to_month (month_key j) j ms) (Filed-add_to_month j ms h)

Filed-insert_month :
    (m : Text × List Journal) (ms : Months)
    → All (Under (some m.0)) m.1
    → Filed ms
    → Filed (insert_month m ms)
unfolding insert_month Filed
Filed-insert_month m [] g h = (g, tt)
Filed-insert_month m (n ∷ ns) g h = elim (Bool-cases (text_lt m.0 n.0)) [
  | inl e ↦ rw e (h.0, Filed-insert_month m ns g h.1)
  | inr e ↦ rw e (g, h)
]

Filed-sort_months : (ms : Months) → Filed ms → Filed (sort_months ms)
unfolding sort_months Filed
Filed-sort_months [] h = h
Filed-sort_months (m ∷ ms) h = Filed-insert_month m (sort_months ms) h.0 (Filed-sort_months ms h.1)

AllUnder-rows :
    (header : Option Text) (js : List Journal) (items : List ListItem)
    → All (Under header) js
    → AllUnder header items
    → AllUnder header (map row js ++ items)
AllUnder-rows header [] items h a = a
AllUnder-rows header (j ∷ js) items h a = (h.0, AllUnder-rows header js items h.1 a)

AllUnder-month_items :
    (ms : Months) (header : Option Text) (items : List ListItem)
    → Filed ms
    → ((header : Option Text) → AllUnder header items)
    → AllUnder header (month_items ms ++ items)
unfolding month_items Filed
AllUnder-month_items [] header items h a = a header
AllUnder-month_items ((key, js) ∷ ms) header items h a =
    subst (AllUnder (some key)) (sym (append_assoc (map row js) (month_items ms) items)) (
      AllUnder-rows (some key) js (month_items ms ++ items) h.0
        (AllUnder-month_items ms (some key) items h.1 a))

AllUnder-end :
    (header : Option Text) (b : Bool) → AllUnder header (if b then no_journals ∷ [] else [])
AllUnder-end header true = tt
AllUnder-end header false = tt

All-undated : (rows : List Journal) → All (Under none) (keep (λ j. not (has_date j)) rows)
All-undated [] = tt
All-undated (j ∷ rows) = elim (Bool-cases (has_date j)) [
  | inl e ↦ rw e (All-undated rows)
  | inr e ↦ rw e (e, All-undated rows)
]

AllUnder-undated :
    (js : List Journal) (header : Option Text) (items : List ListItem)
    → All (Under none) js
    → ((header : Option Text) → AllUnder header items)
    → AllUnder header (undated_items js ++ items)
AllUnder-undated [] header items h a = a header
AllUnder-undated (j ∷ js) header items h a = AllUnder-rows none (j ∷ js) items h (a none)

-- Each journal of the list stands under the header of its own month, or under the notes if it has no
-- date, whatever the collation is.
pub render-AllUnder :
    (lower : Text → Text) (collate : Text → Text → Ordering) (journals : List Journal)
    (query : Text)
    → AllUnder none (render lower collate journals query)
unfolding render
render-AllUnder lower collate journals query =
    let rows = keep (matches lower query) journals in
    AllUnder-month_items (sort_months (by_month (sort_journals collate (keep has_date rows)) []))
      none _
      (Filed-sort_months _
        (Filed-by_month (sort_journals collate (keep has_date rows)) [] (unfold Filed in tt)))
      (λ header.
        AllUnder-undated (keep (λ j. not (has_date j)) rows) header _ (All-undated rows)
          (λ h. AllUnder-end h (is_empty rows)))
