-- ===== src/Journals/Groups.antt =====
-- The list of journals.js shows every journal that matches once, under the month of its date.
use Prim.Native.Nat.{Ordering}
use cal_stack.Base.{
  ℕ, ◌+◌, ◌≡◌, refl, ap, ◌∙◌, Bool, true, false, not, Bool-cases, inl, inr, List, [], ◌∷◌, ◌++◌,
  if◌then◌else◌, arith, map, keep, is_empty, Text, text_eq,
}
use cal_stack.Tasks.{is_gt}
use cal_stack.Journals.{
  Journal, month_key, compare_journals, insert_journal, sort_journals, Months, add_to_month,
  by_month, text_lt, insert_month, sort_months, ListItem, month, undated_notes, row, no_journals,
  month_items, undated_items, has_date, matches, render,
}

module _ (p : Journal → Bool) where
  -- How many journals of a list have a property.
  abbrev pub count : List Journal → ℕ
  count [] = 0
  count (j ∷ js) = (if p j then 1 else 0) + count js

  count-append : (js ks : List Journal) → count (js ++ ks) ≡ count js + count ks
  count-append [] ks = omega arith
  count-append (j ∷ js) ks = omega (arith, count-append js ks)

  count-insert :
      (collate : Text → Text → Ordering) (j : Journal) (js : List Journal)
      → count (insert_journal collate j js) ≡ count (j ∷ js)
  unfolding insert_journal
  count-insert collate j [] = refl
  count-insert collate j (k ∷ ks) = elim (Bool-cases (is_gt (compare_journals collate j k))) [
    | inl e ↦ rw e (omega (arith, count-insert collate j ks))
    | inr e ↦ rw e refl
  ]

  count-sort :
      (collate : Text → Text → Ordering) (js : List Journal)
      → count (sort_journals collate js) ≡ count js
  unfolding sort_journals
  count-sort collate [] = refl
  count-sort collate (j ∷ js) =
      count-insert collate j (sort_journals collate js)
      ∙ ap (λ n. (if p j then 1 else 0) + n) (count-sort collate js)

  abbrev count_months : Months → ℕ
  count_months [] = 0
  count_months (m ∷ ms) = count m.1 + count_months ms

  count-add_to_month :
      (key : Text) (j : Journal) (ms : Months)
      → count_months (add_to_month key j ms) ≡ (if p j then 1 else 0) + count_months ms
  unfolding add_to_month
  count-add_to_month key j [] = omega arith
  count-add_to_month key j ((k, js) ∷ ms) = elim (Bool-cases (text_eq k key)) [
    | inl e ↦ rw e (omega (arith, count-append js (j ∷ [])))
    | inr e ↦ rw e (omega (arith, count-add_to_month key j ms))
  ]

  count-by_month :
      (js : List Journal) (ms : Months) → count_months (by_month js ms) ≡ count js + count_months ms
  unfolding by_month
  count-by_month [] ms = omega arith
  count-by_month (j ∷ js) ms = omega (
    arith,
    count-by_month js (add_to_month (month_key j) j ms),
    count-add_to_month (month_key j) j ms,
  )

  count-insert_month :
      (m : Text × List Journal) (ms : Months)
      → count_months (insert_month m ms) ≡ count_months (m ∷ ms)
  unfolding insert_month
  count-insert_month m [] = refl
  count-insert_month m (n ∷ ns) = elim (Bool-cases (text_lt m.0 n.0)) [
    | inl e ↦ rw e (omega (arith, count-insert_month m ns))
    | inr e ↦ rw e refl
  ]

  count-sort_months : (ms : Months) → count_months (sort_months ms) ≡ count_months ms
  unfolding sort_months
  count-sort_months [] = refl
  count-sort_months (m ∷ ms) =
      omega (arith, count-insert_month m (sort_months ms), count-sort_months ms)

  -- How many rows of the list show a journal with the property.
  abbrev pub count_shown : List ListItem → ℕ
  count_shown [] = 0
  count_shown (row j ∷ items) = (if p j then 1 else 0) + count_shown items
  count_shown (month key ∷ items) = count_shown items
  count_shown (undated_notes ∷ items) = count_shown items
  count_shown (no_journals ∷ items) = count_shown items

  count_shown-append :
      (xs ys : List ListItem) → count_shown (xs ++ ys) ≡ count_shown xs + count_shown ys
  count_shown-append [] ys = omega arith
  count_shown-append (row j ∷ xs) ys = omega (arith, count_shown-append xs ys)
  count_shown-append (month key ∷ xs) ys = count_shown-append xs ys
  count_shown-append (undated_notes ∷ xs) ys = count_shown-append xs ys
  count_shown-append (no_journals ∷ xs) ys = count_shown-append xs ys

  count_shown-map : (js : List Journal) → count_shown (map row js) ≡ count js
  count_shown-map [] = refl
  count_shown-map (j ∷ js) = ap (λ n. (if p j then 1 else 0) + n) (count_shown-map js)

  count_shown-months : (ms : Months) → count_shown (month_items ms) ≡ count_months ms
  unfolding month_items
  count_shown-months [] = refl
  count_shown-months ((key, js) ∷ ms) = omega (
    arith,
    count_shown-append (map row js) (month_items ms),
    count_shown-map js,
    count_shown-months ms,
  )

  count_shown-undated : (js : List Journal) → count_shown (undated_items js) ≡ count js
  count_shown-undated [] = refl
  count_shown-undated (j ∷ js) = count_shown-map (j ∷ js)

  count-split :
      (q : Journal → Bool) (js : List Journal)
      → count (keep q js) + count (keep (λ j. not (q j)) js) ≡ count js
  count-split q [] = refl
  count-split q (j ∷ js) = elim (Bool-cases (q j)) [
    | inl e ↦ rw e (omega (arith, count-split q js))
    | inr e ↦ rw e (omega (arith, count-split q js))
  ]

  count_shown-none : (b : Bool) → count_shown (if b then no_journals ∷ [] else []) ≡ 0
  count_shown-none true = refl
  count_shown-none false = refl

  -- The list shows each journal that matches the search as often as it is among the journals, and no
  -- other one: for every property, as many rows have it as matching journals do, whatever the
  -- collation is.
  pub count_shown-render :
      (lower : Text → Text) (collate : Text → Text → Ordering) (journals : List Journal)
      (query : Text)
      → count_shown (render lower collate journals query)
        ≡ count (keep (matches lower query) journals)
  unfolding render
  count_shown-render lower collate journals query =
      let rows = keep (matches lower query) journals in
      let dated = sort_journals collate (keep has_date rows) in
      let notes = keep (λ j. not (has_date j)) rows in
      let end : List ListItem = if is_empty rows then no_journals ∷ [] else [] in
      omega (
        arith,
        count_shown-append (month_items (sort_months (by_month dated [])))
            (undated_items notes ++ end),
        count_shown-append (undated_items notes) end,
        count_shown-months (sort_months (by_month dated [])),
        count-sort_months (by_month dated []),
        count-by_month dated [],
        count-sort collate (keep has_date rows),
        count_shown-undated notes,
        count-split has_date rows,
        count_shown-none (is_empty rows),
      )
