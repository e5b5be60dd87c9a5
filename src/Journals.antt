-- ===== src/Journals.antt =====
-- The journals pane, journals.js: the rows under their months, the editor and what it sends.
pub mod Editor
pub mod Groups
pub mod Filed
mod Tests
use Prim.Native.Nat.{Ordering}
use cal_stack.Base.{
  ℕ, Bool, true, false, ◌&&◌, ◌||◌, not, Option, none, some, List, [], ◌∷◌, ◌++◌, if◌then◌else◌,
  ltb, ◌==◌, map, keep, is_empty, length, Text, codes, text_eq, text_or?, text_or_null,
  text_or_null?, truthy, truthy?, trim, slice, includes,
}
use cal_stack.Tasks.{is_gt}

-- A row of `GET /api/calendars/{id}/journals`.
pub record Journal : Type 0 where
  pub id : Text
  pub summary : Option Text
  pub description_text : Option Text
  pub status : Option Text
  pub starts_at : Option Text
  pub start_date : Option Text
  pub created_at : Text

-- `dateKey`
unfoldable pub date_key : Journal → Text
date_key j =
    if truthy? j.starts_at then slice 0 10 (text_or? j.starts_at []) else text_or? j.start_date []

-- The month of a dated journal, the key of `byMonth`.
abbrev pub month_key : Journal → Text
month_key j = slice 0 7 (date_key j)

module _ (collate : Text → Text → Ordering) where
  abbrev pub or_compare : Ordering → Ordering → Ordering
  or_compare Ordering.eq o = o
  or_compare Ordering.lt o = Ordering.lt
  or_compare Ordering.gt o = Ordering.gt

  -- The comparison of `sort`: the latest first.
  unfoldable pub compare_journals : Journal → Journal → Ordering
  compare_journals a b =
      or_compare (collate (date_key b) (date_key a)) (collate b.created_at a.created_at)

  -- `sort` is stable.
  unfoldable pub insert_journal : Journal → List Journal → List Journal
  insert_journal j [] = j ∷ []
  insert_journal j (k ∷ ks) =
      let rest = insert_journal j ks in
      if is_gt (compare_journals j k) then k ∷ rest else j ∷ k ∷ ks

  unfoldable pub sort_journals : List Journal → List Journal
  unfolding insert_journal
  sort_journals [] = []
  sort_journals (j ∷ js) = insert_journal j (sort_journals js)

-- `byMonth`, in the order in which its keys were added.
abbrev pub Months : Type 0
Months = List (Text × List Journal)

unfoldable pub add_to_month : Text → Journal → Months → Months
unfolding text_eq
add_to_month key j [] = (key, j ∷ []) ∷ []
add_to_month key j ((k, js) ∷ months) =
    let rest = add_to_month key j months in
    if text_eq k key then (k, js ++ (j ∷ [])) ∷ months else (k, js) ∷ rest

unfoldable pub by_month : List Journal → Months → Months
unfolding add_to_month
by_month [] months = months
by_month (j ∷ js) months = by_month js (add_to_month (month_key j) j months)

-- The order of `sort()` on keys, by their code units.
unfoldable pub text_lt : Text → Text → Bool
text_lt s [] = false
text_lt [] (d ∷ t) = true
text_lt (c ∷ s) (d ∷ t) = ltb c d || ((c == d) && text_lt s t)

-- `sort().reverse()` of distinct keys, with the journals of each.
unfoldable pub insert_month : Text × List Journal → Months → Months
unfolding text_lt
insert_month m [] = m ∷ []
insert_month m (n ∷ ns) =
    let rest = insert_month m ns in if text_lt m.0 n.0 then n ∷ rest else m ∷ n ∷ ns

unfoldable pub sort_months : Months → Months
unfolding insert_month
sort_months [] = []
sort_months (m ∷ ms) = insert_month m (sort_months ms)

-- What the list shows: the header of a month or of the notes without a date, a journal, or the line
-- "No journals.".
pub data ListItem : Type 0 where
  month : Text → ListItem
  undated_notes : ListItem
  row : Journal → ListItem
  no_journals : ListItem

unfoldable pub month_items : Months → List ListItem
month_items [] = []
month_items ((key, js) ∷ months) = (month key ∷ map row js) ++ month_items months

abbrev pub undated_items : List Journal → List ListItem
undated_items [] = []
undated_items (j ∷ js) = undated_notes ∷ map row (j ∷ js)

abbrev pub has_date : Journal → Bool
has_date j = truthy (date_key j)

module _ (lower : Text → Text) where
  -- The test of the filter.
  unfoldable pub matches : Text → Journal → Bool
  unfolding trim includes
  matches query j =
      let q = lower (trim query) in not (truthy q) || includes q (lower (text_or? j.summary []))

module _ (lower : Text → Text) (collate : Text → Text → Ordering) where
  -- `render`; the label of a month is printed from its key.
  unfoldable pub render : List Journal → Text → List ListItem
  unfolding matches sort_journals by_month sort_months month_items
  render journals query =
      let rows = keep (matches lower query) journals in
      month_items (sort_months (by_month (sort_journals collate (keep has_date rows)) []))
      ++ (undated_items (keep (λ j. not (has_date j)) rows)
          ++ (if is_empty rows then no_journals ∷ [] else []))

-- What `journalRow` shows of a journal.
pub record JournalRow : Type 0 where
  pub summary : Text
  pub status : Option Text
  pub date : Option Text
  pub excerpt : Option Text

abbrev pub shorten : Text → Text
shorten text = if ltb 160 (length text) then slice 0 160 text ++ codes "…" else text

module _ (fmt_date : Journal → Text) where
  unfoldable pub journal_row : Journal → JournalRow
  unfolding trim
  journal_row j = record {
    summary = text_or? j.summary (codes "(no summary)");
    status = text_or_null? j.status;
    date = if has_date j then some (fmt_date j) else none;
    excerpt =
        if truthy (trim (text_or? j.description_text []))
        then some (shorten (trim (text_or? j.description_text [])))
        else none;
  }
