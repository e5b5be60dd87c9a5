-- ===== src/Calendars/Import.antt =====
-- The import of a file into a new calendar in app.js: the name that `#cal-import-file` suggests, and
-- what follows the answer to the submit of `#calendar-form`.
use cal_stack.Base.{
  ℕ, ◌+◌, ◌≡◌, Bool, true, false, ◌&&◌, ◌||◌, Option, none, some, List, [], ◌∷◌, leb, ◌==◌,
  if◌then◌else◌, find, drop, length, In, inl, inr, refl, sym, ap, Bool-cases, Text, codes, text_or,
  text_or?, starts_with, truthy, trim, map, ◌>>=◌,
}
use cal_stack.Calendars.Form.{CalRow}

-- The end of a line for `^` and `$` with the flag m, and for `.`.
abbrev is_line_end : ℕ → Bool
is_line_end c = (c == 10) || (c == 13) || (c == 0x2028) || (c == 0x2029)

head_line : ℕ → List Text → List Text
head_line c [] = (c ∷ []) ∷ []
head_line c (l ∷ ls) = (c ∷ l) ∷ ls

unfoldable pub lines_of : Text → List Text
unfolding head_line
lines_of [] = [] ∷ []
lines_of (c ∷ s) = let rest = lines_of s in if is_line_end c then [] ∷ rest else head_line c rest

-- A letter in the flag i, for letters of ASCII.
abbrev fold_case : ℕ → ℕ
fold_case c = if leb b'A' c && leb c b'Z' then c + 32 else c

unfoldable pub starts_folded : Text → Text → Bool
unfolding starts_with
starts_folded q s = starts_with (map fold_case q) (map fold_case s)

abbrev pub name_key : Text
name_key = codes "X-WR-CALNAME:"

-- `/^X-WR-CALNAME:(.*)$/im.exec`, its group.
unfoldable pub calendar_name : Text → Option Text
unfolding lines_of starts_folded
calendar_name content =
    find (starts_folded name_key) (lines_of content) >>= λ l. some (drop (length name_key) l)

-- `.replace(/\.ics$/i, '')`
unfoldable pub strip_ics : Text → Text
strip_ics [] = []
strip_ics (c ∷ s) =
    let rest = strip_ics s in
    if starts_folded (codes ".ics") (c ∷ s) && (length s == 3) then [] else c ∷ rest

-- The name after a file was chosen.
unfoldable pub suggested_name : Text → Text → Text → Text
unfolding calendar_name strip_ics trim
suggested_name name file_name content =
    if truthy (trim name)
    then name
    else text_or (trim (text_or? (calendar_name content) [])) (strip_ics file_name)

-- What the submit handler asks of the server and of the page.
pub data Ask : Type 0 where
  post_calendar : Ask
  patch_calendar : Text → Ask
  load_calendars : Ask
  import_file : Text → Ask
  delete_calendar : Text → Ask

-- `importFile`, for the calendar that is edited.
abbrev pub has_import : Option CalRow → Bool → Bool
has_import none file = file
has_import (some cal) file = false

-- After the answer to the import; a deletion is followed by a load.
abbrev pub after_import : Text → Bool → List Ask
after_import id true = []
after_import id false = delete_calendar id ∷ load_calendars ∷ []

-- After the answer to the request, with the id in it.
abbrev pub after_saved : Bool → Option Text → Bool → List Ask
after_saved file none ok = load_calendars ∷ []
after_saved file (some id) ok =
    load_calendars ∷ (if file && truthy id then import_file id ∷ after_import id ok else [])

abbrev pub first_ask : Option CalRow → Ask
first_ask none = post_calendar
first_ask (some cal) = patch_calendar cal.id

-- The requests of a submit whose fields are valid, if the server accepts the first one: the calendar
-- that is edited, whether a file is chosen, the id in the answer, and whether the import succeeds.
unfoldable pub submit_asks : Option CalRow → Bool → Option Text → Bool → List Ask
submit_asks editing file created ok =
    first_ask editing ∷ after_saved (has_import editing file) created ok

no_file-delete_calendar :
    (created : Option Text) (ok : Bool) (id : Text)
    → ¬ (In (delete_calendar id) (after_saved false created ok))
no_file-delete_calendar none ok id (inl e) = cc (e)
no_file-delete_calendar none ok id (inr i) = elim i [ ]
no_file-delete_calendar (some made) ok id (inl e) = cc (e)
no_file-delete_calendar (some made) ok id (inr i) = elim i [ ]

after_import-delete_calendar :
    (made : Text) (ok : Bool) (id : Text)
    → In (delete_calendar id) (import_file made ∷ after_import made ok)
    → (ok ≡ false) × (id ≡ made)
after_import-delete_calendar made ok id (inl e) = absurd (cc (e))
after_import-delete_calendar made true id (inr i) = elim i [ ]
after_import-delete_calendar made false id (inr (inl e)) = (refl, cc (e))
after_import-delete_calendar made false id (inr (inr (inl e))) = absurd (cc (e))
after_import-delete_calendar made false id (inr (inr (inr i))) = elim i [ ]

-- Only a calendar that this very submit made is deleted, and only after the import of the file into
-- it failed: never one that was edited.
pub submit_asks-delete_calendar :
    (editing : Option CalRow) (file : Bool) (created : Option Text) (ok : Bool) (id : Text)
    → In (delete_calendar id) (submit_asks editing file created ok)
    → (editing ≡ none)
      × (created ≡ some id)
      × (file ≡ true)
      × (ok ≡ false)
      × In (import_file id) (submit_asks editing file created ok)
unfolding submit_asks
submit_asks-delete_calendar (some cal) file created ok id (inl e) = absurd (cc (e))
submit_asks-delete_calendar (some cal) file created ok id (inr i) =
    absurd (no_file-delete_calendar created ok id i)
submit_asks-delete_calendar none false created ok id (inl e) = absurd (cc (e))
submit_asks-delete_calendar none false created ok id (inr i) =
    absurd (no_file-delete_calendar created ok id i)
submit_asks-delete_calendar none true created ok id (inl e) = absurd (cc (e))
submit_asks-delete_calendar none true none ok id (inr (inl e)) = absurd (cc (e))
submit_asks-delete_calendar none true none ok id (inr (inr i)) = elim i [ ]
submit_asks-delete_calendar none true (some made) ok id (inr (inl e)) = absurd (cc (e))
submit_asks-delete_calendar none true (some made) ok id (inr (inr i)) =
    elim (Bool-cases (truthy made)) [
      | inr t ↦ absurd (elim (rw t at i) [ ])
      | inl t ↦
          let (o, same) = after_import-delete_calendar made ok id (rw t at i) in
          (refl, ap some (sym same), refl, o, inr (inr (rw t (inl (ap import_file same)))))
    ]
