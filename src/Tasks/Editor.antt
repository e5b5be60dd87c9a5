-- ===== src/Tasks/Editor.antt =====
-- The task editor of tasks.js: `openEditor`, `readNumber` and `saveEditor`, with the page's fields.
-- What a field makes of a text set as its value, and the local time of an instant, are the browser's.
use cal_stack.Base.{
  ℕ, Bool, Option, none, some, List, [], ◌∷◌, ◌++◌, ltb, if◌then◌else◌, any, keep, map, Text, codes,
  text_eq, text_or?, text_or_null, truthy, truthy?, trim, split_on, show_nat, ParsedInt, nan, plus,
  minus, parse_int, ◌>>=◌,
}
use cal_stack.Tasks.{Task}
use cal_stack.Tasks.Descendants.{Picker, fill_parent_picker}

-- The local date and time of an instant.
pub record LocalTime : Type 0 where
  pub year : ℕ
  pub month : ℕ
  pub day : ℕ
  pub hours : ℕ
  pub minutes : ℕ

-- `p(n)`
unfoldable pub pad : ℕ → Text
pad n = if ltb n 10 then b'0' ∷ show_nat n else show_nat n

-- `toLocalInput`, from the fields of the local time.
unfoldable pub to_local_input : LocalTime → Text
unfolding pad
to_local_input d =
    show_nat d.year
    ++ (b'-'
        ∷ (pad d.month ++ (b'-' ∷ (pad d.day ++ (b'T' ∷ (pad d.hours ++ (b':' ∷ pad d.minutes)))))))

pub record Browser : Type 0 where
  pub number_value : Text → Text
  pub date_value : Text → Text
  pub datetime_value : Text → Text
  pub local_time : Text → LocalTime
  -- `new Date(value).toISOString()`, which throws at a value that is no date.
  pub to_iso_string : Text → Option Text

-- The fields of the editor; the value of a list with nothing selected is null.
pub record TaskForm : Type 0 where
  pub summary : Text
  pub desc : Text
  pub all_day : Bool
  pub due_date : Text
  pub due_at : Text
  pub priority : Text
  pub status : Option Text
  pub percent : Text
  pub categories : Text
  pub parent_uid : Option Text

abbrev pub status_options : List Text
status_options =
    [] ∷ codes "NEEDS-ACTION" ∷ codes "IN-PROCESS" ∷ codes "COMPLETED" ∷ codes "CANCELLED" ∷ []

unfoldable pub select_status : Text → Option Text
unfolding text_eq
select_status v = if any (text_eq v) status_options then some v else none

abbrev pub show_number : Option ℕ → Text
show_number none = []
show_number (some n) = show_nat n

-- `list.join(', ')`
unfoldable pub join_comma : List Text → Text
join_comma [] = []
join_comma (c ∷ []) = c
join_comma (c ∷ d ∷ cs) = c ++ (codes ", " ++ join_comma (d ∷ cs))

abbrev pub categories_text : Option (List Text) → Text
categories_text none = []
categories_text (some cs) = join_comma cs

module _ (b : Browser) where
  abbrev pub due_at_value : Option Text → Text
  due_at_value none = []
  due_at_value (some []) = []
  due_at_value (some (c ∷ s)) = to_local_input (b.local_time (c ∷ s))

  -- What `openEditor` writes into the fields for a task, given the picker of its parent.
  unfoldable pub task_form : Task → Picker → TaskForm
  task_form t p = record {
    summary = text_or? t.summary [];
    desc = text_or? t.description_text [];
    all_day = truthy? t.due_date;
    due_date = b.date_value (text_or? t.due_date []);
    due_at = b.datetime_value (due_at_value t.due_at);
    priority = b.number_value (show_number t.priority);
    status = select_status (text_or? t.status []);
    percent = b.number_value (show_number t.percent_complete);
    categories = categories_text t.categories;
    parent_uid = p.selected;
  }

  -- `openEditor` for a task of the list; `none` means that its search ran out of fuel.
  unfoldable pub open_editor : List Task → Task → Option TaskForm
  open_editor tasks t = fill_parent_picker tasks (some t) >>= λ p. some (task_form t p)

abbrev pub in_range : ℕ → ParsedInt → Option ℕ
in_range max nan = none
in_range max (minus n) = if ltb 0 n then none else some 0
in_range max (plus n) = if ltb max n then none else some n

-- `readNumber`
unfoldable pub read_number : Text → ℕ → Option ℕ
read_number v max = if truthy (trim v) then in_range max (parse_int (trim v)) else none

-- The body of `PATCH /api/tasks/{id}`; the due fields are left out unless they are set.
pub record TaskBody : Type 0 where
  pub summary : Text
  pub description_text : Option Text
  pub priority : Option ℕ
  pub status : Option Text
  pub percent_complete : Option ℕ
  pub categories : List Text
  pub parent_uid : Option Text
  pub due_date : Option Text
  pub due_at : Option Text

-- `split(',').map(trim).filter(Boolean)`
unfoldable pub read_categories : Text → List Text
read_categories s = keep truthy (map trim (split_on b',' s))

-- How `saveEditor` ends: nothing to save, a request sent, or an exception. Only in the first case
-- it returns a promise; after a request it returns undefined.
pub data Saved : Type 0 where
  nothing : Saved
  sent : Text → TaskBody → Saved
  threw : Saved

module _ (b : Browser) where
  -- The due date of an all-day task, the due time of another one; `none` where `toISOString` throws.
  unfoldable pub read_due : TaskForm → Option (Option Text × Option Text)
  read_due f =
      if f.all_day
      then some (text_or_null f.due_date, none)
      else if truthy f.due_at
      then (b.to_iso_string f.due_at >>= λ at. some (none, some at))
      else some (none, none)

  unfoldable pub task_body : TaskForm → Option TaskBody
  task_body f = do
    parent ← f.parent_uid
    due ← read_due f
    some (record {
      summary = trim f.summary;
      description_text = text_or_null (trim f.desc);
      priority = read_number f.priority 9;
      status = text_or_null (text_or? f.status []);
      percent_complete = read_number f.percent 100;
      categories = read_categories f.categories;
      parent_uid = text_or_null (trim parent);
      due_date = due.0;
      due_at = due.1;
    })

  abbrev pub send_body : Task → Option TaskBody → Saved
  send_body t none = threw
  send_body t (some body) = sent (codes "/api/tasks/" ++ t.id) body

  -- `saveEditor`
  unfoldable pub save_editor : Option Task → TaskForm → Saved
  save_editor none f = nothing
  save_editor (some t) f = send_body t (task_body f)
