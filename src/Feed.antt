-- ===== src/Feed.antt =====
-- The data feed of the calendar widget in app.js: `toAppointment`, `toIso`, `toIsoExclusiveEnd`,
-- `weekViewDateRange`, `occurrencesUrl`, `occurrencesFor` and `eventsUrl`. Times are milliseconds
-- since 1970; what the browser makes of a text or of a time is a parameter. Two calendars are the same
-- object exactly if they have the same id.
pub mod Sorted
pub mod Window
pub mod Clicked
mod Tests
use cal_stack.Base.{
  ℕ, ◌+◌, ◌-◌, Bool, true, false, not, ◌&&◌, Option, none, some, List, [], ◌∷◌, ◌++◌, map, ◌==◌,
  if◌then◌else◌, is_some, or_else, Text, codes, text_eq, text_or?, truthy, truthy?, show_nat, ◌>>=◌,
}
use cal_stack.Times.{pad, is_plain_date}
use cal_stack.Tasks.Editor.{LocalTime}
use cal_stack.Events.{EventRow, Occurrence, timed, on_day}
use cal_stack.Journals.{text_lt}
use cal_stack.Categories.{category_color_hex}
use cal_stack.Feed.Sorted.{sort_texts, last_text}

-- `new Date(text)`, its local fields with the seconds, `toISOString`, and the encoding of a parameter.
pub record Clock : Type 0 where
  pub time_of : Text → Option ℕ
  pub fields : ℕ → LocalTime × ℕ
  pub iso_of_time : ℕ → Text
  pub encode : Text → Text

-- What the feed reads of a calendar.
pub record FeedCal : Type 0 where
  pub id : Text
  pub name : Text
  pub subscription_id : Option Text
  pub color : Option Text
  pub unified : Bool

-- A row of the answer: the event, the colors of its categories, and the occurrence.
pub record FeedRow : Type 0 where
  pub event : EventRow
  pub colors : List (Option Text)
  pub occurrence : Option Occurrence

-- What the widget gets.
pub record FeedItem : Type 0 where
  pub id : Text
  pub title : Text
  pub start : Text
  pub end : Text
  pub all_day : Bool
  pub color : Text
  pub occ : Option Occurrence

-- `new Date` of a value that may be null, which is the epoch.
abbrev pub date_of : (Text → Option ℕ) → Option Text → Option ℕ
date_of time_of none = some 0
date_of time_of (some s) = time_of s

-- `a || b` for two values that may be null.
abbrev pub first_text : Option Text → Option Text → Option Text
first_text none b = b
first_text (some s) b = if truthy s then some s else b

abbrev pub text_of_clock : LocalTime × ℕ → Text
text_of_clock (d, seconds) =
    show_nat d.year
    ++ (b'-' ∷ pad d.month)
    ++ (b'-' ∷ pad d.day)
    ++ (b' ' ∷ pad d.hours)
    ++ (b':' ∷ pad d.minutes)
    ++ (b':' ∷ pad seconds)

module _ (b : Clock) where
  -- `fmt`
  unfoldable pub fmt : Option ℕ → Text
  fmt none = codes "NaN-NaN-NaN NaN:NaN:NaN"
  fmt (some t) = text_of_clock (b.fields t)

  -- The end of a timed occurrence: its start and the duration of the event.
  abbrev pub shifted_end : EventRow → Option ℕ → Option ℕ
  shifted_end ev at =
      if truthy? ev.starts_at && truthy? ev.ends_at
      then (do
        t ← at
        e ← date_of b.time_of ev.ends_at
        s ← date_of b.time_of ev.starts_at
        some (t + e - s))
      else at

  -- `start` and `end`
  unfoldable pub span : EventRow → Option Occurrence → Option ℕ × Option ℕ
  span ev (some (timed at)) = (b.time_of at, shifted_end ev (b.time_of at))
  span ev (some (on_day date)) =
      (b.time_of (date ++ codes "T00:00:00"), b.time_of (date ++ codes "T00:00:00"))
  span ev none =
      let first = first_text ev.starts_at ev.start_date in
      (
        date_of b.time_of first,
        date_of b.time_of (first_text ev.ends_at (first_text ev.end_date first)),
      )

  -- `toAppointment`, for the selected calendar and that of the row.
  unfoldable pub to_appointment : FeedCal → FeedCal → FeedRow → FeedItem
  unfolding fmt span text_eq category_color_hex
  to_appointment current cal row =
      let (start, end) = span row.event row.occurrence in
      record {
        id = row.event.id;
        title =
            text_or? row.event.summary (codes "(untitled)")
            ++ (if text_eq cal.id current.id then [] else codes " — " ++ cal.name);
        start = fmt start;
        end = fmt end;
        all_day = truthy? row.event.start_date;
        color = or_else (category_color_hex row.colors) (text_or? cal.color (codes "#1554C0"));
        occ = row.occurrence;
      }

-- `value.replace(' ', 'T')`
unfoldable pub put_t : Text → Text
put_t [] = []
put_t (c ∷ s) = let rest = put_t s in if c == b' ' then b'T' ∷ s else c ∷ rest

-- `/Z$/.test`
unfoldable pub ends_z : Text → Bool
ends_z [] = false
ends_z (c ∷ []) = c == b'Z'
ends_z (c ∷ d ∷ s) = ends_z (d ∷ s)

-- `toIso`
unfoldable pub to_iso : Text → Text
unfolding put_t ends_z is_plain_date
to_iso [] = []
to_iso (c ∷ s) =
    let text = put_t (c ∷ s) in
    if is_plain_date text
    then text ++ codes "T00:00:00Z"
    else if ends_z text
    then text
    else text ++ codes "Z"

abbrev pub day_ms : ℕ
day_ms = 86400000

module _ (b : Clock) where
  -- `toIsoExclusiveEnd`; `toISOString` of an invalid date throws.
  unfoldable pub to_iso_exclusive_end : Text → Option Text
  unfolding is_plain_date
  to_iso_exclusive_end value =
      if is_plain_date value
      then (b.time_of (value ++ codes "T00:00:00Z") >>= λ d. some (b.iso_of_time (d + day_ms)))
      else some (to_iso value)

-- What the widget asks for.
pub record RequestData : Type 0 where
  pub view : Text
  pub from_date : Text
  pub to_date : Text

abbrev pub ends_of : RequestData → List Text → Text × Text
ends_of r [] = (r.from_date, r.to_date)
ends_of r (d ∷ dates) = (d, last_text d dates)

-- `weekViewDateRange`, with the `data-date` of the headers of the days.
unfoldable pub week_view_date_range : RequestData → List Text → Text × Text
unfolding sort_texts text_eq
week_view_date_range r headers =
    if text_eq r.view (codes "week")
    then ends_of r (sort_texts headers)
    else (r.from_date, r.to_date)

module _ (b : Clock) where
  -- `occurrencesUrl`, for the parameters `from` and `to`.
  unfoldable pub occurrences_url : FeedCal → Text × Text → Text
  occurrences_url cal (from, to) =
      let p = codes "from=" ++ b.encode from ++ codes "&to=" ++ b.encode to in
      if truthy? cal.subscription_id
      then codes "/api/subscriptions/"
        ++ or_else cal.subscription_id []
        ++ codes "/occurrences?"
        ++ p
      else codes "/api/calendars/"
        ++ cal.id
        ++ codes "/occurrences?"
        ++ p
        ++ codes "&include=cancelled"

  -- `params` of `eventsUrl`; none if it throws.
  unfoldable pub window : RequestData → List Text → Option (Text × Text)
  unfolding week_view_date_range to_iso_exclusive_end to_iso
  window r headers = do
    let (from, to) = week_view_date_range r headers
    end ← to_iso_exclusive_end b to
    some (to_iso from, end)

  -- The calendars that `eventsUrl` asks for.
  abbrev pub feeds : FeedCal → List FeedCal → List FeedCal → List FeedCal
  feeds cal calendars subscriptions = if cal.unified then calendars ++ subscriptions else cal ∷ []

  unfoldable pub events_url :
      Option FeedCal → List FeedCal → List FeedCal → RequestData → List Text → Option (List Text)
  unfolding window occurrences_url
  events_url none calendars subscriptions r headers = some []
  events_url (some cal) calendars subscriptions r headers = window r headers >>= λ w.
      some (map (λ c. occurrences_url c w) (feeds cal calendars subscriptions))
