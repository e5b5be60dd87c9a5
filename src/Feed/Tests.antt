-- ===== src/Feed/Tests.antt =====
-- Tests of the data feed, with a clock that knows the days of one month.
use cal_stack.Base.{
  ℕ, ◌+◌, ◌-◌, ◌*◌, ◌≤◌, ◌≡◌, refl, arith, true, false, Option, none, some, List, [], ◌∷◌, In, inl,
  inr, All, All-at, Text, codes, text_eq, show_nat,
}
use cal_stack.Times.{pad, is_plain_date}
use cal_stack.Events.{Occurrence, on_day}
use cal_stack.Events.Samples.{series}
use cal_stack.Events.Menu.{Answer, on_edit, edit_event, series_event}
use cal_stack.Journals.{text_lt}
use cal_stack.Categories.{category_color_hex, hex_of}
use cal_stack.Feed.{
  Clock, FeedCal, FeedRow, RequestData, fmt, span, to_appointment, put_t, ends_z, to_iso,
  to_iso_exclusive_end, day_ms, week_view_date_range, occurrences_url, window, events_url,
}
use cal_stack.Feed.Window.{midnight, window-covers}
use cal_stack.Feed.Sorted.{insert_text, sort_texts}
use cal_stack.Feed.Clicked.{
  Cache, occurrences_for, SameEvents, clicked, series_event-occurrences_for,
}

abbrev start_of : Text → ℕ
start_of (a ∷ b ∷ c ∷ d ∷ p ∷ e ∷ f ∷ q ∷ g ∷ h ∷ rest) = ((g - b'0') * 10 + (h - b'0')) * day_ms
start_of _ = 0

abbrev time_of : Text → Option ℕ
time_of (t ∷ []) = some t
time_of s = some (start_of s)

abbrev clock : Clock
clock = record {
  time_of = time_of;
  fields = λ t. (record { year = 2026; month = 3; day = 1; hours = 9; minutes = 5 }, 7);
  iso_of_time = λ t. t ∷ [];
  encode = λ s. s;
}

abbrev work : FeedCal
work = record {
  id = codes "w";
  name = codes "Work";
  subscription_id = none;
  color = some (codes "#123456");
  unified = false;
}

abbrev holidays : FeedCal
holidays = record {
  id = codes "sub:h";
  name = codes "Holidays";
  subscription_id = some (codes "h");
  color = none;
  unified = false;
}

abbrev everything : FeedCal
everything = record {
  id = codes "all";
  name = codes "All Calendars";
  subscription_id = none;
  color = none;
  unified = true;
}

abbrev row_on : Text → FeedRow
row_on day = record {
  event = series;
  colors = none ∷ some (codes "red") ∷ [];
  occurrence = some (on_day day);
}

shown : to_appointment clock everything holidays (row_on (codes "2026-03-08")) ≡ record {
  id = codes "e1";
  title = codes "Lunch — Holidays";
  start = codes "2026-03-01 09:05:07";
  end = codes "2026-03-01 09:05:07";
  all_day = true;
  color = codes "#d63939";
  occ = some (on_day (codes "2026-03-08"));
}
unfolding to_appointment fmt span text_eq category_color_hex hex_of pad show_nat
shown = refl

blank_time : to_iso (codes "2026-03-08 09:30:00") ≡ codes "2026-03-08T09:30:00Z"
unfolding to_iso put_t ends_z is_plain_date
blank_time = refl

exclusive : to_iso_exclusive_end clock (codes "2026-03-08") ≡ some (9 * day_ms ∷ [])
unfolding to_iso_exclusive_end is_plain_date
exclusive = refl

abbrev week : RequestData
week = record { view = codes "week"; from_date = codes "2026-02-01"; to_date = codes "2026-02-07" }

abbrev headers : List Text
headers = codes "2026-03-09" ∷ codes "2026-03-08" ∷ []

week_range : week_view_date_range week headers ≡ (codes "2026-03-08", codes "2026-03-09")
unfolding week_view_date_range sort_texts insert_text text_lt text_eq
week_range = refl

abbrev month : RequestData
month = record {
  view = codes "month";
  from_date = codes "2026-03-01 00:00:00";
  to_date = codes "2026-03-31Z";
}

requests :
    events_url clock (some everything) (work ∷ []) (holidays ∷ []) month headers
    ≡ some (
        codes
          "/api/calendars/w/occurrences?from=2026-03-01T00:00:00Z&to=2026-03-31Z&include=cancelled"
        ∷ codes "/api/subscriptions/h/occurrences?from=2026-03-01T00:00:00Z&to=2026-03-31Z"
        ∷ [])
unfolding events_url occurrences_url window week_view_date_range to_iso_exclusive_end to_iso put_t
    ends_z is_plain_date text_eq
requests = refl

abbrev InOrder : Text → Text → Type 0
InOrder x y = text_lt y x ≡ false → start_of x ≤ start_of y

later : (x y : Text) → In x headers → In y headers → InOrder x y
unfolding text_lt
later x y i j =
    All-at (InOrder x) y headers (All-at (λ x. All (InOrder x) headers) x headers orders i) j
  where
    orders : All (λ x. All (InOrder x) headers) headers
    orders = (
      ((λ h. omega arith), ((λ h. absurd (cc (h))), tt)),
      (((λ h. omega arith), ((λ h. omega arith), tt)), tt),
    )

window-covers_example :
    (from to : Text) × (first end : ℕ) × (window clock week headers ≡ some (from, to))
    × (clock.time_of from ≡ some first)
    × (clock.time_of to ≡ some end)
    × (first ≤ start_of (codes "2026-03-08"))
    × (start_of (codes "2026-03-08") + day_ms ≤ end)
unfolding text_eq is_plain_date
window-covers_example =
    window-covers clock week headers start_of (codes "2026-03-08") refl (refl, (refl, tt))
      (λ x i. All-at (λ x. time_of (midnight x) ≡ some (start_of x)) x headers (refl, (refl, tt)) i)
      later (λ t. refl) (inr (inl refl))

abbrev rows : List FeedRow
rows = row_on (codes "2026-03-08") ∷ row_on (codes "2026-03-15") ∷ []

abbrev SameEvent : FeedRow → FeedRow → Type 0
SameEvent r q =
    (o : Option Occurrence) → record (r.event) { occ = o } ≡ record (q.event) { occ = o }

same_events : SameEvents rows
same_events r q i j e =
    All-at (SameEvent r) q rows (All-at (λ r. All (SameEvent r) rows) r rows each i) j
  where
    each : All (λ r. All (SameEvent r) rows) rows
    each = (((λ o. refl), ((λ o. refl), tt)), (((λ o. refl), ((λ o. refl), tt)), tt))

no_cache : Cache
no_cache id = none

series_event-occurrences_for_example :
    In
      (to_appointment clock work work (row_on (codes "2026-03-08")))
      ((occurrences_for clock work work rows no_cache).1)
    × (series_event
          (occurrences_for clock work work rows no_cache).0
          (clicked (to_appointment clock work work (row_on (codes "2026-03-08"))))
        ≡ some (record series { occ = some (on_day (codes "2026-03-08")) }))
    × ((answer : Answer)
        → on_edit false
            (occurrences_for clock work work rows no_cache).0
            (clicked (to_appointment clock work work (row_on (codes "2026-03-08"))))
            answer
          ≡ edit_event answer (record series { occ = some (on_day (codes "2026-03-08")) }))
series_event-occurrences_for_example =
    series_event-occurrences_for clock work work rows no_cache (row_on (codes "2026-03-08"))
      (on_day (codes "2026-03-08")) same_events (inl refl) refl
