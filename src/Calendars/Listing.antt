-- ===== src/Calendars/Listing.antt =====
-- The lists of app.js: `renderCalList` and `renderSubscriptions`, `showConnInfo`, and the search of
-- events with `fmtSearchWhen`. Dates in the locale are the browser's.
use cal_stack.Base.{
  Bool, true, false, not, ◌||◌, Option, none, some, List, [], ◌∷◌, ◌++◌, if◌then◌else◌, map, keep,
  any, is_empty, Text, codes, text_eq, text_or?, truthy, truthy?, trim,
}
use cal_stack.Calendars.{Cal, Subscription, sub_to_cal}
use cal_stack.Categories.{cal_color_hex}
use cal_stack.Sharing.{cap_text}

-- A row of `GET /api/calendars`, as far as the list reads it.
pub record ListedCal : Type 0 where
  pub id : Text
  pub slug : Text
  pub name : Text
  pub color : Option Text
  pub read_only : Bool
  pub my_capability : Option Text

-- An item of `#cal-list`: its dot, its text, and which buttons it has.
pub record CalItem : Type 0 where
  pub id : Text
  pub dot : Option Text
  pub label : Text
  pub can_edit : Bool
  pub can_delete : Bool

abbrev pub capability_suffix : ListedCal → Text
capability_suffix cal =
    if cal.read_only
    then codes " (subscribed)"
    else if truthy (cap_text (text_or? cal.my_capability []))
    then codes " (" ++ cap_text (text_or? cal.my_capability []) ++ codes ")"
    else []

abbrev pub has_capability : ListedCal → Text → Bool
has_capability cal name =
    any (text_eq name) (elim cal.my_capability [ none ↦ [] | some c ↦ c ∷ [] ])

unfoldable pub cal_item : ListedCal → CalItem
unfolding text_eq cap_text cal_color_hex
cal_item cal = record {
  id = cal.id;
  dot = cal_color_hex cal.color;
  label = cal.name ++ capability_suffix cal;
  can_edit = has_capability cal (codes "owner") || has_capability cal (codes "read_write");
  can_delete = has_capability cal (codes "owner");
}

-- `renderCalList`
unfoldable pub render_cal_list : List ListedCal → List CalItem
unfolding cal_item
render_cal_list list = map cal_item list

-- `calUrl` of `showConnInfo`
unfoldable pub cal_url : Text → Text → ListedCal → Text
cal_url base username c =
    base ++ codes "/calendars/" ++ username ++ codes "/" ++ c.slug ++ codes "/"

-- What the dialog of `showConnInfo` shows; the address of one calendar, or those of all.
pub record ConnInfo : Type 0 where
  pub server : Text
  pub username : Text
  pub caldav_root : Text
  pub caldav_known : Text
  pub carddav : Text
  pub carddav_known : Text
  pub one_shown : Bool
  pub list_shown : Bool
  pub one : Option Text
  pub urls : List (Text × Text)

-- `showConnInfo`, after what the dialog showed before.
unfoldable pub show_conn_info :
    Text → Text → Option ListedCal → List ListedCal → ConnInfo → ConnInfo
unfolding cal_url
show_conn_info base username cal calendars before = record {
  server = base;
  username = username;
  caldav_root = base ++ codes "/calendars/" ++ username ++ codes "/";
  caldav_known = base ++ codes "/.well-known/caldav";
  carddav = base ++ codes "/contacts/";
  carddav_known = base ++ codes "/.well-known/carddav";
  one_shown = elim cal [ none ↦ false | some c ↦ true ];
  list_shown = elim cal [ none ↦ true | some c ↦ false ];
  one = elim cal [ none ↦ before.one | some c ↦ some (cal_url base username c) ];
  urls = elim cal [
    | none ↦ map (λ (c : ListedCal). (cal_url base username c, c.name)) calendars
    | some c ↦ before.urls
  ];
}

-- An item of `#sub-list`: what a click selects, the label, the badge and the title of the button.
pub record SubItem : Type 0 where
  pub id : Text
  pub label : Text
  pub removed : Bool
  pub click : Option Cal
  pub button : Text

unfoldable pub sub_item : Subscription → SubItem
unfolding sub_to_cal
sub_item s = record {
  id = codes "sub:" ++ s.id;
  label = s.calendar_name;
  removed = not s.live;
  click = if s.live then some (sub_to_cal s) else none;
  button = if s.live then codes "Unsubscribe" else codes "Remove";
}

-- `renderSubscriptions`: `state.subscriptions` and the items.
unfoldable pub render_subscriptions : List Subscription → List Cal × List SubItem
unfolding sub_to_cal sub_item
render_subscriptions rows =
    (map sub_to_cal (keep (λ (s : Subscription). s.live) rows), map sub_item rows)

-- `#sub-add-btn`: the token that is sent.
unfoldable pub add_subscription : Text → Option Text
unfolding trim
add_subscription token = if truthy (trim token) then some (trim token) else none

-- A row of `GET /api/search`.
pub record SearchHit : Type 0 where
  pub summary : Option Text
  pub starts_at : Option Text
  pub start_date : Option Text

module _ (locale_time locale_date : Text → Text) where
  -- `fmtSearchWhen`
  unfoldable pub fmt_search_when : SearchHit → Text
  fmt_search_when e =
      if truthy? e.starts_at
      then locale_time (text_or? e.starts_at [])
      else if truthy? e.start_date
      then locale_date (text_or? e.start_date [] ++ codes "T00:00:00")
      else []

  -- `renderSearchResults`
  unfoldable pub render_search_results : List SearchHit → List Text
  unfolding fmt_search_when
  render_search_results rows =
      if is_empty rows
      then codes "No matches." ∷ []
      else map
          (λ (e : SearchHit).
            text_or? e.summary (codes "(untitled)") ++ codes " — " ++ fmt_search_when e)
          rows

-- `#search-go`: the address of the request.
unfoldable pub search_url : (Text → Text) → Text → Option Text
unfolding trim
search_url encode q =
    if truthy (trim q) then some (codes "/api/search?q=" ++ encode (trim q)) else none
