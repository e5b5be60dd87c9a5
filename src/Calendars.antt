-- ===== src/Calendars.antt =====
-- The selected calendar and the tabs of app.js: `showTab`, `setUrl`, `updateTabs`, `selectCalendar`,
-- `loadCalendars`, and what follows the deletion of a calendar and of a subscription.
pub mod Slug
pub mod Form
pub mod Submit
pub mod Import
pub mod Listing
mod ListTests
pub mod Agree
pub mod Page
mod Tests
use cal_stack.Base.{
  ℕ, ◌≡◌, refl, sym, ap, ◌∙◌, Bool, true, false, ◌&&◌, ◌||◌, not, Option, none, some, List, [], ◌∷◌,
  ◌==◌, if◌then◌else◌, is_some, is_empty, find, or_else, Text, codes, text_eq, truthy, truthy?,
  ◌++◌,
}

-- A calendar of the list, a subscription in the shape of one, or the aggregate of all calendars.
pub record Cal : Type 0 where
  pub id : Text
  pub name : Text
  pub subscription_id : Option Text
  pub read_only : Bool
  pub unified : Bool

-- `ALL_CALENDARS`
abbrev pub all_calendars : Cal
all_calendars = record {
  id = codes "all";
  name = codes "All Calendars";
  subscription_id = none;
  read_only = true;
  unified = true;
}

-- A row of `GET /api/subscriptions`.
pub record Subscription : Type 0 where
  pub id : Text
  pub calendar_name : Text
  pub live : Bool

-- `subToCal`
unfoldable pub sub_to_cal : Subscription → Cal
sub_to_cal s = record {
  id = codes "sub:" ++ s.id;
  name = s.calendar_name;
  subscription_id = some s.id;
  read_only = true;
  unified = false;
}

pub data Tab : Type 0 where
  calendar categories tasks journals rules : Tab

abbrev pub tab_index : Tab → ℕ
tab_index calendar = 0
tab_index categories = 1
tab_index tasks = 2
tab_index journals = 3
tab_index rules = 4

-- The `data-tab` of a tab.
abbrev pub tab_name : Tab → Text
tab_name calendar = codes "calendar"
tab_name categories = codes "categories"
tab_name tasks = codes "tasks"
tab_name journals = codes "journals"
tab_name rules = codes "rules"

abbrev pub all_tabs : List Tab
all_tabs = calendar ∷ categories ∷ tasks ∷ journals ∷ rules ∷ []

unfoldable pub tab_named : Text → Option Tab
unfolding text_eq
tab_named name = find (λ t. text_eq (tab_name t) name) all_tabs

-- The parameters `calendar` and `tab` of the address.
pub record Url : Type 0 where
  pub calendar : Option Text
  pub tab : Option Text

-- Which buttons of the tab row are hidden.
pub record HiddenTabs : Type 0 where
  pub tasks : Bool
  pub journals : Bool
  pub rules : Bool
  pub categories : Bool

-- The state of the page: the selection, the tab that is shown, what is hidden, the address, the
-- calls of the panes' loaders with the latest first, and what was wanted when the page was opened.
pub record App : Type 0 where
  pub current : Option Cal
  pub calendars : List Cal
  pub tab : Tab
  pub bar_hidden : Bool
  pub hidden : HiddenTabs
  pub share_hidden : Bool
  pub calendar_hidden : Bool
  pub url : Url
  pub loads : List (Tab × Cal)
  pub activated : Bool
  pub chosen : Bool
  pub want_calendar : Option Text
  pub want_tab : Option Text
  pub user_is_admin : Bool

abbrev pub is_hidden : HiddenTabs → Tab → Bool
is_hidden h calendar = false
is_hidden h categories = h.categories
is_hidden h tasks = h.tasks
is_hidden h journals = h.journals
is_hidden h rules = h.rules

abbrev pub url_calendar : Option Cal → Option Text
url_calendar none = none
url_calendar (some cal) = if truthy? cal.subscription_id then none else some cal.id

abbrev pub url_tab : Tab → Option Text
url_tab calendar = none
url_tab t = some (tab_name t)

abbrev pub url_of : Option Cal → Tab → Url
url_of current tab = record { calendar = url_calendar current; tab = url_tab tab }

-- `setUrl`
unfoldable pub set_url : App → App
set_url s = record s { url = url_of s.current s.tab }

abbrev pub load_of : Option Cal → Tab → List (Tab × Cal)
load_of none tab = []
load_of (some cal) calendar = []
load_of (some cal) tab = (tab, cal) ∷ []

-- `refreshActivePane`
unfoldable pub refresh_active_pane : App → App
refresh_active_pane s = record s { loads = load_of s.current s.tab ++ s.loads }

-- `show()` of a tab with the handler of `shown.bs.tab`; the tab that is shown stays as it is.
unfoldable pub show : Tab → App → App
unfolding set_url refresh_active_pane
show tab s =
    if tab_index tab == tab_index s.tab
    then s
    else set_url (refresh_active_pane (record s { tab = tab }))

abbrev pub visible_tab : HiddenTabs → Option Tab → Tab
visible_tab h none = calendar
visible_tab h (some t) = if is_hidden h t then calendar else t

-- `showTab`
unfoldable pub show_tab : Text → App → App
unfolding show tab_named
show_tab name s = show (visible_tab s.hidden (tab_named name)) s

abbrev pub hidden_for : Option Cal → Bool → HiddenTabs
hidden_for none admin = record { tasks = false; journals = false; rules = true; categories = false }
hidden_for (some cal) admin = record {
  tasks = cal.read_only;
  journals = cal.read_only;
  rules = not (not cal.read_only && admin);
  categories = cal.unified;
}

abbrev pub is_unified : Option Cal → Bool
is_unified none = false
is_unified (some cal) = cal.unified

abbrev pub flagged : App → App
flagged s = record s {
  bar_hidden = not (is_some s.current);
  hidden = hidden_for s.current s.user_is_admin;
  share_hidden = is_unified s.current;
}

-- `updateTabs`
unfoldable pub update_tabs : App → App
unfolding show
update_tabs s =
    if is_some s.current && is_hidden (flagged s).hidden s.tab
    then show_tab (codes "calendar") (flagged s)
    else flagged s

-- `updateCalendarVisibility`; the placeholder is hidden exactly when the calendar is not.
unfoldable pub update_calendar_visibility : App → App
update_calendar_visibility s = record s { calendar_hidden = not (is_some s.current) }

-- `selectCalendar`
unfoldable pub select_calendar : Cal → App → App
unfolding update_tabs update_calendar_visibility set_url refresh_active_pane
select_calendar cal s = set_url (
    refresh_active_pane
      (record (update_calendar_visibility (update_tabs (record s { current = some cal }))) {
        activated = true;
      }))

-- The calendar that `loadCalendars` opens first.
unfoldable pub wanted : Option Text → List Cal → Option Cal
unfolding text_eq
wanted none list = none
wanted (some want) list =
    if text_eq want (codes "all")
    then some all_calendars
    else if truthy want
    then find (λ c. text_eq c.id want) list
    else none

abbrev pub select_first : Option Cal → List Cal → App → App
select_first (some cal) list s = select_calendar cal s
select_first none [] s = s
select_first none (cal ∷ list) s = select_calendar cal s

abbrev pub show_wanted : Option Text → App → App
show_wanted none s = s
show_wanted (some name) s = if truthy name then show_tab name (record s { want_tab = none }) else s

-- What follows the answer to `loadCalendars`.
unfoldable pub calendars_loaded : List Cal → App → App
unfolding update_calendar_visibility
calendars_loaded list s =
    let t : App = update_calendar_visibility (record s { calendars = list }) in
    if t.chosen
    then t
    else (let first : App =
          select_first (wanted s.want_calendar list) list
            (record t { chosen = true; want_calendar = none }) in
        show_wanted first.want_tab first)

-- What follows the answer to `deleteCalendar`, before the calendars are loaded again.
unfoldable pub calendar_deleted : Cal → App → App
unfolding text_eq
calendar_deleted cal s = elim s.current [
  | none ↦ s
  | some c ↦ if text_eq c.id cal.id then record s { current = none } else s
]

-- `subscriptionId === s.id` of the current calendar.
abbrev pub is_subscription : Option Cal → Text → Bool
is_subscription none id = false
is_subscription (some cal) id = elim cal.subscription_id [ none ↦ false | some i ↦ text_eq i id ]

-- What follows the answer to the deletion of a subscription.
unfoldable pub unsubscribed : Text → App → App
unfolding update_tabs update_calendar_visibility
unsubscribed id s =
    if is_subscription s.current id
    then update_calendar_visibility (update_tabs (record s { current = none }))
    else s
