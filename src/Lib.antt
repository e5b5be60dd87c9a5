-- ===== src/Lib.antt =====
-- A model of the web interface in crates/calendar-web/src/assets/js, with theorems about it.
--
-- The interface is one script per page or pane, which reads the fields of the page, sends requests
-- to the server and shows the answers. Each module below models a script, or a part of app.js, as
-- functions: a form is a record of the values of its fields, a request is the record that is sent,
-- and a handler maps a state and an event to the next state and the requests.
--
--   Base          texts as lists of UTF-16 codes, and the functions of JavaScript's strings, numbers
--                 and lists that the scripts call: split, join, slice, trim, parseInt, printing.
--   Rrule         app.js, the repeat picker of the event editor: applyRruleToForm is
--                 apply_rrule_to_form, buildRrule is build_rrule.
--   Tasks         tasks.js, the rows: isDone, dueKey, cmp (compare_tasks), taskRow.
--   Tasks.Tree    render with its children and addTree.
--   Tasks.Descendants  descendantsOf (descendants_of, whose loop is search_down) and
--                 fillParentPicker.
--   Tasks.Editor  openEditor, readNumber and saveEditor; Tasks.Latch is the submit handler.
--   Times         app.js, the date helpers and the controls of a time: isoToLocalInput,
--                 setTimeControls, syncTimeControls.
--   Events        app.js, the event editor: Events.Open is openEventModal with occurrenceSlot,
--                 Events.Save is saveEvent, deleteEvent, cancelOccurrence and truncateSeries,
--                 Events.Menu is onEdit and onDelete with seriesDialog, Events.Place the place picker,
--                 Events.Attendees the attendees (renderAttendeeResults, renderAttendees),
--                 Events.Attachments formatBytes, renderAttachments and the delayed searches,
--                 Events.Guard the guard on unsaved changes. Opening and saving use Rrule and Times;
--                 Events.Menu leads to both.
--   Calendars     app.js, the selection and the tabs: selectCalendar, showTab, updateTabs, setUrl,
--                 loadCalendars and what follows a deletion; Calendars.Page runs them on events,
--                 Calendars.Form is the calendar editor, Calendars.Slug its slug, Calendars.Import
--                 what follows its submit with a file, Calendars.Listing renderCalList,
--                 renderSubscriptions, showConnInfo and the search.
--   Sharing       app.js, the share dialog: renderAcl, saveAcl, #acl-user and #acl-add (handle_acl),
--                 renderShares, and the buttons of import and export.
--   Account       app.js, the account dialog: password, preferences, web push.
--   Categories    app.js, the tags of an event: calColorHex, categoryColorHex,
--                 renderCategoryCheckboxes, toggleCategory.
--   Feed          app.js, the data feed of the calendar widget: toAppointment, toIso,
--                 toIsoExclusiveEnd, weekViewDateRange, occurrencesUrl, occurrencesFor, eventsUrl. Its
--                 appointments are what Events.Menu gets on a click.
--   Labels        app.js, what is changed in the drawn calendar: convertCalendarTimesToAmPm,
--                 decorateEventPills, startAmPmObserver.
--   Panes         tasks.js, journals.js, categories.js, rules.js: load of the panes, and the answers
--                 of the server.
--   Base64url     credentials.js and app.js: bufToB64u, b64uToBuf, urlBase64ToUint8Array.
--   Credentials   credentials.js: the tables, tokens, two-factor authentication (handle_totp) and
--                 a passkey (Credentials.Passkeys, with Base64url).
--   Rules         rules.js: the table and the form of a rule.
--   Categories.Registry  categories.js: the table and the form of a category.
--   Admin         admin.js: the checkboxes of a user, humanize, auditSummary.
--   Shell         both api helpers (app_api, page_api), dialogs.js, theme.js and sw.js.
--   Providers     providers.js, the fields of a provider: buildFields, readFields; Providers.Page its
--                 dialogs.
--   Journals      journals.js, the list: dateKey, render, journalRow. Journals.Editor is openEditor,
--                 save and the submit handler.
--   Tasks.Adding  tasks.js, quick add, and the deletions of a task and of a journal.
--   Contacts      contacts.js, the address books and the form of a contact: loadBooks, applySearch.
--
-- Numbers are natural numbers, exact below 2^53. A field of a record that may be null or missing is
-- an option. The objects that the scripts use as dictionaries are lists of keys, so a uid that is
-- the name of a member of Object.prototype is not considered. What belongs to the browser is a
-- parameter: collation, printing of dates in the locale, the local time of an instant, and what a
-- number or date field makes of a text that is set as its value. Instants and days are counted from
-- 1970, and those before it are not considered. Where a handler throws, the model says so and no
-- more: what it set before is not kept.
--
-- Loops take fuel where no argument gets smaller: search_down as many rounds as there are tasks and
-- two more, add_tree a depth of the number of rows and one more, pad_loop four rounds, observe two
-- frames; theorems show that this is enough.
--
-- Not modelled: the server's crates, the vendored bundles, the layout of the page, toasts and
-- dialogs beyond their answer.
pub mod Base
pub mod Base64url
pub mod Times
pub mod Rrule
pub mod Tasks
pub mod Events
pub mod Calendars
pub mod Categories
pub mod Providers
pub mod Feed
pub mod Journals
pub mod Labels
pub mod Panes
pub mod Contacts
pub mod Sharing
pub mod Account
pub mod Credentials
pub mod Rules
pub mod Admin
pub mod Shell
