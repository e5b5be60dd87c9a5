-- ===== src/Events/Attachments.antt =====
-- The attachments of an event in app.js, and the searches of the event editor that wait until the
-- user stops typing: `#ev-attendee-search` and `#ev-location`.
use cal_stack.Base.{
  ℕ, ◌+◌, ◌*◌, ◌/◌, ◌%◌, ◌≡◌, refl, inl, inr, Bool, true, Option, none, some, List, [], ◌∷◌, ◌++◌,
  ltb, if◌then◌else◌, map, length, Text, codes, text_or, truthy?, or_else, trim, show_nat, split_on,
  get_elem?, Bool-cases, ◌⊎◌,
}

-- `(n / d).toFixed(1)`: the nearest tenth, the larger one of two.
unfoldable pub to_fixed1 : ℕ → ℕ → Text
unfolding show_nat
to_fixed1 n d =
    let tenths = (20 * n + d) / (2 * d) in show_nat (tenths / 10) ++ (b'.' ∷ show_nat (tenths % 10))

-- `formatBytes`
unfoldable pub format_bytes : ℕ → Text
unfolding to_fixed1 show_nat
format_bytes n =
    if ltb n 1024
    then show_nat n ++ codes " B"
    else if ltb n 1048576
    then to_fixed1 n 1024 ++ codes " KB"
    else to_fixed1 n 1048576 ++ codes " MB"

pub record Attachment : Type 0 where
  pub id : Text
  pub filename : Text
  pub byte_size : ℕ

-- An item of `renderAttachments`: the address and the text of the link, and the address of the details.
pub record AttachmentItem : Type 0 where
  pub href : Text
  pub label : Text
  pub details : Text

unfoldable pub attachment_item : Attachment → AttachmentItem
unfolding format_bytes
attachment_item a = record {
  href = codes "/api/attachments/" ++ a.id;
  label = a.filename ++ codes " (" ++ format_bytes a.byte_size ++ codes ")";
  details = codes "/api/attachments/" ++ a.id ++ codes "/meta";
}

unfoldable pub render_attachments : List Attachment → List AttachmentItem
unfolding attachment_item
render_attachments rows = map attachment_item rows

-- The address of the attachments, for the selected calendar and the event that is edited.
unfoldable pub attachments_url : Option Text → Option Text → Option Text
attachments_url none event = none
attachments_url (some cal) event =
    if truthy? event
    then some (
        codes "/api/calendars/"
        ++ cal
        ++ codes "/events/"
        ++ or_else event []
        ++ codes "/attachments")
    else none

pub record Upload : Type 0 where
  pub filename : Text
  pub content_type : Text
  pub payload : Option Text

-- The body of an upload, from the data URL of the file.
unfoldable pub upload_of : Text → Text → Text → Upload
unfolding split_on
upload_of name kind url = record {
  filename = name;
  content_type = text_or kind (codes "application/octet-stream");
  payload = get_elem? (split_on b',' url) 1;
}

-- The query of the timer that runs, if one does, and whether the menu is hidden.
pub record Waiting : Type 0 where
  pub query : Option Text
  pub hidden : Bool

-- The `input` handler of `#ev-attendee-search`, and of `#acl-user`: the timer is cleared first.
unfoldable pub type_attendee : Text → Waiting → Waiting
unfolding trim
type_attendee text w =
    if ltb (length (trim text)) 2
    then record { query = none; hidden = true }
    else record w { query = some (trim text) }

-- The `input` handler of `#ev-location`: a short text leaves the timer alone.
unfoldable pub type_place : Text → Waiting → Waiting
type_place text w =
    if ltb (length text) 2
    then record w { hidden = true }
    else record { query = some text; hidden = true }

-- The last text decides what the search for attendees asks for, if anything.
type_attendee-query :
    (text : Text) (w : Waiting)
    → ((type_attendee text w).query ≡ none) ⊎ ((type_attendee text w).query ≡ some (trim text))
unfolding type_attendee
type_attendee-query text w = elim (Bool-cases (ltb (length (trim text)) 2)) [
  | inl e ↦ rw e (inl refl)
  | inr e ↦ rw e (inr refl)
]
