-- ===== src/Events/AttachmentTests.antt =====
-- Tests of the attachments and of the searches that wait.
use cal_stack.Base.{◌≡◌, refl, true, none, some, [], ◌∷◌, codes, show_nat, split_on, trim}
use cal_stack.Events.Attachments.{
  to_fixed1, format_bytes, attachment_item, render_attachments, attachments_url, upload_of,
  type_attendee, type_place,
}

small : format_bytes 1023 ≡ codes "1023 B"
unfolding format_bytes show_nat
small = refl

half : format_bytes 1536 ≡ codes "1.5 KB"
unfolding format_bytes to_fixed1 show_nat
half = refl

-- Just below a megabyte the tenths are rounded up.
almost : format_bytes 1048575 ≡ codes "1024.0 KB"
unfolding format_bytes to_fixed1 show_nat
almost = refl

listed :
    render_attachments (record { id = codes "a"; filename = codes "x.txt"; byte_size = 5 } ∷ [])
    ≡ record {
      href = codes "/api/attachments/a";
      label = codes "x.txt (5 B)";
      details = codes "/api/attachments/a/meta";
    }
      ∷ []
unfolding render_attachments attachment_item format_bytes show_nat
listed = refl

unsaved : attachments_url (some (codes "w")) none ≡ none
unfolding attachments_url
unsaved = refl

uploaded : upload_of (codes "x") [] (codes "data:;base64,QUJD") ≡ record {
  filename = codes "x";
  content_type = codes "application/octet-stream";
  payload = some (codes "QUJD");
}
unfolding upload_of split_on
uploaded = refl

-- A text of one character stops the search for attendees, but not the one for places.
attendee_stopped :
    (type_attendee
      (codes "a")
      (type_attendee (codes "ab") (record { query = none; hidden = true }))).query
    ≡ none
unfolding type_attendee trim
attendee_stopped = refl

place_goes_on :
    (type_place
      (codes "a")
      (type_place (codes "ab") (record { query = none; hidden = true }))).query
    ≡ some (codes "ab")
unfolding type_place
place_goes_on = refl
