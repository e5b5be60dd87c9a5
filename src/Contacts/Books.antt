-- ===== src/Contacts/Books.antt =====
-- The selection of an address book in contacts.js, and the slug of a new one.
use cal_stack.Base.{
  ◌≡◌, refl, sym, ap, ◌∙◌, inl, inr, ◌⊎◌, true, false, Bool-cases, Option, none, some, List, [],
  ◌∷◌, ◌++◌, Text, codes, text_or, truthy, truthy?,
}
use cal_stack.Calendars.Slug.{slugify, is_words, slugify-is_words}
use cal_stack.Contacts.{
  Book, Page, is_directory, marked, first_of, open_first, select_book, books_loaded, load_contacts,
  Event, loaded, clicked, deleted, handle, run, ContactForm, contact_body, submit_contact,
  book_slug,
}

-- The form is hidden exactly if the selected book is a directory.
abbrev pub FormAgrees : Page → Type 0
FormAgrees p = p.form_hidden ≡ is_directory p.current_book_kind

open_first-FormAgrees : (o : Option Book) (p : Page) → FormAgrees p → FormAgrees (open_first o p)
unfolding select_book load_contacts
open_first-FormAgrees none p h = h
open_first-FormAgrees (some b) p h = refl

books_loaded-FormAgrees :
    (books : List Book) (p : Page) → FormAgrees p → FormAgrees (books_loaded books p)
unfolding books_loaded
books_loaded-FormAgrees books p h = elim (Bool-cases (truthy? p.current_book_id)) [
  | inl e ↦ keeps e
  | inr e ↦ rw e (open_first-FormAgrees (first_of books) _ h)
]
  where
    keeps : truthy? p.current_book_id ≡ true → FormAgrees (books_loaded books p)
    keeps e = rw e h

run-FormAgrees : (es : List Event) (p : Page) → FormAgrees p → FormAgrees (run es p)
unfolding run handle select_book load_contacts
run-FormAgrees [] p h = h
run-FormAgrees (loaded books ∷ es) p h =
    run-FormAgrees es (books_loaded books p) (books_loaded-FormAgrees books p h)
run-FormAgrees (clicked b ∷ es) p h = run-FormAgrees es (select_book b p) refl
run-FormAgrees (deleted b ∷ es) p h = run-FormAgrees es p h

-- Whatever was loaded, clicked and deleted, a new contact is never sent while the form is hidden, so
-- none goes to a directory. The form agreed with the selected book at the start.
pub submit_contact-hidden :
    (es : List Event) (p : Page) (f : ContactForm)
    → FormAgrees p
    → (run es p).form_hidden ≡ true
    → submit_contact (run es p) f ≡ none
unfolding submit_contact
submit_contact-hidden es p f h hidden =
    let d : is_directory (run es p).current_book_kind ≡ true =
      sym (run-FormAgrees es p h) ∙ hidden in
    elim (Bool-cases (truthy? (run es p).current_book_id)) [
      | inl e ↦ rw (e, d) refl
      | inr e ↦ rw e refl
    ]

submit_contact-at :
    (q : Page) (id : Text) (f : ContactForm)
    → q.current_book_id ≡ some id
    → truthy id ≡ true
    → is_directory q.current_book_kind ≡ false
    → submit_contact q f
      ≡ some (codes "/api/addressbooks/" ++ (id ++ codes "/contacts"), contact_body f)
unfolding submit_contact
submit_contact-at q [] f e t d = absurd (cc t)
submit_contact-at q (c ∷ id) f e t d = rw (e, d) refl

-- The selection stays as it is when the books are loaded again.
books_loaded-selected :
    (books : List Book) (p : Page)
    → truthy? p.current_book_id ≡ true
    → books_loaded books p ≡ record p { books = marked p.current_book_id books }
unfolding books_loaded
books_loaded-selected books p h = rw h refl

-- After the deletion of the selected book, and after the books were loaded again, the page still
-- takes it for selected: a new contact is sent to the deleted book. The id of the book is not empty,
-- and it is no directory.
pub submit_contact-deleted :
    (b : Book) (books : List Book) (p : Page) (f : ContactForm)
    → p.current_book_id ≡ some b.id
    → truthy b.id ≡ true
    → is_directory p.current_book_kind ≡ false
    → submit_contact (run (deleted b ∷ loaded books ∷ []) p) f
      ≡ some (codes "/api/addressbooks/" ++ (b.id ++ codes "/contacts"), contact_body f)
unfolding run handle
submit_contact-deleted b books p f e t d =
    let q = books_loaded-selected books p (ap truthy? e ∙ t) in
    submit_contact-at (books_loaded books p) b.id f (ap (λ x. x.current_book_id) q ∙ e) t
      (ap (λ x. is_directory x.current_book_kind) q ∙ d)

-- The slug of a new address book is never empty: it is words of small letters and digits with one
-- dash between two of them, whatever the name is.
pub book_slug-is_words :
    (lower : Text → Text) (name : Text) → is_words true (book_slug lower name) ≡ true
unfolding book_slug
book_slug-is_words lower name = filled (slugify (lower name)) (slugify-is_words (lower name))
  where
    filled :
        (t : Text)
        → (t ≡ []) ⊎ (is_words true t ≡ true)
        → is_words true (text_or t (codes "book")) ≡ true
    filled [] h = refl
    filled (c ∷ t) (inl e) = absurd (cc e)
    filled (c ∷ t) (inr w) = w
