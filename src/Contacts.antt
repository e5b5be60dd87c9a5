-- ===== src/Contacts.antt =====
-- The contacts page, contacts.js: the address books, the one that is selected, and the form of a new
-- contact.
pub mod Books
pub mod Rows
mod RowTests
mod Tests
use cal_stack.Base.{
  Bool, true, false, ◌&&◌, ◌||◌, not, Option, none, some, List, [], ◌∷◌, ◌++◌, if◌then◌else◌, find,
  keep, any, map, Text, codes, text_eq, text_or, text_or?, text_or_null, truthy, truthy?, trim,
  includes, or_else,
}
use cal_stack.Tasks.{text_eq?}
use cal_stack.Calendars.Slug.{slugify}

-- A row of `GET /api/addressbooks`.
pub record Book : Type 0 where
  pub id : Text
  pub name : Text
  pub kind : Text

-- `currentBookId` and `currentBookKind`, the name and the form that the page shows, the list of books
-- with the mark of the active one, and the books whose contacts were asked for, the latest first.
pub record Page : Type 0 where
  pub current_book_id : Option Text
  pub current_book_kind : Text
  pub current_name : Text
  pub form_hidden : Bool
  pub books : List (Book × Bool)
  pub loads : List Text

abbrev pub is_directory : Text → Bool
is_directory kind = text_eq kind (codes "directory")

-- The list with its active book.
abbrev pub marked : Option Text → List Book → List (Book × Bool)
marked current books = map (λ b. (b, text_eq? current b.id)) books

-- The first personal book, or else the first book.
abbrev pub first_of : List Book → Option Book
first_of [] = none
first_of (b ∷ books) = some (or_else (find (λ c. text_eq c.kind (codes "personal")) (b ∷ books)) b)

abbrev pub add_load : Option Text → List Text → List Text
add_load none loads = loads
add_load (some []) loads = loads
add_load (some (c ∷ id)) loads = (c ∷ id) ∷ loads

-- `loadContacts`
unfoldable pub load_contacts : Page → Page
load_contacts p = record p { loads = add_load p.current_book_id p.loads }

abbrev pub show_book : Book → Page → Page
show_book b p = record p {
  current_book_id = some b.id;
  current_book_kind = b.kind;
  current_name = b.name;
  form_hidden = is_directory b.kind;
}

-- The click on a book, before the books are loaded again.
unfoldable pub select_book : Book → Page → Page
unfolding load_contacts text_eq
select_book b p = load_contacts (show_book b p)

abbrev pub open_first : Option Book → Page → Page
open_first none p = p
open_first (some b) p = select_book b p

-- What follows the answer to `loadBooks`.
unfoldable pub books_loaded : List Book → Page → Page
unfolding select_book
books_loaded books p =
    let q : Page = record p { books = marked p.current_book_id books } in
    if truthy? p.current_book_id then q else open_first (first_of books) q

pub data Event : Type 0 where
  -- the answer to `loadBooks`
  loaded : List Book → Event
  -- a click on a book
  clicked : Book → Event
  -- the answer to the deletion of a book
  deleted : Book → Event

unfoldable pub handle : Event → Page → Page
unfolding books_loaded
handle (loaded books) p = books_loaded books p
handle (clicked b) p = select_book b p
handle (deleted b) p = p

unfoldable pub run : List Event → Page → Page
unfolding handle
run [] p = p
run (e ∷ es) p = run es (handle e p)

-- The fields of the form of a new contact.
pub record ContactForm : Type 0 where
  pub name : Text
  pub org : Text
  pub email : Text
  pub tel : Text
  pub mobile : Bool

-- The body of a new contact, with at most one address and one number.
pub record ContactBody : Type 0 where
  pub full_name : Text
  pub org : Option Text
  pub emails : List Text
  pub tels : List (Text × Bool)

unfoldable pub contact_body : ContactForm → ContactBody
unfolding trim
contact_body f = record {
  full_name = trim f.name;
  org = text_or_null (trim f.org);
  emails = if truthy (trim f.email) then trim f.email ∷ [] else [];
  tels = if truthy (trim f.tel) then (trim f.tel, f.mobile) ∷ [] else [];
}

-- The submit handler of `#ct-form`: the address and the body of the request.
unfoldable pub submit_contact : Page → ContactForm → Option (Text × ContactBody)
unfolding contact_body text_eq
submit_contact p f =
    if not (truthy? p.current_book_id) || is_directory p.current_book_kind
    then none
    else some (
      codes "/api/addressbooks/" ++ (text_or? p.current_book_id [] ++ codes "/contacts"),
      contact_body f,
    )

module _ (lower : Text → Text) where
  -- The slug of a new book.
  unfoldable pub book_slug : Text → Text
  unfolding slugify
  book_slug name = text_or (slugify (lower name)) (codes "book")

-- A row of the contacts of a book, as far as the filter reads it.
pub record Contact : Type 0 where
  pub id : Text
  pub full_name : Option Text
  pub org : Option Text
  pub emails : Option (List Text)

module _ (lower : Text → Text) where
  -- `applySearch`
  unfoldable pub apply_search : Text → List Contact → List Contact
  unfolding trim includes
  apply_search query contacts =
      let q = lower (trim query) in
      if truthy q
      then keep
          (λ c.
            includes q (lower (text_or? c.full_name []))
            || includes q (lower (text_or? c.org []))
            || any (λ e. includes q (lower e)) (or_else c.emails []))
          contacts
      else contacts
