-- ===== src/Contacts/Tests.antt =====
-- Runs of the contacts page, and its theorems at concrete books.
use cal_stack.Base.{◌≡◌, refl, true, false, none, some, [], ◌∷◌, ◌++◌, codes, text_eq}
use cal_stack.Contacts.{
  Book, Page, loaded, clicked, deleted, run, ContactForm, contact_body, submit_contact,
  is_directory,
}
use cal_stack.Contacts.Books.{submit_contact-deleted}

abbrev mine : Book
mine = record { id = codes "b1"; name = codes "Mine"; kind = codes "personal" }

abbrev team : Book
team = record { id = codes "b2"; name = codes "Team"; kind = codes "directory" }

abbrev fresh : Page
fresh = record {
  current_book_id = none;
  current_book_kind = codes "personal";
  current_name = [];
  form_hidden = false;
  books = [];
  loads = [];
}

abbrev ann : ContactForm
ann = record { name = codes "Ann"; org = []; email = codes "ann@x.org"; tel = []; mobile = true }

agrees : fresh.form_hidden ≡ is_directory fresh.current_book_kind
unfolding text_eq
agrees = refl

hidden_team : (run (loaded (mine ∷ team ∷ []) ∷ clicked team ∷ []) fresh).form_hidden ≡ true
unfolding run
hidden_team = refl

abbrev at_mine : Page
at_mine = record fresh { current_book_id = some (codes "b1") }

personal : is_directory at_mine.current_book_kind ≡ false
unfolding text_eq
personal = refl

submit_contact-deleted_example :
    submit_contact (run (deleted mine ∷ loaded (team ∷ []) ∷ []) at_mine) ann
    ≡ some (codes "/api/addressbooks/" ++ (codes "b1" ++ codes "/contacts"), contact_body ann)
submit_contact-deleted_example =
    submit_contact-deleted mine (team ∷ []) at_mine ann refl refl personal
