-- ===== src/Contacts/Rows.antt =====
-- The rows of the contacts of a book, `renderRows` of contacts.js.
use cal_stack.Base.{
  Bool, Option, none, some, List, [], ◌∷◌, ◌++◌, if◌then◌else◌, Text, codes, text_or?,
}

-- A contact, with its addresses and numbers; each may be missing.
pub record ListedContact : Type 0 where
  pub id : Text
  pub full_name : Text
  pub org : Option Text
  pub emails : Option (List (Option Text))
  pub tels : Option (List (Option Text))
  pub directory : Bool

-- `(l && l[0] && l[0].field) || ''`
abbrev pub first_of_list : Option (List (Option Text)) → Text
first_of_list none = []
first_of_list (some []) = []
first_of_list (some (t ∷ ts)) = text_or? t []

-- A row: its cells, and what its button asks and deletes.
pub record ContactRow : Type 0 where
  pub cells : List Text
  pub button : Option (Text × Text)

unfoldable pub contact_row : ListedContact → ContactRow
contact_row c = record {
  cells = c.full_name ∷ text_or? c.org [] ∷ first_of_list c.emails ∷ first_of_list c.tels ∷ [];
  button =
      if c.directory
      then none
      else some
          (codes "Delete contact \"" ++ c.full_name ++ codes "\"?", codes "/api/contacts/" ++ c.id);
}
