-- ===== src/Contacts/RowTests.antt =====
-- Tests of the rows of contacts.
use cal_stack.Base.{◌≡◌, refl, true, none, some, [], ◌∷◌, codes}
use cal_stack.Contacts.Rows.{contact_row}

directory_row :
    contact_row (record {
      id = codes "u1";
      full_name = codes "Ann";
      org = none;
      emails = some (some (codes "ann@example.com") ∷ []);
      tels = some [];
      directory = true;
    })
    ≡ record { cells = codes "Ann" ∷ [] ∷ codes "ann@example.com" ∷ [] ∷ []; button = none }
unfolding contact_row
directory_row = refl
