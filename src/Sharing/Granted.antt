-- ===== src/Sharing/Granted.antt =====
-- Who gets access through the share dialog.
use cal_stack.Base.{◌≡◌, true, Option, none, some, List, All, Text}
use cal_stack.Sharing.{AclEntry, Person, AclPane, AclEvent, acl_loaded, found, AclPut}

-- `P` says that a user may be on the list.
module _ (P : Text → Type 0) where
  abbrev pub MayAll : List AclEntry → Type 0
  MayAll = All (λ (e : AclEntry). P e.user_id)

  abbrev pub MayPick : List Person → Type 0
  MayPick = All (λ (c : Person). c.directory ≡ true → P c.id)

  abbrev pub MayPut : AclPut → Type 0
  MayPut none = Unit
  MayPut (some acl) = MayAll acl

  -- The server sends users that are on the list, and marks users that may be as the directory's.
  abbrev pub FromServer : AclEvent → Type 0
  FromServer (acl_loaded rows) = MayAll rows
  FromServer (found list) = MayPick list
  FromServer _ = Unit

  abbrev MayUser : Option Text → Type 0
  MayUser none = Unit
  MayUser (some id) = P id

  abbrev MayPane : AclPane → Type 0
  MayPane p = MayAll p.acl × MayUser p.user × All (λ (c : Person). P c.id) p.results
