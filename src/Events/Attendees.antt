-- ===== src/Events/Attendees.antt =====
-- The attendees of the event editor in app.js: `renderAttendeeResults` and the buttons of
-- `renderAttendees`. Lower case is the browser's.
use cal_stack.Base.{
  ℕ, zero, suc, ◌≡◌, refl, Bool, true, false, ◌&&◌, ◌||◌, not, Bool-cases, inl, inr, Option, none,
  some, List, [], ◌∷◌, ◌++◌, if◌then◌else◌, any, All, All-append, Text, text_eq, text_or?,
  text_or_null?, truthy?,
}
use cal_stack.Events.{Attendee}

-- A result of `GET /api/contacts/autocomplete`, with its first address and its first number.
pub record Result : Type 0 where
  pub id : Text
  pub full_name : Option Text
  pub email : Option Text
  pub tel : Option Text
  pub directory : Bool

module _ (lower : Text → Text) where
  abbrev pub same_email : Option Text → Option Text → Bool
  same_email e f = truthy? e && truthy? f && text_eq (lower (text_or? e [])) (lower (text_or? f []))

  abbrev pub same_tel : Option Text → Option Text → Bool
  same_tel t u = truthy? t && truthy? u && text_eq (text_or? t []) (text_or? u [])

  -- `already`
  unfoldable pub is_already : Result → List Attendee → Bool
  unfolding text_eq
  is_already c attendees =
      any (λ a. same_email a.email c.email || same_tel a.telephone c.tel) attendees

  abbrev pub attendee_of : Result → Attendee
  attendee_of c = record {
    email = text_or_null? c.email;
    telephone = if truthy? c.email then none else c.tel;
    display_name = text_or_null? c.full_name;
    contact_id = if c.directory then none else some c.id;
    user_id = if c.directory then some c.id else none;
  }

  -- The click on a result. A result without an address and a number is not shown.
  unfoldable pub add_result : Result → List Attendee → List Attendee
  unfolding is_already
  add_result c attendees =
      if not (truthy? c.email) && not (truthy? c.tel)
      then attendees
      else if is_already c attendees
      then attendees
      else attendees ++ (attendee_of c ∷ [])

-- `splice(i, 1)`
unfoldable pub remove_at : ℕ → List Attendee → List Attendee
remove_at i [] = []
remove_at zero (a ∷ attendees) = attendees
remove_at (suc i) (a ∷ attendees) = a ∷ remove_at i attendees

-- A click on a result, or on the button of the attendee at a position.
pub data Click : Type 0 where
  added : Result → Click
  removed : ℕ → Click

or_false : (p q : Bool) → (p || q) ≡ false → (p ≡ false) × (q ≡ false)
or_false true q h = absurd (cc h)
or_false false q h = (refl, h)

module _ (lower : Text → Text) where
  unfoldable pub click_all : List Click → List Attendee → List Attendee
  unfolding add_result remove_at
  click_all [] attendees = attendees
  click_all (added c ∷ clicks) attendees = click_all clicks (add_result lower c attendees)
  click_all (removed i ∷ clicks) attendees = click_all clicks (remove_at i attendees)

  -- Two attendees have the same address, or the same number.
  abbrev pub is_same : Attendee → Attendee → Bool
  is_same a b = same_email lower a.email b.email || same_tel lower a.telephone b.telephone

  -- No attendee is the same as a later one.
  abbrev pub Distinct : List Attendee → Type 0
  Distinct [] = Unit {0}
  Distinct (a ∷ attendees) = All (λ b. is_same a b ≡ false) attendees × Distinct attendees

  All-remove_at :
      (P : Attendee → Type 0) (i : ℕ) (attendees : List Attendee)
      → All P attendees
      → All P (remove_at i attendees)
  unfolding remove_at
  All-remove_at P i [] h = tt
  All-remove_at P zero (a ∷ attendees) h = h.1
  All-remove_at P (suc i) (a ∷ attendees) h = (h.0, All-remove_at P i attendees h.1)

  Distinct-remove_at :
      (i : ℕ) (attendees : List Attendee) → Distinct attendees → Distinct (remove_at i attendees)
  unfolding remove_at
  Distinct-remove_at i [] h = tt
  Distinct-remove_at zero (a ∷ attendees) h = h.1
  Distinct-remove_at (suc i) (a ∷ attendees) h =
      (All-remove_at _ i attendees h.0, Distinct-remove_at i attendees h.1)

  same_email-or_null :
      (e f : Option Text) → same_email lower e (text_or_null? f) ≡ same_email lower e f
  same_email-or_null e none = refl
  same_email-or_null e (some []) = refl
  same_email-or_null e (some (c ∷ s)) = refl

  same_tel-none : (t : Option Text) → same_tel lower t none ≡ false
  same_tel-none none = refl
  same_tel-none (some []) = refl
  same_tel-none (some (c ∷ s)) = refl

  not_same :
      (a : Attendee) (c : Result)
      → (same_email lower a.email c.email || same_tel lower a.telephone c.tel) ≡ false
      → is_same a (attendee_of lower c) ≡ false
  not_same a c h =
      let (e, t) =
        or_false (same_email lower a.email c.email) (same_tel lower a.telephone c.tel) h in
      rw (same_email-or_null a.email c.email, e)
        (elim (Bool-cases (truthy? c.email)) [
          | inl k ↦ rw k (same_tel-none a.telephone)
          | inr k ↦ rw k t
        ])

  Distinct-append :
      (c : Result) (attendees : List Attendee)
      → is_already lower c attendees ≡ false
      → Distinct attendees
      → Distinct (attendees ++ (attendee_of lower c ∷ []))
  unfolding is_already
  Distinct-append c [] e h = (tt, tt)
  Distinct-append c (a ∷ attendees) e h =
      let (here, later) = or_false _ _ e in
      (
        All-append (λ b. is_same a b ≡ false) attendees (attendee_of lower c ∷ []) h.0
            (not_same a c here, tt),
        Distinct-append c attendees later h.1,
      )

  Distinct-add_result :
      (c : Result) (attendees : List Attendee)
      → Distinct attendees
      → Distinct (add_result lower c attendees)
  unfolding add_result
  Distinct-add_result c attendees h =
      elim (Bool-cases (not (truthy? c.email) && not (truthy? c.tel))) [
        | inl e ↦ rw e h
        | inr e ↦ rw e (elim (Bool-cases (is_already lower c attendees)) [
          | inl k ↦ rw k h
          | inr k ↦ rw k (Distinct-append c attendees k h)
        ])
      ]

  -- Whatever is added and removed, and in whatever order, nobody is invited twice: no two attendees
  -- have the same address, in small or capital letters, or the same number. None had at the start.
  pub click_all-Distinct :
      (clicks : List Click) (attendees : List Attendee)
      → Distinct attendees
      → Distinct (click_all clicks attendees)
  unfolding click_all
  click_all-Distinct [] attendees h = h
  click_all-Distinct (added c ∷ clicks) attendees h =
      click_all-Distinct clicks (add_result lower c attendees) (Distinct-add_result c attendees h)
  click_all-Distinct (removed i ∷ clicks) attendees h =
      click_all-Distinct clicks (remove_at i attendees) (Distinct-remove_at i attendees h)
