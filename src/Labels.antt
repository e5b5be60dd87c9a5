-- ===== src/Labels.antt =====
-- What app.js changes in the calendar widget after it was drawn: `convertCalendarTimesToAmPm`,
-- `decorateEventPills`, and `startAmPmObserver`, which runs both after every change. A node of text
-- is its value. Lower case is the browser's.
pub mod Clock
pub mod Settled
mod Tests
use cal_stack.Base.{
  ℕ, zero, suc, Bool, true, false, not, ◌&&◌, ◌||◌, Option, none, some, List, [], ◌∷◌, ◌++◌, map,
  leb, ◌==◌, if◌then◌else◌, any, Text, codes, text_eq, text_or?, truthy, starts_with, drop, length,
  trim, is_some, is_digit, show_nat, ParsedInt, nan, plus, minus, parse_int, ◌>>=◌,
}
use cal_stack.Events.{EventRow}
use cal_stack.Times.{to_h12}

-- `[0-5]\d`
abbrev is_minute : ℕ → ℕ → Bool
is_minute a b = leb b'0' a && leb a b'5' && is_digit b

-- The groups of `/^([01]?\d|2[0-3]):([0-5]\d)$/`.
unfoldable pub match_clock : Text → Option (Text × Text)
match_clock (h ∷ p ∷ a ∷ b ∷ []) =
    if is_digit h && (p == b':') && is_minute a b then some (h ∷ [], a ∷ b ∷ []) else none
match_clock (g ∷ h ∷ p ∷ a ∷ b ∷ []) =
    if ((leb b'0' g && leb g b'1' && is_digit h) || ((g == b'2') && leb b'0' h && leb h b'3'))
      && (p == b':')
      && is_minute a b
    then some (g ∷ h ∷ [], a ∷ b ∷ [])
    else none
match_clock _ = none

-- The hour of the digits that the expression found.
abbrev hour_of : ParsedInt → ℕ
hour_of nan = 0
hour_of (plus n) = n
hour_of (minus n) = 0

abbrev clock_label : Text × Text → Text
clock_label (hour, minute) =
    let h = hour_of (parse_int hour) in
    show_nat (to_h12 h)
    ++ (b':' ∷ (minute ++ (b' ' ∷ (if leb 12 h then codes "PM" else codes "AM"))))

-- `text.replace(q, r)`: the first place of `q`.
unfoldable pub replace_first : Text → Text → Text → Text
unfolding starts_with
replace_first q r [] = if starts_with q [] then r else []
replace_first q r (c ∷ s) =
    let rest = replace_first q r s in
    if starts_with q (c ∷ s) then r ++ drop (length q) (c ∷ s) else c ∷ rest

-- What `convertCalendarTimesToAmPm` writes to a node; none if it leaves the node alone.
unfoldable pub convert_node : Text → Option Text
unfolding match_clock replace_first
convert_node text =
    match_clock (trim text) >>= λ m. some (replace_first (trim text) (clock_label m) text)

-- A pill of the calendar: the id of its appointment, if it has data; its own background color; the
-- classes and the mark that were added to it.
pub record Pill : Type 0 where
  pub appointment : Option Text
  pub background : Text
  pub cancelled : Bool
  pub tentative : Bool
  pub free : Bool
  pub secret : Bool
  pub shadow : Text
  pub lock : Bool

-- The ring of a free pill, in the color that it had before.
abbrev ringed : Bool → Pill → Pill
ringed was_free pill = record pill {
  shadow =
      if was_free
        || not (truthy pill.background)
        || text_eq pill.background (codes "rgba(0, 0, 0, 0)")
      then pill.shadow
      else if pill.free
      then codes "inset 0 0 0 2px " ++ pill.background
      else [];
}

-- The lock in front of a private pill, unless it is there.
abbrev locked : Pill → Pill
locked pill = record pill { lock = pill.lock || pill.secret }

module _ (lower : Text → Text) where
  abbrev with_marks : EventRow → Pill → Pill
  with_marks ev pill = record pill {
    cancelled = text_eq (lower (text_or? ev.status [])) (codes "cancelled");
    tentative = text_eq (lower (text_or? ev.status [])) (codes "tentative");
    free = text_eq (lower (text_or? ev.transp [])) (codes "transparent");
    secret =
        any (text_eq (lower (text_or? ev.visibility [])))
          (codes "private" ∷ codes "confidential" ∷ []);
  }

  abbrev decorate_found : Option EventRow → Pill → Pill
  decorate_found none pill = pill
  decorate_found (some ev) pill = locked (ringed pill.free (with_marks ev pill))

  -- One pill of `decorateEventPills`.
  unfoldable pub decorate_pill : (Text → Option EventRow) → Pill → Pill
  decorate_pill cache pill = decorate_found (pill.appointment >>= cache) pill

-- The nodes of text and the pills below `#calendar`.
pub record Grid : Type 0 where
  pub nodes : List Text
  pub pills : List Pill

abbrev written : Option Text → Text → Text
written none t = t
written (some u) t = u

-- Whether a pass writes to a node of text, or adds a lock.
abbrev writes_node : Text → Bool
writes_node t = is_some (convert_node t)

abbrev adds_lock : Pill → Pill → Bool
adds_lock before after = not before.lock && after.lock

module _ (lower : Text → Text) (cache : Text → Option EventRow) where
  -- The frame that the observer asks for: the grid after both passes, and whether they added or
  -- changed a node, which the observer sees.
  unfoldable pub frame : Grid → Grid × Bool
  unfolding convert_node decorate_pill
  frame g = (
    record {
      nodes = map (λ t. written (convert_node t) t) g.nodes;
      pills = map (decorate_pill lower cache) g.pills;
    },
    any writes_node g.nodes || any (λ p. adds_lock p (decorate_pill lower cache p)) g.pills,
  )

  -- Frames until one changes nothing that the observer sees, with fuel.
  unfoldable pub observe : ℕ → Grid → Option Grid
  unfolding frame
  observe zero g = none
  observe (suc fuel) g =
      let (h, changed) = frame g in let rest = observe fuel h in if changed then rest else some h
