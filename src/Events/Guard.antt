-- ===== src/Events/Guard.antt =====
-- The guard on unsaved changes of the event editor in app.js: the handlers of the form's `input` and
-- of `hide.bs.modal`, and the ends of a save and of a deletion.
use cal_stack.Base.{
  ◌≡◌, refl, Bool, true, false, ◌||◌, if◌then◌else◌, List, [], ◌∷◌, Bool-cases, inl, inr, All,
}

-- Whether the window of the editor is shown, `state.eventDirty`, and whether "Discard unsaved
-- changes?" is asked.
pub record Window : Type 0 where
  pub shown : Bool
  pub dirty : Bool
  pub asking : Bool

pub data Event : Type 0 where
  -- `openEventModal`
  opened : Event
  -- `input` or `change` in a field of the form
  changed : Event
  -- a try to close the window
  closing : Event
  -- the answer to the question
  answered : Bool → Event
  -- the request of `saveEvent` or `deleteEvent` came back
  stored : Bool → Event

-- `hide()`, with the handler of `hide.bs.modal`.
unfoldable pub hide : Window → Window
hide w =
    if w.shown
    then (if w.dirty then record w { asking = true } else record w { shown = false })
    else w

unfoldable pub handle : Window → Event → Window
unfolding hide
handle w opened = record w { shown = true; dirty = false }
handle w changed = record w { dirty = w.dirty || w.shown }
handle w closing = hide w
handle w (answered agreed) =
    if w.asking
    then (if agreed
        then hide (record w { asking = false; dirty = false })
        else record w { asking = false })
    else w
handle w (stored ok) = if ok then hide (record w { dirty = false }) else w

unfoldable pub run : Window → List Event → Window
unfolding handle
run w [] = w
run w (e ∷ es) = run (handle w e) es

-- The events that may drop or store the changes: the user agrees, a request succeeds, or the
-- editor is opened for another event.
abbrev pub settles : Event → Bool
settles opened = true
settles changed = false
settles closing = false
settles (answered agreed) = agreed
settles (stored ok) = ok

abbrev pub NoneSettles : List Event → Type 0
NoneSettles = All (λ e. settles e ≡ false)

handle-keeps :
    (w : Window) (e : Event)
    → w.shown ≡ true
    → w.dirty ≡ true
    → settles e ≡ false
    → ((handle w e).shown ≡ true) × ((handle w e).dirty ≡ true)
unfolding handle hide
handle-keeps w opened s d n = absurd (cc n)
handle-keeps w changed s d n = rw (s, d) (refl, refl)
handle-keeps w closing s d n = rw (s, d) (refl, refl)
handle-keeps w (answered agreed) s d n = elim (Bool-cases w.asking) [
  | inl a ↦ rw (a, n) (s, d)
  | inr a ↦ rw a (s, d)
]
handle-keeps w (stored ok) s d n = rw n (s, d)

-- Unsaved changes are not lost by closing the window: as long as the user does not agree to discard
-- them and no request succeeds, the window stays open with the changes, however often it is closed
-- and whatever is typed.
pub run-keeps :
    (es : List Event) (w : Window)
    → w.shown ≡ true
    → w.dirty ≡ true
    → NoneSettles es
    → ((run w es).shown ≡ true) × ((run w es).dirty ≡ true)
unfolding run
run-keeps [] w s d n = (s, d)
run-keeps (e ∷ es) w s d (n, ns) =
    let (s', d') = handle-keeps w e s d n in run-keeps es (handle w e) s' d' ns

-- A save that succeeds closes the window without a question, also after changes.
pub run-stored : (w : Window) → w.shown ≡ true → (run w (changed ∷ stored true ∷ [])).shown ≡ false
unfolding run handle hide
run-stored w s = rw s refl
