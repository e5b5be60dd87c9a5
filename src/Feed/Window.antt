-- ===== src/Feed/Window.antt =====
-- The window of time that the feed asks for, against the days that the widget shows.
use cal_stack.Base.{
  ℕ, ◌+◌, ◌≤◌, ◌≡◌, refl, sym, inl, inr, arith, true, false, some, List, [], ◌∷◌, ◌++◌, ◌==◌, any,
  In, All, All-at, Text, codes, text_eq, subst, List-cases,
}
use cal_stack.Times.{is_plain_date}
use cal_stack.Journals.{text_lt}
use cal_stack.Feed.{
  Clock, RequestData, put_t, to_iso, to_iso_exclusive_end, day_ms, week_view_date_range, window,
}
use cal_stack.Feed.Sorted.{
  sort_texts, last_text, Sorted, sort_texts-Sorted, In-sort_texts, In-of_sort_texts, In-last_text,
  Sorted-around,
}

abbrev pub midnight : Text → Text
midnight date = date ++ codes "T00:00:00Z"

put_t-no_space : (s : Text) → any (◌== b' ') s ≡ false → put_t s ≡ s
unfolding put_t
put_t-no_space [] h = refl
put_t-no_space (c ∷ s) h = ground (arith, put_t-no_space s)

plain-no_space : (s : Text) → is_plain_date s ≡ true → any (◌== b' ') s ≡ false
unfolding is_plain_date
plain-no_space (a ∷ b ∷ c ∷ d ∷ p ∷ e ∷ f ∷ q ∷ g ∷ h ∷ []) t = ground arith
plain-no_space _ t = absurd (cc)

not_plain : ¬ (is_plain_date [] ≡ true)
unfolding is_plain_date
not_plain h = cc

to_iso-plain : (s : Text) → is_plain_date s ≡ true → to_iso s ≡ midnight s
unfolding to_iso
to_iso-plain [] h = absurd (not_plain h)
to_iso-plain (c ∷ s) h = rw (put_t-no_space (c ∷ s) (plain-no_space (c ∷ s) h), h) refl

to_iso_exclusive_end-plain :
    (b : Clock) (s : Text) (t : ℕ)
    → is_plain_date s ≡ true
    → b.time_of (midnight s) ≡ some t
    → to_iso_exclusive_end b s ≡ some (b.iso_of_time (t + day_ms))
unfolding to_iso_exclusive_end
to_iso_exclusive_end-plain b s t h e = rw (h, e) refl

-- The window of the week view covers each day that is shown: it begins at the start of the day or
-- before, and ends at the end of the day or after, in UTC. The headers hold plain dates that
-- `new Date` reads, later for a later date, and it reads what `toISOString` wrote.
pub window-covers :
    (b : Clock) (r : RequestData) (headers : List Text) (start_of : Text → ℕ) (d : Text)
    → text_eq r.view (codes "week") ≡ true
    → All (λ x. is_plain_date x ≡ true) headers
    → ((x : Text) → In x headers → b.time_of (midnight x) ≡ some (start_of x))
    → ((x y : Text) → In x headers → In y headers → text_lt y x ≡ false → start_of x ≤ start_of y)
    → ((t : ℕ) → b.time_of (b.iso_of_time t) ≡ some t)
    → In d headers
    → (from to : Text) × (first end : ℕ) × (window b r headers ≡ some (from, to))
      × (b.time_of from ≡ some first)
      × (b.time_of to ≡ some end)
      × (first ≤ start_of d)
      × (start_of d + day_ms ≤ end)
unfolding window week_view_date_range
window-covers b r headers start_of d week plain reads later back i =
    elim (List-cases (sort_texts headers)) [
      | inl e ↦ elim (subst (In d) e (In-sort_texts d headers i)) [ ]
      | inr (s, ts, e) ↦
          let old =
            λ (x : Text) (j : In x (s ∷ ts)). In-of_sort_texts x headers (subst (In x) (sym e) j) in
          let here = subst (In d) e (In-sort_texts d headers i) in
          let (low, high) =
            Sorted-around d s ts (subst Sorted e (sort_texts-Sorted headers)) here in
          let first = old s (inl refl) in
          let last = old (last_text s ts) (In-last_text s ts) in
          (
            midnight s,
            b.iso_of_time (start_of (last_text s ts) + day_ms),
            start_of s,
            start_of (last_text s ts) + day_ms,
            rw
                (
                  week,
                  e,
                  to_iso-plain s (All-at _ s headers plain first),
                  to_iso_exclusive_end-plain b (last_text s ts) (start_of (last_text s ts))
                      (All-at _ (last_text s ts) headers plain last) (reads (last_text s ts) last),
                )
                refl,
            reads s first,
            back (start_of (last_text s ts) + day_ms),
            later s d first i low,
            let le = later d (last_text s ts) i last high in omega arith,
          )
    ]
