-- ===== src/Observer/Drained.antt =====
-- What the drain loop does with the records of the ring buffer: each tick takes at most the cap, in
-- order, and enough ticks take them all.
use mathlib.Core.Path.{subst}
use mathlib.Core.List.{append_assoc, append-nil}
use tapio.Prelude.{
  ℕ, zero, suc, ◌+◌, ◌-◌, ◌*◌, ◌≤◌, List, [], ◌∷◌, ◌++◌, Option, none, some, Option-cases, Bool,
  true, false, not, ltb, leb, if◌then◌else◌, length, length-append, keep, ◌≡◌, refl, sym, ap, ◌∙◌,
  arith, Bool-cases, inl, inr,
}
use tapio.Observer.Occurrence.{Occurrence}
use tapio.Observer.Drain.{
  Counters, max_drain_per_tick, drop_malformed, take_event, handle, drain_from, drain_tick, ticks,
  Lost, lost_tick,
}

abbrev pub take {ℓ} : {A : Type ℓ} → ℕ → List A → List A
take zero xs = []
take (suc n) [] = []
take (suc n) (x ∷ xs) = x ∷ take n xs

abbrev pub drop {ℓ} : {A : Type ℓ} → ℕ → List A → List A
drop zero xs = xs
drop (suc n) [] = []
drop (suc n) (x ∷ xs) = drop n xs

module _ (expected_len : ℕ) (observe : ℕ → List ℕ → Option Occurrence) where
  abbrev pub is_event : List ℕ → Bool
  is_event data_ = not (ltb (length data_) expected_len)

  abbrev pub is_malformed : List ℕ → Bool
  is_malformed data_ = ltb (length data_) expected_len

  abbrev optional : Option Occurrence → List Occurrence
  optional none = []
  optional (some occ) = occ ∷ []

  -- What is observed in the events, numbered from one on.
  abbrev pub reports : ℕ → List (List ℕ) → List Occurrence
  reports n [] = []
  reports n (data_ ∷ rest) = optional (observe n data_) ++ reports (n + 1) rest

  -- From one state to another, these records were handled, each once and in order.
  pub record Handled (items : List (List ℕ)) (before after : Counters) : Type 0 where
    pub malformed :
        after.malformed_count ≡ before.malformed_count + length (keep is_malformed items)
    pub events : after.event_count ≡ before.event_count + length (keep is_event items)
    pub sent : after.sent ≡ before.sent ++ reports before.event_count (keep is_event items)

  reports-append :
      (n : ℕ) (xs ys : List (List ℕ))
      → reports n (xs ++ ys) ≡ reports n xs ++ reports (n + length xs) ys
  reports-append n [] ys = ap (λ m. reports m ys) (omega arith)
  reports-append n (x ∷ xs) ys =
      let later : n + 1 + length xs ≡ n + suc (length xs) = omega arith in
      rw (reports-append (n + 1) xs ys, later, append_assoc) refl

  keep-append :
      (p : List ℕ → Bool) (xs ys : List (List ℕ)) → keep p (xs ++ ys) ≡ keep p xs ++ keep p ys
  keep-append p [] ys = refl
  keep-append p (x ∷ xs) ys = ground (arith, keep-append p xs ys)

  Handled-append :
      (xs ys : List (List ℕ)) (a b c : Counters)
      → Handled xs a b
      → Handled ys b c
      → Handled (xs ++ ys) a c
  Handled-append xs ys a b c h k = record {
    malformed =
        rw
          (
            k.malformed,
            h.malformed,
            keep-append is_malformed xs ys,
            length-append (keep is_malformed xs) (keep is_malformed ys),
          )
          (omega arith);
    events =
        rw
          (
            k.events,
            h.events,
            keep-append is_event xs ys,
            length-append (keep is_event xs) (keep is_event ys),
          )
          (omega arith);
    sent =
        rw
          (
            k.sent,
            h.sent,
            h.events,
            keep-append is_event xs ys,
            reports-append a.event_count (keep is_event xs) (keep is_event ys),
            append_assoc,
          )
          refl;
  }

  Handled-take_event :
      (data_ : List ℕ) (s : Counters)
      → ltb (length data_) expected_len ≡ false
      → Handled (data_ ∷ []) s (take_event (observe s.event_count data_) s)
  unfolding take_event
  Handled-take_event data_ s long = elim (Option-cases (observe s.event_count data_)) [
    | inl nothing ↦ record {
      malformed = rw (long, nothing) (omega arith);
      events = rw (long, nothing) (omega arith);
      sent = rw (long, nothing) (sym (append-nil s.sent));
    }
    | inr (occ, something) ↦ record {
      malformed = rw (long, something) (omega arith);
      events = rw (long, something) (omega arith);
      sent = rw (long, something) refl;
    }
  ]

  Handled-drop_malformed :
      (data_ : List ℕ) (s : Counters)
      → ltb (length data_) expected_len ≡ true
      → Handled (data_ ∷ []) s (drop_malformed s)
  unfolding drop_malformed
  Handled-drop_malformed data_ s short = record {
    malformed = rw short (omega arith);
    events = rw short (omega arith);
    sent = rw short (sym (append-nil s.sent));
  }

  Handled-handle :
      (data_ : List ℕ) (s : Counters) → Handled (data_ ∷ []) s (handle expected_len observe data_ s)
  unfolding handle
  Handled-handle data_ s = elim (Bool-cases (ltb (length data_) expected_len)) [
    | inl short ↦ rw short (Handled-drop_malformed data_ s short)
    | inr long ↦ rw long (Handled-take_event data_ s long)
  ]

  Handled-none : (s : Counters) → Handled [] s s
  Handled-none s = record {
    malformed = omega arith;
    events = omega arith;
    sent = sym (append-nil s.sent);
  }

  -- From a number of drained records below the cap, the loop takes what the cap leaves of the items.
  Handled-drain_from :
      (budget count : ℕ) (items : List (List ℕ)) (s : Counters)
      → count + suc budget ≡ max_drain_per_tick
      → let out = drain_from expected_len observe count items s in
        Handled (take (suc budget) items) s out.0
        × (out.1 ≡ count + length (take (suc budget) items))
        × (out.2 ≡ drop (suc budget) items)
  unfolding drain_from
  Handled-drain_from budget count [] s h = (Handled-none s, omega arith, refl)
  Handled-drain_from zero count (data_ ∷ rest) s h =
      let last : leb max_drain_per_tick (count + 1) ≡ true = ground arith in
      rw last (Handled-handle data_ s, omega arith, refl)
  Handled-drain_from (suc budget) count (data_ ∷ rest) s h =
      let more : leb max_drain_per_tick (count + 1) ≡ false = ground arith in
      let (a, b, c) =
        Handled-drain_from budget (count + 1) rest (handle expected_len observe data_ s)
          (omega arith) in
      rw more (
        Handled-append (data_ ∷ []) (take (suc budget) rest) s (handle expected_len observe data_ s)
            (drain_from expected_len observe (count + 1) rest
              (handle expected_len observe data_ s)).0
            (Handled-handle data_ s) a,
        b ∙ (omega arith),
        c,
      )

  -- The cap's metric is no part of what was handled.
  Handled-capped :
      (b : Bool) (items : List (List ℕ)) (before after : Counters)
      → Handled items before after
      → Handled items before
          (if b then record after { drain_cap_total = after.drain_cap_total + 1 } else after)
  Handled-capped true items before after h = record {
    malformed = h.malformed;
    events = h.events;
    sent = h.sent;
  }
  Handled-capped false items before after h = h

  -- A tick handles exactly the first 2048 records of the ring buffer, or all if there are fewer,
  -- each once and in order, counts them, and leaves the others for the next tick.
  pub drain_tick-Handled :
      (items : List (List ℕ)) (s : Counters)
      → let out = drain_tick expected_len observe items s in
        Handled (take max_drain_per_tick items) s out.0
        × (out.1 ≡ length (take max_drain_per_tick items))
        × (out.2 ≡ drop max_drain_per_tick items)
  unfolding drain_tick
  drain_tick-Handled items s =
      let (a, b, c) = Handled-drain_from 2047 0 items s refl in
      let out = drain_from expected_len observe 0 items s in
      (
        Handled-capped (leb max_drain_per_tick out.1) (take max_drain_per_tick items) s out.0 a,
        b ∙ (omega arith),
        c,
      )

  take-drop : (n : ℕ) (xs : List (List ℕ)) → take n xs ++ drop n xs ≡ xs
  take-drop zero xs = refl
  take-drop (suc n) [] = refl
  take-drop (suc n) (x ∷ xs) = ap (λ rest. x ∷ rest) (take-drop n xs)

  length-drop : (n : ℕ) (xs : List (List ℕ)) → length (drop n xs) ≡ length xs - n
  length-drop zero xs = omega arith
  length-drop (suc n) [] = omega arith
  length-drop (suc n) (x ∷ xs) = omega (arith, length-drop n xs)

  no_items : (xs : List (List ℕ)) → length xs ≤ 0 → xs ≡ []
  no_items [] h = refl
  no_items (x ∷ xs) h = ground arith

  -- Enough ticks empty the ring buffer: after as many as the records fill at 2048 each, none is
  -- left, each record was handled once, the short ones counted as malformed and the others as
  -- events, and the sink was given what is observed in the events, in their order.
  pub ticks-Handled :
      (n : ℕ) (items : List (List ℕ)) (s : Counters)
      → length items ≤ max_drain_per_tick * n
      → let out = ticks expected_len observe n items s in Handled items s out.0 × (out.1 ≡ [])
  unfolding ticks
  ticks-Handled zero items s h =
      let none = no_items items (omega arith) in rw none (Handled-none s, refl)
  ticks-Handled (suc n) items s h =
      let (a, b, c) = drain_tick-Handled items s in
      let first = (drain_tick expected_len observe items s).0 in
      let left = (drain_tick expected_len observe items s).2 in
      let fewer : length left ≤ max_drain_per_tick * n =
        rw c (omega (arith, length-drop max_drain_per_tick items)) in
      let (d, e) = ticks-Handled n left first fewer in
      let whole : take max_drain_per_tick items ++ left ≡ items =
        rw c (take-drop max_drain_per_tick items) in
      (
        subst (λ (xs : List (List ℕ)). Handled xs s (ticks expected_len observe n left first).0)
            whole
            (Handled-append (take max_drain_per_tick items) left s first
              (ticks expected_len observe n left first).0 a d),
        e,
      )

-- The lost events are reported up to the last total read, and never more.
pub lost_tick-total :
    (lost : ℕ) (s : Lost)
    → s.lost_events_total ≡ s.prev_lost
    → ((lost_tick lost s).lost_events_total ≡ (lost_tick lost s).prev_lost)
      × (s.prev_lost ≤ (lost_tick lost s).prev_lost)
unfolding lost_tick
lost_tick-total lost s h = (ground arith, ground arith)
