-- ===== src/Controller/Sequence.antt =====
-- `SequenceTracking` and `update_sequence_tracking` of tapio-controller/src/lib.rs, on one agent.
use tapio.Prelude.{
  ℕ, suc, ◌+◌, ◌-◌, ◌≤◌, ◌<◌, ◌≡◌, refl, Option, none, some, List, [], ◌∷◌, All, ltb, ◌==◌,
  if◌then◌else◌, saturating_add, u64_max, length, arith,
}
use Prim.Native.Nat.{max}
use mathlib.Core.Path.{sym, ◌∙◌, subst}

pub record SequenceTracking : Type 0 where
  pub last_seen : Option ℕ
  pub gaps_total : ℕ
  pub regressions_total : ℕ

-- `SequenceTracking::default()`.
abbrev pub default : SequenceTracking
default = record { last_seen = none; gaps_total = 0; regressions_total = 0 }

unfoldable pub track_after : ℕ → ℕ → SequenceTracking → SequenceTracking
track_after last_seen sequence tracking =
    if sequence == saturating_add last_seen 1
    then record tracking { last_seen = some sequence }
    else if ltb (saturating_add last_seen 1) sequence
    then record tracking {
      gaps_total = saturating_add tracking.gaps_total (sequence - saturating_add last_seen 1);
      last_seen = some sequence;
    }
    else record tracking { regressions_total = saturating_add tracking.regressions_total 1 }

abbrev track_from : Option ℕ → ℕ → SequenceTracking → SequenceTracking
track_from none sequence tracking = record tracking { last_seen = some sequence }
track_from (some last_seen) sequence tracking = track_after last_seen sequence tracking

unfoldable pub track : SequenceTracking → ℕ → SequenceTracking
unfolding track_after
track tracking sequence = track_from tracking.last_seen sequence tracking

-- The batches of one agent, in the order in which the controller takes them.
unfoldable pub track_all : SequenceTracking → List ℕ → SequenceTracking
track_all tracking [] = tracking
track_all tracking (sequence ∷ rest) = track_all (track tracking sequence) rest

abbrev pub Below : ℕ → List ℕ → Type 0
Below bound = All (λ s. s < bound)

-- Where the counters stand after the first sequence number `first` and `seen` further ones.
pub record Accounted (first seen : ℕ) (t : SequenceTracking) : Type 0 where
  pub last : ℕ
  pub last_is : t.last_seen ≡ some last
  pub last_max : last < u64_max
  pub regressed : t.regressions_total ≤ seen
  pub spread : t.gaps_total + first ≤ last
  pub balance : last + t.regressions_total ≡ first + seen + t.gaps_total

track-eq_after :
    (t : SequenceTracking) (last sequence : ℕ)
    → t.last_seen ≡ some last
    → track t sequence ≡ track_after last sequence t
unfolding track
track-eq_after t last sequence h = ground arith

track_after-Accounted :
    (first seen last sequence : ℕ) (t : SequenceTracking)
    → sequence < u64_max
    → seen < u64_max
    → (a : Accounted first seen t) → a.last ≡ last
    → Accounted first (suc seen) (track_after last sequence t)
unfolding track_after
track_after-Accounted first seen last sequence t s n a e = record {
  last = max last sequence;
  last_is = ground (arith, a.last_is);
  last_max = ground (arith, a.last_max);
  regressed = ground (arith, a.regressed);
  spread = ground (arith, a.spread, a.last_max, a.balance, a.regressed);
  balance = ground (arith, a.balance, a.spread, a.last_max, a.regressed);
}

track-Accounted :
    (first seen sequence : ℕ) (t : SequenceTracking)
    → sequence < u64_max
    → seen < u64_max
    → Accounted first seen t
    → Accounted first (suc seen) (track t sequence)
track-Accounted first seen sequence t s n a =
    rw (track-eq_after t a.last sequence a.last_is)
      (track_after-Accounted first seen a.last sequence t s n a refl)

track_all-Accounted :
    (first seen : ℕ) (rest : List ℕ) (t : SequenceTracking)
    → Below u64_max rest
    → seen + length rest ≤ u64_max
    → Accounted first seen t
    → Accounted first (seen + length rest) (track_all t rest)
unfolding track_all
track_all-Accounted first seen [] t b n a = let e : seen + 0 ≡ seen = omega arith in rw e a
track_all-Accounted first seen (s ∷ rest) t b n a =
    let e : seen + suc (length rest) ≡ suc seen + length rest = omega arith in
    rw e (
      track_all-Accounted first (suc seen) rest (track t s) b.1 (omega arith)
        (track-Accounted first seen s t b.0 (omega arith) a))

-- From a fresh baseline, for sequence numbers below the largest u64 and at most so many batches,
-- the counters balance: the last number seen, with the regressions, is the first one with the
-- batches after it and the gaps.
pub track_all-default :
    (first : ℕ) (rest : List ℕ)
    → first < u64_max
    → Below u64_max rest
    → length rest ≤ u64_max
    → Accounted first (length rest) (track_all default (first ∷ rest))
unfolding track_all track
track_all-default first rest f b n =
    subst (λ n. Accounted first n (track_all default (first ∷ rest))) zero_plus
      (track_all-Accounted first 0 rest
        (record { last_seen = some first; gaps_total = 0; regressions_total = 0 }) b (omega arith)
        (record {
          last = first;
          last_is = refl;
          last_max = f;
          regressed = omega arith;
          spread = omega arith;
          balance = omega arith;
        }))
  where
    zero_plus : 0 + length rest ≡ length rest
    zero_plus = omega arith

-- Each next number is greater.
abbrev pub Rising : ℕ → List ℕ → Type 0
Rising last [] = Unit {0}
Rising last (s ∷ rest) = (last < s) × Rising s rest

abbrev pub final : ℕ → List ℕ → ℕ
final last [] = last
final last (s ∷ rest) = final s rest

track-keeps :
    (t : SequenceTracking) (last sequence : ℕ)
    → t.last_seen ≡ some last
    → last < sequence
    → sequence < u64_max
    → ((track t sequence).last_seen ≡ some sequence)
      × ((track t sequence).regressions_total ≡ t.regressions_total)
track-keeps t last sequence h r b =
    rw (track-eq_after t last sequence h) (unfold track_after in (ground arith, ground arith))

track_all-keeps :
    (t : SequenceTracking) (last : ℕ) (rest : List ℕ)
    → t.last_seen ≡ some last
    → Rising last rest
    → Below u64_max rest
    → ((track_all t rest).last_seen ≡ some (final last rest))
      × ((track_all t rest).regressions_total ≡ t.regressions_total)
unfolding track_all
track_all-keeps t last [] h r b = (h, refl)
track_all-keeps t last (s ∷ rest) h r b =
    let (seen, same) = track-keeps t last s h r.0 b.0 in
    let (end, all_same) = track_all-keeps (track t s) s rest seen r.1 b.1 in (end, all_same ∙ same)

length-Rising : (last : ℕ) (rest : List ℕ) → Rising last rest → last + length rest ≤ final last rest
length-Rising last [] r = omega arith
length-Rising last (s ∷ rest) r = omega (arith, length-Rising s rest r.1, r.0)

final-lt :
    (bound last : ℕ) (rest : List ℕ) → last < bound → Below bound rest → final last rest < bound
final-lt bound last [] h b = h
final-lt bound last (s ∷ rest) h b = final-lt bound s rest b.0 b.1

last_eq : {a b : ℕ} → some a ≡ some b → a ≡ b
last_eq h = cc

-- An agent whose numbers rise, all below the largest u64, has no regression and exactly the
-- missing numbers as its gaps: those between the first and the last number that did not arrive.
pub track_all-Rising :
    (first : ℕ) (rest : List ℕ)
    → first < u64_max
    → Below u64_max rest
    → Rising first rest
    → ((track_all default (first ∷ rest)).last_seen ≡ some (final first rest))
      × ((track_all default (first ∷ rest)).regressions_total ≡ 0)
      × (first + length rest + (track_all default (first ∷ rest)).gaps_total ≡ final first rest)
track_all-Rising first rest f b r =
    let a =
      track_all-default first rest f b
        (omega (arith, length-Rising first rest r, final-lt u64_max first rest f b)) in
    let (end, same) = start in
    (end, same, omega (arith, a.balance, last_eq (sym a.last_is ∙ end), same))
  where
    start :
        ((track_all default (first ∷ rest)).last_seen ≡ some (final first rest))
        × ((track_all default (first ∷ rest)).regressions_total ≡ 0)
    start =
        unfold track_all track in
        track_all-keeps (record { last_seen = some first; gaps_total = 0; regressions_total = 0 })
          first rest refl r b
