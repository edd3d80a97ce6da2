-- ===== src/Wire/Facts.antt =====
-- `reject_reasoning_fields` and `is_reasoning_key` of tapio-wire/src/lib.rs: the facts of an event
-- hold no reasoning field at any depth of nested objects.
use Prim.Native.String.{◌++◌}
use text.Mathlib.Text.{◌==◌}
use tapio.Prelude.{
  IsOk, ◌↔◌, Result-cases, >>-err, Bool-cases, refl, inl, inr, is_ok, String, Bool, ◌||◌, true, ◌≡◌,
  ok, err, ◌>>◌, if◌then◌else◌, arith, false,
}
use tapio.Wire.Types.{
  Value, null, boolean, number, str, array, object, Fields, end, field, WireError, reasoning_field,
  WireResult,
}

unfoldable pub is_reasoning_key : String → Bool
is_reasoning_key key =
    key == "reasoning"
    || key == "root_cause"
    || key == "rootCause"
    || key == "causal_chain"
    || key == "causalChain"
    || key == "explanation"
    || key == "possible_causes"
    || key == "possibleCauses"
    || key == "suggested_fix"
    || key == "suggestedFix"
    || key == "remediation"
    || key == "recommendation"

-- `format!("{path}.{key}")`.
unfoldable pub join : String → String → String
join path key = path ++ "." ++ key

unfoldable mutual
  pub reject_reasoning_fields : String → Value → WireResult (Unit {0})
  reject_reasoning_fields path (object map) = reject_entries path map
  reject_reasoning_fields path null = ok tt
  reject_reasoning_fields path (boolean b) = ok tt
  reject_reasoning_fields path (number n) = ok tt
  reject_reasoning_fields path (str s) = ok tt
  reject_reasoning_fields path (array items) = ok tt

  pub reject_entries : String → Fields → WireResult (Unit {0})
  reject_entries path end = ok tt
  reject_entries path (field key child map) =
      if is_reasoning_key key
      then err (reasoning_field (join path key))
      else reject_reasoning_fields (join path key) child >> reject_entries path map

-- A reasoning field stands at the path `p`, reached from `path` through objects only.
mutual
  pub data Reasons : String → Value → String → Type 0 where
    inside : {path p : String} {map : Fields} → ReasonsIn path map p → Reasons path (object map) p

  pub data ReasonsIn : String → Fields → String → Type 0 where
    found :
        {path p key : String} {child : Value} {map : Fields}
        → is_reasoning_key key ≡ true
        → p ≡ join path key
        → ReasonsIn path (field key child map) p
    below :
        {path p key : String} {child : Value} {map : Fields}
        → Reasons (join path key) child p
        → ReasonsIn path (field key child map) p
    later :
        {path p key : String} {child : Value} {map : Fields}
        → ReasonsIn path map p
        → ReasonsIn path (field key child map) p

>>-first : (m k : WireResult (Unit {0})) → is_ok m ≡ false → is_ok (m >> k) ≡ false
>>-first (ok a) k h = cc
>>-first (err e) k h = refl

>>-second : (m k : WireResult (Unit {0})) → is_ok k ≡ false → is_ok (m >> k) ≡ false
>>-second (ok a) k h = h
>>-second (err e) k h = refl

-- A rejection names a path at which a reasoning field stands.
mutual
  unfolding reject_reasoning_fields

  reject_names :
      (path : String) (v : Value) (e : WireError)
      → reject_reasoning_fields path v ≡ err e
      → (p : String) × (e ≡ reasoning_field p) × Reasons path v p
  reject_names path (object map) e h =
      let (p, q, r) = reject_entries_names path map e h in (p, q, inside r)
  reject_names path null e h = cc
  reject_names path (boolean b) e h = cc
  reject_names path (number n) e h = cc
  reject_names path (str s) e h = cc
  reject_names path (array items) e h = cc

  reject_entries_names :
      (path : String) (map : Fields) (e : WireError)
      → reject_entries path map ≡ err e
      → (p : String) × (e ≡ reasoning_field p) × ReasonsIn path map p
  reject_entries_names path end e h = cc
  reject_entries_names path (field key child map) e h = elim (Bool-cases (is_reasoning_key key)) [
    | inl y ↦ (join path key, ground arith, found y refl)
    | inr n ↦
        elim (>>-err (reject_reasoning_fields (join path key) child) (reject_entries path map)
          (ground arith)) [
            | inl g ↦ let (p, q, r) = reject_names (join path key) child e g in (p, q, below r)
            | inr g ↦ let (p, q, r) = reject_entries_names path map e g in (p, q, later r)
          ]
  ]

-- Where a reasoning field stands, the facts are rejected.
mutual
  unfolding reject_reasoning_fields

  Reasons-rejected :
      {path p : String} {v : Value}
      → Reasons path v p
      → is_ok (reject_reasoning_fields path v) ≡ false
  Reasons-rejected (inside r) = ReasonsIn-rejected r

  ReasonsIn-rejected :
      {path p : String} {map : Fields}
      → ReasonsIn path map p
      → is_ok (reject_entries path map) ≡ false
  ReasonsIn-rejected (found y e) = rw y
  ReasonsIn-rejected (below {path = q} {key = k} {child = c} {map = m} r) = ground (
    arith,
    Reasons-rejected r,
    >>-first (reject_reasoning_fields (join q k) c) (reject_entries q m),
  )
  ReasonsIn-rejected (later {path = q} {key = k} {child = c} {map = m} r) = ground (
    arith,
    ReasonsIn-rejected r,
    >>-second (reject_reasoning_fields (join q k) c) (reject_entries q m),
  )

-- Facts are accepted exactly when no reasoning field stands at any path through nested objects.
pub reject_reasoning_fields_iff :
    (path : String) (v : Value)
    → IsOk (reject_reasoning_fields path v) ↔ ((p : String) → ¬ Reasons path v p)
reject_reasoning_fields_iff path v = (
  λ h p r. cc (Reasons-rejected r),
  λ h. elim (Result-cases (reject_reasoning_fields path v)) [
    | inl (tt, e) ↦ e
    | inr (x, e) ↦ let (p, q, r) = reject_names path v x e in elim (h p r) [ ]
  ],
)

-- A rejection of facts is always for a reasoning field, and names a path at which one stands.
pub reject_reasoning_fields-err :
    (path : String) (v : Value) (e : WireError)
    → reject_reasoning_fields path v ≡ err e
    → (p : String) × (e ≡ reasoning_field p) × Reasons path v p
reject_reasoning_fields-err path v e h = reject_names path v e h
