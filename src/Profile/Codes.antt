-- ===== src/Profile/Codes.antt =====
-- The list of ignored exit codes that `apply_container` of tapio-profile/src/lib.rs builds.
use tapio.Prelude.{
  ℕ, ◌+◌, ◌≤◌, ◌≡◌, refl, inl, inr, Bool, false, List, [], ◌∷◌, ◌++◌, ok, ◌==◌, length,
  length-append, All, arith, Bool-cases, ◌||◌, some,
}
use tapio.Prelude.Int.{ℤ, pos, negsuc}
use tapio.Profile.Types.{max_ignore_exit_codes}
use tapio.Profile.Validate.{check_codes, apply_codes, contains}

-- No code occurs twice.
abbrev pub Distinct : List ℕ → Type 0
Distinct [] = Unit {0}
Distinct (x ∷ xs) = (contains xs x ≡ false) × Distinct xs

abbrev pub names : List ℤ → ℕ → Bool
names [] c = false
names (pos n ∷ codes) c = n == c || names codes c
names (negsuc n ∷ codes) c = names codes c

contains-append :
    (xs ys : List ℕ) (c : ℕ) → contains (xs ++ ys) c ≡ (contains xs c || contains ys c)
contains-append [] ys c = refl
contains-append (x ∷ xs) ys c = ground (arith, contains-append xs ys c)

Distinct-append :
    (xs : List ℕ) (c : ℕ) → contains xs c ≡ false → Distinct xs → Distinct (xs ++ c ∷ [])
Distinct-append [] c h d = (refl, tt)
Distinct-append (x ∷ xs) c h d =
    (ground (arith, contains-append xs (c ∷ []) x), Distinct-append xs c (ground arith) d.1)

Bytes-append :
    (xs : List ℕ) (c : ℕ) → c ≤ 255 → All (λ x. x ≤ 255) xs → All (λ x. x ≤ 255) (xs ++ c ∷ [])
Bytes-append [] c h b = (h, tt)
Bytes-append (x ∷ xs) c h b = (b.0, Bytes-append xs c h b.1)

-- What the loop makes of the codes read so far.
pub record Checked (codes : List ℤ) (checked result : List ℕ) : Type 0 where
  pub distinct : Distinct result
  pub bytes : All (λ c. c ≤ 255) result
  pub short : length result ≤ length checked + length codes
  pub members : (c : ℕ) → contains result c ≡ (contains checked c || names codes c)

pub check_codes-Checked :
    (codes : List ℤ) (checked result : List ℕ)
    → check_codes codes checked ≡ ok result
    → Distinct checked
    → All (λ c. c ≤ 255) checked
    → Checked codes checked result
unfolding check_codes
check_codes-Checked [] checked result h d b = record {
  distinct = ground arith;
  bytes = ground arith;
  short = ground arith;
  members = λ c. ground arith;
}
check_codes-Checked (negsuc n ∷ codes) checked result h d b = cc
check_codes-Checked (pos n ∷ codes) checked result h d b = elim (Bool-cases (contains checked n)) [
  | inl seen ↦
      let r = check_codes-Checked codes checked result (ground arith) d b in
      record {
        distinct = r.distinct;
        bytes = r.bytes;
        short = omega (arith, r.short);
        members = λ c. ground (arith, r.members c);
      }
  | inr fresh ↦
      let r =
        check_codes-Checked codes (checked ++ n ∷ []) result (ground arith)
          (Distinct-append checked n fresh d) (Bytes-append checked n (ground arith) b) in
      record {
        distinct = r.distinct;
        bytes = r.bytes;
        short = omega (arith, r.short, length-append checked (n ∷ []));
        members = λ c. ground (arith, r.members c, contains-append checked (n ∷ []) c);
      }
]

-- A given list of ignored exit codes is kept without its repetitions: the result holds exactly the
-- codes that were given, each once, all of them bytes and at most sixteen.
pub apply_codes-given :
    (codes : List ℤ) (base result : List ℕ)
    → apply_codes (some codes) base ≡ ok result
    → Checked codes [] result × (length result ≤ max_ignore_exit_codes)
unfolding apply_codes
apply_codes-given codes base result h =
    let checks : check_codes codes [] ≡ ok result = ground arith in
    let c = check_codes-Checked codes [] result checks tt tt in (c, ground (arith, c.short))
