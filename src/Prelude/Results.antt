-- ===== src/Prelude/Results.antt =====
-- `Result<A, E>`, and the `?` operator as a `do` block.
use mathlib.Core.Path.{◌≡◌, refl, subst}
use mathlib.Core.Logic.{◌⊎◌, inl, inr, ◌↔◌}
use mathlib.Core.Bool.{Bool, true, false}

pub data Result {ℓ κ} (E : Type ℓ) (A : Type κ) : Type (ℓ ⊔ κ) where
  ok : A → Result E A
  err : E → Result E A

infixl 5 ◌>>=◌ ◌>>◌
abbrev pub ◌>>=◌ {ℓ κ μ} :
    {E : Type ℓ} {A : Type κ} {B : Type μ} → Result E A → (A → Result E B) → Result E B
ok a >>= f = f a
err e >>= f = err e

abbrev pub ◌>>◌ {ℓ κ} : {E : Type ℓ} {B : Type κ} → Result E (Unit {0}) → Result E B → Result E B
m >> k = m >>= λ _. k

abbrev pub is_ok {ℓ κ} : {E : Type ℓ} {A : Type κ} → Result E A → Bool
is_ok (ok a) = true
is_ok (err e) = false

-- A chain that succeeds has succeeded in its first part, with some value, and in what follows.
pub >>=-eq-ok {ℓ κ μ} :
    {E : Type ℓ} {A : Type κ} {B : Type μ} (first : Result E A) (next : A → Result E B) {out : B}
    → (first >>= next) ≡ ok out
    → (mid : A) × (first ≡ ok mid) × (next mid ≡ ok out)
>>=-eq-ok (err failure) next chained = cc
>>=-eq-ok (ok mid) next chained = (mid, refl, chained)

-- A sequence fails in its first or in its second part, and succeeds in both.
pub >>-err {ℓ κ} :
    {E : Type ℓ} {B : Type κ} (m : Result E (Unit {0})) (k : Result E B) {e : E}
    → (m >> k) ≡ err e
    → (m ≡ err e) ⊎ (k ≡ err e)
>>-err (ok a) k h = inr h
>>-err (err e) k h = inl (cc)

abbrev pub IsOk {ℓ} : {E : Type ℓ} → Result E (Unit {0}) → Type ℓ
IsOk r = r ≡ ok tt

pub >>-ok {ℓ} : {E : Type ℓ} (m k : Result E (Unit {0})) → IsOk (m >> k) ↔ (IsOk m × IsOk k)
>>-ok (ok tt) k = (λ h. (refl, h), λ h. h.1)
>>-ok (err e) k = (λ h. cc, λ h. cc (h.0))

-- What holds of the value, if there is one.
abbrev pub Ensures {ℓ κ μ} : {E : Type ℓ} {A : Type κ} → (A → Type μ) → Result E A → Type μ
Ensures P (ok a) = P a
Ensures P (err e) = Unit

pub Ensures-bind {ℓ κ μ ν ρ} :
    {E : Type ℓ} {A : Type κ} {B : Type μ} (P : A → Type ν) (Q : B → Type ρ) (m : Result E A)
    (f : A → Result E B)
    → Ensures P m
    → ((a : A) → P a → Ensures Q (f a))
    → Ensures Q (m >>= f)
Ensures-bind P Q (ok a) f h k = k a h
Ensures-bind P Q (err e) f h k = tt

pub Ensures-ok {ℓ κ μ} :
    {E : Type ℓ} {A : Type κ} (P : A → Type μ) (m : Result E A) {a : A}
    → Ensures P m
    → m ≡ ok a
    → P a
Ensures-ok P (ok b) h e = subst P (cc) h
Ensures-ok P (err x) h e = cc

pub anything {ℓ κ} : {E : Type ℓ} {A : Type κ} (m : Result E A) → Ensures (λ a. Unit {0}) m
anything (ok a) = tt
anything (err e) = tt

pub Result-cases {ℓ κ} :
    {E : Type ℓ} {A : Type κ} (m : Result E A) → ((a : A) × (m ≡ ok a)) ⊎ ((e : E) × (m ≡ err e))
Result-cases (ok a) = inl (a, refl)
Result-cases (err e) = inr (e, refl)

pub is_ok_iff {ℓ} : {E : Type ℓ} (r : Result E (Unit {0})) → (is_ok r ≡ true) ↔ IsOk r
is_ok_iff (ok tt) = (λ h. refl, λ h. refl)
is_ok_iff (err e) = (λ h. cc, λ h. cc)
