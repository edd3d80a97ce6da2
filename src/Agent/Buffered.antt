-- ===== src/Agent/Buffered.antt =====
-- The buffer that the HTTP sink and the OTLP sink share in form: both drop the oldest events when it is
-- at its maximum, ten batches, and keep one batch.
use tapio.Prelude.{
  ℕ, zero, suc, ◌-◌, ◌<◌, List, [], ◌∷◌, ◌++◌, leb, if◌then◌else◌, length, ◌≡◌, refl, ap, arith,
  Bool-cases, inl, inr,
}

-- `Vec::drain(..n)`: what is left, and what is drained.
unfoldable pub drained {ℓ} : {A : Type ℓ} → ℕ → List A → List A
drained zero xs = []
drained (suc n) [] = []
drained (suc n) (x ∷ xs) = x ∷ drained n xs

unfoldable pub rest_of {ℓ} : {A : Type ℓ} → ℕ → List A → List A
rest_of zero xs = xs
rest_of (suc n) [] = []
rest_of (suc n) (x ∷ xs) = rest_of n xs

-- What is dropped before an event is pushed, and what is kept.
unfoldable pub overflow {ℓ} : {A : Type ℓ} → ℕ → ℕ → List A → List A
unfolding drained
overflow batch_size max_buffer buffer =
    if leb max_buffer (length buffer) then drained (length buffer - batch_size) buffer else []

unfoldable pub make_room {ℓ} : {A : Type ℓ} → ℕ → ℕ → List A → List A
unfolding rest_of
make_room batch_size max_buffer buffer =
    if leb max_buffer (length buffer) then rest_of (length buffer - batch_size) buffer else buffer

module _ {ℓ} {A : Type ℓ} where
  drained-rest_of : (n : ℕ) (xs : List A) → drained n xs ++ rest_of n xs ≡ xs
  unfolding drained rest_of
  drained-rest_of zero xs = refl
  drained-rest_of (suc n) [] = refl
  drained-rest_of (suc n) (x ∷ xs) = ap (λ rest. x ∷ rest) (drained-rest_of n xs)

  length-rest_of : (n : ℕ) (xs : List A) → length (rest_of n xs) ≡ length xs - n
  unfolding rest_of
  length-rest_of zero xs = omega arith
  length-rest_of (suc n) [] = omega arith
  length-rest_of (suc n) (x ∷ xs) = omega (arith, length-rest_of n xs)

  -- Only the oldest events are dropped.
  pub overflow-make_room :
      (batch_size max_buffer : ℕ) (buffer : List A)
      → overflow batch_size max_buffer buffer ++ make_room batch_size max_buffer buffer ≡ buffer
  unfolding overflow make_room
  overflow-make_room batch_size max_buffer buffer =
      elim (Bool-cases (leb max_buffer (length buffer))) [
        | inl full ↦ rw full (drained-rest_of (length buffer - batch_size) buffer)
        | inr room ↦ rw room refl
      ]

  -- There is room for one more, if a batch is smaller than the maximum.
  pub length-make_room :
      (batch_size max_buffer : ℕ) (buffer : List A)
      → batch_size < max_buffer
      → length (make_room batch_size max_buffer buffer) < max_buffer
  unfolding make_room
  length-make_room batch_size max_buffer buffer h =
      elim (Bool-cases (leb max_buffer (length buffer))) [
        | inl full ↦ rw full (omega (arith, length-rest_of (length buffer - batch_size) buffer))
        | inr room ↦ rw room (ground arith)
      ]
