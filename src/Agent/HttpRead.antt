-- ===== src/Agent/HttpRead.antt =====
-- What the HTTP client reads: how the bytes are cut into reads does not matter, and a response comes back.
use mathlib.Core.List.{append_assoc, append-nil}
use tapio.Prelude.{
  ℕ, ◌≤◌, ◌<◌, ◌≡◌, refl, List, [], ◌∷◌, ◌++◌, map, Result, ok, err, ◌>>=◌, ltb, leb, if◌then◌else◌,
  length, length-append, concat, All, arith, Bool-cases, inl, inr,
}
use tapio.Agent.Httpc.{chunk, HttpError, exceeded, read_all, parse_response, read_response}

-- Reads of a stream that ends after them; a read of no byte would be its end.
abbrev pub AreReads : List (List ℕ) → Type 0
AreReads parts = All (λ part. 0 < length part) parts

abbrev pub whole : ℕ → List ℕ → Result HttpError (List ℕ)
whole limit bytes = if leb (length bytes) limit then ok bytes else err (exceeded limit)

read_all-chunks :
    (limit : ℕ) (response : List ℕ) (parts : List (List ℕ))
    → AreReads parts
    → length response ≤ limit
    → read_all limit response (map chunk parts) ≡ whole limit (response ++ concat parts)
unfolding read_all
read_all-chunks limit response [] reads fits = rw append-nil (ground arith)
read_all-chunks limit response ([] ∷ parts) reads fits = absurd (omega arith)
read_all-chunks limit response ((b ∷ bs) ∷ parts) reads fits =
    elim (Bool-cases (ltb limit (length (response ++ b ∷ bs)))) [
      | inl over ↦ rw over (
          rw (← append_assoc response (b ∷ bs) (concat parts))
            (ground (arith, length-append (response ++ b ∷ bs) (concat parts))))
      | inr within ↦ rw within (
          rw (← append_assoc response (b ∷ bs) (concat parts))
            (read_all-chunks limit (response ++ b ∷ bs) parts reads.1 (ground arith)))
    ]

pub read_response-chunks :
    (limit : ℕ) (parts : List (List ℕ))
    → AreReads parts
    → read_response limit (map chunk parts) ≡ (whole limit (concat parts) >>= parse_response)
unfolding read_response
read_response-chunks limit parts reads =
    rw (read_all-chunks limit [] parts reads (omega arith)) refl
