-- ===== src/Profile/Names.antt =====
-- `valid_profile_name` of tapio-profile/src/lib.rs.
use tapio.Prelude.{
  ℕ, String, Bool, false, List, [], ◌∷◌, ◌||◌, ◌&&◌, not, ltb, leb, ◌==◌, length, all,
  if◌then◌else◌,
}
use tapio.Prelude.Text.{as_bytes}

abbrev pub is_ascii_lowercase : ℕ → Bool
is_ascii_lowercase b = leb b'a' b && leb b b'z'

abbrev pub is_ascii_digit : ℕ → Bool
is_ascii_digit b = leb b'0' b && leb b b'9'

-- `bytes.ends_with(b"-")`.
unfoldable pub ends_with : ℕ → List ℕ → Bool
ends_with c [] = false
ends_with c (b ∷ []) = b == c
ends_with c (b ∷ d ∷ bs) = ends_with c (d ∷ bs)

unfoldable pub valid_name_bytes : List ℕ → Bool
unfolding ends_with
valid_name_bytes [] = false
valid_name_bytes (b ∷ bs) =
    if ltb 63 (length (b ∷ bs)) || not (is_ascii_lowercase b) || ends_with b'-' (b ∷ bs)
    then false
    else all (λ c. is_ascii_lowercase c || is_ascii_digit c || c == b'-') bs

unfoldable pub valid_profile_name : String → Bool
unfolding valid_name_bytes
valid_profile_name value = valid_name_bytes (as_bytes value)
