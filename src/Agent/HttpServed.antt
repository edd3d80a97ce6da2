-- ===== src/Agent/HttpServed.antt =====
-- A response as a server sends it, and what the HTTP client reads of it.
use mathlib.Core.List.{append_assoc}
use tapio.Prelude.{
  ℕ, ◌+◌, ◌/◌, ◌%◌, ◌<◌, ◌≡◌, refl, Bool, true, ◌&&◌, List, [], ◌∷◌, ◌++◌, Option, none, some, ltb,
  leb, length, all, All, arith,
}
use tapio.Prelude.Text.{codes}
use tapio.Prelude.Split.{strip_prefix}
use tapio.Agent.Httpc.{split_head}

abbrev pub digits_of : ℕ → List ℕ
digits_of status = (b'0' + status / 100) ∷ (b'0' + status / 10 % 10) ∷ (b'0' + status % 10) ∷ []

-- A status line without its end.
abbrev pub status_line : ℕ → List ℕ → List ℕ
status_line status reason = codes "HTTP/1.1 " ++ (digits_of status ++ b' ' ∷ reason)

-- The lines of the headers, each with the line end before it.
abbrev pub header_text : List (List ℕ) → List ℕ
header_text [] = []
header_text (line ∷ lines) = 13 ∷ 10 ∷ (line ++ header_text lines)

abbrev pub empty_line : List ℕ
empty_line = 13 ∷ 10 ∷ 13 ∷ 10 ∷ []

abbrev pub served : ℕ → List ℕ → List (List ℕ) → List ℕ → List ℕ
served status reason lines body =
    status_line status reason ++ (header_text lines ++ (empty_line ++ body))

-- Printable ASCII: no line ends.
abbrev pub is_plain : ℕ → Bool
is_plain b = leb 32 b && ltb b 127

abbrev pub IsHeader : List ℕ → Type 0
IsHeader line = (all is_plain line ≡ true) × (0 < length line)

head_with : List ℕ → Option (List ℕ × List ℕ) → Option (List ℕ × List ℕ)
head_with xs none = none
head_with xs (some (head, body)) = some (xs ++ head, body)

pub split_head-plain :
    (xs ys head body : List ℕ)
    → all is_plain xs ≡ true
    → split_head ys ≡ some (head, body)
    → split_head (xs ++ ys) ≡ some (xs ++ head, body)
unfolding split_head strip_prefix
split_head-plain [] ys head body plain rest = rest
split_head-plain (x ∷ xs) ys head body plain rest = ground (arith, split_head-plain xs ys head body)

split_head-header :
    (line rest head body : List ℕ)
    → IsHeader line
    → split_head rest ≡ some (head, body)
    → split_head (13 ∷ 10 ∷ (line ++ rest)) ≡ some (13 ∷ 10 ∷ (line ++ head), body)
split_head-header [] rest head body (plain, long) found = absurd (omega arith)
split_head-header (x ∷ line) rest head body (plain, long) found =
    unfold split_head strip_prefix in
    ground (arith, split_head-plain (x ∷ line) rest head body plain found)

pub split_head-headers :
    (lines : List (List ℕ)) (body : List ℕ)
    → All IsHeader lines
    → split_head (header_text lines ++ (empty_line ++ body)) ≡ some (header_text lines, body)
split_head-headers [] body headers = unfold split_head strip_prefix in refl
split_head-headers (line ∷ lines) body (header, headers) =
    rw (append_assoc line (header_text lines) (empty_line ++ body)) (
      split_head-header line (header_text lines ++ (empty_line ++ body)) (header_text lines) body
        header (split_head-headers lines body headers))
