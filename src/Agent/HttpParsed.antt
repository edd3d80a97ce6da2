-- ===== src/Agent/HttpParsed.antt =====
-- What the HTTP client reads of a response: its status and its body, however the bytes are cut into reads.
use mathlib.Core.List.{append-nil}
use tapio.Prelude.{
  ℕ, ◌+◌, ◌*◌, ◌/◌, ◌%◌, ◌^◌, ◌≤◌, ◌<◌, ◌≡◌, refl, ◌∙◌, ap, Bool, String, true, List, [], ◌∷◌, ◌++◌,
  map, some, ok, ◌>>=◌, length, length-append, concat, all, All, arith,
}
use tapio.Prelude.Text.{codes}
use tapio.Prelude.Utf8.{is_ascii, from_utf8, from_utf8-ascii}
use tapio.Prelude.Split.{strip_prefix}
use tapio.Prelude.Parse.{parse_codes, push_digit}
use tapio.Agent.Httpc.{
  chunk, split_head, first_line, line_before, strip_cr, parse_status, take_bytes, parse_response,
  read_response,
}
use tapio.Agent.HttpRead.{AreReads, whole, read_response-chunks}
use tapio.Agent.HttpServed.{
  digits_of, status_line, header_text, empty_line, served, is_plain, IsHeader, split_head-plain,
  split_head-headers,
}

line_before-plain :
    (xs rest : List ℕ) → all is_plain xs ≡ true → line_before (xs ++ 13 ∷ 10 ∷ rest) ≡ xs ++ 13 ∷ []
unfolding line_before
line_before-plain [] rest plain = refl
line_before-plain (x ∷ xs) rest plain = ground (arith, line_before-plain xs rest)

line_before-all : (xs : List ℕ) → all is_plain xs ≡ true → line_before xs ≡ xs
unfolding line_before
line_before-all [] plain = refl
line_before-all (x ∷ xs) plain = ground (arith, line_before-all xs)

strip_cr-end : (xs : List ℕ) → strip_cr (xs ++ 13 ∷ []) ≡ xs
strip_cr-end [] = refl
strip_cr-end (x ∷ []) = refl
strip_cr-end (x ∷ y ∷ xs) = ap (λ rest. x ∷ rest) (strip_cr-end (y ∷ xs))

-- The first line of a head, with headers or without.
first_line-plain :
    (x : ℕ) (xs : List ℕ) (lines : List (List ℕ))
    → all is_plain (x ∷ xs) ≡ true
    → first_line (x ∷ xs ++ header_text lines) ≡ some (x ∷ xs)
first_line-plain x xs [] plain =
    rw append-nil (unfold first_line in rw (line_before-all (x ∷ xs) plain) (ground (arith)))
first_line-plain x xs (line ∷ lines) plain =
    unfold first_line in
    rw (line_before-plain (x ∷ xs) (line ++ header_text lines) plain) (
      ground (
        arith,
        strip_cr-end (x ∷ xs),
        length-append (x ∷ xs) (13 ∷ []),
        length-append (x ∷ xs) (13 ∷ 10 ∷ (line ++ header_text lines)),
      ))

take_bytes-digits :
    (a b c : ℕ) (rest : List ℕ)
    → a < 128
    → b < 128
    → c < 128
    → take_bytes 3 (a ∷ b ∷ c ∷ rest) ≡ some (a ∷ b ∷ c ∷ [])
unfolding take_bytes
take_bytes-digits a b c rest ha hb hc = ground arith

push_digit-next :
    (n d : ℕ) → d < 10 → 10 * n + d < 2 ^ 16 → push_digit (2 ^ 16) n (b'0' + d) ≡ some (10 * n + d)
unfolding push_digit
push_digit-next n d h k = ground arith

parse_codes-digits_of :
    (status : ℕ) → status < 1000 → parse_codes (2 ^ 16) (digits_of status) ≡ some status
unfolding parse_codes
parse_codes-digits_of status h = ground (
  arith,
  push_digit-next 0 (status / 100),
  push_digit-next (status / 100) (status / 10 % 10),
  push_digit-next (status / 10) (status % 10),
)

parse_status-line :
    (status : ℕ) (reason : List ℕ)
    → status < 1000
    → parse_status (status_line status reason) ≡ ok status
parse_status-line status reason h =
    unfold parse_status strip_prefix in
    rw
      (
        take_bytes-digits (b'0' + status / 100) (b'0' + status / 10 % 10) (b'0' + status % 10)
            (b' ' ∷ reason) (omega arith) (omega arith) (omega arith),
        parse_codes-digits_of status h,
      )
      refl

status_line-plain :
    (status : ℕ) (reason : List ℕ)
    → status < 1000
    → all is_plain reason ≡ true
    → all is_plain (status_line status reason) ≡ true
status_line-plain status reason h plain = ground arith

all-append :
    (p : ℕ → Bool) (xs ys : List ℕ) → all p xs ≡ true → all p ys ≡ true → all p (xs ++ ys) ≡ true
all-append p [] ys hx hy = hy
all-append p (x ∷ xs) ys hx hy = ground (arith, all-append p xs ys)

plain_ascii : (xs : List ℕ) → all is_plain xs ≡ true → all is_ascii xs ≡ true
plain_ascii [] h = refl
plain_ascii (x ∷ xs) h = ground (arith, plain_ascii xs)

headers_ascii :
    (lines : List (List ℕ)) → All IsHeader lines → all is_ascii (header_text lines) ≡ true
headers_ascii [] h = refl
headers_ascii (line ∷ lines) (header, headers) =
    all-append is_ascii line (header_text lines) (plain_ascii line header.0)
      (headers_ascii lines headers)

parse_response-parts :
    (response head body line : List ℕ) (text : String) (status : ℕ)
    → split_head response ≡ some (head, body)
    → from_utf8 head ≡ some text
    → first_line (codes text) ≡ some line
    → parse_status line ≡ ok status
    → parse_response response ≡ ok (record { status = status; body = body })
unfolding parse_response
parse_response-parts response head body line text status parts decoded first read =
    rw (parts, decoded, first, read) refl

parse_response-served :
    (status : ℕ) (reason : List ℕ) (lines : List (List ℕ)) (body : List ℕ)
    → status < 1000
    → all is_plain reason ≡ true
    → All IsHeader lines
    → parse_response (served status reason lines body)
      ≡ ok (record { status = status; body = body })
parse_response-served status reason lines body h plain headers =
    let line = status_line-plain status reason h plain in
    let (text, decoded, same) = from_utf8-ascii (status_line status reason ++ header_text lines) (
      all-append is_ascii (status_line status reason) (header_text lines)
        (plain_ascii (status_line status reason) line) (headers_ascii lines headers)) in
    parse_response-parts _ _ body (status_line status reason) text status
      (split_head-plain (status_line status reason) (header_text lines ++ (empty_line ++ body))
        (header_text lines) body line (split_head-headers lines body headers))
      decoded
      (rw same (
        first_line-plain b'H' (codes "TTP/1.1 " ++ (digits_of status ++ b' ' ∷ reason)) lines line))
      (parse_status-line status reason h)

-- A response with a status below 1000, a printable reason, header lines that are printable and not
-- empty, and any body is read back as that status and that body, however its bytes are cut into
-- reads that are not empty, if it is within the limit.
pub read_response-served :
    (limit status : ℕ) (reason : List ℕ) (lines : List (List ℕ)) (body : List ℕ)
    (parts : List (List ℕ))
    → status < 1000
    → all is_plain reason ≡ true
    → All IsHeader lines
    → AreReads parts
    → concat parts ≡ served status reason lines body
    → length (concat parts) ≤ limit
    → read_response limit (map chunk parts) ≡ ok (record { status = status; body = body })
read_response-served limit status reason lines body parts h plain headers reads sent fits =
    read_response-chunks limit parts reads
    ∙ within
    ∙ rw sent (parse_response-served status reason lines body h plain headers)
  where
    within : (whole limit (concat parts) >>= parse_response) ≡ parse_response (concat parts)
    within = ground arith
