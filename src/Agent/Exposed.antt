-- ===== src/Agent/Exposed.antt =====
-- The page of the metrics, read back: a value of a label, whatever characters it has, stays on its line and
-- between its quotation marks.
use tapio.Prelude.{
  ℕ, ◌+◌, ◌^◌, ◌<◌, ◌≡◌, refl, Bool, true, false, List, [], ◌∷◌, ◌++◌, Option, none, some, ◌==◌,
  if◌then◌else◌, length, is_empty, All, arith, Bool-cases, inl, inr,
}
use tapio.Prelude.Text.{codes}
use tapio.Prelude.Split.{free}
use tapio.Prelude.Decimal.{to_string}
use tapio.Prelude.Padded.{free-to_string, is_digit}
use tapio.Agent.Metrics.{
  Labels, CounterVec, TapioMetrics, push_escaped_label, label_pairs, value_line, value_lines,
  encode_one, encode, add_value, inc_by, same, before,
}

-- A reader of the text format's label values: up to the quotation mark that is not escaped.
abbrev keep_char : ℕ → Option (List ℕ × List ℕ) → Option (List ℕ × List ℕ)
keep_char c none = none
keep_char c (some (value, rest)) = some (c ∷ value, rest)

abbrev pub unescaped : ℕ → ℕ
unescaped c = if c == b'n' then 10 else c

unfoldable pub read_label : List ℕ → Option (List ℕ × List ℕ)
read_label [] = none
read_label (c ∷ []) = if c == b'"' then some ([], []) else none
read_label (c ∷ d ∷ cs) =
    let plain = read_label (d ∷ cs) in
    let escaped = read_label cs in
    if c == b'"'
    then some ([], d ∷ cs)
    else if c == b'\\'
    then keep_char (unescaped d) escaped
    else keep_char c plain

read_label-plain :
    (c : ℕ) (cs value rest : List ℕ)
    → (c == b'"') ≡ false
    → (c == b'\\') ≡ false
    → read_label cs ≡ some (value, rest)
    → read_label (c ∷ cs) ≡ some (c ∷ value, rest)
unfolding read_label
read_label-plain c [] value rest quote slash h = cc
read_label-plain c (d ∷ cs) value rest quote slash h = rw (quote, slash, h) refl

read_label-escape :
    (d : ℕ) (cs value rest : List ℕ)
    → read_label cs ≡ some (value, rest)
    → read_label (b'\\' ∷ d ∷ cs) ≡ some (unescaped d ∷ value, rest)
unfolding read_label
read_label-escape d cs value rest h = rw h refl

-- A label's value is read back from its escaped form up to the closing quote, whatever characters
-- it has and whatever follows.
pub read_label-escaped :
    (value rest : List ℕ)
    → read_label (push_escaped_label value ++ b'"' ∷ rest) ≡ some (value, rest)
unfolding push_escaped_label
read_label-escaped [] [] = unfold read_label in refl
read_label-escaped [] (c ∷ rest) = unfold read_label in refl
read_label-escaped (ch ∷ value) rest =
    let more = push_escaped_label value ++ b'"' ∷ rest in
    let read = read_label-escaped value rest in
    elim (Bool-cases (ch == b'\\')) [
      | inl slash ↦ rw slash (ground (arith, read_label-escape b'\\' more value rest read))
      | inr other ↦ elim (Bool-cases (ch == b'"')) [
        | inl quote ↦
            rw (other, quote) (ground (arith, read_label-escape b'"' more value rest read))
        | inr another ↦ elim (Bool-cases (ch == 10)) [
          | inl feed ↦
              rw (other, another, feed)
                (ground (arith, read_label-escape b'n' more value rest read))
          | inr plain ↦
              rw (other, another, plain) (read_label-plain ch more value rest another other read)
        ]
      ]
    ]

-- How many line feeds a text has.
abbrev pub line_feeds : List ℕ → ℕ
line_feeds [] = 0
line_feeds (c ∷ cs) = if c == 10 then line_feeds cs + 1 else line_feeds cs

line_feeds-append : (xs ys : List ℕ) → line_feeds (xs ++ ys) ≡ line_feeds xs + line_feeds ys
line_feeds-append [] ys = omega arith
line_feeds-append (x ∷ xs) ys = ground (arith, line_feeds-append xs ys)

-- The source's own texts are one line each.
pub record IsNamed (counter : CounterVec) : Type 0 where
  pub name : line_feeds counter.name ≡ 0
  pub help : line_feeds counter.help ≡ 0
  pub labels : All (λ label. line_feeds label ≡ 0) counter.labels

line_feeds-escaped : (value : List ℕ) → line_feeds (push_escaped_label value) ≡ 0
unfolding push_escaped_label
line_feeds-escaped [] = refl
line_feeds-escaped (ch ∷ value) = ground (arith, line_feeds-escaped value)

line_feeds-pairs :
    (first : Bool) (labels values : Labels)
    → All (λ label. line_feeds label ≡ 0) labels
    → line_feeds (label_pairs first labels values) ≡ 0
unfolding label_pairs
line_feeds-pairs first [] values named = refl
line_feeds-pairs first (label ∷ labels) [] named = refl
line_feeds-pairs first (label ∷ labels) (value ∷ values) (named, others) = ground (
  arith,
  line_feeds-append label
      (b'=' ∷ b'"' ∷ (push_escaped_label value ++ b'"' ∷ label_pairs false labels values)),
  line_feeds-append (push_escaped_label value) (b'"' ∷ label_pairs false labels values),
  line_feeds-escaped value,
  line_feeds-pairs false labels values others,
)

line_feeds-free : (cs : List ℕ) → free 10 cs ≡ true → line_feeds cs ≡ 0
line_feeds-free [] h = refl
line_feeds-free (c ∷ cs) h = ground (arith, line_feeds-free cs)

line_feeds-to_string : (n : ℕ) → n < 2 ^ 64 → line_feeds (codes (to_string n)) ≡ 0
unfolding is_digit
line_feeds-to_string n h = line_feeds-free (codes (to_string n)) (free-to_string 10 n refl h)

line_feeds-line :
    (counter : CounterVec) (label_values : Labels) (count : ℕ)
    → IsNamed counter
    → count < 2 ^ 64
    → line_feeds (value_line counter label_values count) ≡ 1
unfolding value_line
line_feeds-line counter label_values count named h =
    let pairs = line_feeds-pairs true counter.labels label_values named.labels in
    let number = line_feeds-to_string count h in
    elim (Bool-cases (is_empty counter.labels)) [
      | inl none_given ↦ rw none_given (simp line_feeds-append (omega (arith, number, named.name)))
      | inr given ↦ rw given (simp line_feeds-append (omega (arith, number, pairs, named.name)))
    ]

line_feeds-lines :
    (counter : CounterVec) (values : List (Labels × ℕ))
    → IsNamed counter
    → All (λ entry. entry.1 < 2 ^ 64) values
    → line_feeds (value_lines counter values) ≡ length values
unfolding value_lines
line_feeds-lines counter [] named h = refl
line_feeds-lines counter ((label_values, count) ∷ values) named (small, others) = omega (
  arith,
  line_feeds-append (value_line counter label_values count) (value_lines counter values),
  line_feeds-line counter label_values count named small,
  line_feeds-lines counter values named others,
)

line_feeds-encode_one :
    (counter : CounterVec)
    → IsNamed counter
    → All (λ entry. entry.1 < 2 ^ 64) counter.values
    → line_feeds (encode_one counter) ≡ length counter.values + 2
unfolding encode_one
line_feeds-encode_one counter named h =
    simp line_feeds-append
      (omega (arith, named.name, named.help, line_feeds-lines counter counter.values named h))

pub record IsExposable (counter : CounterVec) : Type 0 where
  pub named : IsNamed counter
  pub small : All (λ entry. entry.1 < 2 ^ 64) counter.values

add_value-small :
    (key : Labels) (value : ℕ) (values : List (Labels × ℕ))
    → All (λ entry. entry.1 < 2 ^ 64) values
    → All (λ entry. entry.1 < 2 ^ 64) (add_value key value values)
unfolding add_value
add_value-small key value [] h = omega arith
add_value-small key value ((found, count) ∷ values) (first, others) =
    elim (Bool-cases (same found key)) [
      | inl known ↦ rw known (omega arith, others)
      | inr other ↦ elim (Bool-cases (before key found)) [
        | inl here ↦ rw (other, here) (omega arith, (first, others))
        | inr later ↦ rw (other, later) (first, add_value-small key value values others)
      ]
    ]

-- What is counted leaves a counter fit for the page.
pub inc_by-IsExposable :
    (key : Labels) (value : ℕ) (counter : CounterVec)
    → IsExposable counter
    → IsExposable (inc_by key value counter)
unfolding inc_by
inc_by-IsExposable key value counter k = record {
  named = record { name = k.named.name; help = k.named.help; labels = k.named.labels };
  small = add_value-small key value counter.values k.small;
}

-- The lines of a page: two for each counter, and one for each of its values.
abbrev pub lines_of : TapioMetrics → ℕ
lines_of [] = 0
lines_of (counter ∷ counters) = length counter.values + 2 + lines_of counters

-- The page of the counters has exactly two lines for each counter and one for each of its values,
-- whatever the values' labels, if no counter's name, help text or label names have a line feed and
-- each value is below 2 ^ 64.
pub line_feeds-encode :
    (metrics : TapioMetrics)
    → All IsExposable metrics
    → line_feeds (encode metrics) ≡ lines_of metrics
unfolding encode
line_feeds-encode [] h = refl
line_feeds-encode (counter ∷ counters) (first, others) = omega (
  arith,
  line_feeds-append (encode_one counter) (encode counters),
  line_feeds-encode_one counter first.named first.small,
  line_feeds-encode counters others,
)
