-- ===== src/Agent/Endpoint.antt =====
-- What the OTLP sink's endpoint and its header, once accepted, are to its HTTP client.
use mathlib.Core.Path.{subst}
use tapio.Prelude.{
  ℕ, ◌+◌, ◌≡◌, refl, ◌∙◌, ap, sym, String, Bool, true, false, ◌||◌, List, [], ◌∷◌, ◌++◌, Option,
  none, some, Result, ok, err, ◌==◌, if◌then◌else◌, is_empty, any, arith, Bool-cases, Option-cases,
  inl, inr, Ensures, Ensures-bind, Ensures-ok, anything,
}
use tapio.Prelude.Text.{codes, trim}
use tapio.Prelude.Split.{split_once, strip_prefix}
use tapio.Profile.Floats.{FloatOps}
use tapio.Agent.Toml.{
  Config, load, load_error, validate_auth_header, ends_header, unreadable, undecodable,
}
use tapio.Agent.OtlpRecords.{
  Destination, EndpointError, at_slash, normalize_http_endpoint, logs_url, destination, post_head,
  normalized, has_prefix, located, empty, https,
}
use tapio.Agent.Poll.{trim_end_slashes}

strip_prefix-longer :
    (prefix cs rest more : List ℕ)
    → strip_prefix prefix cs ≡ some rest
    → strip_prefix prefix (cs ++ more) ≡ some (rest ++ more)
unfolding strip_prefix
strip_prefix-longer [] cs rest more h = cc
strip_prefix-longer (p ∷ ps) [] rest more h = cc
strip_prefix-longer (p ∷ ps) (c ∷ cs) rest more h =
    ground (arith, strip_prefix-longer ps cs rest more)

at_slash-cons :
    (c : ℕ) (url : List ℕ)
    → (at_slash (c ∷ url)).0 ≡ (if c == b'/' then [] else c ∷ (at_slash url).0)
unfolding split_once
at_slash-cons c url = elim (Option-cases (split_once b'/' url)) [
  | inl whole ↦ ground arith
  | inr ((host, path), parts) ↦ ground arith
]

-- A path behind a URL does not change its host.
at_slash-longer : (url more : List ℕ) → (at_slash (url ++ b'/' ∷ more)).0 ≡ (at_slash url).0
at_slash-longer [] more = unfold split_once in refl
at_slash-longer (c ∷ url) more =
    at_slash-cons c (url ++ b'/' ∷ more)
    ∙ ap (λ host. if c == b'/' then [] else c ∷ host) (at_slash-longer url more)
    ∙ sym (at_slash-cons c url)

normalized-host :
    (trimmed : List ℕ) (rest : Option (List ℕ)) {endpoint : List ℕ}
    → normalized trimmed rest ≡ ok endpoint
    → (trimmed ≡ endpoint)
      × (url : List ℕ) × (rest ≡ some url)
      × (is_empty (at_slash url).0 ≡ false)
normalized-host trimmed none h = cc
normalized-host trimmed (some url) h = elim (Bool-cases (is_empty (at_slash url).0)) [
  | inl missing ↦ ground arith
  | inr given ↦ (ground arith, url, refl, given)
]

past_tests :
    (a b : Bool) (r : Result EndpointError (List ℕ)) {endpoint : List ℕ}
    → (if a then err empty else if b then err https else r) ≡ ok endpoint
    → r ≡ ok endpoint
past_tests true b r h = cc
past_tests false true r h = cc
past_tests false false r h = h

normalize_http_endpoint-host :
    (from endpoint : List ℕ)
    → normalize_http_endpoint from ≡ ok endpoint
    → (url : List ℕ) × (strip_prefix (codes "http://") endpoint ≡ some url)
      × (is_empty (at_slash url).0 ≡ false)
normalize_http_endpoint-host from endpoint h =
    let trimmed = trim_end_slashes (trim from) in
    let stripped = strip_prefix (codes "http://") trimmed in
    let passed : normalized trimmed stripped ≡ ok endpoint =
      past_tests (is_empty trimmed) (has_prefix (codes "https://") trimmed)
        (normalized trimmed stripped) (unfold normalize_http_endpoint in h) in
    let (same, url, http, host) = normalized-host trimmed stripped passed in
    (url, subst (λ t. strip_prefix (codes "http://") t ≡ some url) same http, host)

destination-found :
    (url rest : List ℕ)
    → strip_prefix (codes "http://") url ≡ some rest
    → destination url ≡ some (located (at_slash rest))
unfolding destination
destination-found url rest h = rw h refl

pub destination-logs_url :
    (from : List ℕ) {endpoint : List ℕ}
    → normalize_http_endpoint from ≡ ok endpoint
    → (to : Destination) × (destination (logs_url endpoint) ≡ some to) × (is_empty to.host ≡ false)
destination-logs_url from {endpoint} h =
    let (url, http, host) = normalize_http_endpoint-host from endpoint h in
    let longer = strip_prefix-longer (codes "http://") endpoint url (codes "/v1/logs") http in
    let same : (at_slash (url ++ codes "/v1/logs")).0 ≡ (at_slash url).0 =
      at_slash-longer url (codes "v1/logs") in
    (
      located (at_slash (url ++ codes "/v1/logs")),
      unfold logs_url in destination-found _ _ longer,
      rw same host,
    )

-- How many characters of a text end a line.
abbrev pub line_ends : List ℕ → ℕ
line_ends [] = 0
line_ends (c ∷ cs) = if c == 10 || c == 13 then line_ends cs + 1 else line_ends cs

line_ends-append : (xs ys : List ℕ) → line_ends (xs ++ ys) ≡ line_ends xs + line_ends ys
line_ends-append [] ys = omega arith
line_ends-append (x ∷ xs) ys = ground (arith, line_ends-append xs ys)

line_ends-none : (cs : List ℕ) → any ends_header cs ≡ false → line_ends cs ≡ 0
line_ends-none [] h = refl
line_ends-none (c ∷ cs) h = ground (arith, line_ends-none cs)

abbrev IsSafe : Option String → Type 0
IsSafe none = Unit
IsSafe (some value) = any ends_header (codes value) ≡ false

validate_auth_header-IsSafe :
    (header : Option String) → Ensures (λ _. IsSafe header) (validate_auth_header header)
unfolding validate_auth_header
validate_auth_header-IsSafe none = tt
validate_auth_header-IsSafe (some value) = elim (Bool-cases (any ends_header (codes value))) [
  | inl bad ↦ rw bad tt
  | inr good ↦ rw good refl
]

load-IsSafe :
    {F : Type 0} ⦃f : FloatOps F⦄ (from_str : String → Result String (Config F))
    (content : Option (Result String String))
    → Ensures (λ (config : Config F). IsSafe config.otlp.auth_header) (load from_str content)
unfolding load
load-IsSafe from_str none = tt
load-IsSafe {F} from_str (some content) =
    Ensures-bind (λ _. Unit {0}) (λ (config : Config F). IsSafe config.otlp.auth_header)
      (load_error unreadable content) _ (anything _)
      (λ text _.
        Ensures-bind (λ _. Unit {0}) (λ (config : Config F). IsSafe config.otlp.auth_header)
          (load_error undecodable (from_str text)) _ (anything _)
          (λ config _.
            Ensures-bind (λ _. IsSafe config.otlp.auth_header)
              (λ (config : Config F). IsSafe config.otlp.auth_header)
              (validate_auth_header config.otlp.auth_header) _
              (validate_auth_header-IsSafe config.otlp.auth_header) (λ _ safe. safe)))

-- With a configuration that was loaded, the header that carries its credential adds exactly two
-- line-end bytes to the head of a post of the OTLP sink, those of its own end: the credential
-- brings no further header.
pub post_head-line_ends :
    {F : Type 0} ⦃f : FloatOps F⦄ (from_str : String → Result String (Config F))
    (content : Option (Result String String)) {config : Config F} (auth : String) (to : Destination)
    (body : List ℕ)
    → load from_str content ≡ ok config
    → config.otlp.auth_header ≡ some auth
    → line_ends (post_head (some (codes auth)) to body) ≡ line_ends (post_head none to body) + 2
post_head-line_ends {F} from_str content auth to body loaded given =
    let safe =
      Ensures-ok (λ (config : Config F). IsSafe config.otlp.auth_header) (load from_str content)
        (load-IsSafe from_str content) loaded in
    let ends : line_ends (codes auth) ≡ 0 = line_ends-none (codes auth) (subst IsSafe given safe) in
    unfold post_head in simp line_ends-append (omega (arith, ends))
