-- ===== src/Controller/Etag.antt =====
-- The revalidation of a configuration by its ETag, in the `config` handler of tapio-controller/src/lib.rs.
use Prim.Native.String.{◌++◌ as append}
use mathlib.Core.List.{reverse, reverse-append, reverse-reverse}
use tapio.Prelude.{
  ℕ, ◌≡◌, refl, String, Bool, true, Option, none, some, List, [], ◌∷◌, ◌++◌, ok, ap, ◌∙◌, sym,
  arith,
}
use tapio.Prelude.Text.{codes, trim, trim_start, is_whitespace}
use tapio.Prelude.Parse.{codes-append}
use tapio.Prelude.Strings.{trimmed_eq, codes_eq}
use tapio.Wire.Types.{ConfigResponse}
use tapio.Controller.State.{InnerState}
use tapio.Controller.Http.{
  config, config_reply, wanted_config, quoted_etag, insert_etag, if_none_match_matches, config_body,
  no_body,
}

trim_start-quote : (xs : List ℕ) → trim_start (b'"' ∷ xs) ≡ b'"' ∷ xs
unfolding trim_start is_whitespace
trim_start-quote xs = refl

codes-quoted : (hash : String) → codes (quoted_etag hash) ≡ b'"' ∷ codes hash ++ b'"' ∷ []
unfolding quoted_etag
codes-quoted hash = rw (codes-append "\"" (append hash "\""), codes-append hash "\"")

-- A text between two quotation marks has no white space at its ends.
trim-quoted : (cs : List ℕ) → trim (b'"' ∷ cs ++ b'"' ∷ []) ≡ b'"' ∷ cs ++ b'"' ∷ []
trim-quoted cs =
    unfold trim in
    ap (λ xs. reverse (trim_start (reverse xs))) (trim_start-quote (cs ++ b'"' ∷ []))
    ∙ ap (λ xs. reverse (trim_start xs)) backwards
    ∙ ap reverse (trim_start-quote (reverse (b'"' ∷ cs)))
    ∙ ap reverse (sym backwards)
    ∙ reverse-reverse (b'"' ∷ cs ++ b'"' ∷ [])
  where
    backwards : reverse (b'"' ∷ cs ++ b'"' ∷ []) ≡ b'"' ∷ reverse (b'"' ∷ cs)
    backwards = reverse-append (b'"' ∷ cs) (b'"' ∷ [])

codes_eq_refl : (cs : List ℕ) → codes_eq cs cs ≡ true
codes_eq_refl [] = refl
codes_eq_refl (c ∷ cs) = ground (arith, codes_eq_refl cs)

trimmed_eq-quoted : (hash : String) → trimmed_eq (quoted_etag hash) (quoted_etag hash) ≡ true
unfolding trimmed_eq
trimmed_eq-quoted hash =
    rw (codes-quoted hash, trim-quoted (codes hash))
      (codes_eq_refl (b'"' ∷ codes hash ++ b'"' ∷ []))

config-found :
    (valid_header : String → Bool) (query if_none_match : Option String) (inner : InnerState)
    (found : ConfigResponse)
    → wanted_config query inner ≡ ok found
    → config valid_header query if_none_match inner ≡ config_reply valid_header if_none_match found
unfolding config
config-found valid_header query if_none_match inner found w = rw (w, config)

-- An agent that is given a configuration whose ETag may stand in a header, and asks again with
-- that ETag while the configuration stands, is told that nothing changed, with the same ETag and
-- no body.
pub config-revalidates :
    (valid_header : String → Bool) (query : Option String) (inner : InnerState)
    (found : ConfigResponse)
    → wanted_config query inner ≡ ok found
    → valid_header (quoted_etag found.config_hash) ≡ true
    → let etag = quoted_etag found.config_hash in
      (config valid_header query none inner
        ≡ record { status = 200; etag = some etag; body = config_body found })
      × (config valid_header query (some etag) inner
          ≡ record { status = 304; etag = some etag; body = no_body })
config-revalidates valid_header query inner found w v =
    let answer = λ (m : Option String). config-found valid_header query m inner found w in
    let etag = quoted_etag found.config_hash in
    (
      answer none ∙ unfold config_reply insert_etag if_none_match_matches in ground arith,
      answer (some etag)
          ∙ unfold config_reply insert_etag if_none_match_matches in
            ground (arith, trimmed_eq-quoted found.config_hash),
    )
