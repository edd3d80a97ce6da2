-- ===== src/Observer/Cgroup.antt =====
-- The memory limit of a container's group: `enrich_memory_limit` with its cache, `resolve_via_proc` and
-- `read_limit_file` of tapio-agent/src/observer/container.rs. The file system is a parameter. The cache
-- lists its entries; the order in which the map gives them at an eviction is a parameter too.
use mathlib.Core.List.{◌++◌}
use tapio.Prelude.{
  ℕ, zero, suc, ◌-◌, ◌/◌, ◌^◌, ◌≤◌, ◌≡◌, Bool, true, false, ◌&&◌, ◌||◌, not, List, [], ◌∷◌, Option,
  none, some, leb, ltb, ◌==◌, if◌then◌else◌, length, length-append, is_empty, and_then, unwrap_or,
  u64_max, refl, arith, Bool-cases, inl, inr,
}
use tapio.Prelude.Text.{codes, trim}
use tapio.Prelude.Decimal.{to_string}
use tapio.Prelude.Parse.{parse_u64}
use tapio.Prelude.Split.{split, split_once, strip_prefix, strip_suffix}

abbrev is_some : Option (List ℕ) → Bool
is_some none = false
is_some (some rest) = true

-- `str::contains` of a word.
unfoldable pub contains_word : List ℕ → List ℕ → Bool
contains_word word [] = is_empty word
contains_word word (c ∷ cs) = is_some (strip_prefix word (c ∷ cs)) || contains_word word cs

abbrev equals : List ℕ → List ℕ → Bool
equals [] [] = true
equals (a ∷ as_) (b ∷ bs) = a == b && equals as_ bs
equals as_ bs = false

-- `Option::or_else`.
abbrev or_else : Option ℕ → Option ℕ → Option ℕ
or_else none b = b
or_else (some a) b = some a

-- `str::lines`: no empty line after the last newline, and no carriage return before one.
abbrev without_last : List (List ℕ) → List (List ℕ)
without_last [] = []
without_last (line ∷ []) = if is_empty line then [] else line ∷ []
without_last (line ∷ next ∷ rest) =
    unwrap_or (strip_suffix (13 ∷ []) line) line ∷ without_last (next ∷ rest)

unfoldable pub lines : List ℕ → List (List ℕ)
lines content = without_last (split 10 content)

module _ (read_to_string : List ℕ → Option (List ℕ)) where
  abbrev limit_value : ℕ → ℕ
  limit_value val = if leb (2 ^ 62) val then u64_max else val

  unfoldable pub read_limit_file : List ℕ → Option ℕ
  read_limit_file path = and_then (read_to_string path) (λ content.
      if equals (trim content) (codes "max")
      then some u64_max
      else and_then (parse_u64 (trim content)) (λ val. some (limit_value val)))

  -- A line with a hierarchy, a controller and a path, under version 2 and under version 1.
  unfoldable pub limit_of_line : List ℕ → List ℕ → List ℕ → Option ℕ
  unfolding read_limit_file contains_word
  limit_of_line hierarchy controller path =
      or_else
        (if equals hierarchy (codes "0") && is_empty controller && not (is_empty path)
          then read_limit_file (codes "/sys/fs/cgroup" ++ (path ++ codes "/memory.max"))
          else none)
        (if contains_word (codes "memory") controller && not (is_empty path)
          then read_limit_file
              (codes "/sys/fs/cgroup/memory" ++ (path ++ codes "/memory.limit_in_bytes"))
          else none)

  -- `splitn(3, ':')`; a line with fewer parts is passed over.
  unfoldable pub parse_line : List ℕ → Option ℕ
  unfolding limit_of_line
  parse_line line = and_then (split_once b':' line) (λ (hierarchy, more).
      and_then (split_once b':' more)
        (λ (controller, path). limit_of_line hierarchy controller path))

  unfoldable pub first_limit : List (List ℕ) → Option ℕ
  unfolding parse_line
  first_limit [] = none
  first_limit (line ∷ rest) = or_else (parse_line line) (first_limit rest)

  unfoldable pub resolve_via_proc : ℕ → Option ℕ
  unfolding first_limit lines
  resolve_via_proc pid =
      and_then (read_to_string (codes "/proc/" ++ (codes (to_string pid) ++ codes "/cgroup")))
        (λ content. first_limit (lines content))

  abbrev pub Cache : Type 0
  Cache = List (ℕ × ℕ)

  abbrev cached : ℕ → Cache → Option ℕ
  cached id [] = none
  cached id ((key, limit) ∷ rest) = if id == key then some limit else cached id rest

  abbrev pub skip : ℕ → Cache → Cache
  skip zero cache = cache
  skip (suc n) [] = []
  skip (suc n) (entry ∷ rest) = skip n rest

  -- The eviction of a fifth of a cache that is over its cap.
  unfoldable pub evict : (Cache → Cache) → Cache → Cache
  evict iterate cache =
      if ltb 10_000 (length cache) then skip (length cache / 5) (iterate cache) else cache

  -- A group that is not cached: its limit is looked up, and cached even when it is 0.
  unfoldable pub remember : (Cache → Cache) → ℕ → ℕ → Cache → Cache × Option ℕ
  unfolding evict
  remember iterate cgroup_id limit cache =
      (evict iterate cache ++ (cgroup_id, limit) ∷ [], if ltb 0 limit then some limit else none)

  abbrev pub answer : (Cache → Cache) → ℕ → ℕ → Cache → Option ℕ → Cache × Option ℕ
  answer iterate cgroup_id limit cache (some known) = (cache, some known)
  answer iterate cgroup_id limit cache none = remember iterate cgroup_id limit cache

  unfoldable pub enrich_memory_limit : (Cache → Cache) → ℕ → ℕ → Cache → Cache × Option ℕ
  unfolding remember resolve_via_proc
  enrich_memory_limit iterate cgroup_id pid cache =
      if cgroup_id == 0
      then (cache, none)
      else answer iterate cgroup_id
          (unwrap_or (or_else (resolve_via_proc pid) (resolve_via_proc 1)) 0) cache
          (cached cgroup_id cache)

  length-skip : (n : ℕ) (cache : Cache) → length (skip n cache) ≡ length cache - n
  length-skip zero cache = omega arith
  length-skip (suc n) [] = omega arith
  length-skip (suc n) (entry ∷ rest) = omega (arith, length-skip n rest)

  length-evict :
      (iterate : Cache → Cache)
      → ((cache : Cache) → length (iterate cache) ≡ length cache)
      → (cache : Cache) → length cache ≤ 10_001
      → length (evict iterate cache) ≤ 10_000
  unfolding evict
  length-evict iterate same cache h = elim (Bool-cases (ltb 10_000 (length cache))) [
    | inl full ↦
        let kept : length (skip (length cache / 5) (iterate cache))
            ≡ length cache - length cache / 5 =
          rw (length-skip (length cache / 5) (iterate cache), same cache) refl in
        rw full (ground arith)
    | inr room ↦ rw room (ground arith)
  ]

  answer-bounded :
      (iterate : Cache → Cache) (cgroup_id limit : ℕ) (cache : Cache) (known : Option ℕ)
      → ((c : Cache) → length (iterate c) ≡ length c)
      → length cache ≤ 10_001
      → length (answer iterate cgroup_id limit cache known).0 ≤ 10_001
  unfolding remember
  answer-bounded iterate cgroup_id limit cache (some known) same h = h
  answer-bounded iterate cgroup_id limit cache none same h =
      rw (length-append (evict iterate cache) ((cgroup_id, limit) ∷ []))
        (omega (arith, length-evict iterate same cache h))

  -- A lookup of a memory limit leaves at most 10,001 limits in the cache if there were no more
  -- before, whatever the file system says and in whatever order the map gives its entries.
  pub enrich_memory_limit-bounded :
      (iterate : Cache → Cache) (cgroup_id pid : ℕ) (cache : Cache)
      → ((c : Cache) → length (iterate c) ≡ length c)
      → length cache ≤ 10_001
      → length (enrich_memory_limit iterate cgroup_id pid cache).0 ≤ 10_001
  unfolding enrich_memory_limit
  enrich_memory_limit-bounded iterate cgroup_id pid cache same h =
      elim (Bool-cases (cgroup_id == 0)) [
        | inl nobody ↦ rw nobody h
        | inr somebody ↦ rw somebody (
            answer-bounded iterate cgroup_id
              (unwrap_or (or_else (resolve_via_proc pid) (resolve_via_proc 1)) 0) cache
              (cached cgroup_id cache) same h)
      ]
