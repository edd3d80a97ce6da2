-- ===== src/Profile/Ranges.antt =====
-- What `validate` of tapio-profile/src/lib.rs guarantees of a profile, and what `compile` makes of it.
use tapio.Prelude.Int.{ℤ}
use tapio.Prelude.{
  Ensures-ok, ◌^◌, Ensures, Ensures-bind, Result-cases, anything, String, ℕ, ◌≤◌, ◌<◌, ◌≡◌, inl,
  inr, true, false, Option, none, some, List, [], ◌∷◌, ok, length, All, arith, Option-cases,
}
use tapio.Prelude.Maps.{lookup, Map}
use tapio.Profile.Floats.{FloatOps, FloatLaws}
use tapio.Profile.Types.{
  ResolvedNetwork, ResolvedStorage, ResolvedContainer, ResolvedNodePmc, ResolvedProfile, BuiltinSet,
  ValidatedProfile, EvidenceProfile, NetworkOverride, StorageOverride, ContainerOverride,
  NodePmcOverride, max_rtt_abs_ms, max_warning_ms, max_critical_ms, max_ignore_exit_codes,
}
use tapio.Profile.Validate.{
  apply_network, apply_storage, apply_container, apply_node_pmc, apply_codes, validate, v0,
  find_base, validate_envelope,
}
use tapio.Profile.Codes.{Distinct, apply_codes-given}

pub record NetworkInRange (n : ResolvedNetwork) : Type 0 where
  pub ratio_pos : 1 ≤ n.rtt_spike_ratio
  pub ratio_max : n.rtt_spike_ratio ≤ 100
  pub abs_pos : 1 ≤ n.rtt_spike_abs_ms
  pub abs_max : n.rtt_spike_abs_ms ≤ max_rtt_abs_ms

pub record StorageInRange (s : ResolvedStorage) : Type 0 where
  pub warning_pos : 1 ≤ s.slow_io_warning_ms
  pub warning_max : s.slow_io_warning_ms ≤ max_warning_ms
  pub critical_max : s.slow_io_critical_ms ≤ max_critical_ms
  pub ordered : s.slow_io_warning_ms ≤ s.slow_io_critical_ms

pub record CodesInRange (codes : List ℕ) : Type 0 where
  pub distinct : Distinct codes
  pub bytes : All (λ x. x ≤ 255) codes
  pub few : length codes ≤ max_ignore_exit_codes

apply_network-InRange :
    (input : NetworkOverride) (base : ResolvedNetwork)
    → NetworkInRange base
    → Ensures NetworkInRange (apply_network input base)
unfolding apply_network
apply_network-InRange input base b = ground arith

apply_storage-InRange :
    (input : StorageOverride) (base : ResolvedStorage)
    → StorageInRange base
    → Ensures StorageInRange (apply_storage input base)
unfolding apply_storage
apply_storage-InRange input base b = ground arith

apply_codes-InRange :
    (given_codes : Option (List ℤ)) (base : List ℕ)
    → CodesInRange base
    → Ensures CodesInRange (apply_codes given_codes base)
apply_codes-InRange none base b = unfold apply_codes in b
apply_codes-InRange (some codes) base b = elim (Result-cases (apply_codes (some codes) base)) [
  | inl (result, e) ↦
      let (c, few) = apply_codes-given codes base result e in
      rw e (record { distinct = c.distinct; bytes = c.bytes; few = few })
  | inr (x, e) ↦ rw e tt
]

apply_container-InRange :
    (input : ContainerOverride) (base : ResolvedContainer)
    → CodesInRange base.ignore_exit_codes
    → Ensures (λ c. CodesInRange c.ignore_exit_codes) (apply_container input base)
unfolding apply_container
apply_container-InRange input base b =
    Ensures-bind CodesInRange (λ (c : ResolvedContainer). CodesInRange c.ignore_exit_codes)
      (apply_codes input.ignore_exit_codes base.ignore_exit_codes) _
      (apply_codes-InRange input.ignore_exit_codes base.ignore_exit_codes b) (λ codes r. r)

module _ {F : Type 0} ⦃f : FloatOps F⦄ where
  -- A finite number from `0.0` to the whole bound.
  pub record Between (bound : ℕ) (x : F) : Type 0 where
    pub finite : f.is_finite x ≡ true
    pub low : f.lt x (f.of_ℕ 0) ≡ false
    pub high : f.lt (f.of_ℕ bound) x ≡ false

  pub record NodePmcInRange (r : ResolvedNodePmc F) : Type 0 where
    pub warning : Between 100 r.stall_pct_warning
    pub critical : Between 100 r.stall_pct_critical
    pub ordered : f.lt r.stall_pct_critical r.stall_pct_warning ≡ false
    pub ipc : Between 16 r.ipc_degradation

  pub record InRange (p : ResolvedProfile F) : Type 0 where
    pub network : NetworkInRange p.network
    pub storage : StorageInRange p.storage
    pub container : CodesInRange p.container.ignore_exit_codes
    pub node_pmc : NodePmcInRange p.node_pmc

  apply_node_pmc-InRange :
      (input : NodePmcOverride F) (base : ResolvedNodePmc F)
      → NodePmcInRange base
      → Ensures NodePmcInRange (apply_node_pmc input base)
  unfolding apply_node_pmc
  apply_node_pmc-InRange input base b = ground arith

  -- Every base of the set is in range.
  abbrev pub BasesInRange : Map (ResolvedProfile F) → Type 0
  BasesInRange [] = Unit {0}
  BasesInRange ((name, p) ∷ m) = InRange p × BasesInRange m

  lookup-InRange :
      (name : String) (m : Map (ResolvedProfile F)) (p : ResolvedProfile F)
      → lookup name m ≡ some p
      → BasesInRange m
      → InRange p
  unfolding lookup
  lookup-InRange name [] p h b = cc
  lookup-InRange name ((n, q) ∷ m) p h b = ground (arith, lookup-InRange name m p)

  find_base-InRange :
      (name : Option String) (builtins : BuiltinSet F)
      → BasesInRange builtins.profiles
      → Ensures InRange (find_base name builtins)
  unfolding find_base
  find_base-InRange none builtins b = tt
  find_base-InRange (some name) builtins b = elim (Option-cases (lookup name builtins.profiles)) [
    | inl e ↦ ground arith
    | inr (p, e) ↦ let r = lookup-InRange name builtins.profiles p e b in ground (arith, r)
  ]

  abbrev pub Valid : ValidatedProfile F → Type 0
  Valid v = InRange v.resolved

  -- Whatever profile is validated against bases that are in range, the result is in range.
  pub validate-InRange :
      (profile : EvidenceProfile F) (builtins : BuiltinSet F)
      → BasesInRange builtins.profiles
      → Ensures (λ v. InRange v.resolved) (validate profile builtins)
  unfolding validate
  validate-InRange profile builtins b =
      Ensures-bind (λ u. Unit {0}) Valid (validate_envelope profile) _
        (anything (validate_envelope profile))
        λ u _.
          Ensures-bind InRange Valid (find_base profile.base builtins) _
            (find_base-InRange profile.base builtins b)
            λ base r.
              Ensures-bind NetworkInRange Valid (apply_network o.network base.network) _
                (apply_network-InRange o.network base.network r.network)
                λ n rn.
                  Ensures-bind StorageInRange Valid (apply_storage o.storage base.storage) _
                    (apply_storage-InRange o.storage base.storage r.storage)
                    λ s rs.
                      Ensures-bind (λ (c : ResolvedContainer). CodesInRange c.ignore_exit_codes)
                        Valid (apply_container o.container base.container) _
                        (apply_container-InRange o.container base.container r.container)
                        λ c rc.
                          Ensures-bind NodePmcInRange Valid
                            (apply_node_pmc o.node_pmc base.node_pmc) _
                            (apply_node_pmc-InRange o.node_pmc base.node_pmc r.node_pmc)
                            λ p rp. record {
                              network = rn;
                              storage = rs;
                              container = rc;
                              node_pmc = rp;
                            }
    where
      open profile use {overrides as o}

module _ {F : Type 0} ⦃f : FloatOps F⦄ (laws : FloatLaws f) where
  literal-Between : (bound n : ℕ) → n ≤ bound → bound < 2 ^ 53 → Between bound (f.of_ℕ n)
  literal-Between bound n h k = record {
    finite = laws.finite-of_ℕ n (omega arith);
    low = rw (laws.lt-of_ℕ n 0 (omega arith) (omega arith)) (ground arith);
    high = rw (laws.lt-of_ℕ bound n k (omega arith)) (ground arith);
  }

  pub v0-InRange : BasesInRange {F = F} v0.profiles
  unfolding v0
  v0-InRange = (
    record {
      network = omega arith;
      storage = omega arith;
      container = record { distinct = tt; bytes = tt; few = omega arith };
      node_pmc = record {
        warning = literal-Between 100 20 (omega arith) (omega arith);
        critical = literal-Between 100 40 (omega arith) (omega arith);
        ordered = laws.lt-of_ℕ 40 20 (omega arith) (omega arith);
        ipc = literal-Between 16 1 (omega arith) (omega arith);
      };
    },
    tt,
  )

  -- For floats that meet the laws, a document that validates against the builtin profiles gives
  -- values in their documented ranges: every number within its bounds, each warning threshold at
  -- most the critical one, at most sixteen distinct exit codes, and finite percentages.
  pub validate-v0-InRange :
      (profile : EvidenceProfile F) (v : ValidatedProfile F)
      → validate profile v0 ≡ ok v
      → InRange v.resolved
  validate-v0-InRange profile v h =
      Ensures-ok Valid (validate profile v0) (validate-InRange profile v0 v0-InRange) h
