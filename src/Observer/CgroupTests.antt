-- ===== src/Observer/CgroupTests.antt =====
-- A file system with one group of version 2: tests of the lookup.
use tapio.Prelude.Decimal.{to_string}
use tapio.Prelude.Split.{split, split_once, strip_suffix}
use tapio.Prelude.Text.{trim, trim_start, is_whitespace}
use tapio.Prelude.Parse.{parse_u64}
use tapio.Prelude.{ℕ, ◌≡◌, refl, List, [], ◌∷◌, Option, some, length, if◌then◌else◌, u64_max, ◌==◌}
use tapio.Prelude.Text.{codes}
use tapio.Observer.Cgroup.{read_limit_file, resolve_via_proc, lines}

-- Every file says that there is a limit of 512 MB, but those of a process name its group.
abbrev one_limit : List ℕ → Option (List ℕ)
one_limit path =
    if length path == 15
    then some (codes "1:name=systemd:/init\n0::/kubepods/pod-a\n")
    else some (codes "536870912\n")

abbrev no_limit : List ℕ → Option (List ℕ)
no_limit path = some (codes "max\n")

limit_512 : resolve_via_proc one_limit 42 ≡ some 536870912
unfolding resolve_via_proc to_string split split_once strip_suffix trim trim_start is_whitespace
    parse_u64
limit_512 = refl

unlimited : read_limit_file no_limit (codes "/sys/fs/cgroup/a/memory.max") ≡ some u64_max
unfolding read_limit_file trim trim_start is_whitespace
unlimited = refl

two_lines : lines (codes "a\nb\n") ≡ codes "a" ∷ codes "b" ∷ []
unfolding lines split strip_suffix
two_lines = refl
