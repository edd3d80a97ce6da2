-- ===== src/Controller/Clock.antt =====
-- `SystemTime` as the count of nanoseconds from an origin that precedes every time in use; the
-- origin's distance to the Unix epoch is a parameter of `unix_seconds`.
use tapio.Prelude.{ℕ, ◌-◌, ◌/◌, Option, none, some, leb, if◌then◌else◌}

abbrev pub SystemTime : Type 0
SystemTime = ℕ

-- `now.duration_since(earlier).ok()`, in nanoseconds.
unfoldable pub duration_since : SystemTime → SystemTime → Option ℕ
duration_since now earlier = if leb earlier now then some (now - earlier) else none

abbrev pub as_secs : ℕ → ℕ
as_secs duration = duration / 1_000_000_000

abbrev pub seconds_or_zero : Option ℕ → ℕ
seconds_or_zero none = 0
seconds_or_zero (some duration) = as_secs duration

-- `unix_seconds`: 0 before the epoch.
unfoldable pub unix_seconds : SystemTime → SystemTime → ℕ
unfolding duration_since
unix_seconds unix_epoch time = seconds_or_zero (duration_since time unix_epoch)
