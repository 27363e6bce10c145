-- ===== src/Rate/Window.antt =====
-- `window` of internal/rate/fixed_window.go, with the part of package time that it uses.
pub mod Quota
pub mod Wait
use issue.Base.{ℕ, ◌+◌, ◌-◌, ◌%◌, ◌^◌, Bool, true, false, ltb, if◌then◌else◌}
use issue.Base.Int.{ℤ, pos, negsuc, ◌+ℤ◌, ◌-ℤ◌, leb_ℤ, ltb_ℤ}

-- A time.Time, in nanoseconds since the zero time.
abbrev pub Time : Type 0
Time = ℤ

-- A time.Duration: nanoseconds in an int64.
abbrev pub Duration : Type 0
Duration = ℤ

abbrev pub max_duration : Duration
max_duration = pos (2 ^ 63 - 1)

abbrev pub min_duration : Duration
min_duration = negsuc (2 ^ 63 - 1)

-- `t.Sub(u)`, which goes to the nearest duration where the difference is none.
unfoldable pub sub : Time → Time → Duration
sub t u =
    let d = t -ℤ u in
    if ltb_ℤ max_duration d then max_duration else if ltb_ℤ d min_duration then min_duration else d

pub record Window : Type 0 where
  pub limit : ℕ  -- uint
  pub duration : Duration
  pub requests : ℕ  -- uint
  pub start : Time

-- The two results of `allow`.
pub record Verdict : Type 0 where
  pub allowed : Bool
  pub wait : Duration

abbrev pub granted : Verdict
granted = record { allowed = true; wait = pos 0 }

-- The first statement of `allow`.
unfoldable pub expire : Window → Time → Window
expire w now =
    if leb_ℤ w.duration (sub now w.start) then record w { start = now; requests = 0 } else w

-- `w.start.Add(w.duration).Sub(now)` with a refusal.
unfoldable pub refuse : Window → Time → Verdict
refuse w now = record { allowed = false; wait = sub (w.start +ℤ w.duration) now }

count_request : Window → Window × Verdict
count_request w = (record w { requests = (w.requests + 1) % 2 ^ 64 }, granted)

unfoldable pub allow : Window → Time → Window × Verdict
unfolding count_request refuse
allow w now =
    let w' = expire w now in
    if ltb w'.requests w'.limit then count_request w' else (w', refuse w' now)

unfoldable pub would_allow : Window → Time → Verdict
unfolding refuse
would_allow w now = if ltb w.requests w.limit then granted else refuse w now
