-- ===== src/Rate/Tests.antt =====
-- The theorems on internal/rate/fixed_window.go at concrete windows and times.
use issue.Base.{
  ◌≤◌, ◌≡◌, ◌≢◌, refl, true, false, none, some, List, [], ◌∷◌, codes, arith, ◌=ᵇ◌, All,
}
use issue.Base.Int.{pos, ◌≤ℤ◌, ◌<ℤ◌, ◌+ℤ◌, ◌-ℤ◌}
use issue.Base.Table.{lookup}
use issue.Rate.Window
use issue.Rate.Window.{
  Time, Duration, max_duration, min_duration, sub, Window, Verdict, granted, expire, refuse,
}
use issue.Rate.Window.Quota.{IsLive, IsValid, granted_count, quota_exact}
use issue.Rate.Window.Wait.{wait_then_granted}
use issue.Rate.Limiter
use issue.Rate.Limiter.{
  allow_all, WindowConfig, into_window, Limiter, new_limiter, windows_of, override_windows, fitting,
  override_loop,
}
use issue.Rate.Limiter.Grants.{granted_all, quota_bound}

-- Two requests in ten nanoseconds; the second window is full.
abbrev open_window : Window
open_window = record { limit = 2; duration = pos 10; requests = 0; start = pos 100 }

abbrev full_window : Window
full_window = record { limit = 2; duration = pos 10; requests = 2; start = pos 100 }

open_window-IsValid : IsValid open_window
open_window-IsValid = record { word = omega arith; within = omega arith }

full_window-IsValid : IsValid full_window
full_window-IsValid = record { word = omega arith; within = omega arith }

abbrev three_times : List Time
three_times = pos 101 ∷ pos 102 ∷ pos 103 ∷ []

three_times-IsLive : All (IsLive open_window) three_times
unfolding sub ◌-ℤ◌
three_times-IsLive = (refl, (refl, (refl, tt)))

quota_exact_example : granted_count open_window three_times ≡ 2
quota_exact_example = quota_exact open_window three_times three_times-IsLive open_window-IsValid

full_window_refuses : (Window.allow full_window (pos 104)).1.allowed ≡ false
unfolding Window.allow expire sub refuse ◌-ℤ◌
full_window_refuses = refl

wait_then_granted_example :
    let (w', refusal) = Window.allow full_window (pos 104) in
    (pos 0 <ℤ refusal.wait)
    × (refusal.wait ≤ℤ pos 10)
    × ((Window.allow w' (pos 104 +ℤ refusal.wait)).1.allowed ≡ true)
wait_then_granted_example =
    wait_then_granted full_window (pos 104) (omega arith) (omega arith) (omega arith)
      full_window_refuses

quota_bound_example : granted_all (full_window ∷ open_window ∷ []) three_times ≤ 2
quota_bound_example =
    quota_bound (full_window ∷ open_window ∷ []) three_times 1 open_window refl open_window-IsValid
      three_times-IsLive

abbrev two_windows : Limiter
two_windows = record {
  windows = (codes "u1", open_window ∷ full_window ∷ []) ∷ [];
  cfg = record { limit = 2; duration = pos 10 } ∷ [];
}

u1_ne_u2 : codes "u1" ≢ codes "u2"
u1_ne_u2 h = ground arith

two_windows_refuses : (Limiter.allow two_windows (codes "u1") (pos 104)).1.allowed ≡ false
unfolding Limiter.allow windows_of lookup ◌=ᵇ◌ allow_all Window.allow expire sub refuse ◌-ℤ◌
two_windows_refuses = refl

abbrev three_overrides : List WindowConfig
three_overrides =
    record { limit = 5; duration = pos 1 }
    ∷ record { limit = 6; duration = pos 2 }
    ∷ record { limit = 7; duration = pos 3 }
    ∷ []

lookup_u1 : lookup (codes "u1") two_windows.windows ≡ some (open_window ∷ full_window ∷ [])
unfolding lookup ◌=ᵇ◌
lookup_u1 = refl

lookup_u2 : lookup (codes "u2") two_windows.windows ≡ none
unfolding lookup ◌=ᵇ◌
lookup_u2 = refl
