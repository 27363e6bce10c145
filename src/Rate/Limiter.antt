-- ===== src/Rate/Limiter.antt =====
-- `windows` and `MultiBucketFixedWindowLimiter` of internal/rate/fixed_window.go. The mutex makes
-- each method one step; the windows that the map points to are written back under their key.
pub mod Grants
pub mod Keys
pub mod Overrides
use issue.Base.{
  ℕ, zero, suc, Bool, true, false, Option, none, some, List, [], ◌∷◌, map, Bytes, ltb, length, take,
  if◌then◌else◌,
}
use issue.Base.Int.{ℤ, pos}
use issue.Base.Table.{Table, lookup, insert}
use issue.Rate.Window
use issue.Rate.Window.{Time, Duration, Window, Verdict, granted}

-- `windows.allow`: the windows before the first refusal have counted the request, those behind it
-- have not seen it.
unfoldable pub allow_all : List Window → Time → List Window × Verdict
allow_all [] now = ([], granted)
allow_all (w ∷ ws) now =
    let (w', v) = Window.allow w now in
    let (ws', v') = allow_all ws now in
    if v.allowed then (w' ∷ ws', v') else (w' ∷ ws, record { allowed = false; wait = v.wait })

-- `windows.wouldAllow`
unfoldable pub would_allow_all : List Window → Time → Verdict
would_allow_all [] now = granted
would_allow_all (w ∷ ws) now =
    let v = Window.would_allow w now in
    let rest = would_allow_all ws now in
    if v.allowed then rest else record { allowed = false; wait = v.wait }

pub record WindowConfig : Type 0 where
  pub limit : ℕ
  pub duration : Duration

-- The fields that the literal leaves out are the zero values: no requests, the zero time.
unfoldable pub into_window : WindowConfig → Window
into_window c = record { limit = c.limit; duration = c.duration; requests = 0; start = pos 0 }

pub record Limiter : Type 0 where
  pub windows : Table (List Window)
  pub cfg : List WindowConfig

unfoldable pub new_limiter : List WindowConfig → Limiter
new_limiter config = record { windows = []; cfg = config }

-- The windows of the key, made from the configuration if there are none yet.
unfoldable pub windows_of : Limiter → Bytes → List Window
windows_of mb key = elim (lookup key mb.windows) [ none ↦ map into_window mb.cfg | some ws ↦ ws ]

-- `Allow`
unfoldable pub allow : Limiter → Bytes → Time → Limiter × Verdict
allow mb key now =
    let (ws, v) = allow_all (windows_of mb key) now in
    (record mb { windows = insert key ws mb.windows }, v)

-- `WouldAllow`
unfoldable pub would_allow : Limiter → Bytes → Time → Verdict
would_allow mb key now = elim (lookup key mb.windows) [
  | none ↦ granted
  | some ws ↦ would_allow_all ws now
]

override_window : Window → WindowConfig → Window
override_window w o = record w { limit = o.limit; duration = o.duration }

-- The loop of `OverrideWindows`; `none` is the panic of an index out of range.
unfoldable pub override_loop : List Window → List WindowConfig → Option (List Window)
unfolding override_window
override_loop ws [] = some ws
override_loop [] (o ∷ os) = none
override_loop (w ∷ ws) (o ∷ os) = elim (override_loop ws os) [
  | none ↦ none
  | some ws' ↦ some (override_window w o ∷ ws')
]

-- The overrides beyond the windows that there are are dropped.
unfoldable pub fitting : List Window → List WindowConfig → List WindowConfig
fitting ws overrides =
    if ltb (length ws) (length overrides) then take (length ws) overrides else overrides

store_windows : Limiter → Bytes → Option (List Window) → Option Limiter
store_windows mb key none = none
store_windows mb key (some ws) = some (record mb { windows = insert key ws mb.windows })

-- `OverrideWindows`
unfoldable pub override_windows : Limiter → Bytes → List WindowConfig → Option Limiter
unfolding store_windows
override_windows mb key overrides = elim (lookup key mb.windows) [
  | none ↦ some mb
  | some ws ↦ store_windows mb key (override_loop ws (fitting ws overrides))
]
