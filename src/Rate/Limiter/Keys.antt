-- ===== src/Rate/Limiter/Keys.antt =====
-- The keys of `MultiBucketFixedWindowLimiter` do not disturb each other, and `WouldAllow` agrees
-- with a refusal of `Allow` (internal/rate/fixed_window.go).
use issue.Base.{
  ◌≡◌, ◌≢◌, inl, inr, false, List, [], ◌∷◌, arith, ltb, Bytes, =ᵇ_iff, =ᵇ_refl, Bool-cases,
}
use issue.Base.Table.{lookup-insert}
use issue.Rate.Window
use issue.Rate.Window.{Time, Window, Verdict}
use issue.Rate.Limiter.{Limiter, allow_all, would_allow_all, windows_of, allow, would_allow}

-- A request of one key leaves the windows of every other key as they were, and what `WouldAllow`
-- says of it; the configuration stays too.
pub allow-windows_of_ne :
    (mb : Limiter) (k j : Bytes) (now later : Time)
    → k ≢ j
    → (windows_of (allow mb k now).0 j ≡ windows_of mb j)
      × (would_allow (allow mb k now).0 j later ≡ would_allow mb j later)
      × ((allow mb k now).0.cfg ≡ mb.cfg)
unfolding allow windows_of would_allow
allow-windows_of_ne mb k j now later h =
    ground (arith, lookup-insert k j (allow_all (windows_of mb k) now).0 mb.windows, =ᵇ_iff k j)

-- The windows of the key itself become those that the request left behind.
pub allow-windows_of_self :
    (mb : Limiter) (k : Bytes) (now : Time)
    → windows_of (allow mb k now).0 k ≡ (allow_all (windows_of mb k) now).0
unfolding allow windows_of
allow-windows_of_self mb k now =
    ground (arith, lookup-insert k k (allow_all (windows_of mb k) now).0 mb.windows, =ᵇ_refl k)

refused_again :
    (w : Window) (now : Time)
    → (Window.allow w now).1.allowed ≡ false
    → (Window.would_allow (Window.allow w now).0 now).allowed ≡ false
unfolding Window.allow Window.would_allow
refused_again w now h =
    elim (Bool-cases (ltb (Window.expire w now).requests (Window.expire w now).limit)) [
      | inl room ↦ cc room
      | inr full ↦ rw (full, full)
    ]

refused_again_all :
    (ws : List Window) (now : Time)
    → (allow_all ws now).1.allowed ≡ false
    → (would_allow_all (allow_all ws now).0 now).allowed ≡ false
unfolding allow_all would_allow_all
refused_again_all [] now h = cc
refused_again_all (w ∷ ws) now h = elim (Bool-cases (Window.allow w now).1.allowed) [
  | inl e ↦ rw e (ground (arith, refused_again_all ws now (rw e at h)))
  | inr e ↦ rw e (rw (refused_again w now e))
]

-- Where nothing was overridden in between, `WouldAllow` refuses a request that `Allow` has just
-- refused at the same time.
pub would_allow-allow_refused :
    (mb : Limiter) (k : Bytes) (now : Time)
    → (allow mb k now).1.allowed ≡ false
    → (would_allow (allow mb k now).0 k now).allowed ≡ false
unfolding allow would_allow
would_allow-allow_refused mb k now h = ground (
  arith,
  lookup-insert k k (allow_all (windows_of mb k) now).0 mb.windows,
  =ᵇ_refl k,
  refused_again_all (windows_of mb k) now h,
)
