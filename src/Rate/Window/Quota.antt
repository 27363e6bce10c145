-- ===== src/Rate/Window/Quota.antt =====
-- How many requests a window of internal/rate/fixed_window.go grants.
use Prim.Native.Nat.{min}
use issue.Base.{
  ℕ, ◌+◌, ◌-◌, ◌^◌, ◌≤◌, ◌<◌, ◌≡◌, refl, inl, inr, true, false, List, [], ◌∷◌, arith, ltb,
  if◌then◌else◌, length, All, All-map, Bool-cases,
}
use issue.Base.Int.{leb_ℤ}
use issue.Rate.Window.{Time, Window, sub, expire, allow}

-- The window has not expired at the time.
abbrev pub IsLive : Window → Time → Type 0
IsLive w now = leb_ℤ w.duration (sub now w.start) ≡ false

abbrev pub HasExpired : Window → Time → Type 0
HasExpired w now = leb_ℤ w.duration (sub now w.start) ≡ true

pub record IsValid (w : Window) : Type 0 where
  pub word : w.limit < 2 ^ 64
  pub within : w.requests ≤ w.limit

pub expire_of_IsLive : (w : Window) (now : Time) → IsLive w now → expire w now ≡ w
unfolding expire
expire_of_IsLive w now h = rw h

expire-IsValid :
    (w : Window) (now : Time)
    → IsValid w
    → IsValid (expire w now)
      × ((expire w now).limit ≡ w.limit)
      × ((expire w now).duration ≡ w.duration)
unfolding expire
expire-IsValid w now h = ground arith

-- Every call keeps the count within the limit, with the limit and the duration as they were; a
-- granted request is counted exactly once, in a window that was reset if it had expired.
pub allow-IsValid :
    (w : Window) (now : Time)
    → IsValid w
    → IsValid (allow w now).0
      × ((allow w now).0.limit ≡ w.limit)
      × ((allow w now).0.duration ≡ w.duration)
      × ((allow w now).0.start ≡ (expire w now).start)
      × ((allow w now).0.requests
          ≡ (expire w now).requests + (if (allow w now).1.allowed then 1 else 0))
unfolding allow
allow-IsValid w now h = elim (Bool-cases (ltb (expire w now).requests (expire w now).limit)) [
  | inl room ↦ rw room (ground (arith, expire-IsValid w now h))
  | inr full ↦ rw full (ground (arith, expire-IsValid w now h))
]

-- The calls of `allow` at the given times, one after another: how many are granted.
pub granted_count : Window → List Time → ℕ
granted_count w [] = 0
granted_count w (t ∷ ts) = (if (allow w t).1.allowed then 1 else 0) + granted_count (allow w t).0 ts

-- The window after those calls.
pub after : Window → List Time → Window
after w [] = w
after w (t ∷ ts) = after (allow w t).0 ts

pub allow_live :
    (w : Window) (t : Time)
    → IsLive w t
    → w.limit < 2 ^ 64
    → ((allow w t).0.limit ≡ w.limit)
      × ((allow w t).0.duration ≡ w.duration)
      × ((allow w t).0.start ≡ w.start)
      × ((allow w t).0.requests ≡ (if ltb w.requests w.limit then w.requests + 1 else w.requests))
      × ((allow w t).1.allowed ≡ ltb w.requests w.limit)
unfolding allow
allow_live w t h k = rw (expire_of_IsLive w t h) (elim (Bool-cases (ltb w.requests w.limit)) [
  | inl room ↦ rw room (refl, refl, refl, ground arith, refl)
  | inr full ↦ rw full (refl, refl, refl, refl, refl)
])

pub IsLive-transfer :
    (w w' : Window) (t : Time)
    → w'.duration ≡ w.duration
    → w'.start ≡ w.start
    → IsLive w t
    → IsLive w' t
IsLive-transfer w w' t d s h = rw (d, s) h

-- Between two expirations a window grants requests until its limit is reached, and no more: of any
-- calls that it sees before it expires, exactly as many are granted as the limit leaves room for.
pub quota_exact :
    (w : Window) (ts : List Time)
    → All (IsLive w) ts
    → IsValid w
    → granted_count w ts ≡ min (length ts) (w.limit - w.requests)
unfolding granted_count
quota_exact w [] live v = omega arith
quota_exact w (t ∷ ts) (now, live) v =
    let (l, d, s, r, a) = allow_live w t now v.word in
    let later : All (IsLive (allow w t).0) ts =
      All-map (λ u. IsLive-transfer w (allow w t).0 u d s) ts live in
    let rest : granted_count (allow w t).0 ts
        ≡ min (length ts) ((allow w t).0.limit - (allow w t).0.requests) =
      quota_exact (allow w t).0 ts later (allow-IsValid w t v).0 in
    ground (arith, rest, l, r, a)
