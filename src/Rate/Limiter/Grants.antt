-- ===== src/Rate/Limiter/Grants.antt =====
-- How the windows of one key, in internal/rate/fixed_window.go, decide together.
use issue.Base.{
  ℕ, ◌+◌, ◌-◌, ◌≤◌, ◌≡◌, refl, ◌↔◌, ◌⊎◌, inl, inr, Bool, true, false, List, [], ◌∷◌, arith, zero,
  suc, some, get_elem?, All, All-map, Bool-cases, if◌then◌else◌, length,
}
use issue.Rate.Window
use issue.Rate.Window.{Time, Window, Verdict}
use issue.Rate.Window.Quota.{IsLive, IsValid, IsLive-transfer, allow-IsValid, allow_live}
use issue.Rate.Limiter.{allow_all}

-- A request is granted exactly if each window by itself would grant it.
pub allow_all_iff :
    (ws : List Window) (now : Time)
    → ((allow_all ws now).1.allowed ≡ true) ↔ All (λ w. (Window.allow w now).1.allowed ≡ true) ws
unfolding allow_all
allow_all_iff [] now = ground arith
allow_all_iff (w ∷ ws) now = ground (arith, allow_all_iff ws now)

-- No window is added, dropped or moved, and each one stays valid.
pub allow_all-IsValid :
    (ws : List Window) (now : Time)
    → All IsValid ws
    → All IsValid (allow_all ws now).0 × (length (allow_all ws now).0 ≡ length ws)
unfolding allow_all
allow_all-IsValid [] now h = (tt, refl)
allow_all-IsValid (w ∷ ws) now (v, vs) =
    ground (arith, (allow-IsValid w now v).0, allow_all-IsValid ws now vs)

-- How many requests at the given times the windows grant, one after another.
pub granted_all : List Window → List Time → ℕ
granted_all ws [] = 0
granted_all ws (t ∷ ts) =
    (if (allow_all ws t).1.allowed then 1 else 0) + granted_all (allow_all ws t).0 ts

-- What a request does to one window of the list: nothing, if an earlier window refused it; or what
-- `allow` does, which must then grant it if the whole list does.
abbrev OneStep : Window → Time → Bool → Window → Type 0
OneStep w t all w' =
    ((w' ≡ w) × (all ≡ false))
    ⊎ ((w' ≡ (Window.allow w t).0) × (all ≡ true → (Window.allow w t).1.allowed ≡ true))

allow_all_at :
    (ws : List Window) (t : Time) (i : ℕ) (w : Window)
    → get_elem? ws i ≡ some w
    → (w' : Window) × (get_elem? (allow_all ws t).0 i ≡ some w')
      × OneStep w t (allow_all ws t).1.allowed w'
unfolding allow_all
allow_all_at [] t i w h = cc
allow_all_at (v ∷ ws) t zero w h =
    let same : v ≡ w = cc in
    elim (Bool-cases (Window.allow v t).1.allowed) [
      | inl e ↦ ((Window.allow v t).0, rw e refl, rw e (inr (rw same refl, λ _. rw (← same) e)))
      | inr e ↦ ((Window.allow v t).0, rw e refl, rw e (inr (rw same refl, λ k. cc k)))
    ]
allow_all_at (v ∷ ws) t (suc i) w h = elim (Bool-cases (Window.allow v t).1.allowed) [
  | inl e ↦ let (w', p, s) = allow_all_at ws t i w h in (w', rw e p, rw e s)
  | inr e ↦ (w, rw e h, rw e (inl (refl, refl)))
]

-- The windows act together: in any list of them, a window that has not expired lets no more
-- requests through than its limit leaves room for, whatever the other windows are.
pub quota_bound :
    (ws : List Window) (ts : List Time) (i : ℕ) (w : Window)
    → get_elem? ws i ≡ some w
    → IsValid w
    → All (IsLive w) ts
    → granted_all ws ts ≤ w.limit - w.requests
unfolding granted_all
quota_bound ws [] i w h v live = omega arith
quota_bound ws (t ∷ ts) i w h v (now, live) =
    let (w', p, s) = allow_all_at ws t i w h in
    let (l, d, st, r, a) = allow_live w t now v.word in
    let later : All (IsLive (Window.allow w t).0) ts =
      All-map (λ u. IsLive-transfer w (Window.allow w t).0 u d st) ts live in
    elim s [
      | inl (same, refused) ↦
          let rest : granted_all (allow_all ws t).0 ts ≤ w.limit - w.requests =
            quota_bound (allow_all ws t).0 ts i w (rw (← same) p) v live in
          rw refused (omega arith)
      | inr (stepped, granted) ↦
          let rest : granted_all (allow_all ws t).0 ts
              ≤ (Window.allow w t).0.limit - (Window.allow w t).0.requests =
            quota_bound (allow_all ws t).0 ts i (Window.allow w t).0 (rw (← stepped) p)
              (allow-IsValid w t v).0 later in
          ground (arith, rest, l, r, a, granted)
    ]
