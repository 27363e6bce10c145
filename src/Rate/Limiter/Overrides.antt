-- ===== src/Rate/Limiter/Overrides.antt =====
-- `OverrideWindows` of internal/rate/fixed_window.go.
use issue.Base.{
  ℕ, zero, suc, ◌≤◌, ◌≡◌, refl, ap, List, [], ◌∷◌, arith, length, take, get_elem?, Bytes, =ᵇ_refl,
  Option, none, some,
}
use issue.Base.Table.{lookup, insert, lookup-insert}
use issue.Rate.Window.{Window}
use issue.Rate.Limiter.{
  Limiter, WindowConfig, windows_of, override_window, override_loop, fitting, override_windows,
}

-- `v` is `w` with the limit and the duration of the override, if there is one; what `w` has counted
-- and since when stays.
abbrev pub Overridden : Option WindowConfig → Window → Window → Type 0
Overridden none w v = v ≡ w
Overridden (some o) w v =
    (v.limit ≡ o.limit)
    × (v.duration ≡ o.duration)
    × (v.requests ≡ w.requests)
    × (v.start ≡ w.start)

-- `Overridden` at each place.
abbrev pub AllOverridden : List Window → List WindowConfig → List Window → Type 0
AllOverridden ws os vs =
    (i : ℕ) (w : Window)
    → get_elem? ws i ≡ some w
    → (v : Window) × (get_elem? vs i ≡ some v) × Overridden (get_elem? os i) w v

AllOverridden-cons :
    (w : Window) (o : WindowConfig) (ws : List Window) (os : List WindowConfig) (vs : List Window)
    → AllOverridden ws os vs
    → AllOverridden (w ∷ ws) (o ∷ os) (override_window w o ∷ vs)
unfolding override_window
AllOverridden-cons w o ws os vs at zero u e =
    let same : w ≡ u = cc in
    (override_window w o, refl, (refl, refl, ap (λ x. x.requests) same, ap (λ x. x.start) same))
AllOverridden-cons w o ws os vs at (suc i) u e = at i u e

override_loop_at :
    (ws : List Window) (os : List WindowConfig)
    → length os ≤ length ws
    → (vs : List Window) × (override_loop ws os ≡ some vs)
      × AllOverridden ws os vs
      × (length vs ≡ length ws)
unfolding override_loop
override_loop_at ws [] h = (ws, refl, λ i w e. (w, e, refl), refl)
override_loop_at [] (o ∷ os) h = absurd (omega arith)
override_loop_at (w ∷ ws) (o ∷ os) h =
    let (vs, e, at, n) = override_loop_at ws os (omega arith) in
    (
      override_window w o ∷ vs,
      rw (e, override_loop) refl,
      AllOverridden-cons w o ws os vs at,
      ap suc n,
    )

length-take_le {ℓ} : {A : Type ℓ} (n : ℕ) (xs : List A) → length (take n xs) ≤ n
length-take_le zero xs = omega arith
length-take_le (suc n) [] = omega arith
length-take_le (suc n) (x ∷ xs) = omega (arith, length-take_le n xs)

length-fitting : (ws : List Window) (os : List WindowConfig) → length (fitting ws os) ≤ length ws
unfolding fitting
length-fitting ws os = ground (arith, length-take_le (length ws) os)

-- `OverrideWindows` never runs out of range, however many overrides it is given. For a key that has
-- windows, each window takes the limit and the duration of the override at its place, if there is
-- one, and keeps its count and its start; no window is added or dropped.
pub override_windows_known :
    (mb : Limiter) (key : Bytes) (os : List WindowConfig) (ws : List Window)
    → lookup key mb.windows ≡ some ws
    → (mb' : Limiter) × (override_windows mb key os ≡ some mb')
      × AllOverridden ws (fitting ws os) (windows_of mb' key)
      × (length (windows_of mb' key) ≡ length ws)
unfolding override_windows windows_of
override_windows_known mb key os ws known =
    let (vs, e, at, n) = override_loop_at ws (fitting ws os) (length-fitting ws os) in
    let here : lookup key (insert key vs mb.windows) ≡ some vs =
      ground (arith, lookup-insert key key vs mb.windows, =ᵇ_refl key) in
    let mb' : Limiter = record mb { windows = insert key vs mb.windows } in
    let seen : windows_of mb' key ≡ vs = ground (arith, here) in
    (mb', ground (arith, known, e), rw seen at, rw seen n)

-- A key without windows is left without them: nothing changes.
pub override_windows_unknown :
    (mb : Limiter) (key : Bytes) (os : List WindowConfig)
    → lookup key mb.windows ≡ none
    → override_windows mb key os ≡ some mb
unfolding override_windows
override_windows_unknown mb key os h = ground arith
