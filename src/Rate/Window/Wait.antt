-- ===== src/Rate/Window/Wait.antt =====
-- The wait that a window of internal/rate/fixed_window.go reports with a refusal.
use issue.Base.{◌<◌, ◌≡◌, refl, inl, inr, true, false, arith, ltb, Bool-cases, false}
use issue.Base.Int.{pos, ◌+ℤ◌, ◌-ℤ◌, ◌≤ℤ◌, ◌<ℤ◌, leb_ℤ, int_laws, -ℤ_parts}
use issue.Rate.Window.{Time, Window, max_duration, sub, expire, allow}
use issue.Rate.Window.Quota.{IsLive, HasExpired, expire_of_IsLive}

-- A difference of times that is a duration is returned as it is.
pub sub_exact : (t u : Time) → pos 0 ≤ℤ (t -ℤ u) → (t -ℤ u) ≤ℤ max_duration → sub t u ≡ t -ℤ u
unfolding sub
sub_exact t u h k = ground arith

allow_of_HasExpired :
    (w : Window) (now : Time) → HasExpired w now → 0 < w.limit → (allow w now).1.allowed ≡ true
unfolding allow expire
allow_of_HasExpired w now h some_room = rw h (ground arith)

allow_of_IsLive :
    (w : Window) (now : Time)
    → IsLive w now
    → (allow w now).1.allowed ≡ false
    → ((allow w now).0 ≡ w) × ((allow w now).1.wait ≡ sub (w.start +ℤ w.duration) now)
unfolding allow
allow_of_IsLive w now live h = elim (Bool-cases (ltb w.requests w.limit)) [
  | inl room ↦ cc (rw (expire_of_IsLive w now live, room) at h)
  | inr full ↦ rw (expire_of_IsLive w now live, full) (refl, refl)
]

-- The time that has passed in a live window is shorter than its duration.
elapsed :
    (w : Window) (now : Time)
    → IsLive w now
    → w.start ≤ℤ now
    → w.duration ≤ℤ max_duration
    → (now -ℤ w.start) <ℤ w.duration
unfolding sub
elapsed w now live later fits = ground (arith, -ℤ_parts now w.start)

remaining_exact :
    (w : Window) (now : Time)
    → w.start ≤ℤ now
    → (now -ℤ w.start) <ℤ w.duration
    → w.duration ≤ℤ max_duration
    → sub (w.start +ℤ w.duration) now ≡ w.start +ℤ w.duration -ℤ now
remaining_exact w now later live fits =
    sub_exact (w.start +ℤ w.duration) now (omega (int_laws, -ℤ_parts now w.start))
      (omega (int_laws, -ℤ_parts now w.start))

end_of_window :
    (w : Window) (now : Time) → now +ℤ (w.start +ℤ w.duration -ℤ now) ≡ w.start +ℤ w.duration
end_of_window w now = omega int_laws

expires_at_end :
    (w : Window)
    → pos 0 ≤ℤ w.duration
    → w.duration ≤ℤ max_duration
    → HasExpired w (w.start +ℤ w.duration)
expires_at_end w some_time fits =
    rw (sub_exact (w.start +ℤ w.duration) w.start (omega int_laws) (omega int_laws))
      (rw (span w) (ground arith))
  where
    span : (v : Window) → v.start +ℤ v.duration -ℤ v.start ≡ v.duration
    span v = omega int_laws

-- The requester that was refused is told how long to wait: the time is positive, at most the
-- window's duration, and a request made on the same window exactly then is granted. The window has
-- a limit above 0 and started before the refused request.
pub wait_then_granted :
    (w : Window) (now : Time)
    → w.start ≤ℤ now
    → w.duration ≤ℤ max_duration
    → 0 < w.limit
    → (allow w now).1.allowed ≡ false
    → let (w', refusal) = allow w now in
      (pos 0 <ℤ refusal.wait)
      × (refusal.wait ≤ℤ w.duration)
      × ((allow w' (now +ℤ refusal.wait)).1.allowed ≡ true)
wait_then_granted w now later fits some_room h =
    elim (Bool-cases (leb_ℤ w.duration (sub now w.start))) [
      | inl old ↦ cc (allow_of_HasExpired w now old some_room)
      | inr live ↦
          let (same, told) = allow_of_IsLive w now live h in
          let spent = elapsed w now live later fits in
          rw (same, told, remaining_exact w now later spent fits)
            (
              omega int_laws,
              omega int_laws,
              rw (end_of_window w now) (
                  allow_of_HasExpired w _
                    (expires_at_end w (omega (int_laws, -ℤ_parts now w.start)) fits) some_room),
            )
    ]
