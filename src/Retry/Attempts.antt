-- ===== src/Retry/Attempts.antt =====
-- What the documentation of kamilsk/retry says of `retry.Do`, as a relation, and what it implies.
use issue.Base.{
  ◌≡◌, refl, ℕ, ◌+◌, ◌≤◌, true, false, List, Option, none, some, Result, ok, fail, panic, arith,
}
use issue.Errors.Fault.{Fault}
use issue.Retry.{Strategy, allow}

-- The result if no attempt follows the error.
abbrev pub last : Option Fault → Result Fault (Unit {0})
last none = ok tt
last (some err) = fail err

module _ {S : Type 0} (how : List Strategy) (action : S → S × Result Fault (Unit {0})) where
  -- "Do takes the action and performs it, repetitively, until successful. Optionally, strategies may
  -- be passed that assess whether or not an attempt should be made."  `Runs n err s end`: with the
  -- attempt numbered n ahead and `err` the error of the one before, the end may be `end`.
  pub data Runs : ℕ → Option Fault → S → S × Result Fault (Unit {0}) → Type 0 where
    refused :
        (n : ℕ) (err : Option Fault) (s : S) → allow how n err ≡ false → Runs n err s (s, last err)
    interrupted :
        (n : ℕ) (err : Option Fault) (s : S) (cause : Fault) → Runs n err s (s, fail cause)
    succeeded :
        (n : ℕ) (err : Option Fault) (s s' : S)
        → allow how n err ≡ true
        → action s ≡ (s', ok tt)
        → Runs n err s (s', ok tt)
    crashed :
        (n : ℕ) (err : Option Fault) (s s' : S)
        → allow how n err ≡ true
        → action s ≡ (s', panic)
        → Runs n err s (s', panic)
    again :
        (n : ℕ) (err : Option Fault) (s s' : S) (cause : Fault) (end : S × Result Fault (Unit {0}))
        → allow how n err ≡ true
        → action s ≡ (s', fail cause)
        → Runs (n + 1) (some cause) s' end
        → Runs n err s end

  module _ {ℓ} (P : S → Type ℓ) (kept : (s : S) → P s → P (action s).0) where
    -- What every attempt preserves holds at the end.
    pub Runs-invariant :
        (n : ℕ) (err : Option Fault) (s : S) (end : S × Result Fault (Unit {0}))
        → Runs n err s end
        → P s
        → P end.0
    Runs-invariant n err s end (refused _ _ _ h) p = p
    Runs-invariant n err s end (interrupted _ _ _ cause) p = p
    Runs-invariant n err s end (succeeded _ _ _ s' h a) p = rw a at (kept s p)
    Runs-invariant n err s end (crashed _ _ _ s' h a) p = rw a at (kept s p)
    Runs-invariant n err s end (again _ _ _ s' cause _ h a rest) p =
        Runs-invariant (n + 1) (some cause) s' end rest (rw a at (kept s p))

  -- No attempt is made after an error that the strategies refuse.
  pub Runs-refused :
      (n : ℕ) (err : Option Fault) (s : S) (end : S × Result Fault (Unit {0}))
      → allow how n err ≡ false
      → Runs n err s end
      → end.0 ≡ s
  Runs-refused n err s end no_more (refused _ _ _ h) = refl
  Runs-refused n err s end no_more (interrupted _ _ _ cause) = refl
  Runs-refused n err s end no_more (succeeded _ _ _ s' h a) = cc
  Runs-refused n err s end no_more (crashed _ _ _ s' h a) = cc
  Runs-refused n err s end no_more (again _ _ _ s' cause _ h a rest) = cc

  module _ (count : S → ℕ) (grows : (s : S) → count (action s).0 ≤ count s + 1) (limit : ℕ)
      (limited : (n : ℕ) (err : Option Fault) → limit ≤ n → allow how n err ≡ false) where
    room : (n : ℕ) (err : Option Fault) → allow how n err ≡ true → n + 1 ≤ limit
    room n err h = ground (arith, limited n err)

    grew :
        (s s' : S) (outcome : Result Fault (Unit {0}))
        → action s ≡ (s', outcome)
        → count s' ≤ count s + 1
    grew s s' outcome a = rw a at (grows s)

    -- A limit on the attempts is one on what each attempt does at most once.
    pub Runs-count :
        (n : ℕ) (err : Option Fault) (s : S) (end : S × Result Fault (Unit {0}))
        → Runs n err s end
        → count s ≤ n
        → n ≤ limit
        → count end.0 ≤ limit
    Runs-count n err s end (refused _ _ _ h) c l = omega arith
    Runs-count n err s end (interrupted _ _ _ cause) c l = omega arith
    Runs-count n err s end (succeeded _ _ _ s' h a) c l =
        omega (arith, room n err h, grew s s' (ok tt) a)
    Runs-count n err s end (crashed _ _ _ s' h a) c l =
        omega (arith, room n err h, grew s s' panic a)
    Runs-count n err s end (again _ _ _ s' cause _ h a rest) c l =
        Runs-count (n + 1) (some cause) s' end rest (omega (arith, grew s s' (fail cause) a))
          (room n err h)
