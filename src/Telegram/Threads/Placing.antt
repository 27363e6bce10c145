-- ===== src/Telegram/Threads/Placing.antt =====
-- Threads of app/telegramsearch, and what a reply that is put into one of them changes.
use issue.Base.{
  ◌≡◌, refl, ◌∙◌, sym, ap, subst, ◌⊎◌, inl, inr, ℕ, zero, suc, true, false, List, [], ◌∷◌, ◌++◌,
  Option, some, length, get_elem?, All, append-nil,
}
use issue.Telegram.Threads.{Message, Thread, append_at, is_start}

-- A message of the thread has the identifier.
abbrev pub Has : ℕ → Thread → Type 0
Has id [] = ⊥
Has id (m ∷ t) = (m.id ≡ id) ⊎ Has id t

-- A message that starts a thread, and then replies, each to a message before it.
pub data IsThread : Thread → Type 0 where
  alone : (m : Message) → is_start m ≡ true → IsThread (m ∷ [])
  replied :
      (t : Thread) (m : Message)
      → IsThread t
      → is_start m ≡ false
      → Has m.reply t
      → IsThread (t ++ m ∷ [])

Has-front : (id : ℕ) (t u : Thread) → Has id t → Has id (t ++ u)
Has-front id [] u h = elim h [ ]
Has-front id (m ∷ t) u (inl e) = inl e
Has-front id (m ∷ t) u (inr h) = inr (Has-front id t u h)

pub Has-last : (t : Thread) (m : Message) → Has m.id (t ++ m ∷ [])
Has-last [] m = inl refl
Has-last (n ∷ t) m = inr (Has-last t m)

-- At the place stands a thread with the identifier.
abbrev pub Placed : List Thread → ℕ × ℕ → Type 0
Placed ts (id, place) = (t : Thread) × (get_elem? ts place ≡ some t) × Has id t

-- A thread may have grown, and threads may have been added.
abbrev pub Grown : List Thread → List Thread → Type 0
Grown ts us =
    (place : ℕ) (t : Thread)
    → get_elem? ts place ≡ some t
    → (u : Thread) × (get_elem? us place ≡ some (t ++ u))

pub Placed-Grown : (ts us : List Thread) → Grown ts us → (p : ℕ × ℕ) → Placed ts p → Placed us p
Placed-Grown ts us grown (id, place) (t, found, has) =
    let more = grown place t found in (t ++ more.0, more.1, Has-front id t (more.0) has)

pub unchanged : (t : Thread) (o : Option Thread) → o ≡ some t → o ≡ some (t ++ [])
unchanged t o h = h ∙ ap (λ u. some u) (sym (append-nil t))

Grown-head : (s : Thread) (v : Message) (ts : List Thread) → Grown (s ∷ ts) ((s ++ v ∷ []) ∷ ts)
Grown-head s v ts zero t found =
    let same : s ≡ t = cc found in (v ∷ [], ap (λ u. some (u ++ v ∷ [])) same)
Grown-head s v ts (suc place) t found = ([], unchanged t (get_elem? ts place) found)

Grown-tail : (s : Thread) (ts us : List Thread) → Grown ts us → Grown (s ∷ ts) (s ∷ us)
Grown-tail s ts us grown zero t found = ([], unchanged t (some s) found)
Grown-tail s ts us grown (suc place) t found = grown place t found

module _ (v : Message) (t : Thread) where
  -- The message stands behind the thread at the place, and the rest is as before.
  abbrev pub Added : ℕ → List Thread → List Thread → Type 0
  Added place ts us =
      (append_at place v ts ≡ some us)
      × Grown ts us
      × (get_elem? us place ≡ some (t ++ v ∷ []))
      × (length us ≡ length ts)
      × (All IsThread ts → IsThread (t ++ v ∷ []) → All IsThread us)

  pub append_at-Added :
      (place : ℕ) (ts : List Thread)
      → get_elem? ts place ≡ some t
      → (us : List Thread) × Added place ts us
  unfolding append_at
  append_at-Added place [] found = absurd (cc found)
  append_at-Added zero (s ∷ ts) found =
      let same : s ≡ t = cc found in
      (
        (s ++ v ∷ []) ∷ ts,
        (
          refl,
          Grown-head s v ts,
          ap (λ u. some (u ++ v ∷ [])) same,
          refl,
          λ all grown. (subst (λ u. IsThread (u ++ v ∷ [])) (sym same) grown, all.1),
        ),
      )
  append_at-Added (suc place) (s ∷ ts) found =
      let added = append_at-Added place ts found in
      (
        s ∷ (added.0),
        (
          rw ((added.1).0) refl,
          Grown-tail s ts (added.0) ((added.1).1),
          (added.1).2,
          ap suc ((added.1).3),
          λ all grown. (all.0, (added.1).4 (all.1) grown),
        ),
      )
