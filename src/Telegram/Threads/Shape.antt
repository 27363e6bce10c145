-- ===== src/Telegram/Threads/Shape.antt =====
-- What findThreads of app/telegramsearch finds: threads of replies.
use issue.Base.{
  ◌≤◌, ltb, ltb→lt, ◌=ᵇ◌, codes, ◌≡◌, refl, ◌∙◌, sym, subst, inl, inr, ℕ, zero, suc, ◌+◌, true,
  false, List, [], ◌∷◌, ◌++◌, Option, none, some, ◌==◌, ==_iff, length, length-append, get_elem?,
  All, All-append, All-map, Bool-cases, arith,
}
use issue.Telegram.Threads.{
  Message, Thread, Found, place_of, append_at, is_start, put, answer, add_message, add_messages,
  nothing_found, find_threads, keep, threads_high_mem,
}
use issue.Telegram.Threads.Placing.{
  alone, replied, IsThread, Has-last, Placed, Grown, Placed-Grown, unchanged, append_at-Added,
}

-- What the loop keeps: the threads are threads, the next one has the index, and every entry of the
-- map leads to a thread with the message.
pub record IsFound (s : Found) : Type 0 where
  pub threads_ok : All IsThread s.threads
  pub next : s.thread_idx ≡ length s.threads
  pub placed : All (Placed s.threads) s.places

pub place_of-Placed :
    (ts : List Thread) (id : ℕ) (places : List (ℕ × ℕ)) {place : ℕ}
    → All (Placed ts) places
    → place_of id places ≡ some place
    → Placed ts (id, place)
unfolding place_of
place_of-Placed ts id [] all found = absurd (cc found)
place_of-Placed ts id ((j, place') ∷ places) {place} all found = elim (Bool-cases (j == id)) [
  | inl same ↦
      let same_id : j ≡ id = (==_iff j id).0 same in
      let same_place : place' ≡ place = cc (rw same at found) in
      subst (λ i. Placed ts (i, place)) same_id (subst (λ q. Placed ts (j, q)) same_place (all.0))
  | inr other ↦ place_of-Placed ts id places (all.1) (rw other at found)
]

pub All-get :
    {A : Type 0} (P : A → Type 0) (as_list : List A) (i : ℕ) {a : A}
    → All P as_list
    → get_elem? as_list i ≡ some a
    → P a
All-get P [] i all found = absurd (cc found)
All-get P (b ∷ others) zero {a} all found = let same : b ≡ a = cc found in subst P same (all.0)
All-get P (b ∷ others) (suc i) all found = All-get P others i (all.1) found

pub append_at-last :
    (v : Message) (ts : List Thread)
    → append_at (length ts) v (ts ++ [] ∷ []) ≡ some (ts ++ (v ∷ []) ∷ [])
unfolding append_at
append_at-last v [] = refl
append_at-last v (t ∷ ts) = rw (append_at-last v ts) refl

get-last : (ts : List Thread) (t : Thread) → get_elem? (ts ++ t ∷ []) (length ts) ≡ some t
get-last [] t = refl
get-last (s ∷ ts) t = get-last ts t

get-front :
    (ts us : List Thread) (i : ℕ) {t : Thread}
    → get_elem? ts i ≡ some t
    → get_elem? (ts ++ us) i ≡ some t
get-front [] us i found = absurd (cc found)
get-front (s ∷ ts) us zero found = found
get-front (s ∷ ts) us (suc i) found = get-front ts us i found

-- The loop goes on in a good state.
abbrev pub Goes : Option Found → Type 0
Goes o = (s : Found) × (o ≡ some s) × IsFound s

module _ (s : Found) (v : Message) (ok : IsFound s) where
  answer-Goes :
      is_start v ≡ false
      → (place : Option ℕ) → place_of v.reply s.places ≡ place
      → Goes (answer s v place)
  unfolding answer put
  answer-Goes reply none found = (s, refl, ok)
  answer-Goes reply (some place) found =
      let (t, there, has) = place_of-Placed s.threads v.reply s.places ok.placed found in
      let added = append_at-Added v t place s.threads there in
      let us = added.0 in
      let grown = (added.1).1 in
      (
        record { threads = us; thread_idx = s.thread_idx; places = (v.id, place) ∷ s.places },
        rw ((added.1).0) refl,
        record {
          threads_ok =
              (added.1).4 ok.threads_ok
                (replied t v (All-get IsThread s.threads place ok.threads_ok there) reply has);
          next = ok.next ∙ sym ((added.1).3);
          placed = (
            (t ++ v ∷ [], (added.1).2, Has-last t v),
            All-map {P = Placed s.threads} {Q = Placed us} (Placed-Grown s.threads us grown)
                s.places ok.placed,
          );
        },
      )

  start-Goes :
      is_start v ≡ true
      → Goes (
          put
            (s.thread_idx + 1)
            s.thread_idx
            v
            s.places
            (append_at s.thread_idx v (s.threads ++ [] ∷ [])))
  unfolding put
  start-Goes starts =
      let us = s.threads ++ (v ∷ []) ∷ [] in
      let grown : Grown s.threads us = λ i t found.
        ([], unchanged t (get_elem? us i) (get-front s.threads ((v ∷ []) ∷ []) i found)) in
      (
        record {
          threads = us;
          thread_idx = s.thread_idx + 1;
          places = (v.id, s.thread_idx) ∷ s.places;
        },
        rw (ok.next) (rw (append_at-last v s.threads) refl),
        record {
          threads_ok =
              All-append IsThread s.threads ((v ∷ []) ∷ []) ok.threads_ok (alone v starts, tt);
          next = omega (arith, ok.next, length-append s.threads ((v ∷ []) ∷ []));
          placed = (
            (v ∷ [], rw (ok.next) (get-last s.threads (v ∷ [])), inl refl),
            All-map {P = Placed s.threads} {Q = Placed us} (Placed-Grown s.threads us grown)
                s.places ok.placed,
          );
        },
      )

  pub add_message-Goes : Goes (add_message s v)
  unfolding add_message
  add_message-Goes = elim (Bool-cases (is_start v)) [
    | inl starts ↦ rw starts (start-Goes starts)
    | inr reply ↦ rw reply (answer-Goes reply (place_of v.reply s.places) refl)
  ]

add_messages-Goes : (s : Found) (input : List Message) → IsFound s → Goes (add_messages s input)
unfolding add_messages
add_messages-Goes s [] ok = (s, refl, ok)
add_messages-Goes s (v ∷ input) ok =
    let (s', added, ok') = add_message-Goes s v ok in
    rw (added, add_messages) (add_messages-Goes s' input ok')

pub nothing_found-IsFound : IsFound nothing_found
nothing_found-IsFound = record { threads_ok = tt; next = refl; placed = tt }

pub find_threads-IsThread :
    (input : List Message)
    → (threads : List Thread) × (find_threads input ≡ some threads) × All IsThread threads
unfolding find_threads
find_threads-IsThread input =
    let (s, found, ok) = add_messages-Goes nothing_found input nothing_found-IsFound in
    (s.threads, rw (found, find_threads) refl, ok.threads_ok)

-- A thread that is kept.
abbrev pub IsAnswered : Thread → Type 0
IsAnswered t = IsThread t × (2 ≤ length t)

keep-IsAnswered :
    (ts : List Thread) → All IsThread ts → All IsAnswered (keep (λ t. ltb 1 (length t)) ts)
unfolding keep
keep-IsAnswered [] all = tt
keep-IsAnswered (t ∷ ts) (thread, all) = elim (Bool-cases (ltb 1 (length t))) [
  | inl long ↦ rw long ((thread, ltb→lt 1 (length t) long), keep-IsAnswered ts all)
  | inr short ↦ rw short (keep-IsAnswered ts all)
]

-- Whatever the messages, threadsHighMem does not run out of a slice, and each thread that it returns
-- begins with a message that is no reply, goes on with replies, each to a message before it in the
-- same thread, and has one reply at least.
pub threads_high_mem-IsAnswered :
    (messages : List Message)
    → (threads : List Thread) × (threads_high_mem messages ≡ some threads) × All IsAnswered threads
unfolding threads_high_mem
threads_high_mem-IsAnswered messages =
    let (threads, found, all) =
      find_threads-IsThread (keep (λ m. m.type =ᵇ codes "message") messages) in
    (
      keep (λ t. ltb 1 (length t)) threads,
      rw (found, threads_high_mem) refl,
      keep-IsAnswered threads all,
    )
