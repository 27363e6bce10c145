-- ===== src/Telegram/Threads/Starts.antt =====
-- Which messages start the threads of findThreads of app/telegramsearch.
use issue.Base.{
  ◌≡◌, refl, ◌∙◌, sym, ap, subst, inl, inr, ℕ, zero, suc, ◌+◌, List, [], ◌∷◌, ◌++◌, append_assoc,
  append-nil, Option, none, some, get_elem?, Bool-cases,
}
use issue.Telegram.Threads.{
  Message, Thread, Found, place_of, append_at, is_start, put, answer, add_message, add_messages,
  nothing_found, find_threads, keep,
}
use issue.Telegram.Threads.Placing.{IsThread, alone, replied}
use issue.Telegram.Threads.Shape.{
  IsFound, All-get, place_of-Placed, append_at-last, add_message-Goes, nothing_found-IsFound,
}

-- The first messages of the threads, in their order.
abbrev pub starts : List Thread → List Message
starts [] = []
starts ([] ∷ ts) = starts ts
starts ((m ∷ t) ∷ ts) = m ∷ starts ts

IsThread-begins : (t : Thread) → IsThread t → (m : Message) × (u : Thread) × (t ≡ m ∷ u)
IsThread-begins t (alone m h) = (m, [], refl)
IsThread-begins t (replied u m thread h has) =
    let (n, v, e) = IsThread-begins u thread in (n, v ++ m ∷ [], ap (λ w. w ++ m ∷ []) e)

starts-append :
    (ts : List Thread) (v : Message) → starts (ts ++ (v ∷ []) ∷ []) ≡ starts ts ++ v ∷ []
starts-append [] v = refl
starts-append ([] ∷ ts) v = starts-append ts v
starts-append ((m ∷ t) ∷ ts) v = ap (λ ms. m ∷ ms) (starts-append ts v)

starts-put :
    (s : Thread) (v m : Message) (u : Thread) (ts : List Thread)
    → s ≡ m ∷ u
    → starts ((s ++ v ∷ []) ∷ ts) ≡ starts (s ∷ ts)
starts-put s v m u ts e = subst (λ t. starts ((t ++ v ∷ []) ∷ ts) ≡ starts (t ∷ ts)) (sym e) refl

starts-tail :
    (s : Thread) (ts us : List Thread) → starts us ≡ starts ts → starts (s ∷ us) ≡ starts (s ∷ ts)
starts-tail [] ts us h = h
starts-tail (m ∷ s) ts us h = ap (λ ms. m ∷ ms) h

append_at-starts :
    (place : ℕ) (v m : Message) (u : Thread) (ts us : List Thread)
    → append_at place v ts ≡ some us
    → get_elem? ts place ≡ some (m ∷ u)
    → starts us ≡ starts ts
unfolding append_at
append_at-starts place v m u [] us done found = absurd (cc found)
append_at-starts zero v m u (s ∷ ts) us done found =
    let same : (s ++ v ∷ []) ∷ ts ≡ us = cc done in
    let first : s ≡ m ∷ u = cc found in sym (ap starts same) ∙ starts-put s v m u ts first
append_at-starts (suc place) v m u (s ∷ ts) us done found =
    later (append_at place v ts) refl done λ rest e. append_at-starts place v m u ts rest e found
  where
    later :
        (o : Option (List Thread))
        → append_at place v ts ≡ o
        → (elim o [ none ↦ none | some rest ↦ some (s ∷ rest) ]) ≡ some us
        → ((rest : List Thread) → append_at place v ts ≡ some rest → starts rest ≡ starts ts)
        → starts us ≡ starts (s ∷ ts)
    later none e h known = absurd (cc h)
    later (some rest) e h known =
        let same : s ∷ rest ≡ us = cc h in
        sym (ap starts same) ∙ starts-tail s ts rest (known rest e)

put-threads :
    (next place : ℕ) (v : Message) (places : List (ℕ × ℕ)) (o : Option (List Thread)) {s' : Found}
    → put next place v places o ≡ some s'
    → o ≡ some s'.threads
unfolding put
put-threads next place v places none h = absurd (cc h)
put-threads next place v places (some threads) {s'} h =
    let same : record { threads = threads; thread_idx = next; places = (v.id, place) ∷ places }
        ≡ s' =
      cc h in
    ap (λ s. some s.threads) same

module _ (s s' : Found) (v : Message) (ok : IsFound s) where
  answer-starts :
      (place : Option ℕ)
      → place_of v.reply s.places ≡ place
      → answer s v place ≡ some s'
      → starts s'.threads ≡ starts s.threads
  unfolding answer
  answer-starts none found h = let same : s ≡ s' = cc h in sym (ap (λ t. starts t.threads) same)
  answer-starts (some place) found h =
      let (t, there, has) = place_of-Placed s.threads v.reply s.places ok.placed found in
      let (m, u, e) = IsThread-begins t (All-get IsThread s.threads place ok.threads_ok there) in
      append_at-starts place v m u s.threads s'.threads
        (put-threads s.thread_idx place v s.places (append_at place v s.threads) h)
        (there ∙ ap (λ t. some t) e)

  start-starts :
      put
          (s.thread_idx + 1)
          s.thread_idx
          v
          s.places
          (append_at s.thread_idx v (s.threads ++ [] ∷ []))
        ≡ some s'
      → starts s'.threads ≡ starts s.threads ++ v ∷ []
  start-starts h =
      let threads =
        put-threads (s.thread_idx + 1) s.thread_idx v s.places
          (append_at s.thread_idx v (s.threads ++ [] ∷ [])) h in
      let made : append_at s.thread_idx v (s.threads ++ [] ∷ [])
          ≡ some (s.threads ++ (v ∷ []) ∷ []) =
        ap (λ i. append_at i v (s.threads ++ [] ∷ [])) ok.next ∙ append_at-last v s.threads in
      let same : s'.threads ≡ s.threads ++ (v ∷ []) ∷ [] = some_eq (sym threads ∙ made) in
      ap starts same ∙ starts-append s.threads v
    where
      some_eq : {a b : List Thread} → some a ≡ some b → a ≡ b
      some_eq e = cc e

  add_message-starts :
      add_message s v ≡ some s' → starts s'.threads ≡ starts s.threads ++ keep is_start (v ∷ [])
  unfolding add_message keep
  add_message-starts h = elim (Bool-cases (is_start v)) [
    | inl begins ↦ rw begins (start-starts (rw begins at h))
    | inr reply ↦ rw reply (
        answer-starts (place_of v.reply s.places) refl (rw reply at h)
        ∙ sym (append-nil (starts s.threads)))
  ]

keep-cons :
    (v : Message) (input : List Message)
    → keep is_start (v ∷ input) ≡ keep is_start (v ∷ []) ++ keep is_start input
unfolding keep
keep-cons v input = elim (Bool-cases (is_start v)) [
  | inl begins ↦ rw begins refl
  | inr reply ↦ rw reply refl
]

add_messages-starts :
    (s : Found) (input : List Message)
    → IsFound s
    → (s' : Found) × (add_messages s input ≡ some s')
      × (starts s'.threads ≡ starts s.threads ++ keep is_start input)
unfolding add_messages keep
add_messages-starts s [] ok = (s, refl, sym (append-nil (starts s.threads)))
add_messages-starts s (v ∷ input) ok =
    let (s1, added, ok1) = add_message-Goes s v ok in
    let (s2, done, known) = add_messages-starts s1 input ok1 in
    (
      s2,
      rw (added, add_messages) done,
      known
          ∙ ap (λ ms. ms ++ keep is_start input) (add_message-starts s s1 v ok added)
          ∙ append_assoc (starts s.threads) (keep is_start (v ∷ [])) (keep is_start input)
          ∙ ap (λ ms. starts s.threads ++ ms) (sym (keep-cons v input)),
    )

-- Whatever the messages, findThreads does not run out of a slice, and the threads that it finds begin
-- with the messages that are no replies, one thread for each, in the order of the messages.
pub find_threads-starts :
    (input : List Message)
    → (threads : List Thread) × (find_threads input ≡ some threads)
      × (starts threads ≡ keep is_start input)
unfolding find_threads
find_threads-starts input =
    let (s, found, known) = add_messages-starts nothing_found input nothing_found-IsFound in
    (s.threads, rw (found, find_threads) refl, known)
