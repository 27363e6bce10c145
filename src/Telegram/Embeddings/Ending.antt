-- ===== src/Telegram/Embeddings/Ending.antt =====
-- GenerateEmbeddings of app/telegramsearch ends if every thread can be embedded.
use issue.Base.{
  ◌++◌, ◌∙◌, append-nil, append_assoc, Option-cases, ◌⊎◌, ◌≡◌, refl, sym, ap, subst, inl, inr, ◌<◌,
  ◌≤◌, ℕ, zero, suc, Bool, true, false, ◌||◌, List, [], ◌∷◌, Bytes, Option, none, some, ◌==◌, ltb,
  length, take, All, Result, ok, fail, Bool-cases, arith,
}
use issue.Errors.Fault.{Fault}
use issue.Telegram.Threads.{Thread, for_embedding, keep}
use issue.Telegram.Embeddings.{
  ChatThread, Storage, Embedding, capacity, Services, Pooled, new_pool, collect, execute, written,
  counted, is_in_keys, is_pending, selected, fetch_chat_threads, upsert_embedding, store_first,
  embed_thread, process, process_all, wait, wait_errors, round, generate_embeddings,
}

abbrev pub pending : List ℕ → List ChatThread → List ChatThread
pending keys rows = keep (is_pending keys) rows

-- Every thread is in the table of embeddings.
abbrev pub AllDone : Storage → Type 0
AllDone s = pending s.embeddings s.chatthreads ≡ []

List-cases :
    (rows : List ChatThread)
    → (rows ≡ []) ⊎ ((row : ChatThread) × (others : List ChatThread) × (rows ≡ row ∷ others))
List-cases [] = inl refl
List-cases (row ∷ others) = inr (row, others, refl)

-- The keys that are there stay.
abbrev Stays : List ℕ → List ℕ → Type 0
Stays keys keys' = (id : ℕ) → is_in_keys id keys ≡ true → is_in_keys id keys' ≡ true

heads_eq :
    {row first : ChatThread} {rows others : List ChatThread}
    → row ∷ rows ≡ first ∷ others
    → row ≡ first
heads_eq h = cc h

module _ (keys keys' : List ℕ) (stays : Stays keys keys') where
  done_stays : (row : ChatThread) → is_pending keys row ≡ false → is_pending keys' row ≡ false
  unfolding is_pending
  done_stays row h = ground (arith, stays row.thread_id)

  no_longer :
      (row : ChatThread) → is_in_keys row.thread_id keys' ≡ true → is_pending keys' row ≡ false
  unfolding is_pending
  no_longer row h = rw h refl

  pending-le : (rows : List ChatThread) → length (pending keys' rows) ≤ length (pending keys rows)
  unfolding keep
  pending-le [] = omega arith
  pending-le (row ∷ rows) = elim (Bool-cases (is_pending keys row)) [
    | inr done ↦ rw (done, done_stays row done) (pending-le rows)
    | inl here ↦ rw here (elim (Bool-cases (is_pending keys' row)) [
      | inl still ↦ rw still (omega (arith, pending-le rows))
      | inr done ↦ rw done (omega (arith, pending-le rows))
    ])
  ]

  pending-lt :
      (rows others : List ChatThread) (first : ChatThread)
      → pending keys rows ≡ first ∷ others
      → is_in_keys first.thread_id keys' ≡ true
      → length (pending keys' rows) < length (pending keys rows)
  unfolding keep
  pending-lt [] others first h done = absurd (cc h)
  pending-lt (row ∷ rows) others first h done = elim (Bool-cases (is_pending keys row)) [
    | inr over ↦ rw (over, done_stays row over) (pending-lt rows others first (rw over at h) done)
    | inl here ↦
        let same : row ≡ first = heads_eq (rw here at h) in
        let over =
          no_longer row (subst (λ r. is_in_keys r.thread_id keys' ≡ true) (sym same) done) in
        rw (here, over) (omega (arith, pending-le rows))
  ]

-- The keys once the rows are done.
abbrev marked : List ChatThread → List ℕ → List ℕ
marked [] keys = keys
marked (row ∷ rows) keys = marked rows (row.thread_id ∷ keys)

Stays-cons : (id : ℕ) (keys : List ℕ) → Stays keys (id ∷ keys)
unfolding is_in_keys
Stays-cons id keys j h = rw h (either (id == j))
  where
    either : (b : Bool) → (b || true) ≡ true
    either true = refl
    either false = refl

Stays-marked : (rows : List ChatThread) (keys : List ℕ) → Stays keys (marked rows keys)
Stays-marked [] keys id h = h
Stays-marked (row ∷ rows) keys id h =
    Stays-marked rows (row.thread_id ∷ keys) id (Stays-cons row.thread_id keys id h)

found-cons : (id : ℕ) (keys : List ℕ) → is_in_keys id (id ∷ keys) ≡ true
unfolding is_in_keys
found-cons id keys = ground arith

first-marked :
    (row : ChatThread) (rows : List ChatThread) (keys : List ℕ)
    → is_in_keys row.thread_id (marked (row ∷ rows) keys) ≡ true
first-marked row rows keys =
    Stays-marked rows (row.thread_id ∷ keys) row.thread_id (found-cons row.thread_id keys)

All-keep :
    (P : ChatThread → Type 0) (p : ChatThread → Bool) (rows : List ChatThread)
    → All P rows
    → All P (keep p rows)
unfolding keep
All-keep P p [] h = tt
All-keep P p (row ∷ rows) (here, h) = elim (Bool-cases (p row)) [
  | inl kept ↦ rw kept (here, All-keep P p rows h)
  | inr dropped ↦ rw dropped (All-keep P p rows h)
]

All-take :
    (P : ChatThread → Type 0) (n : ℕ) (rows : List ChatThread) → All P rows → All P (take n rows)
All-take P zero rows h = tt
All-take P (suc n) [] h = tt
All-take P (suc n) (row ∷ rows) (here, h) = (here, All-take P n rows h)

module _ (services : Services) where
  -- The row can be read, and the service returns an embedding with room enough.
  abbrev pub IsEmbeddable : ChatThread → Type 0
  IsEmbeddable row =
      (t : Thread) × (message : Bytes) × (embedding : Embedding) × (others : List Embedding)
      × (services.unmarshal row.body ≡ ok t)
      × (2 ≤ length t)
      × (services.for_showing_to_the_user t row.chat_id ≡ ok message)
      × ((services.create_embeddings (for_embedding t)).0 ≡ embedding ∷ others)
      × (2000 ≤ capacity embedding)

  abbrev pub IsStatementError : Fault → Type 0
  IsStatementError err = (n : ℕ) × (services.statement_error n ≡ some err)

  -- The error is that of a statement that failed, or what the pool makes of such errors.
  abbrev pub IsFailed : Result Fault Storage → Type 0
  IsFailed result =
      ((err : Fault) × IsStatementError err × (result ≡ fail err))
      ⊎ ((err : Fault) × (errors : List Fault) × All IsStatementError (err ∷ errors)
          × (result ≡ fail (services.pool_error err errors)))

  process-written :
      (row : ChatThread) (s : Storage)
      → IsEmbeddable row
      → process services row s ≡ written (services.statement_error s.statements) row.thread_id s
  unfolding process embed_thread store_first upsert_embedding
  process-written row s (t, message, embedding, others, parsed, long, shown, made, enough) =
      let answered : ltb (length t) 2 ≡ false = ground arith in
      let fits : ltb (capacity embedding) 2000 ≡ false = ground arith in
      rw (parsed, answered, shown, made) (rw fits refl)

  -- All keys are there, after some number of statements, or there is an error.
  abbrev IsMarked : Storage → List ℕ → Storage → List Fault → Type 0
  IsMarked s keys s' errors =
      ((errors ≡ []) × (n : ℕ) × (s' ≡ record s { embeddings = keys; statements = n }))
      ⊎ ((err : Fault) × (others : List Fault) × (errors ≡ err ∷ others))

  -- What the functions of the rows leave of a pool.
  abbrev Processed : List ChatThread → Pooled → Pooled → Type 0
  Processed rows p end =
      (s' : Storage) × (errors : List Fault) × (end
        ≡ record p { storage = s'; errors = p.errors ++ errors })
      × All IsStatementError errors
      × IsMarked p.storage (marked rows p.storage.embeddings) s' errors

  process_all-Processed :
      (rows : List ChatThread) (p : Pooled)
      → All IsEmbeddable rows
      → Processed rows p (process_all services rows p)
  unfolding process_all
  process_all-Processed [] p h = (
    p.storage,
    [],
    ap (λ errors. record p { errors = errors }) (sym (append-nil p.errors)),
    tt,
    inl (refl, p.storage.statements, refl),
  )
  process_all-Processed (row ∷ rows) p (here, h) =
      elim (Option-cases (services.statement_error p.storage.statements)) [
        | inl fine ↦
            let s = record (counted p.storage) {
              embeddings = row.thread_id ∷ p.storage.embeddings;
            } in
            let step : collect p (process services row p.storage) ≡ record p { storage = s } =
              ap (λ end. collect p end) (process-written row p.storage here)
              ∙ unfold written in unfold collect in rw fine refl in
            rw step (process_all-Processed rows (record p { storage = s }) h)
        | inr (err, failed) ↦
            let p' = record p { storage = counted p.storage; errors = p.errors ++ err ∷ [] } in
            let step : collect p (process services row p.storage) ≡ p' =
              ap (λ end. collect p end) (process-written row p.storage here)
              ∙ unfold written in unfold collect in rw failed refl in
            let (s', errors, ended, all, marks) = process_all-Processed rows p' h in
            (
              s',
              err ∷ errors,
              rw step (
                  ended
                  ∙ ap (λ e. record p { storage = s'; errors = e })
                      (append_assoc p.errors (err ∷ []) errors)),
              ((p.storage.statements, failed), all),
              inr (err, errors, refl),
            )
      ]

  -- How the pool of a round ends.
  waited :
      (s : Storage) (rows : List ChatThread) (end : Pooled)
      → Processed rows (new_pool s) end
      → ((n : ℕ) × (wait services end
            ≡ ok (record s { embeddings = marked rows s.embeddings; statements = n })))
        ⊎ IsFailed (wait services end)
  unfolding wait wait_errors
  waited s rows end (s', errors, ended, all, inl (nothing, n, e)) =
      inl (n, rw (ended, nothing) (ap (λ t. ok t) e))
  waited s rows end (s', errors, ended, all, inr (err, others, e)) =
      inr (inr (err, others, subst (All IsStatementError) e all, rw (ended, e) refl))

  -- One fetch and what is done with its rows.
  abbrev next_round : Storage → Option (Result Fault Storage)
  next_round s = round services (fetch_chat_threads services s).1 (fetch_chat_threads services s).0

  -- The loop ends, or goes on with fewer threads to do.
  abbrev IsNext : Storage → Option (Result Fault Storage) → Type 0
  IsNext s step =
      ((step ≡ none) × ((fetch_chat_threads services s).0 ≡ counted s) × AllDone (counted s))
      ⊎ (((s' : Storage) × (step ≡ some (ok s'))
            × (s'.chatthreads ≡ s.chatthreads)
            × (length (pending s'.embeddings s'.chatthreads)
                < length (pending s.embeddings s.chatthreads)))
          ⊎ ((result : Result Fault Storage) × (step ≡ some result) × IsFailed result))

  rows-IsNext :
      (s : Storage) (rows : List ChatThread)
      → All IsEmbeddable s.chatthreads
      → pending s.embeddings s.chatthreads ≡ rows
      → (fetch_chat_threads services s).0 ≡ counted s
      → IsNext s (round services (ok (take 2000 rows)) (counted s))
  unfolding round
  rows-IsNext s [] all e fetched = inl (refl, fetched, e)
  rows-IsNext s (row ∷ others) all e fetched =
      let rows = take 1999 others in
      let embeddable : All IsEmbeddable (row ∷ rows) =
        subst (λ found. All IsEmbeddable (take 2000 found)) e
          (All-take IsEmbeddable 2000 (pending s.embeddings s.chatthreads)
            (All-keep IsEmbeddable (is_pending s.embeddings) s.chatthreads all)) in
      let keys = marked (row ∷ rows) s.embeddings in
      elim (waited (counted s) (row ∷ rows)
        (process_all services (row ∷ rows) (new_pool (counted s)))
        (process_all-Processed (row ∷ rows) (new_pool (counted s)) embeddable)) [
          | inl (n, ran) ↦ inr (
              inl (
                record s { embeddings = keys; statements = n },
                ap (λ result. some result) ran,
                refl,
                pending-lt s.embeddings keys (Stays-marked (row ∷ rows) s.embeddings) s.chatthreads
                    others row e (first-marked row rows s.embeddings),
              ))
          | inr failed ↦ inr (
              inr (
                wait services (process_all services (row ∷ rows) (new_pool (counted s))),
                refl,
                failed,
              ))
        ]

  next_round-IsNext : (s : Storage) → All IsEmbeddable s.chatthreads → IsNext s (next_round s)
  unfolding fetch_chat_threads selected round execute
  next_round-IsNext s all = elim (Option-cases (services.statement_error s.statements)) [
    | inl fine ↦ rw fine (rows-IsNext s (pending s.embeddings s.chatthreads) all refl refl)
    | inr (err, failed) ↦
        rw failed (inr (inr (fail err, refl, inl (err, (s.statements, failed), refl))))
  ]

  -- GenerateEmbeddings ended, with the same threads, all of which are done, or as a statement failed.
  abbrev pub Ended : List ChatThread → Option (Result Fault Storage) → Type 0
  Ended rows outcome =
      ((s' : Storage) × (outcome ≡ some (ok s')) × (s'.chatthreads ≡ rows) × AllDone s')
      ⊎ ((result : Result Fault Storage) × (outcome ≡ some result) × IsFailed result)

  -- If every stored thread has answers and can be shown, and the service returns an embedding with
  -- room for 2000 numbers or more for it, GenerateEmbeddings ends, after as many rounds as there are
  -- threads to do and one more at most: without an error, and then every thread is in the table of
  -- embeddings, or with the error of a statement that failed, or what the pool makes of such errors.
  pub generate_embeddings-AllDone :
      (fuel : ℕ) (s : Storage)
      → All IsEmbeddable s.chatthreads
      → length (pending s.embeddings s.chatthreads) < fuel
      → Ended s.chatthreads (generate_embeddings services fuel s)
  unfolding generate_embeddings
  generate_embeddings-AllDone zero s all enough = elim enough [ ]
  generate_embeddings-AllDone (suc fuel) s all enough = elim (next_round-IsNext s all) [
    | inl (over, fetched, done) ↦
        inl
          (counted s, rw (over, generate_embeddings) (ap (λ s'. some (ok s')) fetched), refl, done)
    | inr (inl (s', ran, same, less)) ↦
        let rest =
          generate_embeddings-AllDone fuel s' (subst (λ rows. All IsEmbeddable rows) (sym same) all)
            (omega (arith, enough, less)) in
        rw (ran, generate_embeddings)
          (subst (λ rows. Ended rows (generate_embeddings services fuel s')) same rest)
    | inr (inr (result, ran, inl (err, cause, e))) ↦
        inr (fail err, rw (ran, e, generate_embeddings) refl, inl (err, cause, refl))
    | inr (inr (result, ran, inr (err, errors, causes, e))) ↦ inr (
      fail (services.pool_error err errors),
      rw (ran, e, generate_embeddings) refl,
      inr (err, errors, causes, refl),
    )
  ]
