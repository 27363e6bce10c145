-- ===== src/Telegram/Embeddings/Failing.antt =====
-- GenerateEmbeddings of app/telegramsearch while the service of OpenAI fails.
use issue.Base.{
  ◌≡◌, refl, ◌∙◌, ap, ◌≢◌, ◌≤◌, ℕ, zero, suc, false, List, [], ◌∷◌, Bytes, none, some, ltb, length,
  All, ok, arith,
}
use issue.Telegram.Threads.{Thread, for_embedding}
use issue.Telegram.Embeddings.{
  ChatThread, Storage, Services, Pooled, new_pool, collect, selected, counted, fetch_chat_threads,
  fetch_chat_threads-selected, store_first, embed_thread, process, process_all, wait, wait_errors,
  round, generate_embeddings,
}

module _ (services : Services) where
  -- The row holds a thread with answers that can be shown.
  abbrev pub IsReadable : ChatThread → Type 0
  IsReadable row =
      (t : Thread) × (message : Bytes) × (services.unmarshal row.body ≡ ok t)
      × (2 ≤ length t)
      × (services.for_showing_to_the_user t row.chat_id ≡ ok message)

  module _ (failing : (text : Bytes) → (services.create_embeddings text).0 ≡ []) where
    process-unchanged :
        (row : ChatThread) (s : Storage) → IsReadable row → process services row s ≡ (s, ok tt)
    unfolding process embed_thread store_first
    process-unchanged row s (t, message, parsed, long, shown) =
        let answered : ltb (length t) 2 ≡ false = ground arith in
        rw (parsed, answered, shown, failing (for_embedding t)) refl

    process_all-unchanged :
        (rows : List ChatThread) (p : Pooled)
        → All IsReadable rows
        → process_all services rows p ≡ p
    unfolding process_all collect
    process_all-unchanged [] p h = refl
    process_all-unchanged (row ∷ rows) p (readable, h) =
        ap (λ end. process_all services rows (collect p end))
          (process-unchanged row p.storage readable)
        ∙ process_all-unchanged rows p h

    round-unchanged :
        (rows : List ChatThread) (s : Storage)
        → All IsReadable rows
        → rows ≢ []
        → round services (ok rows) s ≡ some (ok s)
    unfolding round wait wait_errors
    round-unchanged [] s h some_rows = absurd (some_rows refl)
    round-unchanged (row ∷ rows) s h some_rows =
        ap (λ p. some (wait services p)) (process_all-unchanged (row ∷ rows) (new_pool s) h)

    -- While the service returns no embeddings, as it does whenever it fails, and no statement fails,
    -- GenerateEmbeddings does not end, whatever the number of its rounds, if there is a thread to do
    -- and all that are fetched can be read: the error of the service is overwritten, and the same
    -- threads are fetched again.
    pub generate_embeddings-endless :
        (s : Storage)
        → ((n : ℕ) → services.statement_error n ≡ none)
        → selected s ≢ []
        → All IsReadable (selected s)
        → (fuel : ℕ) → generate_embeddings services fuel s ≡ none
    unfolding generate_embeddings
    generate_embeddings-endless s answers some_rows readable zero = refl
    generate_embeddings-endless s answers some_rows readable (suc fuel) =
        let ran : round services (fetch_chat_threads services s).1 (fetch_chat_threads services s).0
            ≡ some (ok (counted s)) =
          ap (λ f. round services f.1 f.0)
            (fetch_chat_threads-selected services s (answers s.statements))
          ∙ round-unchanged (selected s) (counted s) readable some_rows in
        rw (ran, generate_embeddings)
          (generate_embeddings-endless (counted s) answers some_rows readable fuel)
