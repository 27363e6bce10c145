-- ===== src/Telegram/Embeddings.antt =====
-- GenerateEmbeddings of app/telegramsearch/internal/pkg/controllers/controllerv1/
-- story_generate_embeddings.go, with the two statements of client/storage/postgres that it runs, each
-- of which may fail. The parsing of a stored thread, the text that is shown to the user, the service
-- of OpenAI and what the pool makes of errors are parameters. The threads of one round, which run at
-- the same time and each on a row of its own, are taken in the order of the rows.
pub mod Failing
pub mod Ending
use issue.Base.{
  ◌≡◌, refl, ℕ, zero, suc, ◌+◌, Bool, true, false, not, ◌||◌, List, [], ◌∷◌, ◌++◌, Bytes, codes,
  Option, none, some, ◌==◌, ltb, length, take, Result, ok, fail, panic, ◌>>=◌, if◌then◌else◌,
}
use issue.Errors.Fault.{Fault}
use issue.Telegram.Threads.{Thread, for_embedding, keep}

-- A row of chatthreads.
pub record ChatThread : Type 0 where
  pub chat_id : Bytes
  pub thread_id : ℕ
  pub body : Bytes

-- The table chatthreads, the keys of the table embeddings, and the number of statements so far.
pub record Storage : Type 0 where
  pub chatthreads : List ChatThread
  pub embeddings : List ℕ
  pub statements : ℕ

-- A slice of the numbers of an embedding, and what the array behind it holds up to its capacity.
pub record Embedding : Type 0 where
  pub numbers : List ℕ
  pub spare : List ℕ

abbrev pub capacity : Embedding → ℕ
capacity e = length (e.numbers ++ e.spare)

unfoldable pub is_in_keys : ℕ → List ℕ → Bool
is_in_keys id [] = false
is_in_keys id (j ∷ keys) = j == id || is_in_keys id keys

unfoldable pub is_pending : List ℕ → ChatThread → Bool
unfolding is_in_keys
is_pending embeddings row = not (is_in_keys row.thread_id embeddings)

-- The rows that the statement of FetchChatThreadToGenerateEmbedding selects.
unfoldable pub selected : Storage → List ChatThread
unfolding is_pending keep
selected s = take 2000 (keep (is_pending s.embeddings) s.chatthreads)

-- What the other parts do: json.Unmarshal of a body, ForShowingToTheUser, and CreateEmbeddings, which
-- returns no embeddings with an error; the error of each statement, by its number; and the error that
-- the pool makes of those of its functions, which are one at least.
pub record Services : Type 0 where
  pub unmarshal : Bytes → Result Fault Thread
  pub for_showing_to_the_user : Thread → Bytes → Result Fault Bytes
  pub create_embeddings : Bytes → List Embedding × Option Fault
  pub statement_error : ℕ → Option Fault
  pub pool_error : Fault → List Fault → Fault

-- A query is run: it answers, or fails.
unfoldable pub execute : Option Fault → List ChatThread → Result Fault (List ChatThread)
execute none rows = ok rows
execute (some err) rows = fail err

abbrev pub counted : Storage → Storage
counted s = record s { statements = s.statements + 1 }

-- The row of an embedding is written, or the statement fails and writes none.
unfoldable pub written : Option Fault → ℕ → Storage → Storage × Result Fault (Unit {0})
written none thread_id s = (record (counted s) { embeddings = thread_id ∷ s.embeddings }, ok tt)
written (some err) thread_id s = (counted s, fail err)

-- What follows a step that may fail and leaves the tables alone.
abbrev pub after {ℓ} :
    {A : Type ℓ}
    → Result Fault A
    → Storage
    → (A → Storage × Result Fault (Unit {0}))
    → Storage × Result Fault (Unit {0})
after (ok a) s next = next a
after (fail err) s next = (s, fail err)
after panic s next = (s, panic)

-- The pool of a round: the tables, the errors so far, and whether a function has panicked.
pub record Pooled : Type 0 where
  pub storage : Storage
  pub errors : List Fault
  pub panicked : Bool

abbrev pub new_pool : Storage → Pooled
new_pool s = record { storage = s; errors = []; panicked = false }

unfoldable pub collect : Pooled → Storage × Result Fault (Unit {0}) → Pooled
collect p (s, ok t) = record p { storage = s }
collect p (s, fail err) = record p { storage = s; errors = p.errors ++ err ∷ [] }
collect p (s, panic) = record p { storage = s; panicked = true }

module _ (services : Services) where
  -- FetchChatThreadToGenerateEmbedding
  unfoldable pub fetch_chat_threads : Storage → Storage × Result Fault (List ChatThread)
  unfolding execute selected
  fetch_chat_threads s = (counted s, execute (services.statement_error s.statements) (selected s))

  pub fetch_chat_threads-selected :
      (s : Storage)
      → services.statement_error s.statements ≡ none
      → fetch_chat_threads s ≡ (counted s, ok (selected s))
  unfolding fetch_chat_threads execute
  fetch_chat_threads-selected s answered = rw answered refl

  -- UpsertEmbedding: an embedding is cut to 2000 numbers, which its slice must have room for.
  unfoldable pub upsert_embedding : ℕ → Embedding → Storage → Storage × Result Fault (Unit {0})
  unfolding written
  upsert_embedding thread_id embedding s =
      if ltb (capacity embedding) 2000
      then (s, panic)
      else written (services.statement_error s.statements) thread_id s

  -- The first embedding, if there is one, is stored.
  unfoldable pub store_first : ℕ → List Embedding → Storage → Storage × Result Fault (Unit {0})
  unfolding upsert_embedding
  store_first thread_id [] s = (s, ok tt)
  store_first thread_id (embedding ∷ others) s = upsert_embedding thread_id embedding s

  -- What is done with a thread that has answers. The error of CreateEmbeddings is overwritten.
  unfoldable pub embed_thread : ChatThread → Thread → Storage → Storage × Result Fault (Unit {0})
  unfolding store_first for_embedding
  embed_thread row t s =
      after (services.for_showing_to_the_user t row.chat_id) s
        λ message. store_first row.thread_id (services.create_embeddings (for_embedding t)).0 s

  -- The function that is given to the pool.
  unfoldable pub process : ChatThread → Storage → Storage × Result Fault (Unit {0})
  unfolding embed_thread
  process row s =
      after (services.unmarshal row.body) s
        λ t. if ltb (length t) 2 then (s, ok tt) else embed_thread row t s

  -- All functions run, whether or not one of them fails.
  unfoldable pub process_all : List ChatThread → Pooled → Pooled
  unfolding process collect
  process_all [] p = p
  process_all (row ∷ rows) p = process_all rows (collect p (process row p.storage))

  unfoldable pub wait_errors : List Fault → Storage → Result Fault Storage
  wait_errors [] s = ok s
  wait_errors (err ∷ errors) s = fail (services.pool_error err errors)

  -- Wait, which passes a panic on.
  unfoldable pub wait : Pooled → Result Fault Storage
  unfolding wait_errors
  wait p = if p.panicked then panic else wait_errors p.errors p.storage

  -- The body of the loop behind the fetch: none if there is no more to do.
  unfoldable pub round : Result Fault (List ChatThread) → Storage → Option (Result Fault Storage)
  unfolding process_all wait
  round (fail err) s = some (fail err)
  round panic s = some panic
  round (ok []) s = none
  round (ok (row ∷ rows)) s = some (wait (process_all (row ∷ rows) (new_pool s)))

  -- GenerateEmbeddings, on fuel; none if the fuel runs out.
  unfoldable pub generate_embeddings : ℕ → Storage → Option (Result Fault Storage)
  unfolding round fetch_chat_threads
  generate_embeddings zero s = none
  generate_embeddings (suc fuel) s =
      elim (round (fetch_chat_threads s).1 (fetch_chat_threads s).0) [
        | none ↦ some (ok (fetch_chat_threads s).0)
        | some (ok s') ↦ generate_embeddings fuel s'
        | some (fail err) ↦ some (fail err)
        | some panic ↦ some panic
      ]
