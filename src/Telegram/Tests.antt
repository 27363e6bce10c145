-- ===== src/Telegram/Tests.antt =====
-- The theorems on app/telegramsearch at a small history and a small table.
use issue.Base.{
  ◌≡◌, ◌≢◌, refl, ap, ◌≤◌, ◌<◌, ℕ, zero, suc, List, [], ◌∷◌, codes, none, some, length, replicate,
  All, ok, arith, Option, if◌then◌else◌, ◌==◌, length-append,
}
use issue.Errors.Fault.{Fault, own, must_stop}
use issue.Telegram.Threads.{Message, Thread, find_threads, threads_high_mem, is_start, keep}
use issue.Telegram.Threads.Shape.{IsAnswered, threads_high_mem-IsAnswered}
use issue.Telegram.Threads.Starts.{starts, find_threads-starts}
use issue.Telegram.Embeddings.{
  ChatThread, Storage, Embedding, capacity, Services, is_pending, selected, generate_embeddings,
}
use issue.Telegram.Embeddings.Failing.{IsReadable, generate_embeddings-endless}
use issue.Telegram.Embeddings.Ending.{pending, Ended, generate_embeddings-AllDone}

abbrev message : ℕ → ℕ → Message
message id reply = record {
  id = id;
  type = codes "message";
  date_unix = codes "1700000000";
  from_id = codes "user1";
  text_entities = codes "text" ∷ [];
  reply = reply;
}

-- A question with an answer and an answer to that, one without, and a reply to a deleted message.
abbrev history : List Message
history = message 1 0 ∷ message 2 0 ∷ message 3 1 ∷ message 4 9 ∷ message 5 3 ∷ []

abbrev dialog : Thread
dialog = message 1 0 ∷ message 3 1 ∷ message 5 3 ∷ []

find_threads_run : find_threads history ≡ some (dialog ∷ (message 2 0 ∷ []) ∷ [])
unfolding find_threads
find_threads_run = refl

threads_high_mem-IsAnswered_example :
    (threads : List Thread) × (threads_high_mem history ≡ some threads) × All IsAnswered threads
threads_high_mem-IsAnswered_example = threads_high_mem-IsAnswered history

find_threads-starts_example :
    (threads : List Thread) × (find_threads history ≡ some threads)
    × (starts threads ≡ keep is_start history)
find_threads-starts_example = find_threads-starts history

-- The service fails, or returns an embedding of zeros; the statements have the errors.
abbrev services : List Embedding → (ℕ → Option Fault) → Services
services made errors = record {
  unmarshal = λ body. ok dialog;
  for_showing_to_the_user = λ t chat_id. ok (codes "shown");
  create_embeddings = λ text. (made, none);
  statement_error = errors;
  pool_error = λ err errs. err;
}

abbrev never : ℕ → Option Fault
never n = none

abbrev row : ChatThread
row = record { chat_id = codes "chat"; thread_id = 7; body = codes "[]" }

abbrev storage : Storage
storage = record { chatthreads = row ∷ []; embeddings = []; statements = 0 }

selected_one : selected storage ≡ row ∷ []
unfolding selected
selected_one = refl

selected_some : selected storage ≢ []
unfolding selected
selected_some h = cc h

dialog_long : 2 ≤ length dialog
dialog_long = omega arith

selected-IsReadable : All (IsReadable (services [] never)) (selected storage)
unfolding selected
selected-IsReadable = ((dialog, codes "shown", refl, dialog_long, refl), tt)

generate_embeddings-endless_example : generate_embeddings (services [] never) 5 storage ≡ none
generate_embeddings-endless_example =
    generate_embeddings-endless (services [] never) (λ text. refl) storage (λ n. refl) selected_some
      selected-IsReadable 5

-- A slice of 1500 zeros in an array of 2048.
abbrev zeros : Embedding
zeros = record { numbers = replicate 1500 0; spare = replicate 548 0 }

length-replicate : (n : ℕ) → length {A = ℕ} (replicate n 0) ≡ n
length-replicate zero = refl
length-replicate (suc n) = ap suc (length-replicate n)

zeros_enough : 2000 ≤ capacity zeros
zeros_enough =
    omega
      (arith, length-append zeros.numbers zeros.spare, length-replicate 1500, length-replicate 548)

one_pending : length (pending [] (row ∷ [])) < 2
unfolding keep is_pending
one_pending = omega arith

-- The third statement fails, and no other.
abbrev third : ℕ → Option Fault
third n = if n == 2 then some (own must_stop) else none

generate_embeddings-AllDone_example :
    Ended
      (services (zeros ∷ []) third)
      (row ∷ [])
      (generate_embeddings (services (zeros ∷ []) third) 2 storage)
generate_embeddings-AllDone_example =
    generate_embeddings-AllDone (services (zeros ∷ []) third) 2 storage
      ((dialog, codes "shown", zeros, [], refl, dialog_long, refl, refl, zeros_enough), tt)
      one_pending
