-- ===== src/Telegram/Threads.antt =====
-- The threads of a chat history: app/telegramsearch/internal/pkg/controllers/controllerv1/
-- story_dump_chat_history.go. An int64 is known by its bits, since it is only compared.
pub mod Placing
pub mod Shape
pub mod Starts
use issue.Base.{
  ℕ, zero, suc, ◌+◌, Bool, true, false, List, [], ◌∷◌, ◌++◌, map, Bytes, codes, Option, none, some,
  ◌==◌, ◌=ᵇ◌, ltb, length, join, if◌then◌else◌,
}

-- serializedChatMessage, with the text of its entities.
pub record Message : Type 0 where
  pub id : ℕ
  pub type : Bytes
  pub date_unix : Bytes
  pub from_id : Bytes
  pub text_entities : List Bytes
  pub reply : ℕ

abbrev pub Thread : Type 0
Thread = List Message

-- getText
unfoldable pub get_text : Message → Bytes
unfolding join
get_text m = join m.text_entities (codes " ")

-- thread.ForEmbedding
unfoldable pub for_embedding : Thread → Bytes
unfolding get_text join
for_embedding t = join (map get_text t) (codes "\n\n")

-- The variables of findThreads: `r`, `threadIdx` and `mapMsgToThreadIdx`, the newest entry first.
pub record Found : Type 0 where
  pub threads : List Thread
  pub thread_idx : ℕ
  pub places : List (ℕ × ℕ)

unfoldable pub place_of : ℕ → List (ℕ × ℕ) → Option ℕ
place_of id [] = none
place_of id ((j, place) ∷ places) = if j == id then some place else place_of id places

-- r[place] = append(r[place], v); none is an index out of range.
unfoldable pub append_at : ℕ → Message → List Thread → Option (List Thread)
append_at place v [] = none
append_at zero v (t ∷ ts) = some ((t ++ v ∷ []) ∷ ts)
append_at (suc place) v (t ∷ ts) = elim (append_at place v ts) [
  | none ↦ none
  | some rest ↦ some (t ∷ rest)
]

-- A message that starts a thread.
unfoldable pub is_start : Message → Bool
is_start v = v.reply == 0

unfoldable pub put : ℕ → ℕ → Message → List (ℕ × ℕ) → Option (List Thread) → Option Found
put next place v places none = none
put next place v places (some threads) =
    some (record { threads = threads; thread_idx = next; places = (v.id, place) ∷ places })

-- The reply to a message with a place, or to one without.
unfoldable pub answer : Found → Message → Option ℕ → Option Found
unfolding append_at put
answer s v none = some s
answer s v (some place) = put s.thread_idx place v s.places (append_at place v s.threads)

-- One round of the loop.
unfoldable pub add_message : Found → Message → Option Found
unfolding is_start append_at place_of put answer
add_message s v =
    if is_start v
    then put (s.thread_idx + 1) s.thread_idx v s.places
        (append_at s.thread_idx v (s.threads ++ [] ∷ []))
    else answer s v (place_of v.reply s.places)

unfoldable pub add_messages : Found → List Message → Option Found
unfolding add_message
add_messages s [] = some s
add_messages s (v ∷ input) = elim (add_message s v) [
  | none ↦ none
  | some s' ↦ add_messages s' input
]

abbrev pub nothing_found : Found
nothing_found = record { threads = []; thread_idx = 0; places = [] }

-- findThreads
unfoldable pub find_threads : List Message → Option (List Thread)
unfolding add_messages
find_threads input = elim (add_messages nothing_found input) [
  | none ↦ none
  | some s ↦ some s.threads
]

unfoldable pub keep {ℓ} : {A : Type ℓ} → (A → Bool) → List A → List A
keep p [] = []
keep p (a ∷ others) = let rest = keep p others in if p a then a ∷ rest else rest

-- threadsHighMem, of the messages that the history is parsed to.
unfoldable pub threads_high_mem : List Message → Option (List Thread)
unfolding find_threads keep
threads_high_mem messages = elim (find_threads (keep (λ m. m.type =ᵇ codes "message") messages)) [
  | none ↦ none
  | some threads ↦ some (keep (λ t. ltb 1 (length t)) threads)
]
