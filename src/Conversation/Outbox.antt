-- ===== src/Conversation/Outbox.antt =====
-- conversation.rs: FileOutbox, the messages kept in a file until the service accepts them. Times are
-- milliseconds from the epoch on, so never negative.
pub mod Sound
pub mod Delivery
pub mod Retry
use zincha_sdk.Base.{
  ℕ, zero, suc, ◌+◌, ◌-◌, ◌*◌, ◌^◌, ◌≤◌, min, ◌≡◌, Bool, true, false, ◌&&◌, ◌||◌, Option, none,
  some, List, [], ◌∷◌, ◌++◌, ltb, leb, if◌then◌else◌, is_some, length, take, sat_add32, Eq, ◌==◌,
  nat_eq, list_eq, option_eq, Result, ok, err, ◌>>=◌, ◌>>◌, fail_if,
}
use zincha_sdk.Crypto.Bytes.{Bytes}
use zincha_sdk.Chars.{Chars}
use zincha_sdk.Conversation.{Uuid, MessagePayload, SubmitMessageRequest, request_same}

pub record QueuedMessage (V : Type 0) : Type 0 where
  pub conversation_id : Chars
  pub request : SubmitMessageRequest V
  pub attempts : ℕ
  pub next_attempt_ms : ℕ
  pub last_error : Option Chars

-- the limits of a FileOutbox; its path is the disk, its lock is held by each operation
pub record Limits : Type 0 where
  pub max_entries : ℕ
  pub max_bytes : ℕ

pub data OutboxError : Type 0 where
  zero_limit bound_to_other_content entry_limit byte_limit not_found undecodable io_error :
      OutboxError

-- FileOutbox::with_limits
unfoldable pub with_limits : ℕ → ℕ → Result OutboxError Limits
with_limits max_entries max_bytes = do
  fail_if (max_entries == 0 || max_bytes == 0) zero_limit
  ok (record { max_entries = max_entries; max_bytes = max_bytes })

-- FileOutbox::new
abbrev pub default_limits : Limits
default_limits = record { max_entries = 1000; max_bytes = 64 * 1024 * 1024 }

-- serde_json, a third-party serialiser, of the messages
pub record Codec (V : Type 0) : Type 0 where
  pub encode : List (QueuedMessage V) → Bytes
  pub decode : Bytes → Option (List (QueuedMessage V))
  pub decode-encode : (items : List (QueuedMessage V)) → decode (encode items) ≡ some items
  -- an array is no longer without one of its values
  pub encode-shorter :
      (xs : List (QueuedMessage V)) (x : QueuedMessage V) (ys : List (QueuedMessage V))
      → length (encode (xs ++ ys)) ≤ length (encode (xs ++ (x ∷ ys)))

-- What the file system does: all that is asked, or a failure before the temporary file takes the
-- outbox's place, or one after, of the directory's `sync_all`, or one of the read. It may not tell the
-- file's size either, where the rest works and where the file cannot be read.
pub data Io : Type 0 where
  works fails_to_read fails_before_rename fails_after_rename hides_size denies_access : Io

-- i64::MAX
abbrev pub i64_max : ℕ
i64_max = 2 ^ 63 - 1

-- The file, if it exists.
abbrev pub Disk : Type 0
Disk = Option Bytes

abbrev is_read_failure : Io → Bool
is_read_failure fails_to_read = true
is_read_failure denies_access = true
is_read_failure io = false

-- `fs::metadata` returns the size of a file that exists
abbrev tells_size : Io → Bool
tells_size hides_size = false
tells_size denies_access = false
tells_size io = true

-- `client.submit(..)`: what the service, in a state, becomes, and its answer: accepted, or the text of
-- an error
abbrev pub Submit : Type 0 → Type 0 → Type 0
Submit V N = N → Chars → SubmitMessageRequest V → N × Result Chars (Unit {0})

-- what a flush leaves: the file, the number of messages sent or the error, and the service
abbrev pub Flushed : Type 0 → Type 0
Flushed N = Disk × Result OutboxError ℕ × N

module _ {V : Type 0} (codec : Codec V) (limits : Limits) where
  -- the decoded file, within the entry limit
  abbrev pub checked_items :
      Option (List (QueuedMessage V)) → Result OutboxError (List (QueuedMessage V))
  checked_items none = err undecodable
  checked_items (some items) =
      if ltb limits.max_entries (length items) then err entry_limit else ok items

  unfoldable pub load_unlocked : Io → Disk → Result OutboxError (List (QueuedMessage V))
  load_unlocked io none = if is_read_failure io then err io_error else ok []
  load_unlocked io (some bytes) =
      if tells_size io && ltb limits.max_bytes (length bytes)
      then err byte_limit
      else if is_read_failure io
      then err io_error
      else checked_items (codec.decode bytes)

  -- the write to a temporary file that takes the outbox's place
  abbrev pub replace_file : Io → Disk → Bytes → Disk × Result OutboxError (Unit {0})
  replace_file works disk bytes = (some bytes, ok tt)
  replace_file hides_size disk bytes = (some bytes, ok tt)
  replace_file fails_after_rename disk bytes = (some bytes, err io_error)
  replace_file io disk bytes = (disk, err io_error)

  unfoldable pub store_unlocked :
      Io → Disk → List (QueuedMessage V) → Disk × Result OutboxError (Unit {0})
  store_unlocked io disk items =
      let bytes = codec.encode items in
      if ltb limits.max_entries (length items)
      then (disk, err entry_limit)
      else if ltb limits.max_bytes (length bytes)
      then (disk, err byte_limit)
      else replace_file io disk bytes

  -- `?` of what was loaded: an error leaves the disk as it is
  abbrev pub with_items :
      Disk
      → Result OutboxError (List (QueuedMessage V))
      → (List (QueuedMessage V) → Disk × Result OutboxError (Unit {0}))
      → Disk × Result OutboxError (Unit {0})
  with_items disk (err e) next = (disk, err e)
  with_items disk (ok items) next = next items

  -- `.iter().find(..)`, by the message ID
  unfoldable pub find_message : Uuid → List (QueuedMessage V) → Option (QueuedMessage V)
  find_message id [] = none
  find_message id (item ∷ items) =
      if item.request.message_id == id then some item else find_message id items

  -- `items.push(..)`
  abbrev pub push : List (QueuedMessage V) → QueuedMessage V → List (QueuedMessage V)
  push items item = items ++ (item ∷ [])

  -- a message that has not been tried
  abbrev pub fresh : Chars → SubmitMessageRequest V → ℕ → QueuedMessage V
  fresh conversation_id request now = record {
    conversation_id = conversation_id;
    request = request;
    attempts = 0;
    next_attempt_ms = now;
    last_error = none;
  }

  module _ ⦃e : Eq (MessagePayload V)⦄ where
    -- the body of `enqueue`, by the message that has the ID already
    abbrev pub enqueue_beside :
        Io
        → Disk
        → Chars
        → SubmitMessageRequest V
        → ℕ
        → List (QueuedMessage V)
        → Option (QueuedMessage V)
        → Disk × Result OutboxError (Unit {0})
    enqueue_beside io disk conversation_id request now items (some existing) =
        if existing.conversation_id == conversation_id && request_same existing.request request
        then (disk, ok tt)
        else (disk, err bound_to_other_content)
    enqueue_beside io disk conversation_id request now items none =
        if leb limits.max_entries (length items)
        then (disk, err entry_limit)
        else store_unlocked io disk (push items (fresh conversation_id request now))

    -- `now` is what `now_ms` returns
    unfoldable pub enqueue :
        Io → Disk → Chars → SubmitMessageRequest V → ℕ → Disk × Result OutboxError (Unit {0})
    unfolding load_unlocked store_unlocked find_message
    enqueue io disk conversation_id request now = with_items disk (load_unlocked io disk) (λ items.
        enqueue_beside io disk conversation_id request now items
          (find_message request.message_id items))

  -- the filter of `due`
  unfoldable pub due_items : ℕ → List (QueuedMessage V) → List (QueuedMessage V)
  due_items now [] = []
  due_items now (item ∷ items) =
      let rest = due_items now items in if leb item.next_attempt_ms now then item ∷ rest else rest

  unfoldable pub due : Io → Disk → ℕ → ℕ → Result OutboxError (List (QueuedMessage V))
  unfolding load_unlocked due_items
  due io disk now limit = do items ← load_unlocked io disk; ok (take limit (due_items now items))

  -- the `retain` of `mark_sent`
  unfoldable pub without : Uuid → List (QueuedMessage V) → List (QueuedMessage V)
  without id [] = []
  without id (item ∷ items) =
      let rest = without id items in if item.request.message_id == id then rest else item ∷ rest

  unfoldable pub mark_sent : Io → Disk → Uuid → Disk × Result OutboxError (Unit {0})
  unfolding load_unlocked store_unlocked without
  mark_sent io disk id =
      with_items disk (load_unlocked io disk) (λ items. store_unlocked io disk (without id items))

  -- the wait after a number of attempts
  unfoldable pub backoff : ℕ → ℕ
  backoff attempts = min (min (250 * 2 ^ min attempts 8) i64_max) 60000

  unfoldable pub retry_later : Chars → ℕ → QueuedMessage V → QueuedMessage V
  unfolding backoff
  retry_later error now item =
      let attempts = sat_add32 item.attempts 1 in
      record item {
        attempts = attempts;
        next_attempt_ms = min (now + backoff attempts) i64_max;
        last_error = some (take 1024 error);
      }

  -- `iter_mut().find(..)` and the update of what it finds
  unfoldable pub update_message :
      Uuid → (QueuedMessage V → QueuedMessage V) → List (QueuedMessage V) → List (QueuedMessage V)
  update_message id f [] = []
  update_message id f (item ∷ items) =
      let rest = update_message id f items in
      if item.request.message_id == id then f item ∷ items else item ∷ rest

  unfoldable pub mark_failed : Io → Disk → Uuid → Chars → ℕ → Disk × Result OutboxError (Unit {0})
  unfolding load_unlocked store_unlocked find_message update_message retry_later
  mark_failed io disk id error now = with_items disk (load_unlocked io disk) (λ items.
      if is_some (find_message id items)
      then store_unlocked io disk (update_message id (retry_later error now) items)
      else (disk, err not_found))

  module _ {N : Type 0} where
    -- `?` of a message that was marked
    abbrev pub marked : N → Disk × Result OutboxError (Unit {0}) → (Disk → Flushed N) → Flushed N
    marked net (disk, err e) next = (disk, err e, net)
    marked net (disk, ok done) next = next disk

    -- the `match` on the answer of the service
    abbrev pub by_answer : Result Chars (Unit {0}) → Flushed N → (Chars → Flushed N) → Flushed N
    by_answer (ok accepted) sent failed = sent
    by_answer (err error) sent failed = failed error

    -- the loop of `flush` over the due messages, with the number sent so far; `ios` is what the file
    -- system does from here on
    unfoldable pub flush_loop :
        (ℕ → Io) → Submit V N → ℕ → Disk → N → ℕ → List (QueuedMessage V) → Flushed N
    unfolding mark_sent mark_failed
    flush_loop ios submit current disk net sent [] = (disk, ok sent, net)
    flush_loop ios submit current disk net sent (item ∷ items) =
        let id = item.request.message_id in
        let later : ℕ → Io = λ n. ios (suc n) in
        let answer = submit net item.conversation_id item.request in
        by_answer answer.1
          (marked answer.0 (mark_sent (ios 0) disk id)
            (λ disk'. flush_loop later submit current disk' answer.0 (sent + 1) items))
          (λ error.
            marked answer.0 (mark_failed (ios 0) disk id error current)
              (λ disk'. flush_loop later submit current disk' answer.0 sent items))

    abbrev pub with_due :
        (ℕ → Io)
        → Submit V N
        → ℕ
        → Disk
        → N
        → Result OutboxError (List (QueuedMessage V))
        → Flushed N
    with_due ios submit current disk net (err e) = (disk, err e, net)
    with_due ios submit current disk net (ok items) = flush_loop ios submit current disk net 0 items

    unfoldable pub flush : (ℕ → Io) → Submit V N → ℕ → Disk → N → ℕ → Flushed N
    unfolding due flush_loop
    flush ios submit current disk net limit =
        with_due (λ n. ios (suc n)) submit current disk net (due (ios 0) disk current limit)
