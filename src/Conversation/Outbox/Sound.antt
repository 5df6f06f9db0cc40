-- ===== src/Conversation/Outbox/Sound.antt =====
-- conversation.rs: whatever the file system does, the outbox file holds a bounded list of messages,
-- no two of one ID.
use zincha_sdk.Base.{
  ℕ, suc, ◌+◌, ◌≤◌, ◌≡◌, refl, ap, ◌∙◌, ◌⊎◌, inl, inr, true, false, ◌&&◌, ◌||◌, none, some, List,
  [], ◌∷◌, arith, ltb, leb, if◌then◌else◌, Bool-cases, Option-cases, is_some, length, Eq, ◌==◌,
  nat_eq, ==_comm, contains, distinct, list_eq, option_eq, Result, ok, err, Result-cases,
}
use zincha_sdk.Chars.{Chars}
use zincha_sdk.Conversation.{Uuid, MessagePayload, SubmitMessageRequest}
use zincha_sdk.Conversation.Outbox.{
  QueuedMessage, Limits, OutboxError, Codec, Io, Disk, load_unlocked, store_unlocked, with_items,
  find_message, push, fresh, enqueue_beside, enqueue, without, mark_sent, retry_later,
  update_message, mark_failed, Submit, Flushed, flush_loop, flush, due, marked, replace_file,
}
use zincha_sdk.Conversation.{request_same}

module _ {V : Type 0} where
  abbrev pub ids : List (QueuedMessage V) → List Uuid
  ids [] = []
  ids (item ∷ items) = item.request.message_id ∷ ids items

module _ {V : Type 0} (codec : Codec V) (limits : Limits) where
  -- The messages fit the limits, and no two have one ID.
  abbrev pub IsBounded : List (QueuedMessage V) → Type 0
  IsBounded items =
      (length items ≤ limits.max_entries)
      × (length (codec.encode items) ≤ limits.max_bytes)
      × (distinct (ids items) ≡ true)

  -- There is no file yet, or it holds such messages.
  abbrev pub IsSound : Disk → Type 0
  IsSound none = Unit
  IsSound (some bytes) =
      (items : List (QueuedMessage V)) × (bytes ≡ codec.encode items) × IsBounded items

  load-distinct :
      (io : Io) (disk : Disk) {items : List (QueuedMessage V)}
      → IsSound disk
      → load_unlocked codec limits io disk ≡ ok items
      → distinct (ids items) ≡ true
  unfolding load_unlocked
  load-distinct io none h e = ground arith
  load-distinct io (some bytes) h e =
      let (held, eq, bounded) = h in ground (arith, eq, e, codec.decode-encode held, bounded.2)

  replace_file-IsSound :
      (io : Io) (disk : Disk) (items : List (QueuedMessage V))
      → IsSound disk
      → IsBounded items
      → IsSound (replace_file codec limits io disk (codec.encode items)).0
  replace_file-IsSound Io.works disk items h b = (items, refl, b)
  replace_file-IsSound Io.fails_to_read disk items h b = h
  replace_file-IsSound Io.fails_before_rename disk items h b = h
  replace_file-IsSound Io.fails_after_rename disk items h b = (items, refl, b)
  replace_file-IsSound Io.hides_size disk items h b = (items, refl, b)
  replace_file-IsSound Io.denies_access disk items h b = h

  store-IsSound :
      (io : Io) (disk : Disk) (items : List (QueuedMessage V))
      → IsSound disk
      → distinct (ids items) ≡ true
      → IsSound (store_unlocked codec limits io disk items).0
  unfolding store_unlocked
  store-IsSound io disk items h d = elim (Bool-cases (ltb limits.max_entries (length items))) [
    | inl many ↦ rw many h
    | inr few ↦ elim (Bool-cases (ltb limits.max_bytes (length (codec.encode items)))) [
      | inl long ↦ rw few (rw long h)
      | inr short ↦
          rw few (rw short (replace_file-IsSound io disk items h (ground arith, ground arith, d)))
    ]
  ]

  with_items-IsSound :
      (io : Io) (disk : Disk) (next : List (QueuedMessage V) → Disk × Result OutboxError (Unit {0}))
      → IsSound disk
      → ((items : List (QueuedMessage V)) → distinct (ids items) ≡ true → IsSound (next items).0)
      → IsSound (with_items codec limits disk (load_unlocked codec limits io disk) next).0
  with_items-IsSound io disk next h k = elim (Result-cases (load_unlocked codec limits io disk)) [
    | inl (items, eq) ↦ rw eq (k items (load-distinct io disk h eq))
    | inr (e, eq) ↦ rw eq h
  ]

  contains-push :
      (items : List (QueuedMessage V)) (item : QueuedMessage V) (id : Uuid)
      → contains (ids (push codec limits items item)) id
        ≡ (contains (ids items) id || id == item.request.message_id)
  contains-push [] item id = ground arith
  contains-push (x ∷ items) item id = ground (arith, contains-push items item id)

  find-none :
      (id : Uuid) (items : List (QueuedMessage V))
      → find_message codec limits id items ≡ none
      → contains (ids items) id ≡ false
  unfolding find_message
  find-none id [] h = refl
  find-none id (x ∷ items) h = ground (arith, find-none id items, ==_comm id x.request.message_id)

  push-distinct :
      (items : List (QueuedMessage V)) (item : QueuedMessage V)
      → distinct (ids items) ≡ true
      → contains (ids items) item.request.message_id ≡ false
      → distinct (ids (push codec limits items item)) ≡ true
  push-distinct [] item d h = refl
  push-distinct (x ∷ items) item d h = ground (
    arith,
    push-distinct items item,
    contains-push items item x.request.message_id,
    ==_comm x.request.message_id item.request.message_id,
  )

  contains-without :
      (id : Uuid) (items : List (QueuedMessage V)) (id' : Uuid)
      → contains (ids items) id' ≡ false
      → contains (ids (without codec limits id items)) id' ≡ false
  unfolding without
  contains-without id [] id' h = refl
  contains-without id (x ∷ items) id' h = ground (arith, contains-without id items id')

  pub without-distinct :
      (id : Uuid) (items : List (QueuedMessage V))
      → distinct (ids items) ≡ true
      → distinct (ids (without codec limits id items)) ≡ true
  unfolding without
  without-distinct id [] d = refl
  without-distinct id (x ∷ items) d =
      ground (arith, without-distinct id items, contains-without id items x.request.message_id)

  pub update-ids :
      (id : Uuid) (error : Chars) (now : ℕ) (items : List (QueuedMessage V))
      → ids (update_message codec limits id (retry_later codec limits error now) items) ≡ ids items
  unfolding update_message retry_later
  update-ids id error now [] = refl
  update-ids id error now (x ∷ items) = elim (Bool-cases (x.request.message_id == id)) [
    | inl same ↦ rw same refl
    | inr other ↦ rw other (ap (λ l. x.request.message_id ∷ l) (update-ids id error now items))
  ]

  mark_sent-IsSound :
      (io : Io) (disk : Disk) (id : Uuid)
      → IsSound disk
      → IsSound (mark_sent codec limits io disk id).0
  unfolding mark_sent
  mark_sent-IsSound io disk id h = with_items-IsSound io disk _ h (λ items d.
      store-IsSound io disk (without codec limits id items) h (without-distinct id items d))

  mark_failed-IsSound :
      (io : Io) (disk : Disk) (id : Uuid) (error : Chars) (now : ℕ)
      → IsSound disk
      → IsSound (mark_failed codec limits io disk id error now).0
  unfolding mark_failed
  mark_failed-IsSound io disk id error now h = with_items-IsSound io disk _ h failed
    where
      failed :
          (items : List (QueuedMessage V))
          → distinct (ids items) ≡ true
          → IsSound
              (if is_some (find_message codec limits id items)
                then store_unlocked codec limits io disk
                    (update_message codec limits id (retry_later codec limits error now) items)
                else (disk, err OutboxError.not_found)).0
      failed items d = elim (Bool-cases (is_some (find_message codec limits id items))) [
        | inl found ↦
            rw found (store-IsSound io disk _ h (ap distinct (update-ids id error now items) ∙ d))
        | inr missing ↦ rw missing h
      ]

  module _ {N : Type 0} where
    marked-IsSound :
        (net : N) (r : Disk × Result OutboxError (Unit {0})) (next : Disk → Flushed N)
        → IsSound r.0
        → ((disk' : Disk) → IsSound disk' → IsSound (next disk').0)
        → IsSound (marked codec limits net r next).0
    marked-IsSound net (disk', err e) next k n = k
    marked-IsSound net (disk', ok done) next k n = n disk' k

    flush_loop-IsSound :
        (ios : ℕ → Io) (submit : Submit V N) (now : ℕ) (disk : Disk) (net : N) (sent : ℕ)
        (items : List (QueuedMessage V))
        → IsSound disk
        → IsSound (flush_loop codec limits ios submit now disk net sent items).0
    unfolding flush_loop
    flush_loop-IsSound ios submit now disk net sent [] h = h
    flush_loop-IsSound ios submit now disk net sent (x ∷ items) h =
        let answer = submit net x.conversation_id x.request in
        elim (Result-cases (submit net x.conversation_id x.request).1) [
          | inl (accepted, eq) ↦ rw eq (
              marked-IsSound answer.0 (mark_sent codec limits (ios 0) disk x.request.message_id) _
                (mark_sent-IsSound (ios 0) disk x.request.message_id h)
                (λ disk' h'.
                  flush_loop-IsSound (λ n. ios (suc n)) submit now disk' answer.0 (sent + 1) items
                    h'))
          | inr (error, eq) ↦ rw eq (
              marked-IsSound answer.0
                (mark_failed codec limits (ios 0) disk x.request.message_id error now) _
                (mark_failed-IsSound (ios 0) disk x.request.message_id error now h)
                (λ disk' h'.
                  flush_loop-IsSound (λ n. ios (suc n)) submit now disk' answer.0 sent items h'))
        ]

    flush-IsSound :
        (ios : ℕ → Io) (submit : Submit V N) (now : ℕ) (disk : Disk) (net : N) (limit : ℕ)
        → IsSound disk
        → IsSound (flush codec limits ios submit now disk net limit).0
    unfolding flush
    flush-IsSound ios submit now disk net limit h =
        elim (Result-cases (due codec limits (ios 0) disk now limit)) [
          | inl (items, eq) ↦
              rw eq (flush_loop-IsSound (λ n. ios (suc n)) submit now disk net 0 items h)
          | inr (e, eq) ↦ rw eq h
        ]

  module _ ⦃e : Eq (MessagePayload V)⦄ where
    enqueue-IsSound :
        (io : Io) (disk : Disk) (conversation_id : Chars) (request : SubmitMessageRequest V)
        (now : ℕ)
        → IsSound disk
        → IsSound (enqueue codec limits io disk conversation_id request now).0
    unfolding enqueue
    enqueue-IsSound io disk conversation_id request now h =
        with_items-IsSound io disk _ h (λ items d.
          beside items d (Option-cases (find_message codec limits request.message_id items)))
      where
        beside :
            (items : List (QueuedMessage V))
            → distinct (ids items) ≡ true
            → (find_message codec limits request.message_id items ≡ none)
              ⊎ ((x : QueuedMessage V) × (find_message codec limits request.message_id items
                    ≡ some x))
            → IsSound
                (enqueue_beside codec limits io disk conversation_id request now items
                  (find_message codec limits request.message_id items)).0
        beside items d (inl new) = elim (Bool-cases (leb limits.max_entries (length items))) [
          | inl full ↦ rw new (rw full h)
          | inr room ↦ rw new (
              rw room (
                store-IsSound io disk _ h (
                  push-distinct items (fresh codec limits conversation_id request now) d
                    (find-none request.message_id items new))))
        ]
        beside items d (inr (x, old)) =
            elim (Bool-cases
              (x.conversation_id == conversation_id && request_same x.request request)) [
                | inl same ↦ rw old (rw same h)
                | inr other ↦ rw old (rw other h)
              ]

  -- `N` is the type of the service's states.
  module _ (N : Type 0) ⦃e : Eq (MessagePayload V)⦄ where
    -- the disks that the operations of an outbox lead to, whatever the file system and the service do
    pub data Reached : Disk → Type 0 where
      no_file : Reached none
      enqueued :
          {disk : Disk} (io : Io) (conversation_id : Chars) (request : SubmitMessageRequest V)
          (now : ℕ)
          → Reached disk
          → Reached (enqueue codec limits io disk conversation_id request now).0
      sent :
          {disk : Disk} (io : Io) (id : Uuid)
          → Reached disk
          → Reached (mark_sent codec limits io disk id).0
      failed :
          {disk : Disk} (io : Io) (id : Uuid) (error : Chars) (now : ℕ)
          → Reached disk
          → Reached (mark_failed codec limits io disk id error now).0
      flushed :
          {disk : Disk} (ios : ℕ → Io) (submit : Submit V N) (now : ℕ) (net : N) (limit : ℕ)
          → Reached disk
          → Reached (flush codec limits ios submit now disk net limit).0

    -- Any sequence of operations, with failures of the file system and of the service anywhere, leaves
    -- no file or one that holds a list of messages within both limits, no two of one ID.
    pub Reached-IsSound : {disk : Disk} → Reached disk → IsSound disk
    Reached-IsSound no_file = tt
    Reached-IsSound (enqueued {disk = d} io id r now h) =
        enqueue-IsSound io d id r now (Reached-IsSound h)
    Reached-IsSound (sent {disk = d} io id h) = mark_sent-IsSound io d id (Reached-IsSound h)
    Reached-IsSound (failed {disk = d} io id error now h) =
        mark_failed-IsSound io d id error now (Reached-IsSound h)
    Reached-IsSound (flushed {disk = d} ios submit now net limit h) =
        flush-IsSound ios submit now d net limit (Reached-IsSound h)
