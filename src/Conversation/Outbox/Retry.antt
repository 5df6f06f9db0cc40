-- ===== src/Conversation/Outbox/Retry.antt =====
-- conversation.rs: when a message that failed is tried again.
use zincha_sdk.Base.{
  ℕ, zero, suc, ◌+◌, ◌^◌, ◌≤◌, ◌<◌, min, ◌≡◌, refl, ap, ◌∙◌, inl, inr, true, false, some, List, [],
  ◌∷◌, arith, leb, Bool-cases, is_some, length, take, sat_add32, ◌==◌, nat_eq, ==_iff, ==_comm,
  contains, distinct, list_eq, option_eq, ok, err,
}
use zincha_sdk.Chars.{Chars}
use zincha_sdk.Conversation.{Uuid}
use zincha_sdk.Conversation.Outbox.{
  QueuedMessage, Limits, OutboxError, Codec, Io, Disk, store_unlocked, find_message, due_items,
  retry_later, backoff, i64_max, update_message, mark_failed, due,
}
use zincha_sdk.Conversation.Outbox.Sound.{ids, IsBounded, update-ids}
use zincha_sdk.Conversation.Outbox.Delivery.{load-bounded, due-contains, take-contains}

module _ {V : Type 0} (codec : Codec V) (limits : Limits) where
  one_le_pow : (k : ℕ) → 1 ≤ 2 ^ k
  one_le_pow zero = omega arith
  one_le_pow (suc k) = omega (arith, one_le_pow k)

  two_le_pow : (m : ℕ) → 0 < m → 2 ≤ 2 ^ m
  two_le_pow zero pos = absurd (omega arith)
  two_le_pow (suc k) pos = omega (arith, one_le_pow k)

  backoff-bounds :
      (n : ℕ) → 0 < n → (500 ≤ backoff codec limits n) × (backoff codec limits n ≤ 60000)
  unfolding backoff
  backoff-bounds n pos = (omega (arith, two_le_pow (min n 8) (omega arith)), omega arith)

  -- the wait after one more attempt
  retry_later-waits :
      (error : Chars) (now : ℕ) (item : QueuedMessage V)
      → now + 60000 ≤ i64_max
      → let later = retry_later codec limits error now item in
        (now + 500 ≤ later.next_attempt_ms) × (later.next_attempt_ms ≤ now + 60000)
  unfolding retry_later
  retry_later-waits error now item h =
      let bounds = backoff-bounds (sat_add32 item.attempts 1) (omega arith) in
      (omega (arith, bounds.0), omega (arith, bounds.1))

  due-update :
      (id : Uuid) (error : Chars) (now t : ℕ) (items : List (QueuedMessage V))
      → now + 60000 ≤ i64_max
      → t < now + 500
      → distinct (ids items) ≡ true
      → contains
          (ids (
            due_items codec limits t
              (update_message codec limits id (retry_later codec limits error now) items)))
          id
        ≡ false
  unfolding due_items update_message
  due-update id error now t [] h k d = refl
  due-update id error now t (x ∷ items) h k d = elim (Bool-cases (x.request.message_id == id)) [
    | inl same ↦
        let eq = (==_iff x.request.message_id id).0 same in
        let later : leb (retry_later codec limits error now x).next_attempt_ms t ≡ false =
          ground (arith, (retry_later-waits error now x h).0, k) in
        let unique : contains (ids items) id ≡ false = rw (← eq) (ground (arith, d)) in
        rw same (rw later (due-contains codec limits id t items unique))
    | inr other ↦
        let rest = due-update id error now t items h k (ground (arith, d)) in
        let apart : (id == x.request.message_id) ≡ false =
          ==_comm id x.request.message_id ∙ other in
        elim (Bool-cases (leb x.next_attempt_ms t)) [
          | inl ready ↦ rw other (rw ready (rw apart rest))
          | inr waits ↦ rw other (rw waits rest)
        ]
  ]

  stored :
      (disk : Disk) (items : List (QueuedMessage V)) {disk' : Disk}
      → store_unlocked codec limits Io.works disk items ≡ (disk', ok tt)
      → (length items ≤ limits.max_entries)
        × (length (codec.encode items) ≤ limits.max_bytes)
        × (disk' ≡ some (codec.encode items))
  unfolding store_unlocked
  stored disk items h = (ground arith, ground arith, ground arith)

  failed-stored :
      (id : Uuid) (error : Chars) (now : ℕ) (items : List (QueuedMessage V)) {disk' : Disk}
      → IsBounded codec limits items
      → mark_failed codec limits Io.works (some (codec.encode items)) id error now ≡ (disk', ok tt)
      → let items' = update_message codec limits id (retry_later codec limits error now) items in
        IsBounded codec limits items' × (disk' ≡ some (codec.encode items'))
  unfolding mark_failed
  failed-stored id error now items {disk' = disk'} b h =
      let disk = some (codec.encode items) in
      let items' = update_message codec limits id (retry_later codec limits error now) items in
      let ran = rw (load-bounded codec limits items b) at h in
      let kept : distinct (ids items') ≡ true =
        ap distinct (update-ids codec limits id error now items) ∙ b.2 in
      elim (Bool-cases (is_some (find_message codec limits id items))) [
        | inl found ↦
            let (few, short, eq) = stored disk items' (rw found at ran) in ((few, short, kept), eq)
        | inr missing ↦
            let refused : (disk, err OutboxError.not_found) ≡ (disk', ok tt) = rw missing at ran in
            cc
      ]

  -- A message marked as failed in a sound outbox, the file system working, is not among the due messages
  -- again before half a second has passed.
  pub failed-waits :
      (id : Uuid) (error : Chars) (now : ℕ) (items : List (QueuedMessage V)) {disk' : Disk}
      → IsBounded codec limits items
      → now + 60000 ≤ i64_max
      → mark_failed codec limits Io.works (some (codec.encode items)) id error now ≡ (disk', ok tt)
      → (t limit : ℕ) → t < now + 500
      → (batch : List (QueuedMessage V)) × (due codec limits Io.works disk' t limit ≡ ok batch)
        × (contains (ids batch) id ≡ false)
  unfolding due
  failed-waits id error now items b h marked t limit k =
      let items' = update_message codec limits id (retry_later codec limits error now) items in
      let (b', eq) = failed-stored id error now items b marked in
      rw eq (
        rw (load-bounded codec limits items' b') (
          take limit (due_items codec limits t items'),
          refl,
          take-contains codec limits limit id (due_items codec limits t items')
              (due-update id error now t items h k b.2),
        ))
