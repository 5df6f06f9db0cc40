-- ===== src/Conversation/Outbox/Delivery.antt =====
-- conversation.rs: what a flush delivers, and when a message that failed is tried again.
use zincha_sdk.Base.{
  ℕ, zero, suc, ◌+◌, ◌≤◌, ◌<◌, ◌≡◌, refl, ap, ◌∙◌, inl, inr, true, some, List, [], ◌∷◌, ◌++◌, arith,
  leb, Bool-cases, false, contains, distinct, ==_comm, length, take, All, ◌==◌, nat_eq, ==_refl,
  list_eq, option_eq, ok,
}
use mathlib.Core.Path.{subst}
use zincha_sdk.Chars.{Chars}
use zincha_sdk.Conversation.{Uuid, SubmitMessageRequest}
use zincha_sdk.Conversation.Outbox.{
  QueuedMessage, Limits, Codec, Io, Disk, load_unlocked, store_unlocked, due_items, without,
  mark_sent, Submit, flush_loop, flush, due,
}
use zincha_sdk.Conversation.Outbox.Sound.{ids, IsBounded, without-distinct}

append_assoc {ℓ} :
    {A : Type ℓ} (xs : List A) (y : A) (ys : List A) → (xs ++ (y ∷ [])) ++ ys ≡ xs ++ (y ∷ ys)
append_assoc [] y ys = refl
append_assoc (x ∷ xs) y ys = ap (λ l. x ∷ l) (append_assoc xs y ys)

module _ {V : Type 0} (codec : Codec V) (limits : Limits) where
  abbrev pub without_all : List Uuid → List (QueuedMessage V) → List (QueuedMessage V)
  without_all [] items = items
  without_all (id ∷ rest) items = without_all rest (without codec limits id items)

  without-length :
      (id : Uuid) (items : List (QueuedMessage V))
      → length (without codec limits id items) ≤ length items
  unfolding without
  without-length id [] = omega arith
  without-length id (x ∷ items) = ground (arith, without-length id items)

  without_all-length :
      (rest : List Uuid) (items : List (QueuedMessage V))
      → length (without_all rest items) ≤ length items
  without_all-length [] items = omega arith
  without_all-length (id ∷ rest) items =
      omega
        (arith, without_all-length rest (without codec limits id items), without-length id items)

  without-bytes :
      (front : List (QueuedMessage V)) (id : Uuid) (items : List (QueuedMessage V))
      → length (codec.encode (front ++ without codec limits id items))
        ≤ length (codec.encode (front ++ items))
  unfolding without
  without-bytes front id [] = omega arith
  without-bytes front id (x ∷ items) = elim (Bool-cases (x.request.message_id == id)) [
    | inl same ↦
        rw same (omega (arith, without-bytes front id items, codec.encode-shorter front x items))
    | inr other ↦
        let rest = without-bytes (front ++ (x ∷ [])) id items in
        rw other (
          subst (λ l. length (codec.encode l) ≤ length (codec.encode (front ++ (x ∷ items))))
            (append_assoc front x (without codec limits id items))
            (subst
              (λ l.
                length (codec.encode ((front ++ (x ∷ [])) ++ without codec limits id items))
                ≤ length (codec.encode l))
              (append_assoc front x items) rest))
  ]

  without-IsBounded :
      (id : Uuid) (items : List (QueuedMessage V))
      → IsBounded codec limits items
      → IsBounded codec limits (without codec limits id items)
  without-IsBounded id items h = (
    omega (arith, h.0, without-length id items),
    omega (arith, h.1, without-bytes [] id items),
    without-distinct codec limits id items h.2,
  )

  pub load-bounded :
      (items : List (QueuedMessage V))
      → IsBounded codec limits items
      → load_unlocked codec limits Io.works (some (codec.encode items)) ≡ ok items
  unfolding load_unlocked
  load-bounded items h = ground (arith, h.0, h.1, codec.decode-encode items)

  store-bounded :
      (disk : Disk) (items : List (QueuedMessage V))
      → IsBounded codec limits items
      → store_unlocked codec limits Io.works disk items ≡ (some (codec.encode items), ok tt)
  unfolding store_unlocked
  store-bounded disk items h = ground (arith, h.0, h.1)

  mark_sent-bounded :
      (id : Uuid) (items : List (QueuedMessage V))
      → IsBounded codec limits items
      → mark_sent codec limits Io.works (some (codec.encode items)) id
        ≡ (some (codec.encode (without codec limits id items)), ok tt)
  unfolding mark_sent
  mark_sent-bounded id items h = rw (load-bounded items h) (
      store-bounded (some (codec.encode items)) (without codec limits id items)
        (without-IsBounded id items h))

  without-All :
      (P : QueuedMessage V → Type 0) (id : Uuid) (items : List (QueuedMessage V))
      → All P items
      → All P (without codec limits id items)
  unfolding without
  without-All P id [] h = tt
  without-All P id (x ∷ items) h = elim (Bool-cases (x.request.message_id == id)) [
    | inl same ↦ rw same (without-All P id items h.1)
    | inr other ↦ rw other (h.0, without-All P id items h.1)
  ]

  without_all-All :
      (P : QueuedMessage V → Type 0) (rest : List Uuid) (items : List (QueuedMessage V))
      → All P items
      → All P (without_all rest items)
  without_all-All P [] items h = h
  without_all-All P (id ∷ rest) items h =
      without_all-All P rest (without codec limits id items) (without-All P id items h)

  without_all-IsBounded :
      (rest : List Uuid) (items : List (QueuedMessage V))
      → IsBounded codec limits items
      → IsBounded codec limits (without_all rest items)
  without_all-IsBounded [] items h = h
  without_all-IsBounded (id ∷ rest) items h =
      without_all-IsBounded rest (without codec limits id items) (without-IsBounded id items h)

  -- A message that is due is in the batch at the head of the outbox.
  head_leaves :
      (now k : ℕ) (x : QueuedMessage V) (items : List (QueuedMessage V))
      → x.next_attempt_ms ≤ now
      → length
          (without_all (ids (take (suc k) (due_items codec limits now (x ∷ items)))) (x ∷ items))
        ≤ length items
  unfolding due_items without
  head_leaves now k x items h =
      let is_due : leb x.next_attempt_ms now ≡ true = ground (arith, h) in
      let rest = ids (take k (due_items codec limits now items)) in
      rw (is_due, ==_refl x.request.message_id)
        (omega (
          arith,
          without_all-length rest (without codec limits x.request.message_id items),
          without-length x.request.message_id items,
        ))

  left_empty :
      (now k : ℕ)
      → some (codec.encode (without_all (ids (take (suc k) (due_items codec limits now []))) []))
        ≡ some (codec.encode [])
  unfolding due_items
  left_empty now k = refl

  without-absent :
      (id : Uuid) (items : List (QueuedMessage V))
      → contains (ids items) id ≡ false
      → without codec limits id items ≡ items
  unfolding without
  without-absent id [] h = refl
  without-absent id (x ∷ items) h =
      let other : (x.request.message_id == id) ≡ false =
        ==_comm x.request.message_id id ∙ (ground (arith, h)) in
      rw other (ap (λ l. x ∷ l) (without-absent id items (ground (arith, h))))

  -- a message that is not removed stays at the head
  without_all-cons :
      (batch : List Uuid) (x : QueuedMessage V) (items : List (QueuedMessage V))
      → contains batch x.request.message_id ≡ false
      → without_all batch (x ∷ items) ≡ x ∷ without_all batch items
  unfolding without
  without_all-cons [] x items h = refl
  without_all-cons (id ∷ batch) x items h =
      let other : (x.request.message_id == id) ≡ false = ground (arith, h) in
      let rest : contains batch x.request.message_id ≡ false = ground (arith, h) in
      rw other (without_all-cons batch x (without codec limits id items) rest)

  pub due-contains :
      (id : Uuid) (t : ℕ) (items : List (QueuedMessage V))
      → contains (ids items) id ≡ false
      → contains (ids (due_items codec limits t items)) id ≡ false
  unfolding due_items
  due-contains id t [] h = refl
  due-contains id t (x ∷ items) h = ground (arith, due-contains id t items)

  pub take-contains :
      (n : ℕ) (id : Uuid) (items : List (QueuedMessage V))
      → contains (ids items) id ≡ false
      → contains (ids (take n items)) id ≡ false
  take-contains zero id items h = refl
  take-contains (suc n) id [] h = refl
  take-contains (suc n) id (x ∷ items) h = ground (arith, take-contains n id items)

  -- At a time, an outbox parts into the batch of the first due messages, so many at most, and what is
  -- left, both in their order: a message is passed over only if it is not due yet or the batch is full.
  pub data Parts (now : ℕ)
      : ℕ → List (QueuedMessage V) → List (QueuedMessage V) → List (QueuedMessage V) → Type 0 where
    full : {items : List (QueuedMessage V)} → Parts now 0 items [] items
    no_more : {room : ℕ} → Parts now room [] [] []
    ready :
        {room : ℕ} {items batch left : List (QueuedMessage V)} (x : QueuedMessage V)
        → x.next_attempt_ms ≤ now
        → Parts now room items batch left
        → Parts now (suc room) (x ∷ items) (x ∷ batch) left
    waits :
        {room : ℕ} {items batch left : List (QueuedMessage V)} (x : QueuedMessage V)
        → now < x.next_attempt_ms
        → Parts now room items batch left
        → Parts now room (x ∷ items) batch (x ∷ left)

  due-Parts :
      (now limit : ℕ) (items : List (QueuedMessage V))
      → distinct (ids items) ≡ true
      → let batch = take limit (due_items codec limits now items) in
        Parts now limit items batch (without_all (ids batch) items)
  unfolding due_items without
  due-Parts now zero items d = full
  due-Parts now (suc room) [] d = no_more
  due-Parts now (suc room) (x ∷ items) d =
      let rest : distinct (ids items) ≡ true = ground (arith, d) in
      let fresh : contains (ids items) x.request.message_id ≡ false = ground (arith, d) in
      elim (Bool-cases (leb x.next_attempt_ms now)) [
        | inl is_due ↦
            rw (is_due, ==_refl x.request.message_id)
              (rw (without-absent x.request.message_id items fresh)
                (ready x (ground (arith, is_due)) (due-Parts now room items rest)))
        | inr later ↦
            let batch = take (suc room) (due_items codec limits now items) in
            let absent : contains (ids batch) x.request.message_id ≡ false =
              take-contains (suc room) x.request.message_id (due_items codec limits now items)
                (due-contains x.request.message_id now items fresh) in
            rw later (
              rw (without_all-cons (ids batch) x items absent)
                (waits x (ground (arith, later)) (due-Parts now (suc room) items rest)))
      ]

  module _ {N : Type 0} where
    -- the service after it got messages in a row, by what it becomes of each
    abbrev pub received : (N → Chars → SubmitMessageRequest V → N) → N → List (QueuedMessage V) → N
    received arrive net [] = net
    received arrive net (x ∷ batch) = received arrive (arrive net x.conversation_id x.request) batch

    -- the disk after a number of flushes at one time
    abbrev pub flush_times : Submit V N → ℕ → ℕ → ℕ → Disk → N → Disk
    flush_times submit zero now limit disk net = disk
    flush_times submit (suc n) now limit disk net =
        let flushed = flush codec limits (λ k. Io.works) submit now disk net limit in
        flush_times submit n now limit flushed.0 flushed.2

    module _ (submit : Submit V N) (arrive : N → Chars → SubmitMessageRequest V → N)
        (accepts : (net : N) (c : Chars) (r : SubmitMessageRequest V)
          → submit net c r ≡ (arrive net c r, ok tt)) where
      flush_loop-sends :
          (now sent : ℕ) (net : N) (items batch : List (QueuedMessage V))
          → IsBounded codec limits items
          → flush_loop codec limits
              (λ n. Io.works)
              submit
              now
              (some (codec.encode items))
              net
              sent
              batch
            ≡ (
              some (codec.encode (without_all (ids batch) items)),
              ok (sent + length batch),
              received arrive net batch,
            )
      unfolding flush_loop
      flush_loop-sends now sent net items [] h =
          ap (λ n. (some (codec.encode items), ok n, net)) (omega arith)
      flush_loop-sends now sent net items (x ∷ batch) h =
          let id = x.request.message_id in
          let after = arrive net x.conversation_id x.request in
          rw (accepts net x.conversation_id x.request) (
            rw (mark_sent-bounded id items h) (
              flush_loop-sends now (sent + 1) after (without codec limits id items) batch
                (without-IsBounded id items h)
              ∙ ap
                  (λ n. (
                    some (codec.encode (without_all (ids batch) (without codec limits id items))),
                    ok n,
                    received arrive after batch,
                  ))
                  (omega arith)))

      flush-sends :
          (now limit : ℕ) (net : N) (items : List (QueuedMessage V))
          → IsBounded codec limits items
          → let batch = take limit (due_items codec limits now items) in
            flush codec limits (λ n. Io.works) submit now (some (codec.encode items)) net limit ≡ (
              some (codec.encode (without_all (ids batch) items)),
              ok (length batch),
              received arrive net batch,
            )
      unfolding flush due
      flush-sends now limit net items h =
          let batch = take limit (due_items codec limits now items) in
          rw (load-bounded items h) (
            flush_loop-sends now 0 net items batch h
            ∙ ap
                (λ n. (
                  some (codec.encode (without_all (ids batch) items)),
                  ok n,
                  received arrive net batch,
                ))
                (omega arith))

      -- Where the file system works and the service accepts, a flush parts the outbox into the first
      -- due messages, as many as its limit allows, and the rest. The service gets exactly the due ones,
      -- in their order, the flush counts them, and the file holds the rest.
      pub flush-delivers :
          (now limit : ℕ) (net : N) (items : List (QueuedMessage V))
          → IsBounded codec limits items
          → (batch : List (QueuedMessage V)) × (left : List (QueuedMessage V)) × Parts now limit
              items batch left
            × (flush codec limits (λ n. Io.works) submit now (some (codec.encode items)) net limit
                ≡ (some (codec.encode left), ok (length batch), received arrive net batch))
      flush-delivers now limit net items h =
          let batch = take limit (due_items codec limits now items) in
          (
            batch,
            without_all (ids batch) items,
            due-Parts now limit items h.2,
            flush-sends now limit net items h,
          )

      -- Where the file system works and the service accepts, as many flushes as there are messages, of
      -- one message at least each, empty an outbox whose messages are all due.
      pub flush-empties :
          (n now limit : ℕ) (net : N) (items : List (QueuedMessage V))
          → IsBounded codec limits items
          → 0 < limit
          → All (λ item. item.next_attempt_ms ≤ now) items
          → length items ≤ n
          → flush_times submit n now limit (some (codec.encode items)) net ≡ some (codec.encode [])
      flush-empties zero now limit net [] h pos due_now few = refl
      flush-empties zero now limit net (x ∷ items) h pos due_now few = absurd (omega arith)
      flush-empties (suc n) now zero net items h pos due_now few = absurd (omega arith)
      flush-empties (suc n) now (suc k) net [] h pos due_now few =
          let batch = take (suc k) (due_items codec limits now []) in
          ap (λ r. flush_times submit n now (suc k) r.0 r.2) (flush-sends now (suc k) net [] h)
          ∙ ap (λ disk. flush_times submit n now (suc k) disk (received arrive net batch))
              (left_empty now k)
          ∙ flush-empties n now (suc k) (received arrive net batch) [] h pos tt (omega arith)
      flush-empties (suc n) now (suc k) net (x ∷ items) h pos due_now few =
          let batch = take (suc k) (due_items codec limits now (x ∷ items)) in
          let left = without_all (ids batch) (x ∷ items) in
          ap (λ r. flush_times submit n now (suc k) r.0 r.2)
            (flush-sends now (suc k) net (x ∷ items) h)
          ∙ flush-empties n now (suc k) (received arrive net batch) left
              (without_all-IsBounded (ids batch) (x ∷ items) h) pos
              (without_all-All _ (ids batch) (x ∷ items) due_now)
              (omega (arith, few, head_leaves now k x items due_now.0))
