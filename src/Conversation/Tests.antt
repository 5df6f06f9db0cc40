-- ===== src/Conversation/Tests.antt =====
-- conversation.rs, an outbox of two messages.
use zincha_sdk.Base.{
  ℕ, ◌≡◌, refl, arith, false, ◌==◌, if◌then◌else◌, none, some, List, [], ◌∷◌, length, ok, contains,
  nat_eq, list_eq, option_eq,
}
use zincha_sdk.Chars.{Chars}
use zincha_sdk.Conversation.{Uuid, SubmitMessageRequest, ciphertext}
use zincha_sdk.Conversation.Toy.{toy_codec, toy_eq}
use zincha_sdk.Conversation.Outbox.{
  QueuedMessage, default_limits, Io, Disk, Submit, mark_failed, flush, enqueue, due,
}
use zincha_sdk.Conversation.Outbox.Sound.{
  ids, IsBounded, IsSound, enqueued, flushed, no_file, Reached-IsSound,
}
use zincha_sdk.Conversation.Outbox.Delivery.{
  flush-delivers, flush-empties, flush_times, Parts, received,
}
use zincha_sdk.Conversation.Outbox.Retry.{failed-waits}

abbrev Message : Type 0
Message = QueuedMessage (Unit {0})

abbrev message : ℕ → ℕ → Message
message id next_attempt_ms = record {
  conversation_id = 99 ∷ [];
  request = record {
    message_id = id ∷ [];
    client_timestamp_ms = 5;
    reply_to = none;
    key_epoch = none;
    payload = ciphertext (115 ∷ []);
    signing_key_id = [];
    signature = [];
  };
  attempts = 0;
  next_attempt_ms = next_attempt_ms;
  last_error = none;
}

abbrev queue : List Message
queue = message 1 10 ∷ message 2 20 ∷ []

queue-IsBounded : IsBounded toy_codec default_limits queue
unfolding toy_codec
queue-IsBounded = (omega arith, omega arith, refl)

-- a service that keeps the IDs it got, the last one first
abbrev arrive : List Uuid → Chars → SubmitMessageRequest (Unit {0}) → List Uuid
arrive log conversation_id request = request.message_id ∷ log

abbrev accepting : Submit (Unit {0}) (List Uuid)
accepting log conversation_id request = (arrive log conversation_id request, ok tt)

flush-delivers_example :
    (batch : List Message) × (left : List Message) × Parts toy_codec default_limits 15 8 queue batch
      left
    × (flush toy_codec default_limits
          (λ n. Io.works)
          accepting
          15
          (some (toy_codec.encode queue))
          []
          8
        ≡ (
          some (toy_codec.encode left),
          ok (length batch),
          received toy_codec default_limits arrive [] batch,
        ))
flush-delivers_example =
    flush-delivers toy_codec default_limits accepting arrive (λ n c r. refl) 15 8 [] queue
      queue-IsBounded

flush-empties_example :
    flush_times toy_codec default_limits accepting 2 30 1 (some (toy_codec.encode queue)) []
    ≡ some (toy_codec.encode [])
flush-empties_example =
    flush-empties toy_codec default_limits accepting arrive (λ n c r. refl) 2 30 1 [] queue
      queue-IsBounded (omega arith) (omega arith, (omega arith, tt)) (omega arith)

abbrev queued : Disk
queued =
    (enqueue toy_codec default_limits ⦃e = toy_eq⦄ Io.works none (99 ∷ []) (message 1 10).request
      10).0

-- a flush whose second call of the file system fails
abbrev failing : ℕ → Io
failing n = if n == 1 then Io.fails_after_rename else Io.works

Reached-IsSound_example :
    IsSound toy_codec default_limits
      (flush toy_codec default_limits failing accepting 15 queued [] 8).0
Reached-IsSound_example = Reached-IsSound toy_codec default_limits (List Uuid) ⦃e = toy_eq⦄ (
    flushed failing accepting 15 [] 8
      (enqueued Io.works (99 ∷ []) (message 1 10).request 10 no_file))

abbrev after_failure : Disk
after_failure =
    (mark_failed toy_codec default_limits Io.works (some (toy_codec.encode queue)) (1 ∷ [])
      (101 ∷ []) 15).0

failure_marked :
    mark_failed toy_codec default_limits Io.works
      (some (toy_codec.encode queue))
      (1 ∷ [])
      (101 ∷ [])
      15
    ≡ (after_failure, ok tt)
unfolding mark_failed toy_codec
failure_marked = refl

failed-waits_example :
    (batch : List Message) × (due toy_codec default_limits Io.works after_failure 100 8 ≡ ok batch)
    × (contains (ids batch) (1 ∷ []) ≡ false)
failed-waits_example =
    failed-waits toy_codec default_limits (1 ∷ []) (101 ∷ []) 15 queue queue-IsBounded (omega arith)
      failure_marked 100 8 (omega arith)
