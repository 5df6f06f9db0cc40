-- ===== src/Conversation.antt =====
-- crates/zincha-client/src/conversation.rs: the messages of a conversation, and the outbox that holds
-- those not yet delivered.
pub mod Outbox
pub mod Toy
mod Tests
use zincha_sdk.Base.{
  ℕ, ◌≡◌, Bool, true, ◌&&◌, Option, List, arith, Eq, ◌==◌, nat_eq, ==_refl, list_eq, option_eq,
}
use zincha_sdk.Crypto.Bytes.{Bytes}
use zincha_sdk.Chars.{Chars}

-- uuid::Uuid, by its bytes
abbrev pub Uuid : Type 0
Uuid = Bytes

-- `V` is serde_json::Value, which the code passes through.
pub data MessagePart (V : Type 0) : Type 0 where
  text : Chars → MessagePart V
  json : V → MessagePart V
  -- artifact_id, digest, media_type, size
  artifact_reference : Uuid → Chars → Chars → ℕ → MessagePart V

pub data MessagePayload (V : Type 0) : Type 0 where
  plaintext : List (MessagePart V) → MessagePayload V
  ciphertext : Chars → MessagePayload V

pub record SubmitMessageRequest (V : Type 0) : Type 0 where
  pub message_id : Uuid
  pub client_timestamp_ms : ℕ
  pub reply_to : Option Uuid
  pub key_epoch : Option ℕ
  pub payload : MessagePayload V
  pub signing_key_id : Chars
  pub signature : Chars

-- the derived `PartialEq`
abbrev pub request_same :
    {V : Type 0} ⦃e : Eq (MessagePayload V)⦄
    → SubmitMessageRequest V
    → SubmitMessageRequest V
    → Bool
request_same a b =
    a.message_id == b.message_id
    && a.client_timestamp_ms == b.client_timestamp_ms
    && a.reply_to == b.reply_to
    && a.key_epoch == b.key_epoch
    && a.payload == b.payload
    && a.signing_key_id == b.signing_key_id
    && a.signature == b.signature

pub request_same_refl :
    {V : Type 0} ⦃e : Eq (MessagePayload V)⦄ (r : SubmitMessageRequest V) → request_same r r ≡ true
request_same_refl r = ground (
  arith,
  ==_refl r.message_id,
  ==_refl r.client_timestamp_ms,
  ==_refl r.reply_to,
  ==_refl r.key_epoch,
  ==_refl r.payload,
  ==_refl r.signing_key_id,
  ==_refl r.signature,
)
