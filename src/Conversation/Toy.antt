-- ===== src/Conversation/Toy.antt =====
-- A concrete codec of queued messages that keeps the laws of `Codec`: for the tests only.
use zincha_sdk.Base.{
  ℕ, zero, suc, ◌≤◌, ◌≡◌, refl, sym, ap, ◌∙◌, ◌⊎◌, inl, inr, Option, none, some, List, [], ◌∷◌,
  ◌++◌, arith, length, length-append, true, ◌↔◌, ◌==◌, ==_iff, Eq, nat_eq, list_eq,
}
use zincha_sdk.Crypto.Bytes.{Bytes}
use zincha_sdk.Crypto.Merkle.{and_then}
use zincha_sdk.Chars.{Chars}
use zincha_sdk.Conversation.{
  Uuid, MessagePart, text, json, artifact_reference, MessagePayload, plaintext, ciphertext,
  SubmitMessageRequest,
}
use zincha_sdk.Conversation.Outbox.{QueuedMessage, Codec}

-- A way to write a value in front of others, and to read it back.
record Coder (A : Type 0) : Type 0 where
  enc : A → Bytes
  dec : Bytes → Option (A × Bytes)
  law : (a : A) (rest : Bytes) → dec (enc a ++ rest) ≡ some (a, rest)

-- a value and the rest of the input, for the next reader
abbrev then_read :
    {A B C : Type 0}
    → Option (A × Bytes)
    → (Bytes → Option (B × Bytes))
    → (A → B → C)
    → Option (C × Bytes)
then_read first next make =
    and_then first (λ p. and_then (next p.1) (λ q. some (make p.0 q.0, q.1)))

abbrev append_assoc : (xs ys zs : Bytes) → (xs ++ ys) ++ zs ≡ xs ++ (ys ++ zs)
append_assoc [] ys zs = refl
append_assoc (x ∷ xs) ys zs = ap (λ l. x ∷ l) (append_assoc xs ys zs)

abbrev read_number : Bytes → Option (ℕ × Bytes)
read_number [] = none
read_number (n ∷ s) = some (n, s)

abbrev number : Coder ℕ
number = record { enc = λ n. n ∷ []; dec = read_number; law = λ n rest. refl }

abbrev nothing : Coder (Unit {0})
nothing = record { enc = λ u. []; dec = λ s. some (tt, s); law = λ u rest. refl }

module _ {A B : Type 0} (a : Coder A) (b : Coder B) where
  abbrev law_both :
      (x : A) (y : B) (rest : Bytes)
      → then_read {C = A × B} (a.dec ((a.enc x ++ b.enc y) ++ rest)) b.dec (λ x y. (x, y))
        ≡ some ((x, y), rest)
  law_both x y rest =
      rw (append_assoc (a.enc x) (b.enc y) rest)
        (rw (a.law x (b.enc y ++ rest)) (rw (b.law y rest) refl))

  abbrev both : Coder (A × B)
  both = record {
    enc = λ p. a.enc p.0 ++ b.enc p.1;
    dec = λ s. then_read {C = A × B} (a.dec s) b.dec (λ x y. (x, y));
    law = λ p rest. law_both p.0 p.1 rest;
  }

  abbrev write_either : A ⊎ B → Bytes
  write_either (inl x) = 0 ∷ a.enc x
  write_either (inr y) = 1 ∷ b.enc y

  abbrev read_either : Bytes → Option ((A ⊎ B) × Bytes)
  read_either [] = none
  read_either (zero ∷ s) = and_then (a.dec s) (λ p. some (inl p.0, p.1))
  read_either (suc n ∷ s) = and_then (b.dec s) (λ p. some (inr p.0, p.1))

  abbrev law_either :
      (c : A ⊎ B) (rest : Bytes) → read_either (write_either c ++ rest) ≡ some (c, rest)
  law_either (inl x) rest = rw (a.law x rest) refl
  law_either (inr y) rest = rw (b.law y rest) refl

  abbrev either : Coder (A ⊎ B)
  either = record { enc = write_either; dec = read_either; law = law_either }

module _ {A B : Type 0} (a : Coder A) (to : A → B) (from : B → A) where
  abbrev through : ((y : B) → to (from y) ≡ y) → Coder B
  through back = record {
    enc = λ y. a.enc (from y);
    dec = λ s. and_then (a.dec s) (λ p. some (to p.0, p.1));
    law = λ y rest. rw (a.law (from y) rest) (ap (λ z. some (z, rest)) (back y));
  }

module _ {A : Type 0} (a : Coder A) where
  abbrev write_all : List A → Bytes
  write_all [] = []
  write_all (x ∷ xs) = a.enc x ++ write_all xs

  abbrev read_all : ℕ → Bytes → Option (List A × Bytes)
  read_all zero s = some ([], s)
  read_all (suc n) s = then_read (a.dec s) (read_all n) (λ x xs. x ∷ xs)

  abbrev law_all :
      (xs : List A) (rest : Bytes) → read_all (length xs) (write_all xs ++ rest) ≡ some (xs, rest)
  law_all [] rest = refl
  law_all (x ∷ xs) rest =
      rw (append_assoc (a.enc x) (write_all xs) rest)
        (rw (a.law x (write_all xs ++ rest)) (rw (law_all xs rest) refl))

  abbrev read_list : Bytes → Option (List A × Bytes)
  read_list [] = none
  read_list (n ∷ s) = read_all n s

  abbrev list : Coder (List A)
  list = record { enc = λ xs. length xs ∷ write_all xs; dec = read_list; law = law_all }

  abbrev write_all_shorter :
      (xs : List A) (x : A) (ys : List A)
      → length (write_all (xs ++ ys)) ≤ length (write_all (xs ++ (x ∷ ys)))
  write_all_shorter [] x ys = omega (arith, length-append (a.enc x) (write_all ys))
  write_all_shorter (z ∷ xs) x ys = omega (
    arith,
    length-append (a.enc z) (write_all (xs ++ ys)),
    length-append (a.enc z) (write_all (xs ++ (x ∷ ys))),
    write_all_shorter xs x ys,
  )

abbrev optional : {A : Type 0} → Coder A → Coder (Option A)
optional a = through (either nothing a) of_either to_either back
  where
    of_either : {A : Type 0} → Unit {0} ⊎ A → Option A
    of_either (inl u) = none
    of_either (inr x) = some x

    to_either : {A : Type 0} → Option A → Unit {0} ⊎ A
    to_either none = inl tt
    to_either (some x) = inr x

    back : {A : Type 0} (o : Option A) → of_either (to_either o) ≡ o
    back none = refl
    back (some x) = refl

abbrev chars : Coder Chars
chars = list number

abbrev PartFields : Type 0
PartFields = Chars ⊎ (Unit {0} ⊎ (Uuid × (Chars × (Chars × ℕ))))

abbrev part_of : PartFields → MessagePart (Unit {0})
part_of (inl s) = text s
part_of (inr (inl v)) = json v
part_of (inr (inr (id, (digest, (media_type, size))))) =
    artifact_reference id digest media_type size

abbrev fields_of : MessagePart (Unit {0}) → PartFields
fields_of (text s) = inl s
fields_of (json v) = inr (inl v)
fields_of (artifact_reference id digest media_type size) =
    inr (inr (id, (digest, (media_type, size))))

abbrev part_back : (p : MessagePart (Unit {0})) → part_of (fields_of p) ≡ p
part_back (text s) = refl
part_back (json v) = refl
part_back (artifact_reference id digest media_type size) = refl

abbrev part : Coder (MessagePart (Unit {0}))
part =
    through (either chars (either nothing (both chars (both chars (both chars number))))) part_of
      fields_of part_back

abbrev payload_of : List (MessagePart (Unit {0})) ⊎ Chars → MessagePayload (Unit {0})
payload_of (inl parts) = plaintext parts
payload_of (inr s) = ciphertext s

abbrev content_of : MessagePayload (Unit {0}) → List (MessagePart (Unit {0})) ⊎ Chars
content_of (plaintext parts) = inl parts
content_of (ciphertext s) = inr s

abbrev payload_back : (p : MessagePayload (Unit {0})) → payload_of (content_of p) ≡ p
payload_back (plaintext parts) = refl
payload_back (ciphertext s) = refl

abbrev payload : Coder (MessagePayload (Unit {0}))
payload = through (either (list part) chars) payload_of content_of payload_back

abbrev RequestFields : Type 0
RequestFields =
    Uuid × (ℕ × (Option Uuid × (Option ℕ × (MessagePayload (Unit {0}) × (Chars × Chars)))))

abbrev request_of : RequestFields → SubmitMessageRequest (Unit {0})
request_of (id, (t, (reply_to, (key_epoch, (content, (key, signature)))))) = record {
  message_id = id;
  client_timestamp_ms = t;
  reply_to = reply_to;
  key_epoch = key_epoch;
  payload = content;
  signing_key_id = key;
  signature = signature;
}

abbrev fields_of_request : SubmitMessageRequest (Unit {0}) → RequestFields
fields_of_request r = (
  r.message_id,
  (
    r.client_timestamp_ms,
    (r.reply_to, (r.key_epoch, (r.payload, (r.signing_key_id, r.signature)))),
  ),
)

abbrev request : Coder (SubmitMessageRequest (Unit {0}))
request =
    through
      (both chars (
        both number
          (both (optional chars) (both (optional number) (both payload (both chars chars))))))
      request_of fields_of_request (λ r. refl)

abbrev MessageFields : Type 0
MessageFields = Chars × (SubmitMessageRequest (Unit {0}) × (ℕ × (ℕ × Option Chars)))

abbrev message_of : MessageFields → QueuedMessage (Unit {0})
message_of (id, (r, (attempts, (next, last_error)))) = record {
  conversation_id = id;
  request = r;
  attempts = attempts;
  next_attempt_ms = next;
  last_error = last_error;
}

abbrev fields_of_message : QueuedMessage (Unit {0}) → MessageFields
fields_of_message m =
    (m.conversation_id, (m.request, (m.attempts, (m.next_attempt_ms, m.last_error))))

abbrev message : Coder (QueuedMessage (Unit {0}))
message =
    through (both chars (both request (both number (both number (optional chars))))) message_of
      fields_of_message (λ m. refl)

abbrev whole :
    Option (List (QueuedMessage (Unit {0})) × Bytes) → Option (List (QueuedMessage (Unit {0})))
whole read = and_then read (λ p. some p.0)

abbrev append_nil : (s : Bytes) → s ++ [] ≡ s
append_nil [] = refl
append_nil (x ∷ s) = ap (λ l. x ∷ l) (append_nil s)

abbrev toy_reads :
    (items : List (QueuedMessage (Unit {0})))
    → whole ((list message).dec ((list message).enc items)) ≡ some items
toy_reads items =
    ap (λ s. whole ((list message).dec s)) (sym (append_nil ((list message).enc items)))
    ∙ ap whole ((list message).law items [])

abbrev toy_shorter :
    (xs : List (QueuedMessage (Unit {0}))) (x : QueuedMessage (Unit {0}))
    (ys : List (QueuedMessage (Unit {0})))
    → length ((list message).enc (xs ++ ys)) ≤ length ((list message).enc (xs ++ (x ∷ ys)))
toy_shorter xs x ys = omega (arith, write_all_shorter message xs x ys)

unfoldable pub toy_codec : Codec (Unit {0})
toy_codec = record {
  encode = (list message).enc;
  decode = λ s. whole ((list message).dec s);
  decode-encode = toy_reads;
  encode-shorter = toy_shorter;
}

same_payload : (a b : MessagePayload (Unit {0})) → payload.enc a ≡ payload.enc b → a ≡ b
same_payload a b e =
    let read = sym (payload.law a []) ∙ ap (λ s. payload.dec (s ++ [])) e ∙ payload.law b [] in cc

payload_decides :
    (a b : MessagePayload (Unit {0})) → ((payload.enc a == payload.enc b) ≡ true) ↔ (a ≡ b)
payload_decides a b = (
  λ h. same_payload a b ((==_iff (payload.enc a) (payload.enc b)).0 h),
  λ e. (==_iff (payload.enc a) (payload.enc b)).1 (ap payload.enc e),
)

unfoldable pub toy_eq : Eq (MessagePayload (Unit {0}))
unfolding same_payload payload_decides
toy_eq = record { test = λ a b. payload.enc a == payload.enc b; decides = payload_decides }
