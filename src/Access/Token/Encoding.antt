-- ===== src/Access/Token/Encoding.antt =====
-- tool.rs: the canonical bytes of a receipt and of a token tell apart the values that they encode.
use zincha_sdk.Base.{◌≡◌, refl, sym, ◌∙◌, arith, length, IsU64, nat_eq, list_eq, option_eq}
use zincha_sdk.Crypto.Bytes.Encoding.{++-cancel, be_bytes-cancel, be_bytes-injective}
use zincha_sdk.Access.Token.{AccessTokenReceipt, canonical_domain_v1, canonical_bytes}

-- What the types of the fields say: ids of 32 bytes, addresses of 20, numbers of 64 bits.
abbrev pub IsReceipt : AccessTokenReceipt → Type 0
IsReceipt r =
    (length r.token_id ≡ 32)
    × (length r.tool_id ≡ 32)
    × (length r.invoker ≡ 20)
    × IsU64 r.amount_paid
    × IsU64 r.issued_at
    × IsU64 r.block_number
    × IsU64 r.nonce

abbrev SameReceipt : AccessTokenReceipt → AccessTokenReceipt → Type 0
SameReceipt r s =
    (r.token_id ≡ s.token_id)
    × (r.tool_id ≡ s.tool_id)
    × (r.invoker ≡ s.invoker)
    × (r.amount_paid ≡ s.amount_paid)
    × (r.issued_at ≡ s.issued_at)
    × (r.block_number ≡ s.block_number)
    × (r.nonce ≡ s.nonce)

same_receipt : (r s : AccessTokenReceipt) → SameReceipt r s → r ≡ s
same_receipt r s (a, b, d, e, f, g, h) = λ i. record {
  token_id = a i;
  tool_id = b i;
  invoker = d i;
  amount_paid = e i;
  issued_at = f i;
  block_number = g i;
  nonce = h i;
}

-- Two receipts with ids of 32 bytes, addresses of 20 bytes and numbers below 2^64 have the same
-- canonical bytes, those that a leaf of the receipt tree hashes, only if they are the same receipt.
pub canonical_bytes-injective :
    (r s : AccessTokenReceipt)
    → IsReceipt r
    → IsReceipt s
    → canonical_bytes r ≡ canonical_bytes s
    → r ≡ s
unfolding canonical_bytes
canonical_bytes-injective r s (a, b, d, f, g, h, k) (a', b', d', f', g', h', k') e =
    let (_, e) = ++-cancel canonical_domain_v1 canonical_domain_v1 refl e in
    let (token, e) = ++-cancel r.token_id s.token_id (a ∙ sym a') e in
    let (tool, e) = ++-cancel r.tool_id s.tool_id (b ∙ sym b') e in
    let (invoker, e) = ++-cancel r.invoker s.invoker (d ∙ sym d') e in
    let (paid, e) = be_bytes-cancel r.amount_paid s.amount_paid f f' e in
    let (at, e) = be_bytes-cancel r.issued_at s.issued_at g g' e in
    let (block, e) = be_bytes-cancel r.block_number s.block_number h h' e in
    let nonce = be_bytes-injective 8 r.nonce s.nonce (omega arith) (omega arith) e in
    same_receipt r s (token, tool, invoker, paid, at, block, nonce)
