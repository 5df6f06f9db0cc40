-- ===== src/Crypto/Bytes.antt =====
-- crates/zincha-primitives/src/crypto: byte strings, and the order on them. A `[u8; N]`, a `Vec<u8>`
-- and the UTF-8 bytes of a `String` are lists of numbers below 256.
pub mod Order
pub mod Encoding
use zincha_sdk.Base.{
  ◌++◌, zero, suc, ◌/◌, ◌%◌, ℕ, Bool, true, false, List, [], ◌∷◌, ltb, eqb, if◌then◌else◌,
  replicate,
}

abbrev pub Bytes : Type 0
Bytes = List ℕ

-- The bytes of a `String`; `len` counts them.
abbrev pub Text : Type 0
Text = Bytes

-- struct Address(pub [u8; 20])
abbrev pub Address : Type 0
Address = Bytes

-- struct Hash256(pub [u8; 32])
abbrev pub Hash256 : Type 0
Hash256 = Bytes

-- Hash256::zero
abbrev pub zero_hash : Hash256
zero_hash = replicate 32 0

abbrev pub is_empty {ℓ} : {A : Type ℓ} → List A → Bool
is_empty [] = true
is_empty (x ∷ xs) = false

-- `a <= b` in the order of byte arrays: lexicographic.
unfoldable pub bytes_le : Bytes → Bytes → Bool
bytes_le [] b = true
bytes_le (x ∷ a) [] = false
bytes_le (x ∷ a) (y ∷ b) = if ltb x y then true else if eqb x y then bytes_le a b else false

-- The last `n` bytes of a number, the most significant first.
unfoldable pub be_bytes : ℕ → ℕ → Bytes
be_bytes zero x = []
be_bytes (suc n) x = be_bytes n (x / 256) ++ (x % 256 ∷ [])

-- The last `n` bytes of a number, the least significant first.
unfoldable pub le_bytes : ℕ → ℕ → Bytes
le_bytes zero x = []
le_bytes (suc n) x = x % 256 ∷ le_bytes n (x / 256)

-- u64::to_be_bytes, u64::to_le_bytes, u32::to_le_bytes
abbrev pub to_be_bytes : ℕ → Bytes
to_be_bytes x = be_bytes 8 x

abbrev pub to_le_bytes : ℕ → Bytes
to_le_bytes x = le_bytes 8 x

abbrev pub to_le_bytes32 : ℕ → Bytes
to_le_bytes32 x = le_bytes 4 x
