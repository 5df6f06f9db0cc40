-- ===== src/Crypto/Hash.antt =====
-- crates/zincha-primitives/src/crypto/{hash,keys}.rs, over the libraries that they call. SHA-256 and
-- Ed25519 are third-party: a record of their operations, with the documented behaviour that the code
-- relies on.
use zincha_sdk.Base.{
  zero, ◌-◌, ◌≡◌, Bool, true, ◌++◌, arith, if◌then◌else◌, length, take, drop, replicate,
  length-append, length-take, length-drop, length-replicate, nat_eq, list_eq, option_eq, Result, ok,
  err,
}
use zincha_sdk.Crypto.Bytes.{Bytes, Hash256, Address}

-- A secret key is its 32 bytes, a verifying key the bytes that encode it, a signature its 64 bytes.
pub record Crypto : Type 0 where
  -- sha2: the digest, of 32 bytes
  pub sha256 : Bytes → Bytes
  pub length-sha256 : (m : Bytes) → length (sha256 m) ≡ 32
  -- ed25519_dalek: whether 32 bytes encode a verifying key
  pub is_key : Bytes → Bool
  pub verifying_key : Bytes → Bytes
  pub key-is_key : (secret : Bytes) → is_key (verifying_key secret) ≡ true
  pub length-key : (secret : Bytes) → length (verifying_key secret) ≡ 32
  pub sign : Bytes → Bytes → Bytes
  pub length-sign : (secret m : Bytes) → length (sign secret m) ≡ 64
  -- `check key m signature`
  pub check : Bytes → Bytes → Bytes → Bool
  -- a signature made with a key passes under it
  pub check-sign : (secret m : Bytes) → check (verifying_key secret) m (sign secret m) ≡ true

-- ZinchaError, as far as the modelled code raises it
pub data CryptoError : Type 0 where
  invalid_public_key invalid_signature : CryptoError

-- Hash256::from_slice: the first 32 bytes, or fewer with zeros behind
unfoldable pub from_slice : Bytes → Hash256
from_slice s = take 32 s ++ replicate (32 - length s) 0

module _ (c : Crypto) where
  unfoldable pub hash_bytes : Bytes → Hash256
  unfolding from_slice
  hash_bytes m = from_slice (c.sha256 m)

  unfoldable pub combine_hashes : Hash256 → Hash256 → Hash256
  unfolding hash_bytes
  combine_hashes left right = hash_bytes (left ++ right)

  unfoldable pub double_hash : Bytes → Hash256
  unfolding hash_bytes
  double_hash m = hash_bytes (hash_bytes m)

  -- PublicKey::from_bytes
  unfoldable pub public_key_from_bytes : Bytes → Result CryptoError Bytes
  public_key_from_bytes bytes = if c.is_key bytes then ok bytes else err invalid_public_key

  -- PublicKey::verify
  unfoldable pub verify : Bytes → Bytes → Bytes → Result CryptoError (Unit {0})
  verify key message signature =
      if c.check key message signature then ok tt else err invalid_signature

  -- Address::from_public_key: bytes 12 to 32 of the digest of the key
  unfoldable pub to_address : Bytes → Address
  to_address key = take 20 (drop 12 (c.sha256 key))

  pub length-hash_bytes : (m : Bytes) → length (hash_bytes m) ≡ 32
  unfolding hash_bytes
  length-hash_bytes m =
      let digest = c.sha256 m in
      omega (
        arith,
        length-append (take 32 digest) (replicate (32 - length digest) 0),
        length-take 32 digest,
        length-replicate (32 - length digest) (zero),
        c.length-sha256 m,
      )

  pub length-to_address : (key : Bytes) → length (to_address key) ≡ 20
  unfolding to_address
  length-to_address key =
      let digest = c.sha256 key in
      omega (arith, length-take 20 (drop 12 digest), length-drop 12 digest, c.length-sha256 key)
