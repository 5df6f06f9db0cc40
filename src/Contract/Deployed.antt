-- ===== src/Contract/Deployed.antt =====
-- contract.rs: the address that a deployed contract gets.
use zincha_sdk.Base.{ℕ, ◌≡◌, ◌∙◌, sym, arith, ◌++◌, length, drop, length-drop, IsU64}
use zincha_sdk.Crypto.Bytes.{Bytes, Address, Hash256, to_be_bytes}
use zincha_sdk.Crypto.Bytes.Encoding.{++-cancel, be_bytes-cancel}
use zincha_sdk.Crypto.Hash.{Crypto, hash_bytes, length-hash_bytes}

-- what is hashed
unfoldable pub address_preimage : Address → ℕ → Hash256 → Bytes
address_preimage deployer nonce bytecode_hash = deployer ++ (to_be_bytes nonce ++ bytecode_hash)

module _ (c : Crypto) where
  unfoldable pub derive_contract_address_from_bytecode_hash : Address → ℕ → Hash256 → Address
  unfolding address_preimage
  derive_contract_address_from_bytecode_hash deployer nonce bytecode_hash =
      drop 12 (hash_bytes c (address_preimage deployer nonce bytecode_hash))

  unfoldable pub derive_contract_address : Address → ℕ → Bytes → Address
  unfolding derive_contract_address_from_bytecode_hash
  derive_contract_address deployer nonce bytecode =
      derive_contract_address_from_bytecode_hash deployer nonce (hash_bytes c bytecode)

  -- A derived address has the length of an address.
  length-derive_contract_address :
      (deployer : Address) (nonce : ℕ) (bytecode : Bytes)
      → length (derive_contract_address deployer nonce bytecode) ≡ 20
  unfolding derive_contract_address
  length-derive_contract_address deployer nonce bytecode =
      let m = address_preimage deployer nonce (hash_bytes c bytecode) in
      omega (arith, length-drop 12 (hash_bytes c m), length-hash_bytes c m)

-- The hashed bytes of an address determine the deployer, the nonce and the code's hash.
address_preimage-injective :
    (d d' : Address) (n n' : ℕ) (h h' : Hash256)
    → length d ≡ 20
    → length d' ≡ 20
    → IsU64 n
    → IsU64 n'
    → address_preimage d n h ≡ address_preimage d' n' h'
    → (d ≡ d') × (n ≡ n') × (h ≡ h')
unfolding address_preimage
address_preimage-injective d d' n n' h h' l l' u u' e =
    let (deployers, rest) = ++-cancel d d' (l ∙ sym l') e in
    let (nonces, hashes) = be_bytes-cancel n n' u u' rest in (deployers, nonces, hashes)
