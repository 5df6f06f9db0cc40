-- ===== src/Crypto/Tests.antt =====
-- merkle.rs on a tree of three leaves, the last of which is paired with itself.
use zincha_sdk.Base.{ℕ, ◌≡◌, refl, true, some, List, [], ◌∷◌, replicate, ok}
use zincha_sdk.Crypto.Bytes.{Hash256}
use zincha_sdk.Crypto.Toy.{toy_crypto}
use zincha_sdk.Crypto.Merkle.{
  MerkleProof, proof, from_hashes, root, verify_proof, root_from_hashes_in_place,
}
use zincha_sdk.Crypto.Merkle.Proofs.{proof-verifies}
use zincha_sdk.Crypto.Merkle.InPlace.{in_place-root}

abbrev leaf : ℕ → Hash256
leaf n = replicate 32 n

abbrev leaves : List Hash256
leaves = leaf 1 ∷ leaf 2 ∷ leaf 3 ∷ []

proof-verifies_example :
    (p : MerkleProof) × (proof (from_hashes toy_crypto leaves) 2 ≡ ok (some p))
    × (p.leaf ≡ leaf 3)
    × (p.root ≡ root (from_hashes toy_crypto leaves))
    × (verify_proof toy_crypto p ≡ true)
proof-verifies_example = proof-verifies toy_crypto leaves 2 {x = leaf 3} refl

in_place-root_example :
    let top = root (from_hashes toy_crypto leaves) in
    (root_from_hashes_in_place toy_crypto leaves ≡ some (top, top ∷ []))
    × (root_from_hashes_in_place toy_crypto [] ≡ some (root (from_hashes toy_crypto []), []))
in_place-root_example = in_place-root toy_crypto (leaf 1) (leaf 2 ∷ leaf 3 ∷ [])
