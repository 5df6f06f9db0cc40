-- ===== src/Crypto/Merkle.antt =====
-- crates/zincha-primitives/src/crypto/merkle.rs.
pub mod Proofs
pub mod InPlace
use zincha_sdk.Base.{
  ℕ, zero, suc, ◌+◌, ◌-◌, ◌*◌, ◌/◌, ◌%◌, min, Bool, Option, none, some, List, [], ◌∷◌, map, ltb,
  leb, if◌then◌else◌, length, get_elem?, set, take, ◌==◌, nat_eq, list_eq, option_eq, Result, ok,
  err,
}
use zincha_sdk.Crypto.Bytes.{Bytes, Hash256, zero_hash}
use zincha_sdk.Crypto.Hash.{Crypto, hash_bytes, combine_hashes}

-- The layers, leaves first.
pub record MerkleTree : Type 0 where
  pub layers : List (List Hash256)

pub record MerkleProof : Type 0 where
  pub leaf : Hash256
  pub siblings : List (Hash256 × Bool)
  pub root : Hash256

-- b"empty"
abbrev empty_text : Bytes
empty_text = 101 ∷ 109 ∷ 112 ∷ 116 ∷ 121 ∷ []

-- `self.layers.last()` and its first hash
unfoldable pub last_head : List (List Hash256) → Hash256
last_head [] = zero_hash
last_head ([] ∷ []) = zero_hash
last_head ((h ∷ hs) ∷ []) = h
last_head (l ∷ m ∷ ls) = last_head (m ∷ ls)

unfoldable pub root : MerkleTree → Hash256
unfolding last_head
root t = last_head t.layers

-- `self.layers.first().map_or(0, |l| l.len())`
unfoldable pub leaf_count : MerkleTree → ℕ
leaf_count t = elim t.layers [ [] ↦ 0 | l ∷ ls ↦ length l ]

-- `&self.layers[..self.layers.len() - 1]`
unfoldable pub all_but_last : List (List Hash256) → List (List Hash256)
all_but_last [] = []
all_but_last (l ∷ []) = []
all_but_last (l ∷ m ∷ ls) = l ∷ all_but_last (m ∷ ls)

unfoldable pub sibling_index : ℕ → ℕ
sibling_index idx = if idx % 2 == 0 then idx + 1 else idx - 1

-- The hash beside index `idx`, or the one at `idx` if there is none; `none` where the code would
-- index out of bounds.
unfoldable pub sibling_at : List Hash256 → ℕ → Option Hash256
unfolding sibling_index
sibling_at layer idx =
    if ltb (sibling_index idx) (length layer)
    then get_elem? layer (sibling_index idx)
    else get_elem? layer idx

-- the loop of `proof` over the layers below the root
unfoldable pub siblings_from : List (List Hash256) → ℕ → Option (List (Hash256 × Bool))
unfolding sibling_at
siblings_from [] idx = some []
siblings_from (layer ∷ rest) idx = elim (sibling_at layer idx) [
  | none ↦ none
  | some sibling ↦ elim (siblings_from rest (idx / 2)) [
    | none ↦ none
    | some above ↦ some ((sibling, idx % 2 == 0) ∷ above)
  ]
]

-- A panic of the code: an index out of bounds.
pub data Panic : Type 0 where
  out_of_bounds : Panic

-- the proof, once its leaf and its siblings are read
abbrev assemble :
    Hash256 → Option Hash256 → Option (List (Hash256 × Bool)) → Result Panic (Option MerkleProof)
assemble r (some leaf) (some siblings) =
    ok (some (record { leaf = leaf; siblings = siblings; root = r }))
assemble r _ _ = err out_of_bounds

-- `self.layers[0][leaf_index]`
unfoldable pub leaf_at : MerkleTree → ℕ → Option Hash256
leaf_at t i = elim t.layers [ [] ↦ none | l ∷ ls ↦ get_elem? l i ]

unfoldable pub proof : MerkleTree → ℕ → Result Panic (Option MerkleProof)
unfolding siblings_from all_but_last root leaf_count leaf_at
proof t leaf_index =
    if leb (leaf_count t) leaf_index
    then ok none
    else assemble (root t) (leaf_at t leaf_index) (siblings_from (all_but_last t.layers) leaf_index)

-- a step that runs where the one before it did not panic
abbrev pub and_then {ℓ κ} : {A : Type ℓ} {B : Type κ} → Option A → (A → Option B) → Option B
and_then none f = none
and_then (some a) f = f a

module _ (c : Crypto) where
  -- the inner loop: one layer from the one below, the last hash of an odd layer paired with itself
  unfoldable pub next_layer : List Hash256 → List Hash256
  next_layer [] = []
  next_layer (l ∷ []) = combine_hashes c l l ∷ []
  next_layer (l ∷ r ∷ rest) = combine_hashes c l r ∷ next_layer rest

  -- The outer loop, on fuel; a layer of `n` hashes takes fewer than `n` rounds.
  unfoldable pub build_layers : ℕ → List Hash256 → List (List Hash256)
  unfolding next_layer
  build_layers zero current = []
  build_layers (suc fuel) current =
      let above = build_layers fuel (next_layer current) in
      if length current == 1 then current ∷ [] else current ∷ above

  unfoldable pub from_hashes : List Hash256 → MerkleTree
  unfolding build_layers
  from_hashes [] = record { layers = (hash_bytes c empty_text ∷ []) ∷ [] }
  from_hashes (l ∷ ls) = record { layers = build_layers (length (l ∷ ls)) (l ∷ ls) }

  unfoldable pub from_data : List Bytes → MerkleTree
  unfolding from_hashes
  from_data items = from_hashes (map (hash_bytes c) items)

  -- the loop of `verify_proof`
  unfoldable pub climb : Hash256 → List (Hash256 × Bool) → Hash256
  climb current [] = current
  climb current ((sibling, sibling_is_right) ∷ rest) =
      climb
        (if sibling_is_right
          then combine_hashes c current sibling
          else combine_hashes c sibling current)
        rest

  unfoldable pub verify_proof : MerkleProof → Bool
  unfolding climb
  verify_proof p = climb p.leaf p.siblings == p.root

  -- `hashes[write_index] = combine_hashes(..)`, of two reads; `none` is an index out of bounds
  unfoldable pub write_pair :
      ℕ → List Hash256 → Option Hash256 → Option Hash256 → Option (List Hash256)
  write_pair write_index hashes (some l) (some r) =
      some (set hashes write_index (combine_hashes c l r))
  write_pair write_index hashes _ _ = none

  -- the body of the `for` loop
  unfoldable pub fold_pair : ℕ → ℕ → List Hash256 → Option (List Hash256)
  fold_pair width write_index hashes =
      let left_index = write_index * 2 in
      let right_index = min (left_index + 1) (width - 1) in
      write_pair write_index hashes (get_elem? hashes left_index) (get_elem? hashes right_index)

  -- the `for` loop, with `rounds` left from `write_index`
  unfoldable pub fold_width : ℕ → ℕ → ℕ → List Hash256 → Option (List Hash256)
  fold_width zero width write_index hashes = some hashes
  fold_width (suc rounds) width write_index hashes =
      and_then (fold_pair width write_index hashes)
        (λ h. fold_width rounds width (suc write_index) h)

  -- the `while` loop; `none` is an index out of bounds or spent fuel
  unfoldable pub fold_all : ℕ → ℕ → List Hash256 → Option (List Hash256)
  fold_all zero width hashes = none
  fold_all (suc fuel) width hashes =
      let next_width = (width + 1) / 2 in
      let step =
        and_then (fold_width next_width width 0 hashes)
          (λ h. fold_all fuel next_width (take next_width h)) in
      if ltb 1 width then step else some hashes

  -- `hashes[0]`, with the buffer that is left
  unfoldable pub head_of : Option (List Hash256) → Option (Hash256 × List Hash256)
  head_of none = none
  head_of (some []) = none
  head_of (some (h ∷ hs)) = some (h, h ∷ hs)

  -- `root_from_hashes_in_place`: the root, and the buffer that is left
  unfoldable pub root_from_hashes_in_place : List Hash256 → Option (Hash256 × List Hash256)
  root_from_hashes_in_place [] = some (hash_bytes c empty_text, [])
  root_from_hashes_in_place (l ∷ ls) =
      head_of (fold_all (length (l ∷ ls)) (length (l ∷ ls)) (l ∷ ls))
