-- ===== src/Crypto/Merkle/Proofs.antt =====
-- merkle.rs: the layers of a tree end in one root, and every leaf's proof verifies.
use zincha_sdk.Base.{
  ℕ, zero, suc, ◌+◌, ◌/◌, ◌%◌, ◌≤◌, ◌<◌, ◌≡◌, refl, ◌∙◌, inl, inr, Bool, true, false, some, List,
  [], ◌∷◌, arith, leb, if◌then◌else◌, Bool-cases, length, get_elem?, ◌==◌, nat_eq, ==_refl, list_eq,
  option_eq, ok,
}
use zincha_sdk.Crypto.Bytes.{Hash256}
use zincha_sdk.Crypto.Hash.{Crypto, combine_hashes}
use zincha_sdk.Crypto.Merkle.{
  MerkleTree, MerkleProof, last_head, root, leaf_count, all_but_last, sibling_index, sibling_at,
  siblings_from, leaf_at, proof, next_layer, build_layers, from_hashes, climb, verify_proof,
}

sibling_index-suc : (i : ℕ) → sibling_index (suc (suc i)) ≡ suc (suc (sibling_index i))
unfolding sibling_index
sibling_index-suc i = ground arith

sibling_at-suc :
    (y z : Hash256) (l : List Hash256) (i : ℕ)
    → sibling_at (y ∷ z ∷ l) (suc (suc i)) ≡ sibling_at l i
unfolding sibling_at
sibling_at-suc y z l i = rw (sibling_index-suc i) (ground arith)

half-suc : (i : ℕ) → suc (suc i) / 2 ≡ suc (i / 2)
half-suc i = omega arith

parity-suc : (i : ℕ) → (suc (suc i) % 2 == 0) ≡ (i % 2 == 0)
parity-suc i = ground arith

pub all_but_last-cons :
    (l m : List Hash256) (ls ms : List (List Hash256))
    → ls ≡ m ∷ ms
    → (all_but_last (l ∷ ls) ≡ l ∷ all_but_last ls) × (last_head (l ∷ ls) ≡ last_head ls)
unfolding all_but_last last_head
all_but_last-cons l m ls ms e = rw e (refl, last_head-cons l)
  where
    last_head-cons : (l : List Hash256) → last_head (l ∷ m ∷ ms) ≡ last_head (m ∷ ms)
    last_head-cons [] = refl
    last_head-cons (h ∷ hs) = refl

siblings_from-cons :
    (l : List Hash256) (ls : List (List Hash256)) (idx : ℕ) (s : Hash256)
    (ss : List (Hash256 × Bool))
    → sibling_at l idx ≡ some s
    → siblings_from ls (idx / 2) ≡ some ss
    → siblings_from (l ∷ ls) idx ≡ some ((s, idx % 2 == 0) ∷ ss)
unfolding siblings_from
siblings_from-cons l ls idx s ss e f = rw (e, siblings_from) (rw f)

module _ (c : Crypto) where
  pub length-next_layer : (l : List Hash256) → length (next_layer c l) ≡ (length l + 1) / 2
  unfolding next_layer
  length-next_layer [] = refl
  length-next_layer (x ∷ []) = refl
  length-next_layer (x ∷ y ∷ l) = omega (arith, length-next_layer l)

  -- The hash above index `idx`, from the hash at `idx` and its sibling.
  abbrev above : ℕ → Hash256 → Hash256 → Hash256
  above idx x sibling =
      if idx % 2 == 0 then combine_hashes c x sibling else combine_hashes c sibling x

  next_layer-sibling :
      (l : List Hash256) (idx : ℕ) {x : Hash256}
      → get_elem? l idx ≡ some x
      → (s : Hash256) × (sibling_at l idx ≡ some s)
        × (get_elem? (next_layer c l) (idx / 2) ≡ some (above idx x s))
  unfolding next_layer sibling_at
  next_layer-sibling [] idx e = cc
  next_layer-sibling (y ∷ []) zero {x} e = (y, ground arith, ground arith)
  next_layer-sibling (y ∷ []) (suc idx) e = cc
  next_layer-sibling (y ∷ z ∷ l) zero {x} e = (z, ground arith, ground arith)
  next_layer-sibling (y ∷ z ∷ l) (suc zero) {x} e = (y, ground arith, ground arith)
  next_layer-sibling (y ∷ z ∷ l) (suc (suc idx)) {x} e =
      let (s, found, up) = next_layer-sibling l idx {x = x} e in
      (s, sibling_at-suc y z l idx ∙ found, rw (half-suc idx, parity-suc idx) up)

  pub length-half : (n fuel : ℕ) → 1 < n → n ≤ suc fuel → ((n + 1) / 2 ≤ fuel) × (1 ≤ (n + 1) / 2)
  length-half n fuel h k = omega arith

  pub build_layers-nonempty :
      (fuel : ℕ) (l : List Hash256)
      → 1 ≤ length l
      → length l ≤ fuel
      → (m : List Hash256) × (ms : List (List Hash256)) × (build_layers c fuel l ≡ m ∷ ms)
  unfolding build_layers
  build_layers-nonempty zero l h k = absurd (omega arith)
  build_layers-nonempty (suc fuel) l h k = elim (Bool-cases (length l == 1)) [
    | inl one ↦ rw one (l, [], refl)
    | inr more ↦ rw more (l, build_layers c fuel (next_layer c l), refl)
  ]

  pub build_layers-more :
      (fuel : ℕ) (l : List Hash256)
      → 1 < length l
      → build_layers c (suc fuel) l ≡ l ∷ build_layers c fuel (next_layer c l)
  unfolding build_layers
  build_layers-more fuel l h = ground arith

  climb-cons :
      (x s : Hash256) (b : Bool) (ss : List (Hash256 × Bool))
      → climb c x ((s, b) ∷ ss)
        ≡ climb c (if b then combine_hashes c x s else combine_hashes c s x) ss
  unfolding climb
  climb-cons x s b ss = refl

  -- The siblings of a leaf exist at every layer, and climbing by them from the leaf reaches the root.
  climb-root :
      (fuel : ℕ) (l : List Hash256) (idx : ℕ) {x : Hash256}
      → length l ≤ fuel
      → get_elem? l idx ≡ some x
      → (ss : List (Hash256 × Bool)) × (siblings_from (all_but_last (build_layers c fuel l)) idx
          ≡ some ss)
        × (climb c x ss ≡ last_head (build_layers c fuel l))
  climb-root zero [] idx k e = cc
  climb-root zero (y ∷ l) idx k e = absurd (omega arith)
  climb-root (suc fuel) [] idx k e = cc
  climb-root (suc fuel) (y ∷ []) zero {x} k e =
      unfold build_layers siblings_from all_but_last climb last_head in ([], refl, ground arith)
  climb-root (suc fuel) (y ∷ []) (suc idx) k e = cc
  climb-root (suc fuel) (y ∷ z ∷ r) idx {x} k e =
      let l = y ∷ z ∷ r in
      let n = next_layer c l in
      let sizes = length-half (length l) fuel (omega arith) k in
      let size = length-next_layer l in
      let (s, found, up) = next_layer-sibling l idx {x = x} e in
      let (m, ms, shape) = build_layers-nonempty fuel n (omega arith) (omega arith) in
      let (ss, siblings, top) = climb-root fuel n (idx / 2) {x = above idx x s} (omega arith) up in
      let (init, last) = all_but_last-cons l m (build_layers c fuel n) ms shape in
      rw (build_layers-more fuel l (omega arith), init, last)
        (
          (s, idx % 2 == 0) ∷ ss,
          siblings_from-cons l _ idx s ss found siblings,
          climb-cons x s _ ss ∙ top,
        )

  layers-first :
      (fuel : ℕ) (l : List Hash256)
      → 1 ≤ length l
      → length l ≤ fuel
      → (ms : List (List Hash256)) × (build_layers c fuel l ≡ l ∷ ms)
  unfolding build_layers
  layers-first zero l h k = absurd (omega arith)
  layers-first (suc fuel) l h k = elim (Bool-cases (length l == 1)) [
    | inl one ↦ rw one ([], refl)
    | inr more ↦ rw more (build_layers c fuel (next_layer c l), refl)
  ]

  get_elem?-bound :
      (l : List Hash256) (i : ℕ) {x : Hash256} → get_elem? l i ≡ some x → leb (length l) i ≡ false
  get_elem?-bound [] i e = cc
  get_elem?-bound (y ∷ l) zero e = ground arith
  get_elem?-bound (y ∷ l) (suc i) {x} e = let rest = get_elem?-bound l i {x = x} e in ground arith

  layers-verify :
      (t : MerkleTree) (leaves : List Hash256) (ms : List (List Hash256)) (i : ℕ)
      (ss : List (Hash256 × Bool)) {x : Hash256}
      → t.layers ≡ leaves ∷ ms
      → get_elem? leaves i ≡ some x
      → siblings_from (all_but_last t.layers) i ≡ some ss
      → climb c x ss ≡ last_head t.layers
      → (p : MerkleProof) × (proof t i ≡ ok (some p))
        × (p.leaf ≡ x)
        × (p.root ≡ root t)
        × (verify_proof c p ≡ true)
  unfolding proof verify_proof leaf_count leaf_at root
  layers-verify t leaves ms i ss {x} shape found siblings top =
      let p : MerkleProof = record { leaf = x; siblings = ss; root = last_head t.layers } in
      let here = get_elem?-bound leaves i {x = x} found in
      (p, rw (siblings, shape, here, found) refl, refl, refl, rw top (==_refl (last_head t.layers)))

  from_hashes-layers :
      (l : Hash256) (ls : List Hash256)
      → (from_hashes c (l ∷ ls)).layers ≡ build_layers c (length (l ∷ ls)) (l ∷ ls)
  unfolding from_hashes
  from_hashes-layers l ls = refl

  -- Every leaf of a tree built from leaf hashes has a proof: `proof` neither panics nor answers
  -- that there is none. The proof names that leaf and the tree's root, and it verifies.
  pub proof-verifies :
      (leaves : List Hash256) (i : ℕ) {x : Hash256}
      → get_elem? leaves i ≡ some x
      → (p : MerkleProof) × (proof (from_hashes c leaves) i ≡ ok (some p))
        × (p.leaf ≡ x)
        × (p.root ≡ root (from_hashes c leaves))
        × (verify_proof c p ≡ true)
  proof-verifies [] i e = cc
  proof-verifies (l ∷ ls) i {x} e =
      let leaves = l ∷ ls in
      let at = from_hashes-layers l ls in
      let (ms, shape) = layers-first (length leaves) leaves (omega arith) (omega arith) in
      let (ss, siblings, top) = climb-root (length leaves) leaves i {x = x} (omega arith) e in
      layers-verify (from_hashes c leaves) leaves ms i ss {x = x} (at ∙ shape) e (rw at siblings)
        (rw at top)
