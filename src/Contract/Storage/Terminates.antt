-- ===== src/Contract/Storage/Terminates.antt =====
-- contract.rs: the recursion of the storage root ends, without an index out of bounds, on every map.
use zincha_sdk.Base.{
  ℕ, zero, suc, ◌+◌, ◌<◌, ◌≡◌, refl, ◌∙◌, inl, inr, true, Option, some, List, [], ◌∷◌, map, arith,
  ltb, leb, ltb→lt, Bool-cases, length, set, take, drop, replicate, All, length-set, length-drop,
  nat_eq, list_eq, option_eq,
}
use zincha_sdk.Crypto.Bytes.{Bytes, Hash256, zero_hash}
use zincha_sdk.Crypto.Hash.{Crypto}
use zincha_sdk.Contract.Nibbles.{bytes_to_nibbles}
use zincha_sdk.Contract.Storage.{
  StorageMap, Entry, slice_from, put_child, split_value, fill_children, branch_root, subtree_root,
  nibble_entries, longest, compute_contract_storage_root,
}
use zincha_sdk.Contract.Storage.Hashes.{hash_leaf-some, hash_extension-some}
use zincha_sdk.Contract.Storage.Order.{
  lex_lt, IsStorageMap, All-map, bytes_to_nibbles-small, lex_lt-bytes_to_nibbles,
}
use zincha_sdk.Contract.Storage.Shared.{
  IsBelow, IsReady, IsReady-keys, Shares, shared_prefix-some, shared-IsReady,
}
use zincha_sdk.Contract.Storage.Runs.{runs-IsRuns, split_value-IsReady}

fill_children-some :
    (c : Crypto) (root_of : List Entry → Option Hash256) (children : List Hash256)
    (gs : List (ℕ × List Entry))
    → length children ≡ 16
    → All (λ g. (g.0 < 16) × (h : Hash256) × (root_of g.1 ≡ some h)) gs
    → (filled : List Hash256) × (fill_children c root_of children gs ≡ some filled)
unfolding fill_children put_child
fill_children-some c root_of children [] h k = (children, refl)
fill_children-some c root_of children ((index, run) ∷ gs) h k =
    let (small, child, eq) = k.0 in
    let inside : ltb index (length children) ≡ true = ground (arith, small, h) in
    rw eq (
      rw inside (
        fill_children-some c root_of (set children index child) gs
          (length-set children index child ∙ h) k.1))

branch_root-some :
    (c : Crypto) (fuel offset : ℕ) (es : List Entry)
    → ((run : List Entry)
        → 0 < length run
        → IsReady fuel (suc offset) run
        → (h : Hash256) × (subtree_root c fuel run (suc offset) ≡ some h))
    → IsReady (suc fuel) offset es
    → (h : Hash256) × (branch_root c (λ run. subtree_root c fuel run (suc offset)) offset es
        ≡ some h)
unfolding branch_root
branch_root-some c fuel offset es below r =
    let (ready, deep) = split_value-IsReady (suc fuel) offset es r in
    let (gs, eq, are_runs, keeps) = runs-IsRuns fuel offset (split_value offset es).1 ready deep in
    let roots =
      All-map gs (λ g run. let (h, h_eq) = below g.1 run.1 run.3 in (run.0, h, h_eq)) are_runs in
    let (filled, filled_eq) =
      fill_children-some c (λ run. subtree_root c fuel run (suc offset)) (replicate 16 zero_hash) gs
        refl roots in
    rw eq (rw filled_eq (_, refl))

pub subtree_root-some :
    (c : Crypto) (fuel : ℕ) (es : List Entry) (offset : ℕ)
    → 0 < length es
    → IsReady fuel offset es
    → (h : Hash256) × (subtree_root c fuel es offset ≡ some h)
unfolding subtree_root slice_from
subtree_root-some c fuel [] offset pos r = absurd (omega arith)
subtree_root-some c zero (e ∷ es) offset pos r = absurd (omega (arith, r.0.0, r.0.1))
subtree_root-some c (suc fuel) (e ∷ []) offset pos r =
    let inside : leb offset (length e.0) ≡ true = ground (arith, r.0.0) in
    rw inside (hash_leaf-some c (drop offset e.0) e.1)
subtree_root-some c (suc fuel) (e ∷ f ∷ es) offset pos r =
    let inside : leb offset (length e.0) ≡ true = ground (arith, r.0.0) in
    let first = drop offset e.0 in
    let reached = All-map (f ∷ es) (λ g key. key.0) (IsReady-keys (suc fuel) offset (f ∷ es) r.2) in
    let (s, eq, le, shares) = shared_prefix-some offset first (length first) (f ∷ es) reached in
    elim (Bool-cases (ltb 0 s)) [
      | inl extends ↦
          let own : Shares s offset first e =
            (refl, omega (arith, le, length-drop offset e.0, r.0.0)) in
          let deeper =
            shared-IsReady fuel offset s first (e ∷ f ∷ es) (ltb→lt 0 s extends) (own, shares) r in
          let (child, child_eq) =
            subtree_root-some c fuel (e ∷ f ∷ es) (offset + s) (omega arith) deeper in
          rw inside (rw eq (rw extends (rw child_eq (hash_extension-some c (take s first) child))))
      | inr branches ↦ rw inside (
          rw eq (
            rw branches (
              branch_root-some c fuel offset (e ∷ f ∷ es)
                (λ run some_entry ready. subtree_root-some c fuel run (suc offset) some_entry ready)
                r)))
    ]

longest-bound :
    (bound : ℕ) (es : List Entry) → longest es < bound → All (λ e. length e.0 < bound) es
unfolding longest
longest-bound bound [] h = tt
longest-bound bound (e ∷ es) h = (omega (arith, h), longest-bound bound es (omega (arith, h)))

ascending-IsBelow :
    (key : Bytes) (storage : StorageMap)
    → All (λ k. lex_lt key k ≡ true) (map (λ entry. entry.0) storage)
    → (value : Bytes) → All (IsBelow 0 (bytes_to_nibbles key, value)) (nibble_entries storage)
unfolding nibble_entries
ascending-IsBelow key [] h value = tt
ascending-IsBelow key (e ∷ es) h value =
    (lex_lt-bytes_to_nibbles key e.0 h.0, ascending-IsBelow key es h.1 value)

nibble_entries-IsReady :
    (fuel : ℕ) (storage : StorageMap)
    → IsStorageMap storage
    → All (λ e. length e.0 < fuel) (nibble_entries storage)
    → IsReady fuel 0 (nibble_entries storage)
unfolding nibble_entries
nibble_entries-IsReady fuel [] h bound = tt
nibble_entries-IsReady fuel (e ∷ es) h bound = (
  (omega arith, omega (arith, bound.0), bytes_to_nibbles-small e.0 h.0.0),
  ascending-IsBelow e.0 es h.1.0 e.1,
  nibble_entries-IsReady fuel es (h.0.1, h.1.1) bound.1,
)

pub some_entry : (e : Entry) (es : StorageMap) → 0 < length (nibble_entries (e ∷ es))
unfolding nibble_entries
some_entry e es = omega arith

-- The entries of a map are ready for the fuel that the root is given.
pub entries-IsReady :
    (e : Entry) (es : StorageMap)
    → IsStorageMap (e ∷ es)
    → IsReady (suc (longest (nibble_entries (e ∷ es)))) 0 (nibble_entries (e ∷ es))
entries-IsReady e es h =
    let entries = nibble_entries (e ∷ es) in
    let fuel = suc (longest entries) in
    nibble_entries-IsReady fuel (e ∷ es) h (longest-bound fuel entries (omega arith))

-- The recursion of the storage root ends without a panic on every map, by a fuel of one more than
-- the length in half bytes of its longest key.
pub storage_root-terminates :
    (c : Crypto) (storage : StorageMap)
    → IsStorageMap storage
    → (root : Hash256) × (compute_contract_storage_root c storage ≡ some root)
unfolding compute_contract_storage_root
storage_root-terminates c [] h = (zero_hash, refl)
storage_root-terminates c (e ∷ es) h =
    let entries = nibble_entries (e ∷ es) in
    let fuel = suc (longest entries) in
    subtree_root-some c fuel entries 0 (some_entry e es)
      (nibble_entries-IsReady fuel (e ∷ es) h (longest-bound fuel entries (omega arith)))
