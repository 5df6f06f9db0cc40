-- ===== src/Contract/Storage/Node.antt =====
-- contract.rs: the bytes that are hashed for a subtree.
use zincha_sdk.Base.{
  ℕ, suc, ◌+◌, ◌<◌, ◌≡◌, refl, inl, inr, true, false, Option, none, some, List, [], ◌∷◌, ◌++◌,
  arith, ltb, leb, ltb→lt, Bool-cases, length, take, drop, replicate, All, length-drop, nat_eq,
  list_eq, option_eq,
}
use zincha_sdk.Crypto.Bytes.{Bytes, Hash256, zero_hash}
use zincha_sdk.Crypto.Hash.{Crypto, hash_bytes}
use zincha_sdk.Crypto.Merkle.{and_then}
use zincha_sdk.Contract.Nibbles.{hex_prefix_encode}
use zincha_sdk.Contract.Storage.{
  Entry, slice_from, len_bytes, runs, split_value, hash_leaf, hash_extension, hash_branch,
  value_bytes, concat_hashes, fill_children, branch_root, subtree_root,
}
use zincha_sdk.Contract.Storage.Order.{All-map}
use zincha_sdk.Contract.Storage.Shared.{
  IsReady, IsReady-keys, Shares, shared_prefix-some, shared-IsReady,
}

pub and_then-eq_some {ℓ κ} :
    {A : Type ℓ} {B : Type κ} (o : Option A) (f : A → Option B) {b : B}
    → and_then o f ≡ some b
    → (a : A) × (o ≡ some a) × (f a ≡ some b)
and_then-eq_some none f h = cc
and_then-eq_some (some a) f h = (a, refl, h)

module _ (c : Crypto) where
  -- the bytes whose hash is the root of the entries, at a depth and with a fuel
  pub data Node (fuel offset : ℕ) : List Entry → Bytes → Type 0 where
    leaf :
        (key value encoded : Bytes)
        → hex_prefix_encode (drop offset key) true ≡ some encoded
        → Node fuel offset
            ((key, value) ∷ [])
            (1 ∷ (len_bytes encoded ++ (encoded ++ (len_bytes value ++ value))))
    extension :
        (first : Bytes) (es : List Entry) (shared : ℕ) (encoded : Bytes) (child : Hash256)
        → 0 < length es
        → All (Shares shared offset first) es
        → IsReady fuel (offset + shared) es
        → subtree_root c fuel es (offset + shared) ≡ some child
        → hex_prefix_encode (take shared first) false ≡ some encoded
        → Node fuel offset es (2 ∷ (len_bytes encoded ++ (encoded ++ child)))
    branch :
        (es : List Entry) (groups : List (ℕ × List Entry)) (children : List Hash256)
        → runs offset (split_value offset es).1 ≡ some groups
        → fill_children c
            (λ run. subtree_root c fuel run (suc offset))
            (replicate 16 zero_hash)
            groups
          ≡ some children
        → Node fuel offset es
            (3 ∷ (concat_hashes c children ++ value_bytes c (split_value offset es).0))

  branch-Node :
      (fuel offset : ℕ) (es : List Entry) {h : Hash256}
      → branch_root c (λ run. subtree_root c fuel run (suc offset)) offset es ≡ some h
      → (m : Bytes) × Node fuel offset es m × (h ≡ hash_bytes c m)
  unfolding branch_root hash_branch
  branch-Node fuel offset es e =
      let (groups, runs_eq, rest) = and_then-eq_some (runs offset (split_value offset es).1) _ e in
      let (children, fill_eq, top) = and_then-eq_some _ _ rest in
      (_, branch es groups children runs_eq fill_eq, cc)

  pub subtree_root-Node :
      (fuel offset : ℕ) (es : List Entry) {h : Hash256}
      → 0 < length es
      → IsReady (suc fuel) offset es
      → subtree_root c (suc fuel) es offset ≡ some h
      → (m : Bytes) × Node fuel offset es m × (h ≡ hash_bytes c m)
  unfolding subtree_root slice_from hash_leaf hash_extension
  subtree_root-Node fuel offset [] pos r e = absurd (omega arith)
  subtree_root-Node fuel offset ((key, value) ∷ []) pos r e =
      let inside : leb offset (length key) ≡ true = ground (arith, r.0.0) in
      let (encoded, eq, top) =
        and_then-eq_some (hex_prefix_encode (drop offset key) true) _ (rw inside at e) in
      (_, leaf key value encoded eq, cc)
  subtree_root-Node fuel offset ((key, value) ∷ f ∷ es) pos r e =
      let all = (key, value) ∷ f ∷ es in
      let inside : leb offset (length key) ≡ true = ground (arith, r.0.0) in
      let first = drop offset key in
      let reached = All-map (f ∷ es) (λ g k. k.0) (IsReady-keys (suc fuel) offset (f ∷ es) r.2) in
      let (s, eq, le, shares) = shared_prefix-some offset first (length first) (f ∷ es) reached in
      let at_first = rw inside at e in
      let at_shared = rw eq at at_first in
      elim (Bool-cases (ltb 0 s)) [
        | inl extends ↦
            let own : Shares s offset first (key, value) =
              (refl, omega (arith, le, length-drop offset key, r.0.0)) in
            let ext = rw extends at at_shared in
            let (child, child_eq, top) =
              and_then-eq_some (subtree_root c fuel all (offset + s)) _ ext in
            let (encoded, enc_eq, hashed) =
              and_then-eq_some (hex_prefix_encode (take s first) false) _ top in
            (
              _,
              extension first all s encoded child (omega arith) (own, shares)
                  (shared-IsReady fuel offset s first all (ltb→lt 0 s extends) (own, shares) r)
                  child_eq enc_eq,
              cc,
            )
        | inr branches ↦ branch-Node fuel offset all (rw branches at at_shared)
      ]
