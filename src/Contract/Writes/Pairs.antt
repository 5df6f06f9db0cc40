-- ===== src/Contract/Writes/Pairs.antt =====
-- contract.rs: the two loops that merge a map and a set of keys, as what they say of each key.
use zincha_sdk.Base.{
  ◌≡◌, refl, inl, inr, Bool, true, false, not, ◌&&◌, ◌||◌, Option, none, some, List, [], ◌∷◌, arith,
  if◌then◌else◌, Bool-cases, is_some, Eq, ◌==◌, nat_eq, ==_refl, ==_iff, contains, distinct,
  list_eq, option_eq,
}
use zincha_sdk.Contract.Writes.{
  allowance_key_eq, balance_key_eq, find, remove_key, insert_key, add_member, drop_member,
  merge_removed, merge_written, merge_pair,
}

-- What staged writes say of a key: a value, a removal, or nothing.
pub data Change (V : Type 0) : Type 0 where
  written_as : V → Change V
  gone untouched : Change V

-- the later word on a key, where there is one
abbrev pub over : {V : Type 0} → Change V → Change V → Change V
over untouched c = c
over d c = d

abbrev pub change_of : {V : Type 0} → Option V → Bool → Change V
change_of (some v) removed = written_as v
change_of none true = gone
change_of none false = untouched

abbrev or_else : {V : Type 0} → Option V → Option V → Option V
or_else none b = b
or_else a b = a

module _ {K : Type 0} ⦃e : Eq K⦄ where
  contains-drop_member :
      (s : List K) (k k' : K) → contains (drop_member s k) k' ≡ (not (k' == k) && contains s k')
  contains-drop_member [] k k' = ground arith
  contains-drop_member (x ∷ s) k k' =
      ground (arith, contains-drop_member s k k', ==_iff k x, ==_iff k' k, ==_iff k' x)

  contains-add_member :
      (s : List K) (k k' : K) → contains (add_member s k) k' ≡ (k' == k || contains s k')
  contains-add_member s k k' = elim (Bool-cases (contains s k)) [
    | inl old ↦ elim (Bool-cases (k' == k)) [
      | inl same ↦ let eq = (==_iff k' k).0 same in rw old (rw same (rw eq old))
      | inr other ↦ rw (old, other) refl
    ]
    | inr new ↦ rw new refl
  ]

module _ {K V : Type 0} ⦃e : Eq K⦄ where
  abbrev pub change : List (K × V) × List K → K → Change V
  change (written, removed) k = change_of (find written k) (contains removed k)

  abbrev keys : List (K × V) → List K
  keys [] = []
  keys ((k, v) ∷ m) = k ∷ keys m

  -- No key is written twice.
  abbrev pub IsMap : List (K × V) × List K → Type 0
  IsMap (written, removed) = distinct (keys written) ≡ true

  -- No key is both written and removed.
  abbrev pub IsDisjoint : List (K × V) × List K → Type 0
  IsDisjoint (written, removed) = (k : K) → contains removed k ≡ true → find written k ≡ none

  find-remove_key :
      (m : List (K × V)) (k k' : K)
      → find (remove_key m k) k' ≡ (if k' == k then none else find m k')
  find-remove_key [] k k' = ground arith
  find-remove_key ((j, v) ∷ m) k k' =
      ground (arith, find-remove_key m k k', ==_iff k j, ==_iff k' k, ==_iff k' j)

  find-insert_key :
      (m : List (K × V)) (k : K) (v : V) (k' : K)
      → find (insert_key m k v) k' ≡ (if k' == k then some v else find m k')
  find-insert_key m k v k' = ground (arith, find-remove_key m k k')

  find-none_of_keys : (m : List (K × V)) (k : K) → contains (keys m) k ≡ false → find m k ≡ none
  find-none_of_keys [] k h = refl
  find-none_of_keys ((j, v) ∷ m) k h = ground (arith, find-none_of_keys m k)

  -- Removals take their keys out.
  merge_removed-find :
      (ks : List K) (m : List (K × V)) (s : List K) (k : K)
      → find (merge_removed ks (m, s)).0 k ≡ (if contains ks k then none else find m k)
  unfolding merge_removed
  merge_removed-find [] m s k = refl
  merge_removed-find (j ∷ ks) m s k =
      ground
        (arith, merge_removed-find ks (remove_key m j) (add_member s j) k, find-remove_key m j k)

  merge_removed-contains :
      (ks : List K) (m : List (K × V)) (s : List K) (k : K)
      → contains (merge_removed ks (m, s)).1 k ≡ (contains ks k || contains s k)
  unfolding merge_removed
  merge_removed-contains [] m s k = refl
  merge_removed-contains (j ∷ ks) m s k = ground (
    arith,
    merge_removed-contains ks (remove_key m j) (add_member s j) k,
    contains-add_member s j k,
  )

  -- Writes put their values in.
  merge_written-find :
      (w : List (K × V)) (m : List (K × V)) (s : List K) (k : K)
      → distinct (keys w) ≡ true
      → find (merge_written w (m, s)).0 k ≡ or_else (find w k) (find m k)
  unfolding merge_written
  merge_written-find [] m s k d = refl
  merge_written-find ((j, v) ∷ w) m s k d = ground (
    arith,
    merge_written-find w (insert_key m j v) (drop_member s j) k,
    find-insert_key m j v k,
    find-none_of_keys w k,
    ==_iff k j,
  )

  merge_written-contains :
      (w : List (K × V)) (m : List (K × V)) (s : List K) (k : K)
      → contains (merge_written w (m, s)).1 k ≡ (not (is_some (find w k)) && contains s k)
  unfolding merge_written
  merge_written-contains [] m s k = refl
  merge_written-contains ((j, v) ∷ w) m s k = ground (
    arith,
    merge_written-contains w (insert_key m j v) (drop_member s j) k,
    contains-drop_member s j k,
  )

  pub merge_pair-change :
      (own other : List (K × V) × List K) (k : K)
      → IsMap other
      → change (merge_pair own other) k ≡ over (change other k) (change own k)
  unfolding merge_pair
  merge_pair-change (m, s) (w, r) k d = ground (
    arith,
    merge_written-find w (merge_removed r (m, s)).0 (merge_removed r (m, s)).1 k d,
    merge_written-contains w (merge_removed r (m, s)).0 (merge_removed r (m, s)).1 k,
    merge_removed-find r m s k,
    merge_removed-contains r m s k,
  )

  contains-remove_key :
      (m : List (K × V)) (k k' : K)
      → contains (keys (remove_key m k)) k' ≡ (not (k' == k) && contains (keys m) k')
  contains-remove_key [] k k' = ground arith
  contains-remove_key ((j, v) ∷ m) k k' =
      ground (arith, contains-remove_key m k k', ==_iff k j, ==_iff k' k, ==_iff k' j)

  remove_key-IsMap :
      (m : List (K × V)) (k : K)
      → distinct (keys m) ≡ true
      → distinct (keys (remove_key m k)) ≡ true
  remove_key-IsMap [] k d = refl
  remove_key-IsMap ((j, v) ∷ m) k d =
      ground (arith, remove_key-IsMap m k, contains-remove_key m k j)

  insert_key-IsMap :
      (m : List (K × V)) (k : K) (v : V)
      → distinct (keys m) ≡ true
      → distinct (keys (insert_key m k v)) ≡ true
  insert_key-IsMap m k v d =
      ground (arith, remove_key-IsMap m k d, contains-remove_key m k k, ==_refl k)

  merge_removed-IsMap :
      (ks : List K) (m : List (K × V)) (s : List K)
      → distinct (keys m) ≡ true
      → distinct (keys (merge_removed ks (m, s)).0) ≡ true
  unfolding merge_removed
  merge_removed-IsMap [] m s d = d
  merge_removed-IsMap (k ∷ ks) m s d =
      merge_removed-IsMap ks (remove_key m k) (add_member s k) (remove_key-IsMap m k d)

  merge_written-IsMap :
      (w : List (K × V)) (m : List (K × V)) (s : List K)
      → distinct (keys m) ≡ true
      → distinct (keys (merge_written w (m, s)).0) ≡ true
  unfolding merge_written
  merge_written-IsMap [] m s d = d
  merge_written-IsMap ((k, v) ∷ w) m s d =
      merge_written-IsMap w (insert_key m k v) (drop_member s k) (insert_key-IsMap m k v d)

  abbrev pub IsStaged : List (K × V) × List K → Type 0
  IsStaged pair = IsMap pair × IsDisjoint pair

  pub merge_pair-IsStaged :
      (own other : List (K × V) × List K)
      → IsStaged own
      → IsStaged other
      → IsStaged (merge_pair own other)
  unfolding merge_pair
  merge_pair-IsStaged (m, s) (w, r) own other = (
    merge_written-IsMap w (merge_removed r (m, s)).0 (merge_removed r (m, s)).1
        (merge_removed-IsMap r m s own.0),
    λ k h. ground (
      arith,
      h,
      merge_written-find w (merge_removed r (m, s)).0 (merge_removed r (m, s)).1 k other.0,
      merge_written-contains w (merge_removed r (m, s)).0 (merge_removed r (m, s)).1 k,
      merge_removed-find r m s k,
      merge_removed-contains r m s k,
      own.1 k,
    ),
  )
