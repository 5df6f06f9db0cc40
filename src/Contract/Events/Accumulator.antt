-- ===== src/Contract/Events/Accumulator.antt =====
-- contract.rs: the accumulator of the event archive, by blocks.
use zincha_sdk.Base.{
  ℕ, zero, suc, ◌<◌, ◌≡◌, refl, sym, ap, ◌∙◌, Option, some, List, [], ◌∷◌, ◌++◌, map, arith, length,
  All, length-append, nat_eq, list_eq, option_eq,
}
use mathlib.Core.List.{Perm}
use zincha_sdk.Base.Sort.{sort, sort-perm, sort-eq_of_perm}
use zincha_sdk.Crypto.Bytes.{Bytes, Hash256, zero_hash, to_be_bytes}
use zincha_sdk.Crypto.Hash.{Crypto, hash_bytes}
use zincha_sdk.Crypto.Merkle.{and_then, root_from_hashes_in_place}
use zincha_sdk.Crypto.Merkle.InPlace.{in_place-root}
use zincha_sdk.Contract.Events.{
  ContractEvent, in_block_le, event_le, sort_contract_events_canonically, split_block,
  hash_contract_event, root_of, compute_contract_event_block_root,
  advance_contract_event_archive_accumulator, accumulate,
  compute_contract_event_archive_accumulator,
}
use zincha_sdk.Base.Sort.Parts.{sort-All, sort-length, sort-append, sort-ext}
use zincha_sdk.Contract.Events.Order.{
  event_le-IsLinear, ContractEvent-set, same_block_le, later_blocks,
}
use zincha_sdk.Contract.Events.Blocks.{
  split_block-later, split_block-whole, split_block-length, split_block-All, and_then_assoc,
  and_then-ext, and_then-some,
}

module _ (c : Crypto) (serialize : ContractEvent → Bytes) where
  -- Fuel beyond the number of events changes nothing.
  accumulate-fuel :
      (f g : ℕ) (a : Hash256) (es : List ContractEvent)
      → length es < f
      → length es < g
      → accumulate c serialize f a es ≡ accumulate c serialize g a es
  unfolding accumulate
  accumulate-fuel zero g a es h k = absurd (omega arith)
  accumulate-fuel (suc f) zero a es h k = absurd (omega arith)
  accumulate-fuel (suc f) (suc g) a [] h k = refl
  accumulate-fuel (suc f) (suc g) a (e ∷ es) h k =
      let shorter = split_block-length e.block_number es in
      and_then-ext _ _ _ (λ advanced.
        accumulate-fuel f g advanced (split_block e.block_number es).1 (omega (arith, shorter))
          (omega (arith, shorter)))

  accumulate-append :
      (f b : ℕ) (a : Hash256) (xs ys : List ContractEvent)
      → All (λ e. e.block_number < b) xs
      → All (λ e. e.block_number ≡ b) ys
      → length (xs ++ ys) < f
      → accumulate c serialize f a (xs ++ ys)
        ≡ and_then (accumulate c serialize f a xs) (λ a'. accumulate c serialize f a' ys)
  unfolding accumulate
  accumulate-append zero b a xs ys h k fuel = absurd (omega arith)
  accumulate-append (suc f) b a [] ys h k fuel = refl
  accumulate-append (suc f) b a (x ∷ xs) ys h k fuel =
      let n = x.block_number in
      let later = (split_block n xs).1 in
      let shorter = split_block-length n xs in
      rw (split_block-later b n xs ys h.0 k) (
        and_then-ext _ _ _ (λ advanced.
          accumulate-append f b advanced later ys (split_block-All _ n xs h.1) k
            (omega (arith, shorter, length-append xs ys, length-append later ys))
          ∙ and_then-ext _ _ _ (λ a'.
            accumulate-fuel f (suc f) a' ys (omega (arith, length-append xs ys))
              (omega (arith, length-append xs ys))))
        ∙ sym (
            and_then_assoc
              (advance_contract_event_archive_accumulator c serialize a n
                (x ∷ (split_block n xs).0))
              (λ a'. accumulate c serialize f a' later)
              (λ a'. accumulate c serialize (suc f) a' ys)))

  accumulate-block :
      (f b : ℕ) (a : Hash256) (ys : List ContractEvent)
      → All (λ e. e.block_number ≡ b) ys
      → 1 < f
      → accumulate c serialize f a ys
        ≡ advance_contract_event_archive_accumulator c serialize a b ys
  unfolding accumulate
  accumulate-block zero b a ys k h = absurd (omega arith)
  accumulate-block (suc zero) b a ys k h = absurd (omega arith)
  accumulate-block (suc (suc f)) b a [] k h = refl
  accumulate-block (suc (suc f)) b a (y ∷ ys) k h =
      let body : ℕ → List ContractEvent × List ContractEvent → Option Hash256 = λ n r.
        and_then (advance_contract_event_archive_accumulator c serialize a n (y ∷ r.0))
          (λ advanced. accumulate c serialize (suc f) advanced r.1) in
      let split = ap (λ n. split_block n ys) k.0 ∙ split_block-whole b ys k.1 in
      ap (body y.block_number) split
      ∙ ap (λ n. body n (ys, [])) k.0
      ∙ and_then-some (advance_contract_event_archive_accumulator c serialize a b (y ∷ ys))

  advance-ext :
      (b : ℕ) (a : Hash256) (xs ys : List ContractEvent)
      → sort in_block_le xs ≡ sort in_block_le ys
      → length xs ≡ length ys
      → advance_contract_event_archive_accumulator c serialize a b xs
        ≡ advance_contract_event_archive_accumulator c serialize a b ys
  unfolding advance_contract_event_archive_accumulator compute_contract_event_block_root
  advance-ext b a [] [] h k = refl
  advance-ext b a [] (y ∷ ys) h k = absurd (omega arith)
  advance-ext b a (x ∷ xs) [] h k = absurd (omega arith)
  advance-ext b a (x ∷ xs) (y ∷ ys) h k =
      let body : List ContractEvent → ℕ → Option Hash256 = λ sorted count.
        and_then
          (root_of c serialize
            (root_from_hashes_in_place c (map (hash_contract_event c serialize) sorted)))
          (λ block_root.
            some (hash_bytes c (a ++ to_be_bytes b ++ to_be_bytes count ++ block_root))) in
      ap (λ sorted. body sorted (length (x ∷ xs))) h ∙ ap (body (sort in_block_le (y ∷ ys))) k

  advance-sort :
      (b : ℕ) (a : Hash256) (ys : List ContractEvent)
      → All (λ e. e.block_number ≡ b) ys
      → advance_contract_event_archive_accumulator c serialize a b (sort event_le ys)
        ≡ advance_contract_event_archive_accumulator c serialize a b ys
  advance-sort b a ys k =
      let agree = sort-ext (λ e. e.block_number ≡ b) in_block_le event_le (same_block_le b) in
      let again =
        sort-eq_of_perm event_le event_le-IsLinear ContractEvent-set
          (sort-perm event_le event_le-IsLinear ys) in
      advance-ext b a (sort event_le ys) ys
        (agree (sort event_le ys) (sort-All event_le _ ys k) ∙ again ∙ sym (agree ys k))
        (sort-length event_le ys)

  -- The accumulator of an archive and a later block is the accumulator of the archive, advanced by the
  -- block.
  pub accumulator-append :
      (b : ℕ) (archive block : List ContractEvent)
      → All (λ e. e.block_number < b) archive
      → All (λ e. e.block_number ≡ b) block
      → compute_contract_event_archive_accumulator c serialize (archive ++ block)
        ≡ and_then
            (compute_contract_event_archive_accumulator c serialize archive)
            (λ previous. advance_contract_event_archive_accumulator c serialize previous b block)
  unfolding compute_contract_event_archive_accumulator sort_contract_events_canonically
  accumulator-append b archive block h k =
      let xs = sort event_le archive in
      let ys = sort event_le block in
      let f = suc (suc (length (xs ++ ys))) in
      rw (sort-append event_le archive block (later_blocks b archive block h k)) (
        accumulate-fuel (suc (length (xs ++ ys))) f zero_hash (xs ++ ys) (omega arith) (omega arith)
        ∙ accumulate-append f b zero_hash xs ys (sort-All event_le _ archive h)
            (sort-All event_le _ block k) (omega arith)
        ∙ ap (λ o. and_then o (λ a. accumulate c serialize f a ys))
            (accumulate-fuel f (suc (length xs)) zero_hash xs (omega (arith, length-append xs ys))
              (omega arith))
        ∙ and_then-ext (accumulate c serialize (suc (length xs)) zero_hash xs) _ _ (λ a.
          accumulate-block f b a ys (sort-All event_le _ block k) (omega arith)
          ∙ advance-sort b a block k))

  advance-some :
      (b : ℕ) (a : Hash256) (ys : List ContractEvent)
      → (h : Hash256) × (advance_contract_event_archive_accumulator c serialize a b ys ≡ some h)
  unfolding advance_contract_event_archive_accumulator compute_contract_event_block_root
  advance-some b a [] = (a, refl)
  advance-some b a (y ∷ ys) =
      let hashes = map (hash_contract_event c serialize) (sort in_block_le (y ∷ ys)) in
      let (top, eq) = some_root hashes in rw eq (_, refl)
    where
      some_root :
          (hashes : List Hash256)
          → (h : Hash256) × (root_of c serialize (root_from_hashes_in_place c hashes) ≡ some h)
      some_root [] = rw ((in_place-root c zero_hash []).1) (_, refl)
      some_root (l ∷ ls) = rw ((in_place-root c l ls).0) (_, refl)

  accumulate-some :
      (f : ℕ) (a : Hash256) (es : List ContractEvent)
      → length es < f
      → (h : Hash256) × (accumulate c serialize f a es ≡ some h)
  unfolding accumulate
  accumulate-some zero a es h = absurd (omega arith)
  accumulate-some (suc f) a [] h = (a, refl)
  accumulate-some (suc f) a (e ∷ es) h =
      let (block, later) = split_block e.block_number es in
      let (advanced, eq) = advance-some e.block_number a (e ∷ (split_block e.block_number es).0) in
      rw eq (
        accumulate-some f advanced (split_block e.block_number es).1
          (omega (arith, split_block-length e.block_number es)))

  -- The accumulator of an archive exists, the loop ending with no panic, and is the same in whatever
  -- order the events are given.
  pub accumulator_perm :
      (xs ys : List ContractEvent)
      → Perm xs ys
      → (h : Hash256) × (compute_contract_event_archive_accumulator c serialize xs ≡ some h)
        × (compute_contract_event_archive_accumulator c serialize ys ≡ some h)
  unfolding compute_contract_event_archive_accumulator sort_contract_events_canonically
  accumulator_perm xs ys p =
      let sorted = sort event_le xs in
      let (h, eq) = accumulate-some (suc (length sorted)) zero_hash sorted (omega arith) in
      let same = sort-eq_of_perm event_le event_le-IsLinear ContractEvent-set p in
      (h, eq, ap (λ l. accumulate c serialize (suc (length l)) zero_hash l) (sym same) ∙ eq)
