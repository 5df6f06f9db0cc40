-- ===== src/Crypto/Merkle/InPlace.antt =====
-- merkle.rs: the root that is computed in the leaves' own buffer is the root of the tree.
use zincha_sdk.Base.{
  ℕ, zero, suc, ◌+◌, ◌-◌, ◌*◌, ◌/◌, ◌≤◌, ◌<◌, min, ◌≡◌, refl, sym, ap, ◌∙◌, inl, inr, some, List,
  [], ◌∷◌, ◌++◌, arith, ltb, lt→ltb, Bool-cases, length, get_elem?, set, take, drop, length-set,
  nat_eq, list_eq, option_eq,
}
use zincha_sdk.Crypto.Bytes.{Hash256}
use zincha_sdk.Crypto.Hash.{Crypto, combine_hashes}
use zincha_sdk.Crypto.Merkle.{
  last_head, root, next_layer, build_layers, from_hashes, write_pair, and_then, head_of, fold_pair,
  fold_width, fold_all, root_from_hashes_in_place,
}
use zincha_sdk.Crypto.Merkle.Proofs.{
  length-next_layer, all_but_last-cons, build_layers-nonempty, build_layers-more,
}

-- A write below the part that is kept does not show in it.
drop-set : (h : List Hash256) (k n : ℕ) (v : Hash256) → k < n → drop n (set h k v) ≡ drop n h
drop-set [] k n v lt = refl
drop-set (x ∷ h) zero zero v lt = absurd (omega arith)
drop-set (x ∷ h) zero (suc n) v lt = refl
drop-set (x ∷ h) (suc k) zero v lt = absurd (omega arith)
drop-set (x ∷ h) (suc k) (suc n) v lt = drop-set h k n v (omega arith)

take-set :
    (h : List Hash256) (k : ℕ) (v : Hash256)
    → k < length h
    → take (suc k) (set h k v) ≡ take k h ++ (v ∷ [])
take-set [] k v lt = absurd (omega arith)
take-set (x ∷ h) zero v lt = refl
take-set (x ∷ h) (suc k) v lt = ap (λ l. x ∷ l) (take-set h k v (omega arith))

drop-get :
    (h : List Hash256) (n : ℕ)
    → n < length h
    → (x : Hash256) × (get_elem? h n ≡ some x) × (drop n h ≡ x ∷ drop (suc n) h)
drop-get [] n lt = absurd (omega arith)
drop-get (x ∷ h) zero lt = (x, refl, refl)
drop-get (x ∷ h) (suc n) lt = drop-get h n (omega arith)

drop-all : (h : List Hash256) (n : ℕ) → length h ≤ n → drop n h ≡ []
drop-all [] zero le = refl
drop-all [] (suc n) le = refl
drop-all (x ∷ h) zero le = absurd (omega arith)
drop-all (x ∷ h) (suc n) le = drop-all h n (omega arith)

++-assoc_one : (xs ys : List Hash256) (v : Hash256) → (xs ++ (v ∷ [])) ++ ys ≡ xs ++ (v ∷ ys)
++-assoc_one [] ys v = refl
++-assoc_one (x ∷ xs) ys v = ap (λ l. x ∷ l) (++-assoc_one xs ys v)

module _ (c : Crypto) where
  fold_pair-eq :
      (width k : ℕ) (h : List Hash256) {l r : Hash256}
      → get_elem? h (k * 2) ≡ some l
      → get_elem? h (min (k * 2 + 1) (width - 1)) ≡ some r
      → fold_pair c width k h ≡ some (set h k (combine_hashes c l r))
  unfolding fold_pair write_pair
  fold_pair-eq width k h {l} {r} at_l at_r =
      ap (λ o. write_pair c k h o (get_elem? h (min (k * 2 + 1) (width - 1)))) at_l
      ∙ ap (write_pair c k h (some l)) at_r

  next_layer-two :
      (l r : Hash256) (rest : List Hash256)
      → next_layer c (l ∷ r ∷ rest) ≡ combine_hashes c l r ∷ next_layer c rest
  unfolding next_layer
  next_layer-two l r rest = refl

  next_layer-one : (l : Hash256) → next_layer c (l ∷ []) ≡ combine_hashes c l l ∷ next_layer c []
  unfolding next_layer
  next_layer-one l = refl

  -- One write: the pair at `2 k` is read whole, since no earlier write reached it.
  fold_pair-step :
      (width k : ℕ) (h : List Hash256)
      → length h ≡ width
      → 2 * k < width
      → (v : Hash256) × (fold_pair c width k h ≡ some (set h k v))
        × (next_layer c (drop (2 * k) h) ≡ v ∷ next_layer c (drop (2 * k + 2) h))
  fold_pair-step width k h len lt =
      let (l, at_l, from_l) = drop-get h (2 * k) (omega arith) in
      let left : k * 2 ≡ 2 * k = omega arith in
      let next : suc (suc (2 * k)) ≡ 2 * k + 2 = omega arith in
      elim (Bool-cases (ltb (2 * k + 1) width)) [
        | inl more ↦
            let (r, at_r, from_r) = drop-get h (suc (2 * k)) (ground arith) in
            let right : min (k * 2 + 1) (width - 1) ≡ suc (2 * k) = ground arith in
            (
              combine_hashes c l r,
              fold_pair-eq width k h {l = l} {r = r} (ap (get_elem? h) left ∙ at_l)
                  (ap (get_elem? h) right ∙ at_r),
              ap (next_layer c) (from_l ∙ ap (λ t. l ∷ t) from_r)
                  ∙ next_layer-two l r (drop (suc (suc (2 * k))) h)
                  ∙ ap (λ n. combine_hashes c l r ∷ next_layer c (drop n h)) next,
            )
        | inr odd ↦
            let right : min (k * 2 + 1) (width - 1) ≡ 2 * k = ground arith in
            let end = drop-all h (suc (2 * k)) (ground arith) in
            let past = drop-all h (2 * k + 2) (ground arith) in
            (
              combine_hashes c l l,
              fold_pair-eq width k h {l = l} {r = l} (ap (get_elem? h) left ∙ at_l)
                  (ap (get_elem? h) right ∙ at_l),
              ap (next_layer c) (from_l ∙ ap (λ t. l ∷ t) end)
                  ∙ next_layer-one l
                  ∙ ap (λ t. combine_hashes c l l ∷ next_layer c t) (sym past),
            )
      ]

  fold_width-step :
      (rounds width k : ℕ) (h : List Hash256) {h' : List Hash256}
      → fold_pair c width k h ≡ some h'
      → fold_width c (suc rounds) width k h ≡ fold_width c rounds width (suc k) h'
  unfolding fold_width
  fold_width-step rounds width k h step =
      ap (λ o. and_then o (λ h'. fold_width c rounds width (suc k) h')) step

  next_layer-nil : next_layer c [] ≡ []
  unfolding next_layer
  next_layer-nil = refl

  ++-nil : (xs : List Hash256) → xs ++ [] ≡ xs
  ++-nil [] = refl
  ++-nil (x ∷ xs) = ap (λ l. x ∷ l) (++-nil xs)

  fold_width-zero : (width k : ℕ) (h : List Hash256) → fold_width c zero width k h ≡ some h
  unfolding fold_width
  fold_width-zero width k h = refl

  -- A pass of the inner loop leaves the next layer in front of the buffer.
  fold_width-layer :
      (rounds width k : ℕ) (h : List Hash256)
      → length h ≡ width
      → k + rounds ≡ (width + 1) / 2
      → (h' : List Hash256) × (fold_width c rounds width k h ≡ some h')
        × (take (k + rounds) h' ≡ take k h ++ next_layer c (drop (2 * k) h))
  fold_width-layer zero width k h len e = (
    h,
    fold_width-zero width k h,
    ap (λ n. take n h) plus
        ∙ sym (++-nil (take k h))
        ∙ ap (λ t. take k h ++ t)
            (sym (ap (next_layer c) (drop-all h (2 * k) (omega arith)) ∙ next_layer-nil)),
  )
    where
      plus : k + 0 ≡ k
      plus = omega arith
  fold_width-layer (suc rounds) width k h len e =
      let (v, step, layer) = fold_pair-step width k h len (omega arith) in
      let (h', run, out) =
        fold_width-layer rounds width (suc k) (set h k v) (length-set h k v ∙ len) (omega arith) in
      let plus : k + suc rounds ≡ suc k + rounds = omega arith in
      let twice : 2 * suc k ≡ 2 * k + 2 = omega arith in
      let kept : drop (2 * suc k) (set h k v) ≡ drop (2 * k + 2) h =
        ap (λ n. drop n (set h k v)) twice ∙ drop-set h k (2 * k + 2) v (omega arith) in
      (
        h',
        fold_width-step rounds width k h step ∙ run,
        ap (λ n. take n h') plus
            ∙ out
            ∙ ap (λ t. t ++ next_layer c (drop (2 * suc k) (set h k v)))
                (take-set h k v (omega arith))
            ∙ ap (λ t. (take k h ++ (v ∷ [])) ++ next_layer c t) kept
            ∙ ++-assoc_one (take k h) (next_layer c (drop (2 * k + 2) h)) v
            ∙ ap (λ t. take k h ++ t) (sym layer),
      )

  fold_all-more :
      (fuel width : ℕ) (h : List Hash256) {h' : List Hash256}
      → 1 < width
      → fold_width c ((width + 1) / 2) width 0 h ≡ some h'
      → fold_all c (suc fuel) width h
        ≡ fold_all c fuel ((width + 1) / 2) (take ((width + 1) / 2) h')
  unfolding fold_all
  fold_all-more fuel width h {h'} more run =
      rw (lt→ltb 1 width more) (
        ap (λ o. and_then o (λ x. fold_all c fuel ((width + 1) / 2) (take ((width + 1) / 2) x)))
          run)

  fold_all-one :
      (fuel : ℕ) (x : Hash256)
      → fold_all c (suc fuel) 1 (x ∷ [])
        ≡ some (last_head (build_layers c (suc fuel) (x ∷ [])) ∷ [])
  unfolding fold_all build_layers last_head
  fold_all-one fuel x = refl

  -- The outer loop ends with the root alone in the buffer.
  fold_all-root :
      (fuel : ℕ) (h : List Hash256)
      → 1 ≤ length h
      → length h ≤ fuel
      → fold_all c fuel (length h) h ≡ some (last_head (build_layers c fuel h) ∷ [])
  fold_all-root zero h le fits = absurd (omega arith)
  fold_all-root (suc fuel) [] le fits = absurd (omega arith)
  fold_all-root (suc fuel) (x ∷ []) le fits = fold_all-one fuel x
  fold_all-root (suc fuel) (x ∷ y ∷ r) le fits =
      let h = x ∷ y ∷ r in
      let half = (length h + 1) / 2 in
      let plus : 0 + half ≡ half = omega arith in
      let (h', run, out) = fold_width-layer half (length h) 0 h refl plus in
      let n = next_layer c h in
      let size : length n ≡ half = length-next_layer c h in
      let layer : take half h' ≡ n = ap (λ k. take k h') (sym plus) ∙ out in
      let (m, ms, shape) = build_layers-nonempty c fuel n (omega arith) (omega arith) in
      let top : last_head (build_layers c (suc fuel) h) ≡ last_head (build_layers c fuel n) =
        ap last_head (build_layers-more c fuel h (omega arith))
        ∙ (all_but_last-cons h m (build_layers c fuel n) ms shape).1 in
      fold_all-more fuel (length h) h {h' = h'} (omega arith) run
      ∙ ap (fold_all c fuel half) layer
      ∙ ap (λ w. fold_all c fuel w n) (sym size)
      ∙ fold_all-root fuel n (omega arith) (omega arith)
      ∙ ap (λ r. some (r ∷ [])) (sym top)

  -- The root computed in the leaves' own buffer is the root of the tree that `from_hashes` builds, with no
  -- index out of bounds, and the buffer is left with the root alone; no leaves leave it empty.
  pub in_place-root :
      (l : Hash256) (ls : List Hash256)
      → let top = root (from_hashes c (l ∷ ls)) in
        (root_from_hashes_in_place c (l ∷ ls) ≡ some (top, top ∷ []))
        × (root_from_hashes_in_place c [] ≡ some (root (from_hashes c []), []))
  unfolding root_from_hashes_in_place head_of root from_hashes last_head
  in_place-root l ls =
      (ap (head_of c) (fold_all-root (length (l ∷ ls)) (l ∷ ls) (omega arith) (omega arith)), refl)
