-- ===== src/Contract/Storage/Binding.antt =====
-- contract.rs: a storage root binds the map that it commits to.
use zincha_sdk.Base.{
  ℕ, zero, suc, ◌+◌, ◌<◌, ◌≡◌, refl, sym, ap, ◌∙◌, ◌⊎◌, inl, true, false, some, List, [], ◌∷◌, ◌++◌,
  map, arith, length, set, take, drop, replicate, All, length-set, length-drop, nat_eq, list_eq,
  option_eq,
}
use mathlib.Core.Path.{subst}
use zincha_sdk.Crypto.Bytes.{Bytes, Hash256, zero_hash}
use zincha_sdk.Crypto.Hash.{Crypto, length-hash_bytes}
use zincha_sdk.Contract.Nibbles.{hex_prefix_encode}
use zincha_sdk.Contract.Storage.{
  Entry, len_bytes, runs, split_value, value_bytes, concat_hashes, fill_children, subtree_root,
}
use zincha_sdk.Contract.Storage.HexPrefix.{hex_prefix_encode-injective}
use zincha_sdk.Contract.Storage.Shared.{IsKey, IsReady, Shares}
use zincha_sdk.Contract.Storage.Runs.{IsRun, runs-IsRuns, split_value-IsReady}
use zincha_sdk.Contract.Storage.Node.{Node, leaf, extension, branch, subtree_root-Node}
use zincha_sdk.Contract.Storage.Groups.{view, runs-flat, runs-rise}
use zincha_sdk.Contract.Storage.Children.{
  Break, IsSized, or_break, hash-same, AreBound, fill-head, same-children,
}
use zincha_sdk.Contract.Storage.Encoding.{
  hex_prefix_encode-length, len_bytes-cancel, len_value, concat_hashes-cancel,
  value_bytes-injective,
}
use zincha_sdk.Contract.Storage.Views.{
  All-drop, view-shared, prefix-fits, split_value-IsSized, view-split, zeros-hashes, zeros-fresh,
}

module _ (c : Crypto) where
  subtree_root-length :
      (fuel offset : ℕ) (es : List Entry) {h : Hash256}
      → 0 < length es
      → IsReady fuel offset es
      → subtree_root c fuel es offset ≡ some h
      → length h ≡ 32
  unfolding subtree_root
  subtree_root-length zero offset es pos r e = cc
  subtree_root-length (suc fuel) offset es pos r e =
      let (m, node, eq) = subtree_root-Node c fuel offset es pos r e in
      ap length eq ∙ length-hash_bytes c m

  set-All :
      (children : List Hash256) (n : ℕ) (h : Hash256)
      → length h ≡ 32
      → All (λ x. length x ≡ 32) children
      → All (λ x. length x ≡ 32) (set children n h)
  set-All [] n h k a = tt
  set-All (x ∷ xs) zero h k a = (k, a.1)
  set-All (x ∷ xs) (suc n) h k a = (a.0, set-All xs n h k a.1)

  -- Filled children are sixteen hashes, where they were.
  fill-hashes :
      (fuel offset : ℕ) (children : List Hash256) (gs : List (ℕ × List Entry))
      {filled : List Hash256}
      → All (IsRun fuel offset) gs
      → All (λ x. length x ≡ 32) children
      → fill_children c (λ run. subtree_root c fuel run (suc offset)) children gs ≡ some filled
      → All (λ x. length x ≡ 32) filled × (length filled ≡ length children)
  unfolding fill_children
  fill-hashes fuel offset children [] {filled = filled} r a e =
      let same : children ≡ filled = cc in rw (← same) (a, refl)
  fill-hashes fuel offset children ((n, run) ∷ gs) r a e =
      let (h, eq, inside, rest) =
        fill-head c (λ l. subtree_root c fuel l (suc offset)) children n run gs e in
      let long = subtree_root-length fuel (suc offset) run r.0.1 r.0.3 eq in
      let (hashes, size) =
        fill-hashes fuel offset (set children n h) gs r.1 (set-All children n h long a) rest in
      (hashes, size ∙ length-set children n h)

  leaf-same :
      (offset offset' : ℕ) (key value key' value' encoded encoded' : Bytes) (fuel fuel' : ℕ)
      → IsKey fuel offset (key, value)
      → IsKey fuel' offset' (key', value')
      → IsSized (key, value)
      → IsSized (key', value')
      → hex_prefix_encode (drop offset key) true ≡ some encoded
      → hex_prefix_encode (drop offset' key') true ≡ some encoded'
      → len_bytes encoded ++ (encoded ++ (len_bytes value ++ value))
        ≡ len_bytes encoded' ++ (encoded' ++ (len_bytes value' ++ value'))
      → view offset ((key, value) ∷ []) ≡ view offset' ((key', value') ∷ [])
  leaf-same offset offset' key value key' value' encoded encoded' fuel fuel' k k' z z' p p' e =
      let short = hex_prefix_encode-length (drop offset key) true p in
      let short' = hex_prefix_encode-length (drop offset' key') true p' in
      let (keys, values) =
        len_bytes-cancel encoded encoded' (omega (arith, short, z.0, length-drop offset key))
          (omega (arith, short', z'.0, length-drop offset' key')) e in
      let nibbles =
        hex_prefix_encode-injective (drop offset key) (drop offset' key') true true
          (All-drop offset key k.2) (All-drop offset' key' k'.2) p (p' ∙ ap some (sym keys)) in
      ap (λ d. (d, value) ∷ []) nibbles
      ∙ ap (λ v. (drop offset' key', v) ∷ []) (len_value value value' z.1 z'.1 values)

  extension-same :
      (fuel offset s : ℕ) (first : Bytes) (e : Entry) (es : List Entry) (encoded : Bytes)
      (child : Hash256) (fuel' offset' s' : ℕ) (first' : Bytes) (f : Entry) (es' : List Entry)
      (encoded' : Bytes) (child' : Hash256)
      → AreBound c fuel (offset + s) fuel' (offset' + s')
      → All (Shares s offset first) (e ∷ es)
      → All (Shares s' offset' first') (f ∷ es')
      → IsReady (suc fuel) offset (e ∷ es)
      → IsReady (suc fuel') offset' (f ∷ es')
      → IsReady fuel (offset + s) (e ∷ es)
      → IsReady fuel' (offset' + s') (f ∷ es')
      → All IsSized (e ∷ es)
      → All IsSized (f ∷ es')
      → subtree_root c fuel (e ∷ es) (offset + s) ≡ some child
      → subtree_root c fuel' (f ∷ es') (offset' + s') ≡ some child'
      → hex_prefix_encode (take s first) false ≡ some encoded
      → hex_prefix_encode (take s' first') false ≡ some encoded'
      → len_bytes encoded ++ (encoded ++ child) ≡ len_bytes encoded' ++ (encoded' ++ child')
      → (view offset (e ∷ es) ≡ view offset' (f ∷ es')) ⊎ Break c
  extension-same fuel offset s first e es encoded child fuel' offset' s' first' f es' encoded'
        child' bound sh sh' k k' r r' z z' below below' p p' eq =
      let (nibbles, fits) = prefix-fits (suc fuel) offset s first e k.0 z.0 sh.0 in
      let (nibbles', fits') = prefix-fits (suc fuel') offset' s' first' f k'.0 z'.0 sh'.0 in
      let (codes, children) =
        len_bytes-cancel encoded encoded'
          (omega (arith, fits, hex_prefix_encode-length (take s first) false p))
          (omega (arith, fits', hex_prefix_encode-length (take s' first') false p')) eq in
      let prefixes =
        hex_prefix_encode-injective (take s first) (take s' first') false false nibbles nibbles' p
          (p' ∙ ap some (sym codes)) in
      or_break c
        (bound (e ∷ es) (f ∷ es') child (omega arith) (omega arith) r r' z z' below
          (below' ∙ ap some (sym children)))
        (λ same. inl (
          view-shared offset s first (e ∷ es) sh
          ∙ ap (map (λ d. (take s first ++ d.0, d.1))) same
          ∙ ap (λ q. map (λ d. (q ++ d.0, d.1)) (view (offset' + s') (f ∷ es'))) prefixes
          ∙ sym (view-shared offset' s' first' (f ∷ es') sh')))

  -- two branches of the same bytes
  branch-same :
      (fuel offset fuel' offset' : ℕ) (es es' : List Entry) (gs gs' : List (ℕ × List Entry))
      (children children' : List Hash256)
      → AreBound c fuel (suc offset) fuel' (suc offset')
      → IsReady (suc fuel) offset es
      → IsReady (suc fuel') offset' es'
      → All IsSized es
      → All IsSized es'
      → runs offset (split_value offset es).1 ≡ some gs
      → runs offset' (split_value offset' es').1 ≡ some gs'
      → fill_children c (λ run. subtree_root c fuel run (suc offset)) (replicate 16 zero_hash) gs
        ≡ some children
      → fill_children c (λ run. subtree_root c fuel' run (suc offset')) (replicate 16 zero_hash) gs'
        ≡ some children'
      → concat_hashes c children ++ value_bytes c (split_value offset es).0
        ≡ concat_hashes c children' ++ value_bytes c (split_value offset' es').0
      → (view offset es ≡ view offset' es') ⊎ Break c
  branch-same fuel offset fuel' offset' es es' gs gs' children children' bound r r' z z' g g' e e'
        eq =
      let (ready, deep) = split_value-IsReady (suc fuel) offset es r in
      let (ready', deep') = split_value-IsReady (suc fuel') offset' es' r' in
      let (hs, hs_eq, are_runs, keeps) =
        runs-IsRuns fuel offset (split_value offset es).1 ready deep in
      let (hs', hs_eq', are_runs', keeps') =
        runs-IsRuns fuel' offset' (split_value offset' es').1 ready' deep' in
      let here : hs ≡ gs = cc (hs_eq, g) in
      let here' : hs' ≡ gs' = cc (hs_eq', g') in
      let in_runs = subst (All (IsRun fuel offset)) here are_runs in
      let in_runs' = subst (All (IsRun fuel' offset')) here' are_runs' in
      let (z_value, z_below) = split_value-IsSized offset es z in
      let (z_value', z_below') = split_value-IsSized offset' es' z' in
      let sized = subst (All (λ q. All IsSized q.1)) here (keeps IsSized z_below) in
      let sized' = subst (All (λ q. All IsSized q.1)) here' (keeps' IsSized z_below') in
      let (long, size) =
        fill-hashes fuel offset (replicate 16 zero_hash) gs in_runs (zeros-hashes 16) e in
      let (long', size') =
        fill-hashes fuel' offset' (replicate 16 zero_hash) gs' in_runs' (zeros-hashes 16) e' in
      let (same_children, values) =
        concat_hashes-cancel c children children' (size ∙ sym size') long long' eq in
      let value =
        value_bytes-injective c (split_value offset es).0 (split_value offset' es').0 z_value
          z_value' values in
      or_break c
        (same-children c fuel offset fuel' offset' bound 0 gs gs' (replicate 16 zero_hash)
          (replicate 16 zero_hash) children
          (runs-rise (suc fuel) offset (split_value offset es).1 ready g)
          (runs-rise (suc fuel') offset' (split_value offset' es').1 ready' g') in_runs in_runs'
          sized sized' (λ i le lt. zeros-fresh 16 i lt) (λ i le lt. zeros-fresh 16 i lt) refl e
          (e' ∙ ap some (sym same_children)))
        (λ below. inl (
          view-split offset offset' es es' value (
            ap (view offset) (sym (runs-flat offset (split_value offset es).1 g))
            ∙ below
            ∙ ap (view offset') (runs-flat offset' (split_value offset' es').1 g'))))

  -- what a node's bytes say of its entries, given as much of the nodes below
  node-same :
      (fuel offset fuel' offset' : ℕ)
      → ((a b : ℕ) → AreBound c fuel a fuel' b)
      → {es es' : List Entry} {m m' : Bytes} → Node c fuel offset es m
      → Node c fuel' offset' es' m'
      → m ≡ m'
      → IsReady (suc fuel) offset es
      → IsReady (suc fuel') offset' es'
      → All IsSized es
      → All IsSized es'
      → (view offset es ≡ view offset' es') ⊎ Break c
  node-same f o f' o' bound (leaf k v en p) (leaf k' v' en' p') eq r r' z z' =
      inl (leaf-same o o' k v k' v' en en' (suc f) (suc f') r.0 r'.0 z.0 z'.0 p p' (cc))
  node-same f o f' o' bound (leaf k v en p) (extension first' es' s' en' ch' pos' sh' rd' q' p') eq
        r r' z z' =
      let apart : suc zero ≡ suc (suc zero) = cc in absurd (omega (arith, apart))
  node-same f o f' o' bound (leaf k v en p) (branch es' gs' cs' g' e') eq r r' z z' =
      let apart : suc zero ≡ suc (suc (suc zero)) = cc in absurd (omega (arith, apart))
  node-same f o f' o' bound (extension first es s en ch pos sh rd q p) (leaf k' v' en' p') eq r r' z
        z' =
      let apart : suc (suc zero) ≡ suc zero = cc in absurd (omega (arith, apart))
  node-same f o f' o' bound (extension first [] s en ch pos sh rd q p)
        (extension first' es' s' en' ch' pos' sh' rd' q' p') eq r r' z z' =
      absurd (omega arith)
  node-same f o f' o' bound (extension first (x ∷ es) s en ch pos sh rd q p)
        (extension first' [] s' en' ch' pos' sh' rd' q' p') eq r r' z z' =
      absurd (omega arith)
  node-same f o f' o' bound (extension first (x ∷ es) s en ch pos sh rd q p)
        (extension first' (y ∷ es') s' en' ch' pos' sh' rd' q' p') eq r r' z z' =
      extension-same f o s first x es en ch f' o' s' first' y es' en' ch' (bound (o + s) (o' + s'))
        sh sh' r r' rd rd' z z' q q' p p' (cc)
  node-same f o f' o' bound (extension first es s en ch pos sh rd q p) (branch es' gs' cs' g' e') eq
        r r' z z' =
      let apart : suc (suc zero) ≡ suc (suc (suc zero)) = cc in absurd (omega (arith, apart))
  node-same f o f' o' bound (branch es gs cs g e) (leaf k' v' en' p') eq r r' z z' =
      let apart : suc (suc (suc zero)) ≡ suc zero = cc in absurd (omega (arith, apart))
  node-same f o f' o' bound (branch es gs cs g e)
        (extension first' es' s' en' ch' pos' sh' rd' q' p') eq r r' z z' =
      let apart : suc (suc (suc zero)) ≡ suc (suc zero) = cc in absurd (omega (arith, apart))
  node-same f o f' o' bound (branch es gs cs g e) (branch es' gs' cs' g' e') eq r r' z z' =
      branch-same f o f' o' es es' gs gs' cs cs' (bound (suc o) (suc o')) r r' z z' g g' e e' (cc)

  pub subtree_root-binds : (fuel offset fuel' offset' : ℕ) → AreBound c fuel offset fuel' offset'
  unfolding subtree_root
  subtree_root-binds zero o f' o' run run' h pos pos' r r' z z' e e' = cc
  subtree_root-binds (suc f) o zero o' run run' h pos pos' r r' z z' e e' = cc
  subtree_root-binds (suc f) o (suc f') o' run run' h pos pos' r r' z z' e e' =
      let (m, node, eq) = subtree_root-Node c f o run pos r e in
      let (m', node', eq') = subtree_root-Node c f' o' run' pos' r' e' in
      or_break c (hash-same c m m' (sym eq ∙ eq'))
        (λ same. node-same f o f' o' (λ a b. subtree_root-binds f a f' b) node node' same r r' z z')
