-- ===== src/Contract/Storage/Children.antt =====
-- contract.rs: the children of a branch determine its runs, unless the hash function breaks.
use zincha_sdk.Base.{
  ℕ, zero, suc, ◌^◌, ◌≤◌, ◌<◌, ◌≡◌, refl, sym, ap, ◌∙◌, ◌⊎◌, inl, inr, false, Option, some, List,
  [], ◌∷◌, ◌++◌, map, arith, ltb, eqb, ltb→lt, eqb_iff, Bool-cases, length, get_elem?, set, drop,
  All, length-set, get_elem?-set_self, get_elem?-set_ne, ◌==◌, nat_eq, ==_iff, list_eq, option_eq,
}
use mathlib.Core.Path.{subst}
use mathlib.Core.Bool.{false≢true}
use zincha_sdk.Crypto.Bytes.{Bytes, Hash256, zero_hash}
use zincha_sdk.Crypto.Hash.{Crypto, hash_bytes}
use zincha_sdk.Contract.Storage.{Entry, put_child, fill_children, subtree_root}
use zincha_sdk.Contract.Storage.Order.{drop-get}
use zincha_sdk.Contract.Storage.Shared.{IsReady}
use zincha_sdk.Contract.Storage.Runs.{IsRun}
use zincha_sdk.Contract.Storage.Node.{and_then-eq_some, subtree_root-Node}
use zincha_sdk.Contract.Storage.Groups.{view, flat, view-append, IsRising}

-- Two byte strings of one hash, or one of the zero hash.
abbrev pub Break : Crypto → Type 0
Break c =
    ((m : Bytes) × (m' : Bytes) × (¬ (m ≡ m')) × (hash_bytes c m ≡ hash_bytes c m'))
    ⊎ ((m : Bytes) × (hash_bytes c m ≡ zero_hash))

-- Sizes that the 32 bits of a length hold.
abbrev pub IsSized : Entry → Type 0
IsSized e = (suc (length e.0) < 256 ^ 4) × (length e.1 < 256 ^ 4)

abbrev pub or_break : (c : Crypto) {A B : Type 0} → A ⊎ Break c → (A → B ⊎ Break c) → B ⊎ Break c
or_break c (inl a) f = f a
or_break c (inr b) f = inr b

module _ (c : Crypto) where
  differ : (m m' : Bytes) → (m == m') ≡ false → ¬ (m ≡ m')
  differ m m' h eq = false≢true (sym h ∙ (==_iff m m').1 eq)

  pub hash-same : (m m' : Bytes) → hash_bytes c m ≡ hash_bytes c m' → (m ≡ m') ⊎ Break c
  hash-same m m' h = elim (Bool-cases (m == m')) [
    | inl same ↦ inl ((==_iff m m').0 same)
    | inr other ↦ inr (inl (m, m', differ m m' other, h))
  ]

  module _ (root_of : List Entry → Option Hash256) where
    -- the first child is put in, then the others
    pub fill-head :
        (children : List Hash256) (n : ℕ) (run : List Entry) (gs : List (ℕ × List Entry))
        {filled : List Hash256}
        → fill_children c root_of children ((n, run) ∷ gs) ≡ some filled
        → (child : Hash256) × (root_of run ≡ some child)
          × (n < length children)
          × (fill_children c root_of (set children n child) gs ≡ some filled)
    unfolding fill_children put_child
    fill-head children n run gs h =
        let (child, eq, rest) = and_then-eq_some (root_of run) _ h in
        elim (Bool-cases (ltb n (length children))) [
          | inl inside ↦ (child, eq, ltb→lt n (length children) inside, rw inside at rest)
          | inr outside ↦ let broken = rw outside at rest in cc
        ]

    -- Children below the runs stay as they are.
    fill-below :
        (children : List Hash256) (b : ℕ) (gs : List (ℕ × List Entry)) {filled : List Hash256}
        (i : ℕ)
        → IsRising b gs
        → i < b
        → fill_children c root_of children gs ≡ some filled
        → get_elem? filled i ≡ get_elem? children i
    unfolding fill_children
    fill-below children b [] {filled = filled} i r lt h =
        let same : children ≡ filled = cc in rw same refl
    fill-below children b ((n, run) ∷ gs) i r lt h =
        let (child, eq, inside, rest) = fill-head children n run gs h in
        fill-below (set children n child) (suc n) gs i r.1 (omega (arith, r.0)) rest
        ∙ get_elem?-set_ne children child (λ same. absurd (omega (arith, r.0)))

  -- A run with the zero hash for a root breaks the hash function.
  root-zero :
      (fuel offset : ℕ) (run : List Entry)
      → 0 < length run
      → IsReady fuel offset run
      → subtree_root c fuel run offset ≡ some zero_hash
      → Break c
  unfolding subtree_root
  root-zero zero offset run pos r h = cc
  root-zero (suc fuel) offset run pos r h =
      let (m, node, eq) = subtree_root-Node c fuel offset run pos r h in inr (m, sym eq)

  -- Children from a bound on are not filled yet.
  abbrev pub IsFresh : ℕ → List Hash256 → Type 0
  IsFresh b children = (i : ℕ) → b ≤ i → i < length children → get_elem? children i ≡ some zero_hash

  set-IsFresh :
      (b n : ℕ) (children : List Hash256) (child : Hash256)
      → b ≤ n
      → IsFresh b children
      → IsFresh (suc n) (set children n child)
  set-IsFresh b n children child h f i le lt =
      get_elem?-set_ne children child (λ same. absurd (omega arith))
      ∙ f i (omega arith) (omega (arith, lt, length-set children n child))

  view-run :
      (offset n : ℕ) (run : List Entry)
      → All (λ e. get_elem? e.0 offset ≡ some n) run
      → view offset run ≡ map (λ e. (n ∷ e.0, e.1)) (view (suc offset) run)
  view-run offset n [] h = refl
  view-run offset n (e ∷ run) h =
      let head = drop-get offset e.0 h.0 in
      let rest = view-run offset n run h.1 in
      ap (λ k. (k, e.1) ∷ view offset run) head
      ∙ ap (λ l. (n ∷ drop (suc offset) e.0, e.1) ∷ l) rest

  -- Runs below one depth have one root for each half byte only if they hold the same.
  abbrev pub AreBound : ℕ → ℕ → ℕ → ℕ → Type 0
  AreBound fuel offset fuel' offset' =
      (run run' : List Entry) (h : Hash256)
      → 0 < length run
      → 0 < length run'
      → IsReady fuel offset run
      → IsReady fuel' offset' run'
      → All IsSized run
      → All IsSized run'
      → subtree_root c fuel run offset ≡ some h
      → subtree_root c fuel' run' offset' ≡ some h
      → (view offset run ≡ view offset' run') ⊎ Break c

  -- the child of the first run, in the filled children
  filled-head :
      (root_of : List Entry → Option Hash256) (children : List Hash256) (n : ℕ) (run : List Entry)
      (gs : List (ℕ × List Entry)) {filled : List Hash256}
      → IsRising (suc n) gs
      → fill_children c root_of children ((n, run) ∷ gs) ≡ some filled
      → (child : Hash256) × (root_of run ≡ some child) × (get_elem? filled n ≡ some child)
  filled-head root_of children n run gs u h =
      let (child, eq, inside, rest) = fill-head root_of children n run gs h in
      (
        child,
        eq,
        fill-below root_of (set children n child) (suc n) gs n u (omega arith) rest
            ∙ get_elem?-set_self children n child inside,
      )

  -- A run whose child is the zero hash breaks the hash function.
  lone-child :
      (fuel offset : ℕ) (children : List Hash256) (n : ℕ) (run : List Entry)
      (gs : List (ℕ × List Entry)) {filled : List Hash256}
      → IsRising (suc n) gs
      → IsRun fuel offset (n, run)
      → get_elem? filled n ≡ some zero_hash
      → fill_children c (λ l. subtree_root c fuel l (suc offset)) children ((n, run) ∷ gs)
        ≡ some filled
      → Break c
  lone-child fuel offset children n run gs u r absent h =
      let (child, eq, at) =
        filled-head (λ l. subtree_root c fuel l (suc offset)) children n run gs u h in
      let zero_child : child ≡ zero_hash = some-injective (sym at ∙ absent) in
      root-zero fuel (suc offset) run r.1 r.3 (eq ∙ ap some zero_child)
    where
      some-injective : {a b : Hash256} → some a ≡ some b → a ≡ b
      some-injective e = cc

  module _ (fuel offset fuel' offset' : ℕ)
      (bound : AreBound fuel (suc offset) fuel' (suc offset')) where
    abbrev fill : List Hash256 → List (ℕ × List Entry) → Option (List Hash256)
    fill children gs = fill_children c (λ run. subtree_root c fuel run (suc offset)) children gs

    abbrev fill' : List Hash256 → List (ℕ × List Entry) → Option (List Hash256)
    fill' children gs = fill_children c (λ run. subtree_root c fuel' run (suc offset')) children gs

    same-run :
        (n n' : ℕ) (run run' : List Entry) (h : Hash256)
        → n ≡ n'
        → IsRun fuel offset (n, run)
        → IsRun fuel' offset' (n', run')
        → All IsSized run
        → All IsSized run'
        → subtree_root c fuel run (suc offset) ≡ some h
        → subtree_root c fuel' run' (suc offset') ≡ some h
        → (view offset run ≡ view offset' run') ⊎ Break c
    same-run n n' run run' h same r r' z z' e e' =
        or_break c (bound run run' h r.1 r'.1 r.3 r'.3 z z' e e') (λ below. inl (
          view-run offset n run r.2
          ∙ ap (map (λ e. (n ∷ e.0, e.1))) below
          ∙ ap (λ k. map (λ e. (k ∷ e.0, e.1)) (view (suc offset') run')) same
          ∙ sym (view-run offset' n' run' r'.2)))

    pub same-children :
        (b : ℕ) (gs gs' : List (ℕ × List Entry)) (children children' filled : List Hash256)
        → IsRising b gs
        → IsRising b gs'
        → All (IsRun fuel offset) gs
        → All (IsRun fuel' offset') gs'
        → All (λ g. All IsSized g.1) gs
        → All (λ g. All IsSized g.1) gs'
        → IsFresh b children
        → IsFresh b children'
        → length children ≡ length children'
        → fill children gs ≡ some filled
        → fill' children' gs' ≡ some filled
        → (view offset (flat gs) ≡ view offset' (flat gs')) ⊎ Break c
    unfolding fill_children
    same-children b [] [] ch ch' filled u u' r r' z z' f f' l e e' = inl refl
    same-children b ((n, run) ∷ gs) [] ch ch' filled u u' r r' z z' f f' l e e' =
        let (h, h_eq, inside, rest) =
          fill-head (λ k. subtree_root c fuel k (suc offset)) ch n run gs e in
        let absent =
          fill-below (λ k. subtree_root c fuel' k (suc offset')) ch' (suc n) [] n tt (omega arith)
            e'
          ∙ f' n u.0 (omega (arith, inside, l)) in
        inr (lone-child fuel offset ch n run gs u.1 r.0 absent e)
    same-children b [] ((n', run') ∷ gs') ch ch' filled u u' r r' z z' f f' l e e' =
        let (h, h_eq, inside, rest) =
          fill-head (λ k. subtree_root c fuel' k (suc offset')) ch' n' run' gs' e' in
        let absent =
          fill-below (λ k. subtree_root c fuel k (suc offset)) ch (suc n') [] n' tt (omega arith) e
          ∙ f n' u'.0 (omega (arith, inside, l)) in
        inr (lone-child fuel' offset' ch' n' run' gs' u'.1 r'.0 absent e')
    same-children b ((n, run) ∷ gs) ((n', run') ∷ gs') ch ch' filled u u' r r' z z' f f' l e e' =
        let root_of : List Entry → Option Hash256 = λ k. subtree_root c fuel k (suc offset) in
        let root_of' : List Entry → Option Hash256 = λ k. subtree_root c fuel' k (suc offset') in
        let (h, h_eq, inside, rest) = fill-head root_of ch n run gs e in
        let (h', h_eq', inside', rest') = fill-head root_of' ch' n' run' gs' e' in
        elim (Bool-cases (eqb n n')) [
          | inl same ↦
              let eq = (eqb_iff n n').0 same in
              let (k, k_eq, at) = filled-head root_of ch n run gs u.1 e in
              let (k', k_eq', at') = filled-head root_of' ch' n' run' gs' u'.1 e' in
              let at_n : get_elem? filled n ≡ some k' = ap (get_elem? filled) eq ∙ at' in
              or_break c
                (same-run n n' run run' k eq r.0 r'.0 z.0 z'.0 k_eq (k_eq' ∙ sym at_n ∙ at))
                (λ here.
                  or_break c
                    (same-children (suc n) gs gs' (set ch n h) (set ch' n' h') filled u.1
                      (subst (λ i. IsRising (suc i) gs') (sym eq) u'.1) r.1 r'.1 z.1 z'.1
                      (set-IsFresh b n ch h u.0 f)
                      (subst (λ i. IsFresh (suc i) (set ch' n' h')) (sym eq)
                        (set-IsFresh b n' ch' h' u'.0 f'))
                      (length-set ch n h ∙ l ∙ sym (length-set ch' n' h')) rest rest')
                    (λ there. inl (
                      view-append offset run (flat gs)
                      ∙ ap (λ k2. k2 ++ view offset (flat gs)) here
                      ∙ ap (λ k2. view offset' run' ++ k2) there
                      ∙ sym (view-append offset' run' (flat gs')))))
          | inr apart ↦ elim (Bool-cases (ltb n n')) [
            | inl lower ↦
                let absent =
                  fill-below root_of' ch' (suc n) ((n', run') ∷ gs') n (ltb→lt n n' lower, u'.1)
                    (omega arith) e'
                  ∙ f' n u.0 (omega (arith, inside, l)) in
                inr (lone-child fuel offset ch n run gs u.1 r.0 absent e)
            | inr higher ↦
                let above : n' < n = ground (arith, apart, higher) in
                let absent =
                  fill-below root_of ch (suc n') ((n, run) ∷ gs) n' (above, u.1) (omega arith) e
                  ∙ f n' u'.0 (omega (arith, inside', l)) in
                inr (lone-child fuel' offset' ch' n' run' gs' u'.1 r'.0 absent e')
          ]
        ]
