-- ===== src/Contract/Storage/Groups.antt =====
-- contract.rs: the runs of a branch in the order of their half bytes, and the children that they fill.
use zincha_sdk.Base.{
  ℕ, suc, ◌≤◌, ◌≡◌, refl, sym, ap, ◌∙◌, inl, inr, true, some, List, [], ◌∷◌, ◌++◌, map, arith,
  eqb_iff, Bool-cases, Option-cases, get_elem?, drop, ◌==◌, nat_eq, list_eq, option_eq,
}
use zincha_sdk.Contract.Storage.{Entry, join_run, runs}
use zincha_sdk.Contract.Storage.Order.{lex_lt, drop-get}
use zincha_sdk.Contract.Storage.Shared.{IsBelow, IsReady}

-- what the entries hold below a depth
abbrev pub view : ℕ → List Entry → List Entry
view offset es = map (λ e. (drop offset e.0, e.1)) es

abbrev pub flat : List (ℕ × List Entry) → List Entry
flat [] = []
flat (g ∷ gs) = g.1 ++ flat gs

pub view-append :
    (offset : ℕ) (xs ys : List Entry) → view offset (xs ++ ys) ≡ view offset xs ++ view offset ys
view-append offset [] ys = refl
view-append offset (x ∷ xs) ys = ap (λ l. (drop offset x.0, x.1) ∷ l) (view-append offset xs ys)

-- Indices rise from a bound.
abbrev pub IsRising : ℕ → List (ℕ × List Entry) → Type 0
IsRising b [] = Unit
IsRising b (g ∷ gs) = (b ≤ g.0) × IsRising (suc g.0) gs

join_run-flat :
    (n : ℕ) (e : Entry) (gs : List (ℕ × List Entry)) → flat (join_run n e gs) ≡ e ∷ flat gs
unfolding join_run
join_run-flat n e [] = refl
join_run-flat n e ((m, run) ∷ gs) = elim (Bool-cases (n == m)) [
  | inl same ↦ rw same refl
  | inr other ↦ rw other refl
]

pub runs-split :
    (offset : ℕ) (e : Entry) (es : List Entry) {gs : List (ℕ × List Entry)}
    → runs offset (e ∷ es) ≡ some gs
    → (n : ℕ) × (get_elem? e.0 offset ≡ some n)
      × (gs' : List (ℕ × List Entry)) × (runs offset es ≡ some gs')
      × (gs ≡ join_run n e gs')
unfolding runs
runs-split offset e es h = elim (Option-cases (get_elem? e.0 offset)) [
  | inl out ↦ let broken = rw out at h in cc
  | inr (n, at) ↦ elim (Option-cases (runs offset es)) [
    | inl stuck ↦ let broken = rw (at, stuck) at h in cc
    | inr (gs', eq) ↦ let whole = rw (at, eq) at h in (n, at, gs', eq, cc)
  ]
]

pub runs-flat :
    (offset : ℕ) (es : List Entry) {gs : List (ℕ × List Entry)}
    → runs offset es ≡ some gs
    → flat gs ≡ es
unfolding runs
runs-flat offset [] {gs = gs} h = let none_left : [] ≡ gs = cc in rw (← none_left) refl
runs-flat offset (e ∷ es) {gs = gs} h =
    let (n, at, gs', eq, joined) = runs-split offset e es h in
    ap flat joined ∙ join_run-flat n e gs' ∙ ap (λ l. e ∷ l) (runs-flat offset es eq)

-- the half byte at a depth does not fall from an entry to those above it
nibble-rises :
    (offset n m : ℕ) (e f : Entry)
    → get_elem? e.0 offset ≡ some n
    → get_elem? f.0 offset ≡ some m
    → IsBelow offset e f
    → n ≤ m
nibble-rises offset n m e f h k lt =
    let le : lex_lt (n ∷ drop (suc offset) e.0) (m ∷ drop (suc offset) f.0) ≡ true =
      sym (
        ap (λ k'. lex_lt k' (drop offset f.0)) (drop-get offset e.0 h)
        ∙ ap (lex_lt (n ∷ drop (suc offset) e.0)) (drop-get offset f.0 k))
      ∙ lt in
    ground (arith, le)

join_run-IsRising :
    (n m : ℕ) (e : Entry) (gs : List (ℕ × List Entry))
    → n ≤ m
    → IsRising m gs
    → IsRising n (join_run n e gs)
unfolding join_run
join_run-IsRising n m e [] h k = (omega arith, tt)
join_run-IsRising n m e ((i, run) ∷ gs) h k = elim (Bool-cases (n == i)) [
  | inl same ↦ rw same (omega (arith, (eqb_iff n i).0 same), k.1)
  | inr other ↦ rw other (omega arith, (ground (arith, h, k.0), k.1))
]

IsRising-zero : (b : ℕ) (gs : List (ℕ × List Entry)) → IsRising b gs → IsRising 0 gs
IsRising-zero b [] h = tt
IsRising-zero b (g ∷ gs) h = (omega arith, h.1)

runs-IsRising :
    (fuel offset : ℕ) (e : Entry) (es : List Entry) {gs : List (ℕ × List Entry)} (n : ℕ)
    → IsReady fuel offset (e ∷ es)
    → get_elem? e.0 offset ≡ some n
    → runs offset (e ∷ es) ≡ some gs
    → IsRising n gs
unfolding runs
runs-IsRising fuel offset e [] n r at h =
    let (n', at', gs', eq, joined) = runs-split offset e [] h in
    let none_left : [] ≡ gs' = cc in
    let same : n' ≡ n = cc in
    rw joined (rw same (rw (← none_left) (join_run-IsRising n n e [] (omega arith) tt)))
runs-IsRising fuel offset e (f ∷ es) n r at h =
    let (n', at', gs', eq, joined) = runs-split offset e (f ∷ es) h in
    let (m, f_at, gs2, f_eq, f_joined) = runs-split offset f es eq in
    let same : n' ≡ n = cc in
    let above = runs-IsRising fuel offset f es m r.2 f_at eq in
    rw joined
      (rw same (join_run-IsRising n m e gs' (nibble-rises offset n m e f at f_at r.1.0) above))

pub runs-rise :
    (fuel offset : ℕ) (es : List Entry) {gs : List (ℕ × List Entry)}
    → IsReady fuel offset es
    → runs offset es ≡ some gs
    → IsRising 0 gs
unfolding runs
runs-rise fuel offset [] {gs = gs} r h = let none_left : [] ≡ gs = cc in rw (← none_left) tt
runs-rise fuel offset (e ∷ es) {gs = gs} r h =
    let (n, at, gs', eq, joined) = runs-split offset e es h in
    IsRising-zero n gs (runs-IsRising fuel offset e es n r at h)
