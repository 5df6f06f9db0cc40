-- ===== src/Contract/Storage/Runs.antt =====
-- contract.rs: the runs that become the children of a branch.
use zincha_sdk.Base.{
  ℕ, suc, ◌<◌, ◌≡◌, refl, sym, ap, ◌∙◌, inl, inr, true, Option, some, List, [], ◌∷◌, arith, eqb_iff,
  Bool-cases, length, get_elem?, drop, All, get_elem?-some, length-drop, ◌==◌, nat_eq, list_eq,
  option_eq,
}
use zincha_sdk.Contract.Storage.{Entry, join_run, runs, split_value}
use zincha_sdk.Contract.Storage.Order.{lex_lt, All-map, All-get, lex_lt-length, drop-get}
use zincha_sdk.Contract.Storage.Shared.{IsKey, IsBelow, IsReady}

-- a run of entries with one half byte at a depth, ready below it
abbrev pub IsRun : ℕ → ℕ → ℕ × List Entry → Type 0
IsRun fuel offset (nibble, run) =
    (nibble < 16)
    × (0 < length run)
    × All (λ e. get_elem? e.0 offset ≡ some nibble) run
    × IsReady fuel (suc offset) run

same_nibble-IsBelow :
    (offset nibble : ℕ) (e f : Entry)
    → get_elem? e.0 offset ≡ some nibble
    → get_elem? f.0 offset ≡ some nibble
    → IsBelow offset e f
    → IsBelow (suc offset) e f
same_nibble-IsBelow offset nibble e f h k lt =
    let e_split = drop-get offset e.0 h in
    let f_split = drop-get offset f.0 k in
    let le : lex_lt (nibble ∷ drop (suc offset) e.0) (nibble ∷ drop (suc offset) f.0) ≡ true =
      sym (
        ap (λ k'. lex_lt k' (drop offset f.0)) e_split
        ∙ ap (lex_lt (nibble ∷ drop (suc offset) e.0)) f_split)
      ∙ lt in
    ground (arith, le)

same_nibble-All :
    (offset nibble : ℕ) (e : Entry) (es : List Entry)
    → get_elem? e.0 offset ≡ some nibble
    → All (λ f. get_elem? f.0 offset ≡ some nibble) es
    → All (IsBelow offset e) es
    → All (IsBelow (suc offset) e) es
same_nibble-All offset nibble e [] h k lt = tt
same_nibble-All offset nibble e (f ∷ es) h k lt = (
  same_nibble-IsBelow offset nibble e f h k.0 lt.0,
  same_nibble-All offset nibble e es h k.1 lt.1,
)

join_run-All :
    (P : Entry → Type 0) (nibble : ℕ) (e : Entry) (gs : List (ℕ × List Entry))
    → P e
    → All (λ g. All P g.1) gs
    → All (λ g. All P g.1) (join_run nibble e gs)
unfolding join_run
join_run-All P nibble e [] h k = ((h, tt), tt)
join_run-All P nibble e ((n, run) ∷ gs) h k = elim (Bool-cases (nibble == n)) [
  | inl same ↦ rw same ((h, k.0), k.1)
  | inr other ↦ rw other ((h, tt), k)
]

join_run-IsRun :
    (fuel offset nibble : ℕ) (e : Entry) (gs : List (ℕ × List Entry))
    → get_elem? e.0 offset ≡ some nibble
    → IsKey fuel (suc offset) e
    → All (λ g. All (IsBelow offset e) g.1) gs
    → All (IsRun fuel offset) gs
    → All (IsRun fuel offset) (join_run nibble e gs)
unfolding join_run
join_run-IsRun fuel offset nibble e [] at key lt h =
    ((All-get (λ n. n < 16) e.0 offset key.2 at, omega arith, (at, tt), (key, tt, tt)), tt)
join_run-IsRun fuel offset nibble e ((n, run) ∷ gs) at key lt h = elim (Bool-cases (nibble == n)) [
  | inl same ↦
      let eq : nibble ≡ n = (eqb_iff nibble n).0 same in
      let at' : get_elem? e.0 offset ≡ some n = rw (← eq) at in
      let below = same_nibble-All offset n e run at' h.0.2 lt.0 in
      rw same ((h.0.0, omega arith, (at', h.0.2), (key, below, h.0.3)), h.1)
  | inr other ↦
      let small = All-get (λ n'. n' < 16) e.0 offset key.2 at in
      rw other ((small, omega arith, (at, tt), (key, tt, tt)), h)
]

-- every entry reaches below the depth
abbrev IsDeeper : ℕ → Entry → Type 0
IsDeeper offset e = offset < length e.0

-- what the two loops return: runs, whose entries are entries of the list
abbrev pub IsRuns : ℕ → ℕ → List Entry → Option (List (ℕ × List Entry)) → Type 1
IsRuns fuel offset es r =
    (gs : List (ℕ × List Entry)) × (r ≡ some gs)
    × All (IsRun fuel offset) gs
    × ((P : Entry → Type 0) → All P es → All (λ g. All P g.1) gs)

pub runs-IsRuns :
    (fuel offset : ℕ) (es : List Entry)
    → IsReady (suc fuel) offset es
    → All (IsDeeper offset) es
    → IsRuns fuel offset es (runs offset es)
unfolding runs
runs-IsRuns fuel offset [] r d = ([], refl, tt, λ P h. tt)
runs-IsRuns fuel offset (e ∷ es) r d =
    let (gs, eq, are_runs, keeps) = runs-IsRuns fuel offset es r.2 d.1 in
    let (nibble, at) = get_elem?-some e.0 offset d.0 in
    let key : IsKey fuel (suc offset) e = (d.0, omega (arith, r.0.1), r.0.2) in
    rw at (
      rw eq (
        join_run nibble e gs,
        refl,
        join_run-IsRun fuel offset nibble e gs at key (keeps (IsBelow offset e) r.1) are_runs,
        λ P h. join_run-All P nibble e gs h.0 (keeps P h.1),
      ))

-- Behind the first entry, every key reaches deeper.
below-IsDeeper : (offset : ℕ) (e f : Entry) → IsBelow offset e f → IsDeeper offset f
below-IsDeeper offset e f lt =
    omega (arith, lex_lt-length (drop offset e.0) (drop offset f.0) lt, length-drop offset f.0)

pub split_value-IsReady :
    (fuel offset : ℕ) (es : List Entry)
    → IsReady fuel offset es
    → IsReady fuel offset (split_value offset es).1
      × All (IsDeeper offset) (split_value offset es).1
unfolding split_value
split_value-IsReady fuel offset [] r = (tt, tt)
split_value-IsReady fuel offset (e ∷ es) r =
    let deep = All-map es (below-IsDeeper offset e) r.1 in
    elim (Bool-cases (length e.0 == offset)) [
      | inl whole ↦ rw whole (r.2, deep)
      | inr more ↦ rw more (r, (ground (arith, r.0.0), deep))
    ]
