-- ===== src/Contract/Storage/Shared.antt =====
-- contract.rs: what the entries of a subtree share, and that an extension leaves them in order.
use zincha_sdk.Base.{
  ℕ, suc, ◌+◌, ◌≤◌, ◌<◌, min, ◌≡◌, refl, sym, ◌∙◌, inl, inr, true, Option, some, List, [], ◌∷◌,
  arith, leb, Bool-cases, length, take, drop, All, length-drop, ◌==◌, nat_eq, list_eq, option_eq,
}
use zincha_sdk.Crypto.Bytes.{Bytes}
use zincha_sdk.Contract.Nibbles.{common_prefix_length}
use zincha_sdk.Contract.Storage.{Entry, slice_from, shared_prefix}
use zincha_sdk.Contract.Storage.Order.{
  lex_lt, All-map, take-common, common_prefix_length-le, drop-drop, lex_lt-drop,
}

-- a key at a depth: reached, within the fuel, and of half bytes
abbrev pub IsKey : ℕ → ℕ → Entry → Type 0
IsKey fuel offset e =
    (offset ≤ length e.0) × (length e.0 < fuel + offset) × All (λ nibble. nibble < 16) e.0

abbrev pub IsBelow : ℕ → Entry → Entry → Type 0
IsBelow offset e f = lex_lt (drop offset e.0) (drop offset f.0) ≡ true

abbrev pub IsReady : ℕ → ℕ → List Entry → Type 0
IsReady fuel offset [] = Unit
IsReady fuel offset (e ∷ es) =
    IsKey fuel offset e × All (IsBelow offset e) es × IsReady fuel offset es

pub IsReady-keys :
    (fuel offset : ℕ) (es : List Entry) → IsReady fuel offset es → All (IsKey fuel offset) es
IsReady-keys fuel offset [] h = tt
IsReady-keys fuel offset (e ∷ es) h = (h.0, IsReady-keys fuel offset es h.2)

-- what the entries share with the first one, at a depth
abbrev pub Shares : ℕ → ℕ → Bytes → Entry → Type 0
Shares s offset first e = (take s (drop offset e.0) ≡ take s first) × (offset + s ≤ length e.0)

-- the loop's result: what all the entries share with the first one
abbrev IsShared : ℕ → Bytes → ℕ → List Entry → Option ℕ → Type 0
IsShared offset first shared es r =
    (s : ℕ) × (r ≡ some s) × (s ≤ shared) × All (Shares s offset first) es

nothing-shared :
    (offset : ℕ) (first : Bytes) (es : List Entry)
    → All (λ e. offset ≤ length e.0) es
    → All (Shares 0 offset first) es
nothing-shared offset first es h = All-map es (λ e le. (refl, omega arith)) h

pub shared_prefix-some :
    (offset : ℕ) (first : Bytes) (shared : ℕ) (es : List Entry)
    → All (λ e. offset ≤ length e.0) es
    → IsShared offset first shared es (shared_prefix offset first shared es)
unfolding shared_prefix slice_from
shared_prefix-some offset first shared [] h = (shared, refl, omega arith, tt)
shared_prefix-some offset first shared (e ∷ es) h =
    let suffix = drop offset e.0 in
    let common = common_prefix_length first suffix in
    let inside : leb offset (length e.0) ≡ true = ground (arith, h.0) in
    let (s, eq, le, all) = shared_prefix-some offset first (min shared common) es h.1 in
    elim (Bool-cases (min shared common == 0)) [
      | inl over ↦ rw inside (
          rw over (0, refl, omega arith, ((refl, omega arith), nothing-shared offset first es h.1)))
      | inr left ↦
          let in_common : s ≤ common = omega arith in
          let le_suffix = common_prefix_length-le first suffix in
          let reach : offset + s ≤ length e.0 = omega (arith, h.0, length-drop offset e.0) in
          rw inside (
            rw left
              (s, eq, omega arith, ((sym (take-common s first suffix in_common), reach), all)))
    ]

-- Entries that share what an extension takes off stay ready below it.
shared-IsBelow :
    (offset s : ℕ) (first : Bytes) (e f : Entry)
    → Shares s offset first e
    → Shares s offset first f
    → IsBelow offset e f
    → IsBelow (offset + s) e f
shared-IsBelow offset s first e f h k lt =
    let deeper =
      lex_lt-drop s (drop offset e.0) (drop offset f.0) (h.0 ∙ sym k.0)
        (omega (arith, h.1, length-drop offset e.0)) (omega (arith, k.1, length-drop offset f.0))
        lt in
    rw
      (
        ← drop-drop offset s e.0 {k = offset + s} refl,
        ← drop-drop offset s f.0 {k = offset + s} refl,
      )
      deeper

shared-All :
    (offset s : ℕ) (first : Bytes) (e : Entry) (es : List Entry)
    → Shares s offset first e
    → All (Shares s offset first) es
    → All (IsBelow offset e) es
    → All (IsBelow (offset + s) e) es
shared-All offset s first e [] h k lt = tt
shared-All offset s first e (f ∷ es) h k lt =
    (shared-IsBelow offset s first e f h k.0 lt.0, shared-All offset s first e es h k.1 lt.1)

pub shared-IsReady :
    (fuel offset s : ℕ) (first : Bytes) (es : List Entry)
    → 0 < s
    → All (Shares s offset first) es
    → IsReady (suc fuel) offset es
    → IsReady fuel (offset + s) es
shared-IsReady fuel offset s first [] pos h r = tt
shared-IsReady fuel offset s first (e ∷ es) pos h r = (
  (h.0.1, omega (arith, r.0.1), r.0.2),
  shared-All offset s first e es h.0 h.1 r.1,
  shared-IsReady fuel offset s first es pos h.1 r.2,
)
