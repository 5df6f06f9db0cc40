-- ===== src/Contract/Storage/HexPrefix.antt =====
-- contract.rs: a hex-prefix encoding determines its half bytes and its flag.
use zincha_sdk.Base.{
  ℕ, ◌+◌, ◌/◌, ◌%◌, ◌<◌, ◌≡◌, refl, sym, ◌∙◌, ◌⊎◌, inl, inr, Bool, Option, none, some, [], ◌∷◌,
  arith, if◌then◌else◌, Bool-cases, Option-cases, length, All, ◌==◌, nat_eq, list_eq, option_eq,
}
use zincha_sdk.Crypto.Bytes.{Bytes}
use zincha_sdk.Contract.Nibbles.{pack, pack_pairs, push_front, encode_odd, hex_prefix_encode}

abbrev pub AreNibbles : Bytes → Type 0
AreNibbles = All (λ n. n < 16)

pack-injective :
    (a b x y : ℕ) → a < 16 → b < 16 → x < 16 → y < 16 → pack a x ≡ pack b y → (a ≡ b) × (x ≡ y)
pack-injective a b x y p q r s h = (omega arith, omega arith)

pack_pairs-split :
    (x y : ℕ) (rest : Bytes) {e : Bytes}
    → pack_pairs (x ∷ y ∷ rest) ≡ some e
    → (e' : Bytes) × (pack_pairs rest ≡ some e') × (e ≡ pack x y ∷ e')
unfolding pack_pairs
pack_pairs-split x y rest h = elim (Option-cases (pack_pairs rest)) [
  | inl stuck ↦ let broken = rw stuck at h in cc
  | inr (e', eq) ↦ let whole = rw eq at h in (e', eq, cc)
]

pack_pairs-injective :
    (xs ys : Bytes) {e : Bytes}
    → AreNibbles xs
    → AreNibbles ys
    → pack_pairs xs ≡ some e
    → pack_pairs ys ≡ some e
    → xs ≡ ys
unfolding pack_pairs
pack_pairs-injective [] [] h k p q = refl
pack_pairs-injective [] (y ∷ []) h k p q = cc
pack_pairs-injective [] (y ∷ y' ∷ ys) h k p q =
    let (e, eq, whole) = pack_pairs-split y y' ys q in cc
pack_pairs-injective (x ∷ []) ys h k p q = cc
pack_pairs-injective (x ∷ x' ∷ xs) [] h k p q =
    let (e, eq, whole) = pack_pairs-split x x' xs p in cc
pack_pairs-injective (x ∷ x' ∷ xs) (y ∷ []) h k p q = cc
pack_pairs-injective (x ∷ x' ∷ xs) (y ∷ y' ∷ ys) {e = e} h k p q =
    let (d, d_eq, d_whole) = pack_pairs-split x x' xs p in
    let (e', e_eq, e_whole) = pack_pairs-split y y' ys q in
    let heads : pack x x' ≡ pack y y' = cc in
    let tails : d ≡ e' = cc in
    let firsts = pack-injective x y x' y' h.0 k.0 h.1.0 k.1.0 heads in
    let rest = pack_pairs-injective xs ys h.1.1 k.1.1 d_eq (rw (← tails) at e_eq) in
    ap2 firsts.0 firsts.1 rest
  where
    ap2 : {a b a' b' : ℕ} {l l' : Bytes} → a ≡ b → a' ≡ b' → l ≡ l' → (a ∷ a' ∷ l) ≡ (b ∷ b' ∷ l')
    ap2 p' q' r' = cc

-- how an encoding is made: the flag, the half byte beside it, and the pairs behind
record Split (xs : Bytes) (is_leaf : Bool) (e : Bytes) : Type 0 where
  flag : ℕ
  beside : ℕ
  tail : Bytes
  packed : Bytes
  small_flag : flag < 16
  small_beside : beside < 16
  small_tail : AreNibbles tail
  is_packed : pack_pairs tail ≡ some packed
  whole : e ≡ pack flag beside ∷ packed
  of_leaf : flag / 2 ≡ (if is_leaf then 1 else 0)
  parts : ((flag % 2 ≡ 0) × (xs ≡ tail)) ⊎ ((flag % 2 ≡ 1) × (xs ≡ beside ∷ tail))

push_front-some :
    (x : ℕ) (o : Option Bytes) {e : Bytes}
    → push_front x o ≡ some e
    → (d : Bytes) × (o ≡ some d) × (e ≡ x ∷ d)
push_front-some x none h = cc
push_front-some x (some d) h = (d, refl, cc)

even_Split :
    (xs : Bytes) (is_leaf : Bool) {e : Bytes}
    → AreNibbles xs
    → push_front (pack ((if is_leaf then 2 else 0) + 0) 0) (pack_pairs xs) ≡ some e
    → Split xs is_leaf e
even_Split xs is_leaf h k =
    let (d, eq, whole) = push_front-some _ (pack_pairs xs) k in
    record {
      flag = (if is_leaf then 2 else 0) + 0;
      beside = 0;
      tail = xs;
      packed = d;
      small_flag = ground arith;
      small_beside = omega arith;
      small_tail = h;
      is_packed = eq;
      whole = whole;
      of_leaf = ground arith;
      parts = inl (ground arith, refl);
    }

odd_Split :
    (xs : Bytes) (is_leaf : Bool) {e : Bytes}
    → AreNibbles xs
    → encode_odd ((if is_leaf then 2 else 0) + 1) xs ≡ some e
    → Split xs is_leaf e
odd_Split [] is_leaf h k = cc
odd_Split (x ∷ xs) is_leaf h k =
    let (d, eq, whole) = push_front-some _ (pack_pairs xs) k in
    record {
      flag = (if is_leaf then 2 else 0) + 1;
      beside = x;
      tail = xs;
      packed = d;
      small_flag = ground arith;
      small_beside = h.0;
      small_tail = h.1;
      is_packed = eq;
      whole = whole;
      of_leaf = ground arith;
      parts = inr (ground arith, refl);
    }

hex_prefix-Split :
    (xs : Bytes) (is_leaf : Bool) {e : Bytes}
    → AreNibbles xs
    → hex_prefix_encode xs is_leaf ≡ some e
    → Split xs is_leaf e
unfolding hex_prefix_encode
hex_prefix-Split xs is_leaf h k = elim (Bool-cases (length xs % 2 == 0)) [
  | inl even ↦ even_Split xs is_leaf h (rw even at k)
  | inr odd ↦ odd_Split xs is_leaf h (rw odd at k)
]

pub hex_prefix_encode-injective :
    (xs ys : Bytes) (a b : Bool) {e : Bytes}
    → AreNibbles xs
    → AreNibbles ys
    → hex_prefix_encode xs a ≡ some e
    → hex_prefix_encode ys b ≡ some e
    → xs ≡ ys
hex_prefix_encode-injective xs ys a b h k p q =
    let s = hex_prefix-Split xs a h p in
    let t = hex_prefix-Split ys b k q in
    let whole : pack s.flag s.beside ∷ s.packed ≡ pack t.flag t.beside ∷ t.packed =
      sym s.whole ∙ t.whole in
    let heads : pack s.flag s.beside ≡ pack t.flag t.beside = cc in
    let tails : s.packed ≡ t.packed = cc in
    let (flags, besides) =
      pack-injective s.flag t.flag s.beside t.beside s.small_flag t.small_flag s.small_beside
        t.small_beside heads in
    let rest =
      pack_pairs-injective s.tail t.tail s.small_tail t.small_tail s.is_packed
        (rw (← tails) at t.is_packed) in
    joined s.parts t.parts flags besides rest
  where
    joined :
        {f g m n : ℕ} {us vs : Bytes}
        → ((f % 2 ≡ 0) × (xs ≡ us)) ⊎ ((f % 2 ≡ 1) × (xs ≡ m ∷ us))
        → ((g % 2 ≡ 0) × (ys ≡ vs)) ⊎ ((g % 2 ≡ 1) × (ys ≡ n ∷ vs))
        → f ≡ g
        → m ≡ n
        → us ≡ vs
        → xs ≡ ys
    joined (inl u) (inl v) e1 e2 e3 = u.1 ∙ e3 ∙ sym v.1
    joined (inl u) (inr v) e1 e2 e3 = absurd (omega (arith, u.0, v.0, e1))
    joined (inr u) (inl v) e1 e2 e3 = absurd (omega (arith, u.0, v.0, e1))
    joined (inr u) (inr v) e1 e2 e3 = cc (u.1, v.1)
