-- ===== src/Contract/Nibbles.antt =====
-- contract.rs: keys as half bytes, and their hex-prefix encoding.
use zincha_sdk.Base.{
  ℕ, suc, ◌+◌, ◌*◌, ◌/◌, ◌%◌, Bool, not, Option, none, some, [], ◌∷◌, if◌then◌else◌, length, ◌==◌,
  nat_eq, list_eq, option_eq,
}
use zincha_sdk.Crypto.Bytes.{Bytes}

-- Each byte as its upper and its lower half: `byte >> 4` and `byte & 0x0f`.
unfoldable pub bytes_to_nibbles : Bytes → Bytes
bytes_to_nibbles [] = []
bytes_to_nibbles (byte ∷ bytes) = byte / 16 ∷ byte % 16 ∷ bytes_to_nibbles bytes

unfoldable pub common_prefix_length : Bytes → Bytes → ℕ
common_prefix_length [] right = 0
common_prefix_length (x ∷ left) [] = 0
common_prefix_length (x ∷ left) (y ∷ right) =
    let rest = common_prefix_length left right in if x == y then suc rest else 0

-- `(upper << 4) | lower` on u8, of a `lower` below 16
abbrev pub pack : ℕ → ℕ → ℕ
pack upper lower = upper * 16 % 256 + lower

-- the loop over `chunks(2)`; `none` where the code would index out of bounds
unfoldable pub pack_pairs : Bytes → Option Bytes
pack_pairs [] = some []
pack_pairs (x ∷ []) = none
pack_pairs (x ∷ y ∷ rest) = elim (pack_pairs rest) [
  | none ↦ none
  | some packed ↦ some (pack x y ∷ packed)
]

abbrev pub push_front : ℕ → Option Bytes → Option Bytes
push_front x none = none
push_front x (some xs) = some (x ∷ xs)

-- the branch of an odd number of nibbles, the first of which shares the byte of the flag
abbrev pub encode_odd : ℕ → Bytes → Option Bytes
encode_odd flag [] = none
encode_odd flag (x ∷ rest) = push_front (pack flag x) (pack_pairs rest)

unfoldable pub hex_prefix_encode : Bytes → Bool → Option Bytes
unfolding pack_pairs
hex_prefix_encode nibbles is_leaf =
    let odd = not (length nibbles % 2 == 0) in
    let flag = (if is_leaf then 2 else 0) + (if odd then 1 else 0) in
    if odd then encode_odd flag nibbles else push_front (pack flag 0) (pack_pairs nibbles)
