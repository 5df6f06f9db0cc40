-- ===== src/Crypto/Bytes/Order.antt =====
-- The lexicographic order of byte arrays is linear.
use zincha_sdk.Base.{◌≡◌, refl, true, false, [], ◌∷◌, arith, nat_eq, list_eq, option_eq}
use zincha_sdk.Crypto.Bytes.{Bytes, bytes_le}

pub bytes_le-total : (a b : Bytes) → bytes_le a b ≡ false → bytes_le b a ≡ true
unfolding bytes_le
bytes_le-total [] b h = cc
bytes_le-total (x ∷ a) [] h = refl
bytes_le-total (x ∷ a) (y ∷ b) h = ground (arith, bytes_le-total a b)

pub bytes_le_trans :
    (a b c : Bytes) → bytes_le a b ≡ true → bytes_le b c ≡ true → bytes_le a c ≡ true
unfolding bytes_le
bytes_le_trans [] b c h k = refl
bytes_le_trans (x ∷ a) [] c h k = cc
bytes_le_trans (x ∷ a) (y ∷ b) [] h k = cc
bytes_le_trans (x ∷ a) (y ∷ b) (z ∷ c) h k = ground (arith, bytes_le_trans a b c)

pub bytes_le-antisym : (a b : Bytes) → bytes_le a b ≡ true → bytes_le b a ≡ true → a ≡ b
unfolding bytes_le
bytes_le-antisym [] [] h k = refl
bytes_le-antisym [] (y ∷ b) h k = cc
bytes_le-antisym (x ∷ a) [] h k = cc
bytes_le-antisym (x ∷ a) (y ∷ b) h k = ground (arith, bytes_le-antisym a b)

pub Bytes-set : IsSet Bytes
Bytes-set = hlevel
