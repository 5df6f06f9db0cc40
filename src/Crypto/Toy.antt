-- ===== src/Crypto/Toy.antt =====
-- Concrete functions that keep the laws of `Crypto`, with no strength at all: for the tests only.
use zincha_sdk.Base.{
  zero, ◌≡◌, true, ◌++◌, arith, length, take, replicate, length-append, length-take,
  length-replicate, ◌==◌, ==_refl, list_eq, nat_eq, refl,
}
use zincha_sdk.Crypto.Bytes.{Bytes}
use zincha_sdk.Crypto.Hash.{Crypto}

-- the first 32 bytes, or fewer with zeros behind
abbrev pub pad : Bytes → Bytes
pad m = take 32 (m ++ replicate 32 0)

pub length-pad : (m : Bytes) → length (pad m) ≡ 32
length-pad m = omega (
  arith,
  length-take 32 (m ++ replicate 32 0),
  length-append m (replicate 32 0),
  length-replicate 32 (zero),
)

pub length-signed : (s m : Bytes) → length (pad s ++ pad m) ≡ 64
length-signed s m = omega (arith, length-append (pad s) (pad m), length-pad s, length-pad m)

pub signed-passes : (s m : Bytes) → ((pad s ++ pad m) == (pad s ++ pad m)) ≡ true
signed-passes s m = ==_refl (pad s ++ pad m)

abbrev pub toy_crypto : Crypto
toy_crypto = record {
  sha256 = pad;
  length-sha256 = length-pad;
  is_key = λ _. true;
  verifying_key = pad;
  key-is_key = λ _. refl;
  length-key = length-pad;
  sign = λ s m. pad s ++ pad m;
  length-sign = length-signed;
  check = λ key m signature. signature == (key ++ pad m);
  check-sign = signed-passes;
}
