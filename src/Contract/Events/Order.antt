-- ===== src/Contract/Events/Order.antt =====
-- contract.rs: the canonical order of contract events is linear.
use zincha_sdk.Base.{
  ℕ, ◌<◌, ◌≡◌, Bool, true, false, List, [], ◌∷◌, arith, leb, All, nat_eq, list_eq, option_eq,
}
use zincha_sdk.Base.Sort.{IsLinear}
use zincha_sdk.Crypto.Bytes.{bytes_le}
use zincha_sdk.Crypto.Bytes.Order.{bytes_le-total, bytes_le_trans, bytes_le-antisym}
use zincha_sdk.Contract.Events.{ContractEvent, then_with, by, in_block_le, event_le}

-- the laws of a total preorder, for a Boolean test
pub record IsPreorder {ℓ} {A : Type ℓ} (le : A → A → Bool) : Type ℓ where
  pub total : (a b : A) → le a b ≡ false → le b a ≡ true
  pub trans : (a b c : A) → le a b ≡ true → le b c ≡ true → le a c ≡ true

then_with-IsPreorder {ℓ} :
    {A : Type ℓ} (f g : A → A → Bool) → IsPreorder f → IsPreorder g → IsPreorder (then_with f g)
then_with-IsPreorder f g p q = record {
  total = λ a b h. ground (arith, p.total a b, p.total b a, q.total a b);
  trans = λ a b c h k.
      ground (
        arith,
        p.trans a b c,
        p.trans b c a,
        p.trans c a b,
        q.trans a b c,
        p.total a b,
        p.total b c,
      );
}

by-IsPreorder {ℓ κ} :
    {A : Type ℓ} {B : Type κ} (le : B → B → Bool) (field : A → B)
    → IsPreorder le
    → IsPreorder (by le field)
by-IsPreorder le field p = record {
  total = λ a b h. p.total (field a) (field b) h;
  trans = λ a b c h k. p.trans (field a) (field b) (field c) h k;
}

leb-IsPreorder : IsPreorder leb
leb-IsPreorder = record { total = λ a b h. ground arith; trans = λ a b c h k. ground arith }

bytes_le-IsPreorder : IsPreorder bytes_le
bytes_le-IsPreorder = record { total = bytes_le-total; trans = bytes_le_trans }

in_block_le-IsPreorder : IsPreorder in_block_le
unfolding in_block_le
in_block_le-IsPreorder =
    then_with-IsPreorder _ _ (by-IsPreorder bytes_le (λ e. e.contract_address) bytes_le-IsPreorder)
      (then_with-IsPreorder _ _ (by-IsPreorder leb (λ e. e.log_index) leb-IsPreorder) (
        then_with-IsPreorder _ _ (by-IsPreorder bytes_le (λ e. e.tx_hash) bytes_le-IsPreorder) (
          then_with-IsPreorder _ _ (by-IsPreorder bytes_le (λ e. e.topic) bytes_le-IsPreorder)
            (by-IsPreorder bytes_le (λ e. e.payload) bytes_le-IsPreorder))))

event_le-IsPreorder : IsPreorder event_le
unfolding event_le
event_le-IsPreorder =
    then_with-IsPreorder _ _ (by-IsPreorder leb (λ e. e.block_number) leb-IsPreorder)
      in_block_le-IsPreorder

event_le-antisym : (a b : ContractEvent) → event_le a b ≡ true → event_le b a ≡ true → a ≡ b
unfolding event_le in_block_le
event_le-antisym a b h k = ground (
  arith,
  bytes_le-antisym a.contract_address b.contract_address,
  bytes_le-antisym a.tx_hash b.tx_hash,
  bytes_le-antisym a.topic b.topic,
  bytes_le-antisym a.payload b.payload,
)

pub event_le-IsLinear : IsLinear event_le
event_le-IsLinear = record {
  total = event_le-IsPreorder.total;
  trans = event_le-IsPreorder.trans;
  antisym = event_le-antisym;
}

pub ContractEvent-set : IsSet ContractEvent
ContractEvent-set = hlevel

pub same_block_le :
    (b : ℕ) (x y : ContractEvent)
    → x.block_number ≡ b
    → y.block_number ≡ b
    → in_block_le x y ≡ event_le x y
unfolding event_le
same_block_le b x y h k = ground (arith, h, k)

later_le :
    (b : ℕ) (x y : ContractEvent) → x.block_number < b → y.block_number ≡ b → event_le x y ≡ true
unfolding event_le
later_le b x y h k = ground (arith, h, k)

-- Every event of a later block is above the archive.
pub later_blocks :
    (b : ℕ) (xs ys : List ContractEvent)
    → All (λ e. e.block_number < b) xs
    → All (λ e. e.block_number ≡ b) ys
    → All (λ x. All (λ y. event_le x y ≡ true) ys) xs
later_blocks b [] ys h k = tt
later_blocks b (x ∷ xs) ys h k = (above ys k, later_blocks b xs ys h.1 k)
  where
    above :
        (l : List ContractEvent)
        → All (λ e. e.block_number ≡ b) l
        → All (λ y. event_le x y ≡ true) l
    above [] m = tt
    above (y ∷ l) m = (later_le b x y h.0 m.0, above l m.1)
