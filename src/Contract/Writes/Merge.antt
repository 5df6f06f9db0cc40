-- ===== src/Contract/Writes/Merge.antt =====
-- contract.rs: merging staged token writes, as what they say of each key.
use zincha_sdk.Base.{◌≡◌, nat_eq, list_eq, option_eq}
use zincha_sdk.Crypto.Bytes.{Hash256, Address}
use zincha_sdk.Contract.Writes.{
  ContractTokenWrites, AllowanceKey, allowance_key_eq, balance_key_eq, merge_from, token_pair,
  balance_pair, balance_deposit_pair, allowance_pair, allowance_deposit_pair,
}
use zincha_sdk.Contract.Writes.Pairs.{
  over, change, IsStaged, merge_pair-change, merge_pair-IsStaged,
}

-- Each of the five maps has no key twice, and none that is also among the removed ones.
abbrev pub IsConsistent : ContractTokenWrites → Type 0
IsConsistent w =
    IsStaged (token_pair w)
    × IsStaged (balance_pair w)
    × IsStaged (balance_deposit_pair w)
    × IsStaged (allowance_pair w)
    × IsStaged (allowance_deposit_pair w)

-- Merged writes say of every token, balance, allowance and deposit what the other writes say of it,
-- and where those say nothing what the own writes say.
abbrev pub IsMerge : ContractTokenWrites → ContractTokenWrites → ContractTokenWrites → Type 0
IsMerge self other merged =
    ((k : Hash256)
      → change (token_pair merged) k
        ≡ over (change (token_pair other) k) (change (token_pair self) k))
    × ((k : Hash256 × Address)
        → change (balance_pair merged) k
          ≡ over (change (balance_pair other) k) (change (balance_pair self) k))
    × ((k : Hash256 × Address)
        → change (balance_deposit_pair merged) k
          ≡ over (change (balance_deposit_pair other) k) (change (balance_deposit_pair self) k))
    × ((k : AllowanceKey)
        → change (allowance_pair merged) k
          ≡ over (change (allowance_pair other) k) (change (allowance_pair self) k))
    × ((k : AllowanceKey)
        → change (allowance_deposit_pair merged) k
          ≡ over (change (allowance_deposit_pair other) k) (change (allowance_deposit_pair self) k))

-- Merging consistent writes says of every token, balance, allowance and deposit what the other
-- writes say of it, and where they say nothing what the own writes say.
pub merge_from-change :
    (self other : ContractTokenWrites)
    → IsConsistent other
    → IsMerge self other (merge_from self other)
unfolding merge_from
merge_from-change self other h = (
  λ k. merge_pair-change (token_pair self) (token_pair other) k h.0.0,
  λ k. merge_pair-change (balance_pair self) (balance_pair other) k h.1.0,
  λ k. merge_pair-change (balance_deposit_pair self) (balance_deposit_pair other) k h.2.0,
  λ k. merge_pair-change (allowance_pair self) (allowance_pair other) k h.3.0,
  λ k. merge_pair-change (allowance_deposit_pair self) (allowance_deposit_pair other) k h.4.0,
)

-- Merging consistent writes leaves consistent writes.
pub merge_from-IsConsistent :
    (self other : ContractTokenWrites)
    → IsConsistent self
    → IsConsistent other
    → IsConsistent (merge_from self other)
unfolding merge_from
merge_from-IsConsistent self other h k = (
  merge_pair-IsStaged (token_pair self) (token_pair other) h.0 k.0,
  merge_pair-IsStaged (balance_pair self) (balance_pair other) h.1 k.1,
  merge_pair-IsStaged (balance_deposit_pair self) (balance_deposit_pair other) h.2 k.2,
  merge_pair-IsStaged (allowance_pair self) (allowance_pair other) h.3 k.3,
  merge_pair-IsStaged (allowance_deposit_pair self) (allowance_deposit_pair other) h.4 k.4,
)
