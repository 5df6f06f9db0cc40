-- ===== src/Contract/Writes.antt =====
-- contract.rs: ContractTokenWrites, the token state that a tree of contract calls has staged, with
-- the rows of token.rs that it holds.
pub mod Pairs
pub mod Merge
use zincha_sdk.Base.{
  ℕ, ◌≡◌, ◌↔◌, Bool, true, false, ◌&&◌, Option, none, some, List, [], ◌∷◌, arith, if◌then◌else◌, Eq,
  ◌==◌, nat_eq, ==_iff, contains, list_eq, option_eq,
}
use zincha_sdk.Crypto.Bytes.{Bytes, Text, Address, Hash256}

pub record TokenMetadata : Type 0 where
  pub token_id : Hash256
  pub name : Text
  pub symbol : Text
  pub decimals : ℕ
  pub total_supply : ℕ
  pub max_supply : ℕ
  pub burnable : Bool
  pub creator : Address
  pub mint_authority : Option Address
  pub created_at_block : ℕ
  pub metadata : Bytes
  pub storage_deposit : ℕ

pub record TokenSecondaryStateStorageDeposit : Type 0 where
  pub payer : Address
  pub amount : ℕ

pub record AllowanceKey : Type 0 where
  pub token_id : Hash256
  pub owner : Address
  pub spender : Address

-- the derived `PartialEq`
abbrev pub allowance_key_same : AllowanceKey → AllowanceKey → Bool
allowance_key_same a b = a.token_id == b.token_id && (a.owner == b.owner && a.spender == b.spender)

pub allowance_key_same_iff : (a b : AllowanceKey) → (allowance_key_same a b ≡ true) ↔ (a ≡ b)
allowance_key_same_iff a b =
    ground (arith, ==_iff a.token_id b.token_id, ==_iff a.owner b.owner, ==_iff a.spender b.spender)

instance abbrev pub allowance_key_eq : Eq AllowanceKey
allowance_key_eq = record { test = allowance_key_same; decides = allowance_key_same_iff }

abbrev pub balance_key_same : Hash256 × Address → Hash256 × Address → Bool
balance_key_same (t, a) (u, b) = t == u && a == b

pub balance_key_same_iff : (p q : Hash256 × Address) → (balance_key_same p q ≡ true) ↔ (p ≡ q)
balance_key_same_iff (t, a) (u, b) = ground (arith, ==_iff t u, ==_iff a b)

instance abbrev pub balance_key_eq : Eq (Hash256 × Address)
balance_key_eq = record { test = balance_key_same; decides = balance_key_same_iff }

-- A `HashMap` as the list of its entries, and a `HashSet` as the list of its members.
module _ {K V : Type 0} ⦃e : Eq K⦄ where
  -- HashMap::get
  abbrev pub find : List (K × V) → K → Option V
  find [] k = none
  find ((k', v) ∷ m) k = if k == k' then some v else find m k

  -- HashMap::remove
  abbrev pub remove_key : List (K × V) → K → List (K × V)
  remove_key [] k = []
  remove_key ((k', v) ∷ m) k = let rest = remove_key m k in if k == k' then rest else (k', v) ∷ rest

  -- HashMap::insert
  abbrev pub insert_key : List (K × V) → K → V → List (K × V)
  insert_key m k v = (k, v) ∷ remove_key m k

module _ {K : Type 0} ⦃e : Eq K⦄ where
  -- HashSet::insert
  abbrev pub add_member : List K → K → List K
  add_member s k = if contains s k then s else k ∷ s

  -- HashSet::remove
  abbrev pub drop_member : List K → K → List K
  drop_member [] k = []
  drop_member (x ∷ s) k = let rest = drop_member s k in if k == x then rest else x ∷ rest

module _ {K V : Type 0} ⦃e : Eq K⦄ where
  -- the loop over the removed keys of the other writes
  unfoldable pub merge_removed : List K → List (K × V) × List K → List (K × V) × List K
  merge_removed [] own = own
  merge_removed (k ∷ rest) (written, removed) =
      merge_removed rest (remove_key written k, add_member removed k)

  -- the loop over the written keys of the other writes
  unfoldable pub merge_written : List (K × V) → List (K × V) × List K → List (K × V) × List K
  merge_written [] own = own
  merge_written ((k, v) ∷ rest) (written, removed) =
      merge_written rest (insert_key written k v, drop_member removed k)

  -- the two loops, of one of the five pairs of fields
  unfoldable pub merge_pair : List (K × V) × List K → List (K × V) × List K → List (K × V) × List K
  unfolding merge_removed merge_written
  merge_pair own (written, removed) = merge_written written (merge_removed removed own)

pub record ContractTokenWrites : Type 0 where
  pub tokens : List (Hash256 × TokenMetadata)
  pub tokens_removed : List Hash256
  pub token_balances : List ((Hash256 × Address) × ℕ)
  pub token_balances_removed : List (Hash256 × Address)
  pub token_balance_storage_deposits :
      List ((Hash256 × Address) × TokenSecondaryStateStorageDeposit)
  pub token_balance_storage_deposits_removed : List (Hash256 × Address)
  pub token_allowances : List (AllowanceKey × ℕ)
  pub token_allowances_removed : List AllowanceKey
  pub token_allowance_storage_deposits : List (AllowanceKey × TokenSecondaryStateStorageDeposit)
  pub token_allowance_storage_deposits_removed : List AllowanceKey

-- The five pairs of fields: what is written, and what is removed.
module _ (w : ContractTokenWrites) where
  abbrev pub token_pair : List (Hash256 × TokenMetadata) × List Hash256
  token_pair = (w.tokens, w.tokens_removed)

  abbrev pub balance_pair : List ((Hash256 × Address) × ℕ) × List (Hash256 × Address)
  balance_pair = (w.token_balances, w.token_balances_removed)

  abbrev pub balance_deposit_pair :
      List ((Hash256 × Address) × TokenSecondaryStateStorageDeposit) × List (Hash256 × Address)
  balance_deposit_pair =
      (w.token_balance_storage_deposits, w.token_balance_storage_deposits_removed)

  abbrev pub allowance_pair : List (AllowanceKey × ℕ) × List AllowanceKey
  allowance_pair = (w.token_allowances, w.token_allowances_removed)

  abbrev pub allowance_deposit_pair :
      List (AllowanceKey × TokenSecondaryStateStorageDeposit) × List AllowanceKey
  allowance_deposit_pair =
      (w.token_allowance_storage_deposits, w.token_allowance_storage_deposits_removed)

unfoldable pub merge_from : ContractTokenWrites → ContractTokenWrites → ContractTokenWrites
unfolding merge_pair
merge_from self other =
    let (tokens, tokens_removed) = merge_pair (token_pair self) (token_pair other) in
    let (balances, balances_removed) = merge_pair (balance_pair self) (balance_pair other) in
    let (deposits, deposits_removed) =
      merge_pair (balance_deposit_pair self) (balance_deposit_pair other) in
    let (allowances, allowances_removed) =
      merge_pair (allowance_pair self) (allowance_pair other) in
    let (allowance_deposits, allowance_deposits_removed) =
      merge_pair (allowance_deposit_pair self) (allowance_deposit_pair other) in
    record {
      tokens = tokens;
      tokens_removed = tokens_removed;
      token_balances = balances;
      token_balances_removed = balances_removed;
      token_balance_storage_deposits = deposits;
      token_balance_storage_deposits_removed = deposits_removed;
      token_allowances = allowances;
      token_allowances_removed = allowances_removed;
      token_allowance_storage_deposits = allowance_deposits;
      token_allowance_storage_deposits_removed = allowance_deposits_removed;
    }

abbrev no_entries {ℓ κ} : {A : Type ℓ} {B : Type κ} → List A × List B → Bool
no_entries ([], []) = true
no_entries _ = false

-- ContractTokenWrites::is_empty
unfoldable pub writes_is_empty : ContractTokenWrites → Bool
writes_is_empty w =
    no_entries (token_pair w)
    && no_entries (balance_pair w)
    && no_entries (balance_deposit_pair w)
    && no_entries (allowance_pair w)
    && no_entries (allowance_deposit_pair w)
