-- ===== src/Access/Replay.antt =====
-- tool.rs: ReplayStore, the token ids that a tool has served, and InMemoryReplayStore.
use zincha_sdk.Base.{
  ◌≡◌, refl, Bool, true, false, List, ◌∷◌, arith, if◌then◌else◌, nat_eq, ==_refl, contains, list_eq,
  option_eq,
}
use zincha_sdk.Crypto.Bytes.{Hash256}

-- trait ReplayStore over the states `S` of a store: `try_use` claims a token id in one step, and
-- answers whether it was unused. The laws are what the trait's documentation asks of a store.
pub record ReplayStore (S : Type 0) : Type 1 where
  pub try_use : Hash256 → S → Bool × S
  pub IsUsed : Hash256 → S → Type 0
  pub claims : (i : Hash256) (s : S) → IsUsed i (try_use i s).1
  pub keeps : (i j : Hash256) (s : S) → IsUsed j s → IsUsed j (try_use i s).1
  pub refuses : (i : Hash256) (s : S) → IsUsed i s → (try_use i s).0 ≡ false

-- impl ReplayStore for InMemoryReplayStore: `HashSet::insert`
unfoldable pub try_use_in_memory : Hash256 → List Hash256 → Bool × List Hash256
try_use_in_memory token_id used =
    if contains used token_id then (false, used) else (true, token_id ∷ used)

pub in_memory-claims :
    (i : Hash256) (used : List Hash256) → contains (try_use_in_memory i used).1 i ≡ true
unfolding try_use_in_memory
in_memory-claims i used = ground (arith, ==_refl i)

pub in_memory-keeps :
    (i j : Hash256) (used : List Hash256)
    → contains used j ≡ true
    → contains (try_use_in_memory i used).1 j ≡ true
unfolding try_use_in_memory
in_memory-keeps i j used h = ground arith

pub in_memory-refuses :
    (i : Hash256) (used : List Hash256)
    → contains used i ≡ true
    → (try_use_in_memory i used).0 ≡ false
unfolding try_use_in_memory
in_memory-refuses i used h = rw h refl

-- The in-memory store keeps the trait's promise.
instance abbrev pub in_memory_replay_store : ReplayStore (List Hash256)
in_memory_replay_store = record {
  try_use = try_use_in_memory;
  IsUsed = λ i used. contains used i ≡ true;
  claims = in_memory-claims;
  keeps = in_memory-keeps;
  refuses = in_memory-refuses;
}
