-- ===== src/Access/Verifier/Once.antt =====
-- tool.rs: a tool serves a token once, and a refused request claims nothing.
use zincha_sdk.Base.{
  ℕ, ◌≡◌, refl, ◌↔◌, inl, inr, true, false, List, [], ◌∷◌, arith, Bool-cases, ◌==◌, nat_eq, ==_iff,
  contains, distinct, list_eq, option_eq, Result, ok, err, Result-cases,
}
use mathlib.Core.Path.{subst}
use zincha_sdk.Crypto.Bytes.{Bytes, Hash256}
use zincha_sdk.Crypto.Hash.{Crypto, to_address}
use zincha_sdk.Access.Token.{AccessToken, ToolAccessRequest, new_request}
use zincha_sdk.Access.Replay.{ReplayStore, in_memory_replay_store, try_use_in_memory}
use zincha_sdk.Access.Verifier.{
  ToolVerifier, ToolVerifyError, check_request, claim_token, verify_request,
}
use zincha_sdk.Access.Verifier.Checks.{
  IsInvoker, IsCurrent, check_request_iff, new_request-IsInvoker,
}

-- the ids served so far, after one more outcome
abbrev served : Result ToolVerifyError (Unit {0}) → Hash256 → List Hash256 → List Hash256
served (ok _) token_id rest = token_id ∷ rest
served (err e) token_id rest = rest

module _ (c : Crypto) {S : Type 0} (store : ReplayStore S) (v : ToolVerifier) where
  -- The token ids that a tool serves out of a sequence of requests, each with its time.
  unfoldable pub serve : List (ℕ × ToolAccessRequest) → S → List Hash256
  unfolding verify_request
  serve [] s = []
  serve ((now_ms, r) ∷ requests) s =
      let (outcome, s') = verify_request c store v now_ms r s in
      served outcome r.token.token_id (serve requests s')

  serve-cons :
      (now_ms : ℕ) (r : ToolAccessRequest) (requests : List (ℕ × ToolAccessRequest)) (s : S)
      → let after = claim_token store r.token.token_id (check_request c v now_ms r) s in
        serve ((now_ms, r) ∷ requests) s ≡ served after.0 r.token.token_id (serve requests after.1)
  unfolding serve verify_request
  serve-cons now_ms r requests s = refl

  -- A request is granted exactly if the payer makes it with a current token whose id the store
  -- claims for the first time.
  pub verify_request_iff :
      (now_ms : ℕ) (r : ToolAccessRequest) (s : S)
      → ((verify_request c store v now_ms r s).0 ≡ ok tt) ↔ (
          IsInvoker c r
          × IsCurrent v now_ms r.token
          × ((store.try_use r.token.token_id s).0 ≡ true))
  unfolding verify_request
  verify_request_iff now_ms r s = elim (Result-cases (check_request c v now_ms r)) [
    | inl (_, e) ↦ ground (arith, check_request_iff c v now_ms r)
    | inr (x, e) ↦ ground (arith, check_request_iff c v now_ms r)
  ]

  claim_token-keeps :
      (i j : Hash256) (checked : Result ToolVerifyError (Unit {0})) (s : S)
      → store.IsUsed j s
      → store.IsUsed j (claim_token store i checked s).1
  unfolding claim_token
  claim_token-keeps i j (ok _) s used = store.keeps i j s used
  claim_token-keeps i j (err e) s used = used

  claim_token-claims :
      (i : Hash256) (checked : Result ToolVerifyError (Unit {0})) (s : S)
      → (claim_token store i checked s).0 ≡ ok tt
      → store.IsUsed i (claim_token store i checked s).1
  unfolding claim_token
  claim_token-claims i (ok _) s h = store.claims i s
  claim_token-claims i (err e) s h = cc

  claim_token-refuses :
      (i : Hash256) (checked : Result ToolVerifyError (Unit {0})) (s : S)
      → store.IsUsed i s
      → (e : ToolVerifyError) × ((claim_token store i checked s).0 ≡ err e)
  unfolding claim_token
  claim_token-refuses i (ok _) s used = rw (store.refuses i s used) (_, refl)
  claim_token-refuses i (err e) s used = (e, refl)

  -- An id that is used already is not served again.
  serve-unused :
      (requests : List (ℕ × ToolAccessRequest)) (s : S) (i : Hash256)
      → store.IsUsed i s
      → contains (serve requests s) i ≡ false
  unfolding serve
  serve-unused [] s i used = refl
  serve-unused ((now_ms, r) ∷ requests) s i used =
      let token_id = r.token.token_id in
      let checked = check_request c v now_ms r in
      let rest =
        serve-unused requests (claim_token store token_id checked s).1 i
          (claim_token-keeps token_id i checked s used) in
      elim (Result-cases (claim_token store token_id checked s).0) [
        | inl (_, e) ↦ elim (Bool-cases (i == token_id)) [
          | inl same ↦
              let (x, f) =
                claim_token-refuses token_id checked s
                  (subst (λ j. store.IsUsed j s) ((==_iff i token_id).0 same) used) in
              cc
          | inr other ↦ rw (serve-cons now_ms r requests s, e, other) rest
        ]
        | inr (x, e) ↦ rw (serve-cons now_ms r requests s, e) rest
      ]

  -- Of any sequence of requests, at any times, a tool serves each token id at most once, whatever
  -- replay store keeps its promise.
  pub serve-distinct :
      (requests : List (ℕ × ToolAccessRequest)) (s : S) → distinct (serve requests s) ≡ true
  unfolding serve
  serve-distinct [] s = refl
  serve-distinct ((now_ms, r) ∷ requests) s =
      let token_id = r.token.token_id in
      let checked = check_request c v now_ms r in
      let s' = (claim_token store token_id checked s).1 in
      let rest = serve-distinct requests s' in
      elim (Result-cases (claim_token store token_id checked s).0) [
        | inl (_, e) ↦
            let served = claim_token-claims token_id checked s e in
            rw (serve-cons now_ms r requests s, e, serve-unused requests s' token_id served) rest
        | inr (x, e) ↦ rw (serve-cons now_ms r requests s, e) rest
      ]

  -- The holder of the invoker's key is granted access: a request made by `ToolAccessRequest::new`
  -- with that key, for a current token whose id the store claims for the first time, passes.
  new_request-granted :
      (now_ms : ℕ) (token : AccessToken) (secret : Bytes) (s : S)
      → token.invoker ≡ to_address c (c.verifying_key secret)
      → IsCurrent v now_ms token
      → (store.try_use token.token_id s).0 ≡ true
      → (verify_request c store v now_ms (new_request c token secret) s).0 ≡ ok tt
  unfolding new_request
  new_request-granted now_ms token secret s e current first =
      (verify_request_iff now_ms (new_request c token secret) s).1
        (new_request-IsInvoker c token secret e, current, first)

claim_in_memory-keeps :
    (i : Hash256) (checked : Result ToolVerifyError (Unit {0})) (used : List Hash256)
    {e : ToolVerifyError}
    → (claim_token in_memory_replay_store i checked used).0 ≡ err e
    → (claim_token in_memory_replay_store i checked used).1 ≡ used
unfolding claim_token try_use_in_memory
claim_in_memory-keeps i (ok _) used {e} h = elim (Bool-cases (contains used i)) [
  | inl there ↦ rw there refl
  | inr new ↦ let h = rw new at h in cc
]
claim_in_memory-keeps i (err x) used {e} h = refl

-- With the in-memory store, a request that is refused for any reason, a replay included, leaves the
-- used ids as they were.
refused-keeps :
    (c : Crypto) (v : ToolVerifier) (now_ms : ℕ) (r : ToolAccessRequest) (used : List Hash256)
    {e : ToolVerifyError}
    → (verify_request c in_memory_replay_store v now_ms r used).0 ≡ err e
    → (verify_request c in_memory_replay_store v now_ms r used).1 ≡ used
unfolding verify_request
refused-keeps c v now_ms r used {e} h =
    claim_in_memory-keeps r.token.token_id (check_request c v now_ms r) used {e = e} h
