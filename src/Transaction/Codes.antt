-- ===== src/Transaction/Codes.antt =====
-- transaction.rs: the codes and the names of TxType are read back.
use zincha_sdk.Base.{
  ℕ, ◌≡◌, refl, sym, ◌↔◌, inl, inr, Bool, true, Option, none, some, List, [], ◌∷◌, arith,
  Bool-cases, ◌==◌, nat_eq, ==_iff, list_eq, option_eq, ok, err,
}
use Prim.Native.String.{String}
use text.Mathlib.Text.{◌==◌ as ◌=text=◌}
use text.Mathlib.TextEquality.{eq_iff}
use mathlib.Core.Path.{subst}
use zincha_sdk.Transaction.Kind.{
  TxType, wire_code, as_str, first_match, or_unknown, from_wire_code, from_str_name, tx_types,
  contract_upgrade_unsupported,
}

-- Every kind is read back from its wire code and from its name.
pub read-write :
    (t : TxType) → (from_wire_code (wire_code t) ≡ ok t) × (from_str_name (as_str t) ≡ some t)
unfolding from_wire_code wire_code from_str_name as_str first_match or_unknown
read-write TxType.transfer = (refl, refl)
read-write TxType.entity_link = (refl, refl)
read-write TxType.agent_register = (refl, refl)
read-write TxType.agent_update = (refl, refl)
read-write TxType.task_submit = (refl, refl)
read-write TxType.task_fulfill = (refl, refl)
read-write TxType.task_cancel = (refl, refl)
read-write TxType.reputation_update = (refl, refl)
read-write TxType.task_accept = (refl, refl)
read-write TxType.task_dispute = (refl, refl)
read-write TxType.task_resolve = (refl, refl)
read-write TxType.task_finalize = (refl, refl)
read-write TxType.tool_register = (refl, refl)
read-write TxType.tool_invoke = (refl, refl)
read-write TxType.tool_result_submit = (refl, refl)
read-write TxType.tool_result_accept = (refl, refl)
read-write TxType.tool_result_dispute = (refl, refl)
read-write TxType.tool_result_resolve = (refl, refl)
read-write TxType.tool_job_expire = (refl, refl)
read-write TxType.tool_subscription_plan_create = (refl, refl)
read-write TxType.tool_subscription_plan_update = (refl, refl)
read-write TxType.tool_subscription_start = (refl, refl)
read-write TxType.tool_subscription_top_up = (refl, refl)
read-write TxType.tool_subscription_cancel = (refl, refl)
read-write TxType.tool_subscription_resume = (refl, refl)
read-write TxType.tool_subscription_renew = (refl, refl)
read-write TxType.tool_update = (refl, refl)
read-write TxType.agreement_create = (refl, refl)
read-write TxType.agreement_accept = (refl, refl)
read-write TxType.agreement_execute = (refl, refl)
read-write TxType.agreement_dispute = (refl, refl)
read-write TxType.agreement_resolve = (refl, refl)
read-write TxType.agreement_cancel = (refl, refl)
read-write TxType.arbitrator_register = (refl, refl)
read-write TxType.validator_register = (refl, refl)
read-write TxType.validator_exit = (refl, refl)
read-write TxType.validator_vrf_commit = (refl, refl)
read-write TxType.validator_vrf_contribution = (refl, refl)
read-write TxType.stake = (refl, refl)
read-write TxType.unstake = (refl, refl)
read-write TxType.task_decompose = (refl, refl)
read-write TxType.batch = (refl, refl)
read-write TxType.contract_deploy = (refl, refl)
read-write TxType.contract_call = (refl, refl)
read-write TxType.token_create = (refl, refl)
read-write TxType.token_transfer = (refl, refl)
read-write TxType.token_approve = (refl, refl)
read-write TxType.token_mint = (refl, refl)
read-write TxType.token_update_authority = (refl, refl)
read-write TxType.token_burn = (refl, refl)
read-write TxType.agent_deregister = (refl, refl)
read-write TxType.tool_deregister = (refl, refl)
read-write TxType.arbitrator_deregister = (refl, refl)
read-write TxType.contract_deactivate = (refl, refl)
read-write TxType.token_destroy = (refl, refl)
read-write TxType.tool_usage_report = (refl, refl)
read-write TxType.tool_usage_accept = (refl, refl)
read-write TxType.tool_usage_dispute = (refl, refl)
read-write TxType.tool_usage_resolve = (refl, refl)
read-write TxType.tool_usage_expire = (refl, refl)
read-write TxType.validator_update = (refl, refl)
read-write TxType.contract_verify = (refl, refl)
read-write TxType.contract_publish_abi = (refl, refl)
read-write TxType.contract_route_update = (refl, refl)
read-write TxType.contract_route_call = (refl, refl)
read-write TxType.protocol_params_update = (refl, refl)
read-write TxType.capability_propose = (refl, refl)
read-write TxType.capability_approve = (refl, refl)
read-write TxType.capability_reject = (refl, refl)
read-write TxType.capability_deprecate = (refl, refl)
read-write TxType.rpc_read_delegation_grant = (refl, refl)
read-write TxType.rpc_read_delegation_revoke = (refl, refl)

first_match-test :
    (test : TxType → Bool) (ts : List TxType) {t : TxType}
    → first_match test ts ≡ some t
    → test t ≡ true
unfolding first_match
first_match-test test [] {t} e = cc
first_match-test test (x ∷ ts) {t} e = elim (Bool-cases (test x)) [
  | inl h ↦ let found : some x ≡ some t = rw h at e in let same : x ≡ t = cc in rw (sym same) h
  | inr h ↦ first_match-test test ts {t = t} (rw h at e)
]

or_unknown-ok : (code : ℕ) (o : Option TxType) {t : TxType} → or_unknown code o ≡ ok t → o ≡ some t
unfolding or_unknown
or_unknown-ok code none e = ground arith
or_unknown-ok code (some x) e = cc

wire_code-found : (code : ℕ) {t : TxType} → from_wire_code code ≡ ok t → wire_code t ≡ code
unfolding from_wire_code
wire_code-found code {t} e =
    let found = or_unknown-ok code (first_match (λ t. wire_code t == code) tx_types) {t = t} e in
    (==_iff (wire_code t) code).0
      (first_match-test (λ t. wire_code t == code) tx_types {t = t} found)

name-found : (name : String) {t : TxType} → from_str_name name ≡ some t → as_str t ≡ name
unfolding from_str_name
name-found name {t} e =
    (eq_iff (as_str t) name).0 (first_match-test (λ t. as_str t =text= name) tx_types {t = t} e)

retired : from_wire_code 40 ≡ err contract_upgrade_unsupported
unfolding from_wire_code wire_code first_match or_unknown
retired = refl

-- A code is read as a kind exactly if it is that kind's; a name likewise. So no two kinds share a
-- code or a name, and the retired code 40 is no kind's.
pub read_iff :
    (t : TxType) (code : ℕ) (name : String)
    → ((from_wire_code code ≡ ok t) ↔ (wire_code t ≡ code))
      × ((from_str_name name ≡ some t) ↔ (as_str t ≡ name))
      × (from_wire_code 40 ≡ err contract_upgrade_unsupported)
read_iff t code name = (
  (wire_code-found code, λ e. subst (λ n. from_wire_code n ≡ ok t) e (read-write t).0),
  (name-found name, λ e. subst (λ n. from_str_name n ≡ some t) e (read-write t).1),
  retired,
)
