-- ===== src/Transaction/Kind.antt =====
-- transaction.rs: TxType and its codes. The macro `define_tx_types!` makes each method from one
-- table; `entry` is that table.
use zincha_sdk.Base.{
  ℕ, Bool, Option, none, some, List, [], ◌∷◌, if◌then◌else◌, ◌==◌, nat_eq, list_eq, option_eq,
  Result, ok, err,
}
use Prim.Native.String.{String}
use text.Mathlib.Text.{◌==◌ as ◌=text=◌}

pub data TxType : Type 0 where
  transfer entity_link agent_register agent_update task_submit task_fulfill : TxType
  task_cancel reputation_update task_accept task_dispute task_resolve task_finalize : TxType
  tool_register tool_invoke tool_result_submit tool_result_accept tool_result_dispute : TxType
  tool_result_resolve tool_job_expire tool_subscription_plan_create : TxType
  tool_subscription_plan_update tool_subscription_start tool_subscription_top_up : TxType
  tool_subscription_cancel tool_subscription_resume tool_subscription_renew : TxType
  tool_update agreement_create agreement_accept agreement_execute agreement_dispute : TxType
  agreement_resolve agreement_cancel arbitrator_register validator_register : TxType
  validator_exit validator_vrf_commit validator_vrf_contribution stake unstake : TxType
  task_decompose batch contract_deploy contract_call token_create token_transfer : TxType
  token_approve token_mint token_update_authority token_burn agent_deregister : TxType
  tool_deregister arbitrator_deregister contract_deactivate token_destroy : TxType
  tool_usage_report tool_usage_accept tool_usage_dispute tool_usage_resolve : TxType
  tool_usage_expire validator_update contract_verify contract_publish_abi : TxType
  contract_route_update contract_route_call protocol_params_update capability_propose : TxType
  capability_approve capability_reject capability_deprecate rpc_read_delegation_grant : TxType
  rpc_read_delegation_revoke : TxType

-- the row of each kind: its wire code and its name
unfoldable pub entry : TxType → ℕ × String
entry transfer = (0, "transfer")
entry entity_link = (1, "entity_link")
entry agent_register = (2, "agent_register")
entry agent_update = (3, "agent_update")
entry task_submit = (4, "task_submit")
entry task_fulfill = (5, "task_fulfill")
entry task_cancel = (6, "task_cancel")
entry reputation_update = (7, "reputation_update")
entry task_accept = (63, "task_accept")
entry task_dispute = (64, "task_dispute")
entry task_resolve = (65, "task_resolve")
entry task_finalize = (66, "task_finalize")
entry tool_register = (8, "tool_register")
entry tool_invoke = (9, "tool_invoke")
entry tool_result_submit = (10, "tool_result_submit")
entry tool_result_accept = (11, "tool_result_accept")
entry tool_result_dispute = (12, "tool_result_dispute")
entry tool_result_resolve = (13, "tool_result_resolve")
entry tool_job_expire = (14, "tool_job_expire")
entry tool_subscription_plan_create = (15, "tool_subscription_plan_create")
entry tool_subscription_plan_update = (16, "tool_subscription_plan_update")
entry tool_subscription_start = (17, "tool_subscription_start")
entry tool_subscription_top_up = (18, "tool_subscription_top_up")
entry tool_subscription_cancel = (19, "tool_subscription_cancel")
entry tool_subscription_resume = (20, "tool_subscription_resume")
entry tool_subscription_renew = (21, "tool_subscription_renew")
entry tool_update = (22, "tool_update")
entry agreement_create = (23, "agreement_create")
entry agreement_accept = (24, "agreement_accept")
entry agreement_execute = (25, "agreement_execute")
entry agreement_dispute = (26, "agreement_dispute")
entry agreement_resolve = (27, "agreement_resolve")
entry agreement_cancel = (28, "agreement_cancel")
entry arbitrator_register = (29, "arbitrator_register")
entry validator_register = (30, "validator_register")
entry validator_exit = (31, "validator_exit")
entry validator_vrf_commit = (32, "validator_vrf_commit")
entry validator_vrf_contribution = (33, "validator_vrf_contribution")
entry stake = (34, "stake")
entry unstake = (35, "unstake")
entry task_decompose = (36, "task_decompose")
entry batch = (37, "batch")
entry contract_deploy = (38, "contract_deploy")
entry contract_call = (39, "contract_call")
entry token_create = (41, "token_create")
entry token_transfer = (42, "token_transfer")
entry token_approve = (43, "token_approve")
entry token_mint = (44, "token_mint")
entry token_update_authority = (45, "token_update_authority")
entry token_burn = (46, "token_burn")
entry agent_deregister = (47, "agent_deregister")
entry tool_deregister = (48, "tool_deregister")
entry arbitrator_deregister = (49, "arbitrator_deregister")
entry contract_deactivate = (50, "contract_deactivate")
entry token_destroy = (51, "token_destroy")
entry tool_usage_report = (52, "tool_usage_report")
entry tool_usage_accept = (53, "tool_usage_accept")
entry tool_usage_dispute = (54, "tool_usage_dispute")
entry tool_usage_resolve = (55, "tool_usage_resolve")
entry tool_usage_expire = (56, "tool_usage_expire")
entry validator_update = (57, "validator_update")
entry contract_verify = (58, "contract_verify")
entry contract_publish_abi = (59, "contract_publish_abi")
entry contract_route_update = (60, "contract_route_update")
entry contract_route_call = (61, "contract_route_call")
entry protocol_params_update = (62, "protocol_params_update")
entry capability_propose = (67, "capability_propose")
entry capability_approve = (68, "capability_approve")
entry capability_reject = (69, "capability_reject")
entry capability_deprecate = (70, "capability_deprecate")
entry rpc_read_delegation_grant = (71, "rpc_read_delegation_grant")
entry rpc_read_delegation_revoke = (72, "rpc_read_delegation_revoke")

unfoldable pub wire_code : TxType → ℕ
unfolding entry
wire_code t = (entry t).0

unfoldable pub as_str : TxType → String
unfolding entry
as_str t = (entry t).1

-- the rows in the order of the macro's arms
abbrev pub tx_types : List TxType
tx_types =
    transfer ∷ entity_link ∷ agent_register ∷ agent_update ∷ task_submit ∷ task_fulfill
    ∷ task_cancel ∷ reputation_update ∷ task_accept ∷ task_dispute ∷ task_resolve ∷ task_finalize
    ∷ tool_register ∷ tool_invoke ∷ tool_result_submit ∷ tool_result_accept ∷ tool_result_dispute
    ∷ tool_result_resolve ∷ tool_job_expire ∷ tool_subscription_plan_create
    ∷ tool_subscription_plan_update ∷ tool_subscription_start ∷ tool_subscription_top_up
    ∷ tool_subscription_cancel ∷ tool_subscription_resume ∷ tool_subscription_renew ∷ tool_update
    ∷ agreement_create ∷ agreement_accept ∷ agreement_execute ∷ agreement_dispute
    ∷ agreement_resolve ∷ agreement_cancel ∷ arbitrator_register ∷ validator_register
    ∷ validator_exit ∷ validator_vrf_commit ∷ validator_vrf_contribution ∷ stake ∷ unstake
    ∷ task_decompose ∷ batch ∷ contract_deploy ∷ contract_call ∷ token_create ∷ token_transfer
    ∷ token_approve ∷ token_mint ∷ token_update_authority ∷ token_burn ∷ agent_deregister
    ∷ tool_deregister ∷ arbitrator_deregister ∷ contract_deactivate ∷ token_destroy
    ∷ tool_usage_report ∷ tool_usage_accept ∷ tool_usage_dispute ∷ tool_usage_resolve
    ∷ tool_usage_expire ∷ validator_update ∷ contract_verify ∷ contract_publish_abi
    ∷ contract_route_update ∷ contract_route_call ∷ protocol_params_update ∷ capability_propose
    ∷ capability_approve ∷ capability_reject ∷ capability_deprecate ∷ rpc_read_delegation_grant
    ∷ rpc_read_delegation_revoke ∷ []

-- the messages of `from_wire_code`
pub data WireError : Type 0 where
  contract_upgrade_unsupported : WireError
  unknown_type_code : ℕ → WireError

abbrev pub retired_contract_upgrade_wire_code : ℕ
retired_contract_upgrade_wire_code = 40

-- the first arm of a match that takes the value
unfoldable pub first_match : (TxType → Bool) → List TxType → Option TxType
first_match test [] = none
first_match test (t ∷ ts) = if test t then some t else first_match test ts

-- the last two arms of `from_wire_code`
unfoldable pub or_unknown : ℕ → Option TxType → Result WireError TxType
or_unknown code (some t) = ok t
or_unknown code none =
    if code == retired_contract_upgrade_wire_code
    then err contract_upgrade_unsupported
    else err (unknown_type_code code)

unfoldable pub from_wire_code : ℕ → Result WireError TxType
from_wire_code code = or_unknown code (first_match (λ t. wire_code t == code) tx_types)

unfoldable pub from_str_name : String → Option TxType
from_str_name name = first_match (λ t. as_str t =text= name) tx_types
