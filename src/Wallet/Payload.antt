-- ===== src/Wallet/Payload.antt =====
-- agreement.rs, contract.rs, rpc_delegation.rs, task.rs, token.rs, tool.rs and transaction.rs: the
-- payloads that the wallet puts in transactions. Their bytes, which `bincode` makes, are a parameter
-- of the builders.
use zincha_sdk.Base.{ℕ, Bool, Option, List, nat_eq, list_eq, option_eq}
use zincha_sdk.Crypto.Bytes.{Bytes, Text, Address, Hash256}
use zincha_sdk.Access.Token.{AccessTokenReceipt}
use zincha_sdk.Job.{ToolMilestoneDef}

pub record ReceiptWithProof : Type 0 where
  pub receipt : AccessTokenReceipt
  pub proof_siblings : List (Hash256 × Bool)
  pub receipt_root : Hash256

pub data StakeTarget : Type 0 where
  agent validator requester_auto_match : StakeTarget

pub record AgreementAcceptData : Type 0 where
  pub agreement_id : Hash256

pub record AgreementCancelData : Type 0 where
  pub agreement_id : Hash256

pub record AgreementDisputeData : Type 0 where
  pub agreement_id : Hash256
  pub reason : Text
  pub milestone_index : Option ℕ

pub record AgreementExecuteData : Type 0 where
  pub agreement_id : Hash256
  pub result_hash : Hash256
  pub milestone_index : ℕ

pub record ContractCallData : Type 0 where
  pub contract_address : Address
  pub function : Text
  pub args : Bytes
  pub gas_limit : ℕ

pub record ContractDeployData : Type 0 where
  pub bytecode : Bytes

pub record ContractRouteCallData : Type 0 where
  pub deployer : Address
  pub route_name : Text
  pub function : Text
  pub args : Bytes
  pub gas_limit : ℕ

pub record ContractRouteUpdateData : Type 0 where
  pub route_name : Text
  pub target_contract_address : Address

pub record RpcReadDelegationRevokeData : Type 0 where
  pub delegation_id : Hash256

pub record TaskAcceptData : Type 0 where
  pub task_id : Hash256

pub record TaskDisputeData : Type 0 where
  pub task_id : Hash256
  pub reason : Text

pub record TaskFinalizeData : Type 0 where
  pub task_id : Hash256

pub record TaskFulfillData : Type 0 where
  pub task_id : Hash256
  pub result_hash : Hash256
  pub result_data : Bytes
  pub tools_used : List Hash256
  pub input_refs : List Hash256
  pub receipt_proofs : List ReceiptWithProof

pub record TaskResolveData : Type 0 where
  pub task_id : Hash256
  pub agent_wins : Bool
  pub reason : Text

pub record TokenApproveData : Type 0 where
  pub token_id : Hash256
  pub spender : Address
  pub amount : ℕ

pub record TokenBurnData : Type 0 where
  pub token_id : Hash256
  pub amount : ℕ

pub record TokenCreateData : Type 0 where
  pub name : Text
  pub symbol : Text
  pub decimals : ℕ
  pub initial_supply : ℕ
  pub max_supply : ℕ
  pub burnable : Bool
  pub mint_authority : Option Address
  pub metadata : Bytes

pub record TokenMintData : Type 0 where
  pub token_id : Hash256
  pub to : Address
  pub amount : ℕ

pub record TokenTransferData : Type 0 where
  pub token_id : Hash256
  pub to : Address
  pub amount : ℕ

pub record TokenUpdateAuthorityData : Type 0 where
  pub token_id : Hash256
  pub mint_authority : Option Address

pub record ToolInvokeData : Type 0 where
  pub tool_id : Hash256
  pub input_data : Bytes
  pub max_metered_units : Option ℕ
  pub gas_limit : ℕ
  pub milestones : List ToolMilestoneDef

pub record ToolJobExpireData : Type 0 where
  pub job_id : Hash256

pub record ToolResultAcceptData : Type 0 where
  pub job_id : Hash256
  pub milestone_index : Option ℕ

pub record ToolResultDisputeData : Type 0 where
  pub job_id : Hash256
  pub reason : Text
  pub milestone_index : Option ℕ

pub record ToolResultResolveData : Type 0 where
  pub job_id : Hash256
  pub provider_wins : Bool
  pub reason : Text
  pub milestone_index : Option ℕ

pub record ToolResultSubmitData : Type 0 where
  pub job_id : Hash256
  pub result_hash : Hash256
  pub result_metadata : Bytes
  pub milestone_index : Option ℕ

pub record ToolSubscriptionCancelData : Type 0 where
  pub subscription_id : Hash256

pub record ToolSubscriptionRenewData : Type 0 where
  pub subscription_id : Hash256

pub record ToolSubscriptionResumeData : Type 0 where
  pub subscription_id : Hash256
  pub reserve_amount : ℕ

pub record ToolSubscriptionStartData : Type 0 where
  pub plan_id : Hash256
  pub reserve_amount : ℕ
  pub auto_renew : Bool

pub record ToolSubscriptionTopUpData : Type 0 where
  pub subscription_id : Hash256
  pub amount : ℕ

pub record ToolUsageAcceptData : Type 0 where
  pub session_id : Hash256

pub record ToolUsageDisputeData : Type 0 where
  pub session_id : Hash256
  pub reason : Text

pub record ToolUsageExpireData : Type 0 where
  pub session_id : Hash256

pub record ToolUsageReportData : Type 0 where
  pub session_id : Hash256
  pub units_used : ℕ
  pub result_hash : Hash256
  pub result_metadata : Bytes

pub record ToolUsageResolveData : Type 0 where
  pub session_id : Hash256
  pub provider_wins : Bool
  pub reason : Text

-- a payload of any of these types
pub data Payload : Type 0 where
  of_agreement_accept : AgreementAcceptData → Payload
  of_agreement_cancel : AgreementCancelData → Payload
  of_agreement_dispute : AgreementDisputeData → Payload
  of_agreement_execute : AgreementExecuteData → Payload
  of_contract_call : ContractCallData → Payload
  of_contract_deploy : ContractDeployData → Payload
  of_contract_route_call : ContractRouteCallData → Payload
  of_contract_route_update : ContractRouteUpdateData → Payload
  of_rpc_read_delegation_revoke : RpcReadDelegationRevokeData → Payload
  of_stake_target : StakeTarget → Payload
  of_task_accept : TaskAcceptData → Payload
  of_task_dispute : TaskDisputeData → Payload
  of_task_finalize : TaskFinalizeData → Payload
  of_task_fulfill : TaskFulfillData → Payload
  of_task_resolve : TaskResolveData → Payload
  of_token_approve : TokenApproveData → Payload
  of_token_burn : TokenBurnData → Payload
  of_token_create : TokenCreateData → Payload
  of_token_mint : TokenMintData → Payload
  of_token_transfer : TokenTransferData → Payload
  of_token_update_authority : TokenUpdateAuthorityData → Payload
  of_tool_invoke : ToolInvokeData → Payload
  of_tool_job_expire : ToolJobExpireData → Payload
  of_tool_result_accept : ToolResultAcceptData → Payload
  of_tool_result_dispute : ToolResultDisputeData → Payload
  of_tool_result_resolve : ToolResultResolveData → Payload
  of_tool_result_submit : ToolResultSubmitData → Payload
  of_tool_subscription_cancel : ToolSubscriptionCancelData → Payload
  of_tool_subscription_renew : ToolSubscriptionRenewData → Payload
  of_tool_subscription_resume : ToolSubscriptionResumeData → Payload
  of_tool_subscription_start : ToolSubscriptionStartData → Payload
  of_tool_subscription_top_up : ToolSubscriptionTopUpData → Payload
  of_tool_usage_accept : ToolUsageAcceptData → Payload
  of_tool_usage_dispute : ToolUsageDisputeData → Payload
  of_tool_usage_expire : ToolUsageExpireData → Payload
  of_tool_usage_report : ToolUsageReportData → Payload
  of_tool_usage_resolve : ToolUsageResolveData → Payload
