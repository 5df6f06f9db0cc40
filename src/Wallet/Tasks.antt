-- ===== src/Wallet/Tasks.antt =====
-- agent_wallet.rs: the builders of tasks.
use zincha_sdk.Base.{ℕ, Bool, List, [], nat_eq, list_eq, option_eq}
use zincha_sdk.Crypto.Bytes.{Bytes, Text, Hash256}
use zincha_sdk.Transaction.Kind.{TxType}
use zincha_sdk.Wallet.{Backend, Build, zero_address, submit}
use zincha_sdk.Wallet.Payload.{
  TaskAcceptData, TaskDisputeData, TaskFinalizeData, TaskFulfillData, TaskResolveData,
  ReceiptWithProof, Payload, of_task_accept, of_task_dispute, of_task_finalize, of_task_fulfill,
  of_task_resolve,
}

module _ (b : Backend) (encode : Payload → Bytes) where
  unfoldable pub build_fulfill_task :
      Hash256 → Hash256 → Bytes → List Hash256 → List Hash256 → ℕ → Build b
  build_fulfill_task task_id result_hash result_data tools_used input_refs fee =
      let sent : TaskFulfillData = record {
        task_id = task_id;
        result_hash = result_hash;
        result_data = result_data;
        tools_used = tools_used;
        input_refs = input_refs;
        receipt_proofs = [];
      } in
      submit b (record {
        tx_type = TxType.task_fulfill;
        recipient = zero_address;
        amount = 0;
        fee = fee;
        max_priority_fee_per_gas = 0;
        payload = encode (of_task_fulfill sent);
      })

  unfoldable pub build_fulfill_task_verified :
      Hash256 → Hash256 → Bytes → List Hash256 → List Hash256 → List ReceiptWithProof → ℕ → Build b
  build_fulfill_task_verified task_id result_hash result_data tools_used input_refs receipt_proofs
        fee =
      let sent : TaskFulfillData = record {
        task_id = task_id;
        result_hash = result_hash;
        result_data = result_data;
        tools_used = tools_used;
        input_refs = input_refs;
        receipt_proofs = receipt_proofs;
      } in
      submit b (record {
        tx_type = TxType.task_fulfill;
        recipient = zero_address;
        amount = 0;
        fee = fee;
        max_priority_fee_per_gas = 0;
        payload = encode (of_task_fulfill sent);
      })

  unfoldable pub build_accept_task : Hash256 → ℕ → Build b
  build_accept_task task_id fee =
      let sent : TaskAcceptData = record { task_id = task_id } in
      submit b (record {
        tx_type = TxType.task_accept;
        recipient = zero_address;
        amount = 0;
        fee = fee;
        max_priority_fee_per_gas = 0;
        payload = encode (of_task_accept sent);
      })

  unfoldable pub build_dispute_task : Hash256 → Text → ℕ → Build b
  build_dispute_task task_id reason fee =
      let sent : TaskDisputeData = record { task_id = task_id; reason = reason } in
      submit b (record {
        tx_type = TxType.task_dispute;
        recipient = zero_address;
        amount = 0;
        fee = fee;
        max_priority_fee_per_gas = 0;
        payload = encode (of_task_dispute sent);
      })

  unfoldable pub build_resolve_task : Hash256 → Bool → Text → ℕ → Build b
  build_resolve_task task_id agent_wins reason fee =
      let sent : TaskResolveData = record {
        task_id = task_id;
        agent_wins = agent_wins;
        reason = reason;
      } in
      submit b (record {
        tx_type = TxType.task_resolve;
        recipient = zero_address;
        amount = 0;
        fee = fee;
        max_priority_fee_per_gas = 0;
        payload = encode (of_task_resolve sent);
      })

  unfoldable pub build_finalize_task : Hash256 → ℕ → Build b
  build_finalize_task task_id fee =
      let sent : TaskFinalizeData = record { task_id = task_id } in
      submit b (record {
        tx_type = TxType.task_finalize;
        recipient = zero_address;
        amount = 0;
        fee = fee;
        max_priority_fee_per_gas = 0;
        payload = encode (of_task_finalize sent);
      })

  unfoldable pub build_cancel_task : Hash256 → ℕ → Build b
  build_cancel_task task_id fee = submit b (record {
    tx_type = TxType.task_cancel;
    recipient = zero_address;
    amount = 0;
    fee = fee;
    max_priority_fee_per_gas = 0;
    payload = task_id;
  })
