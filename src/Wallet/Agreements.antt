-- ===== src/Wallet/Agreements.antt =====
-- agent_wallet.rs: the builders of agreements.
use zincha_sdk.Base.{ℕ, Option, none, nat_eq, list_eq, option_eq}
use zincha_sdk.Crypto.Bytes.{Bytes, Text, Hash256}
use zincha_sdk.Transaction.Kind.{TxType}
use zincha_sdk.Wallet.{Backend, Build, zero_address, submit}
use zincha_sdk.Wallet.Payload.{
  AgreementAcceptData, AgreementCancelData, AgreementDisputeData, AgreementExecuteData, Payload,
  of_agreement_accept, of_agreement_cancel, of_agreement_dispute, of_agreement_execute,
}

module _ (b : Backend) (encode : Payload → Bytes) where
  unfoldable pub build_execute_milestone : Hash256 → Hash256 → ℕ → ℕ → Build b
  build_execute_milestone agreement_id result_hash milestone_index fee =
      let sent : AgreementExecuteData = record {
        agreement_id = agreement_id;
        result_hash = result_hash;
        milestone_index = milestone_index;
      } in
      submit b (record {
        tx_type = TxType.agreement_execute;
        recipient = zero_address;
        amount = 0;
        fee = fee;
        max_priority_fee_per_gas = 0;
        payload = encode (of_agreement_execute sent);
      })

  unfoldable pub build_dispute_agreement_with_milestone : Hash256 → Text → Option ℕ → ℕ → Build b
  build_dispute_agreement_with_milestone agreement_id reason milestone_index fee =
      let sent : AgreementDisputeData = record {
        agreement_id = agreement_id;
        reason = reason;
        milestone_index = milestone_index;
      } in
      submit b (record {
        tx_type = TxType.agreement_dispute;
        recipient = zero_address;
        amount = 0;
        fee = fee;
        max_priority_fee_per_gas = 0;
        payload = encode (of_agreement_dispute sent);
      })

  unfoldable pub build_accept_agreement : Hash256 → ℕ → Build b
  build_accept_agreement agreement_id fee =
      let sent : AgreementAcceptData = record { agreement_id = agreement_id } in
      submit b (record {
        tx_type = TxType.agreement_accept;
        recipient = zero_address;
        amount = 0;
        fee = fee;
        max_priority_fee_per_gas = 0;
        payload = encode (of_agreement_accept sent);
      })

  unfoldable pub build_cancel_agreement : Hash256 → ℕ → Build b
  build_cancel_agreement agreement_id fee =
      let sent : AgreementCancelData = record { agreement_id = agreement_id } in
      submit b (record {
        tx_type = TxType.agreement_cancel;
        recipient = zero_address;
        amount = 0;
        fee = fee;
        max_priority_fee_per_gas = 0;
        payload = encode (of_agreement_cancel sent);
      })

  unfoldable pub build_execute_agreement : Hash256 → Hash256 → ℕ → Build b
  build_execute_agreement agreement_id result_hash fee =
      build_execute_milestone agreement_id result_hash 0 fee

  unfoldable pub build_dispute_agreement : Hash256 → Text → ℕ → Build b
  build_dispute_agreement agreement_id reason fee =
      build_dispute_agreement_with_milestone agreement_id reason none fee
