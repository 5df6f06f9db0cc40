-- ===== src/Transaction/Window.antt =====
-- transaction.rs: the validity window of a transaction.
use zincha_sdk.Base.{
  ℕ, suc, ◌+◌, ◌-◌, ◌<◌, min, max, ◌≡◌, ◌↔◌, true, false, none, some, arith, u64_max, IsU64, nat_eq,
  list_eq, option_eq,
}
use zincha_sdk.Crypto.Bytes.{Hash256}
use zincha_sdk.Transaction.Body.{
  Transaction, has_explicit_validity_window, is_expired_at_block, blocks_until_expiry_at,
  set_validity_window,
}

-- A window set at a height opens there and lasts for the number of blocks asked, one at least, or to
-- the last block of 64 bits. A transaction is expired exactly after the window's last block, and
-- the blocks until it is are counted down to 0, which they reach at that block. The height and the block fit a u64.
window-expiry :
    (height ttl block : ℕ) (hash : Hash256) (t : Transaction)
    → IsU64 height
    → IsU64 block
    → let set_tx = set_validity_window height hash ttl t in
      let last = min (height + max ttl 1) u64_max in
      (has_explicit_validity_window set_tx ≡ true)
      × (is_expired_at_block set_tx height ≡ false)
      × ((is_expired_at_block set_tx block ≡ true) ↔ (last < block))
      × (blocks_until_expiry_at set_tx block ≡ some (last - block))
unfolding set_validity_window has_explicit_validity_window is_expired_at_block
    blocks_until_expiry_at
window-expiry height ttl block hash t h b = ground arith

-- At every block, a transaction without a window neither expires nor counts down, and one with a
-- window is expired exactly if its count was 0 one block before.
pub countdown-expiry :
    (t : Transaction) (block : ℕ)
    → ((has_explicit_validity_window t ≡ false) ↔ (blocks_until_expiry_at t block ≡ none))
      × ((is_expired_at_block t (suc block) ≡ true) ↔ (blocks_until_expiry_at t block ≡ some 0))
unfolding has_explicit_validity_window is_expired_at_block blocks_until_expiry_at
countdown-expiry t block = ground arith
