-- ===== src/Bitcoin.antt =====
-- src/lib/bitcoin: the deposit that is watched for (Deposit.antt), the fee of the lock transaction
-- (Fees.antt), and the transactions that spend the deposit (Spend.antt). Amounts are natural
-- numbers of satoshis. Progress messages and log lines are left out.
pub mod Deposit
pub mod Fees
pub mod Spend
pub mod Totals
pub mod Listing
pub mod FeeBounds
pub mod Spending
pub mod Watching
mod Tests
use miradex_client.Prelude.{ℕ}

pub data Network : Type 0 where
  mainnet testnet regtest : Network

-- Constants of src/lib/default-config.ts and src/types/verification.ts
abbrev pub max_deposit_utxos : ℕ
max_deposit_utxos = 10

abbrev pub p2wpkh_dust_sats : ℕ
p2wpkh_dust_sats = 294

abbrev pub lock_tx_vbytes : ℕ
lock_tx_vbytes = 130

abbrev pub fallback_fee_rate : ℕ
fallback_fee_rate = 10

abbrev pub min_fee_rate : ℕ
min_fee_rate = 3

abbrev pub max_fee_rate_mainnet : ℕ
max_fee_rate_mainnet = 100

abbrev pub max_fee_rate_testnet : ℕ
max_fee_rate_testnet = 10
