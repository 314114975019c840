-- ===== src/Bitcoin/Fees.antt =====
-- src/lib/bitcoin/deposit-watcher.ts: the fee of the lock transaction, from a provider, from
-- mempool.space, or fixed. A rate of mempool.space is a whole number of satoshis per vbyte, and
-- the provider's a whole number of satoshis per 1000 vbytes; the library multiplies the provider's
-- answer by 1e8 to come to it.
use miradex_client.Prelude.{
  ℕ, ◌+◌, ◌*◌, ◌/◌, Option, none, some, min, max, ltb, ◌==◌, if◌then◌else◌,
}
use miradex_client.Errors.Codes.{Result, ok, err}
use miradex_client.Bitcoin.{
  Network, mainnet, testnet, regtest, lock_tx_vbytes, fallback_fee_rate, min_fee_rate,
  max_fee_rate_mainnet, max_fee_rate_testnet,
}

abbrev pub max_fee_rate_for : Network → ℕ
max_fee_rate_for mainnet = max_fee_rate_mainnet
max_fee_rate_for testnet = max_fee_rate_testnet
max_fee_rate_for regtest = max_fee_rate_testnet

-- `Math.ceil(raw * FEE_MARGIN_MULTIPLIER)`, with the factor 1.25, between the floor and the cap.
unfoldable pub apply_fee_policy : ℕ → Network → ℕ
apply_fee_policy raw network = min (max_fee_rate_for network) (max min_fee_rate ((raw * 5 + 3) / 4))

pub record LockTxFee : Type 0 where
  pub fee_sats : ℕ
  pub fee_rate : ℕ

abbrev pub fee_at : ℕ → LockTxFee
fee_at rate = record { fee_sats = lock_tx_vbytes * rate; fee_rate = rate }

-- What a provider answers: a rate (a negative one is 0 here, which is refused alike), infinity, which
-- the policy cuts down to the cap, or `NaN`, which is not `<= 0`.
pub data ProviderRate : Type 0 where
  sats_per_kb : ℕ → ProviderRate
  infinite not_a_number : ProviderRate

-- A fee, or one whose fields are both `NaN`.
pub data Estimate : Type 0 where
  priced : LockTxFee → Estimate
  unpriced : Estimate

unfoldable pub estimate_fee_provider : Result ProviderRate → Network → Option Estimate
estimate_fee_provider (ok (sats_per_kb rate)) network =
    if rate == 0
    then none
    else some (priced (fee_at (apply_fee_policy ((rate + 999) / 1000) network)))
estimate_fee_provider (ok infinite) network = some (priced (fee_at (max_fee_rate_for network)))
estimate_fee_provider (ok not_a_number) network = some unpriced
estimate_fee_provider (err e) network = none

-- The answer's `halfHourFee`; an answer that is not `ok` is an error here too.
unfoldable pub estimate_fee_mempool : Result ℕ → Network → Option LockTxFee
estimate_fee_mempool (ok half_hour_fee) network = some (
    fee_at
      (apply_fee_policy (if ltb 0 half_hour_fee then half_hour_fee else fallback_fee_rate) network))
estimate_fee_mempool (err e) network = none

-- The provider's fee, if there is a provider.
abbrev pub asked_provider : Option (Result ProviderRate) → Network → Option Estimate
asked_provider none network = none
asked_provider (some answer) network = estimate_fee_provider answer network

-- `provider` is none where the caller gives none.
unfoldable pub estimate_lock_tx_fee :
    (provider : Option (Result ProviderRate)) (mempool : Result ℕ) → Network → Estimate
estimate_lock_tx_fee provider mempool network = elim (asked_provider provider network) [
  | some estimate ↦ estimate
  | none ↦ elim (estimate_fee_mempool mempool network) [
    | some fee ↦ priced fee
    | none ↦ priced (fee_at fallback_fee_rate)
  ]
]
