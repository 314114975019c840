-- ===== src/Bitcoin/FeeBounds.antt =====
-- The fee of the lock transaction (src/lib/bitcoin/deposit-watcher.ts) between its bounds.
use miradex_client.Prelude.{
  sym, ◌⊎◌, Bool, true, false, Bool-cases, inl, inr, ◌==◌, ℕ, ◌≡◌, refl, ◌≤◌, ◌+◌, ◌*◌, ◌/◌, Option,
  none, some, arith, ltb, if◌then◌else◌,
}
use mathlib.Core.Path.{subst}
use miradex_client.Errors.Codes.{Result, ok, err}
use miradex_client.Bitcoin.{
  Network, mainnet, testnet, regtest, lock_tx_vbytes, min_fee_rate, fallback_fee_rate,
}
use miradex_client.Bitcoin.Fees.{
  max_fee_rate_for, apply_fee_policy, estimate_fee_provider, estimate_fee_mempool, LockTxFee,
  estimate_lock_tx_fee, fee_at, ProviderRate, sats_per_kb, infinite, not_a_number, Estimate, priced,
  unpriced,
}

-- What a fee may be on a network.
pub record IsAffordable (network : Network) (fee : LockTxFee) : Type 0 where
  pub floor : min_fee_rate ≤ fee.fee_rate
  pub cap : fee.fee_rate ≤ max_fee_rate_for network
  pub total : fee.fee_sats ≡ lock_tx_vbytes * fee.fee_rate

policy_bounds :
    (raw : ℕ) (network : Network)
    → (min_fee_rate ≤ apply_fee_policy raw network)
      × (apply_fee_policy raw network ≤ max_fee_rate_for network)
unfolding apply_fee_policy
policy_bounds raw mainnet = (omega arith, omega arith)
policy_bounds raw testnet = (omega arith, omega arith)
policy_bounds raw regtest = (omega arith, omega arith)

policy-IsAffordable :
    (raw : ℕ) (network : Network) → IsAffordable network (fee_at (apply_fee_policy raw network))
policy-IsAffordable raw network = record {
  floor = (policy_bounds raw network).0;
  cap = (policy_bounds raw network).1;
  total = refl;
}

-- The estimate is a fee within the bounds.
abbrev pub IsPriced : Network → Estimate → Type 0
IsPriced network (priced fee) = IsAffordable network fee
IsPriced network unpriced = ⊥

-- The provider's answer is `NaN`.
abbrev pub answers_nan : Option (Result ProviderRate) → Bool
answers_nan (some (ok not_a_number)) = true
answers_nan _ = false

from_mempool :
    (answer : Result ℕ) (network : Network)
    → IsPriced network (estimate_lock_tx_fee none answer network)
unfolding estimate_lock_tx_fee estimate_fee_mempool
from_mempool (ok n) network = policy-IsAffordable (if ltb 0 n then n else fallback_fee_rate) network
from_mempool (err x) mainnet = record { floor = omega arith; cap = omega arith; total = refl }
from_mempool (err x) testnet = record { floor = omega arith; cap = omega arith; total = refl }
from_mempool (err x) regtest = record { floor = omega arith; cap = omega arith; total = refl }

at_cap : (network : Network) → IsAffordable network (fee_at (max_fee_rate_for network))
at_cap mainnet = record { floor = omega arith; cap = omega arith; total = refl }
at_cap testnet = record { floor = omega arith; cap = omega arith; total = refl }
at_cap regtest = record { floor = omega arith; cap = omega arith; total = refl }

sats_cases :
    (rate : ℕ) (mempool : Result ℕ) (network : Network)
    → let estimate = estimate_lock_tx_fee (some (ok (sats_per_kb rate))) mempool network in
      (estimate ≡ estimate_lock_tx_fee none mempool network)
      ⊎ (estimate ≡ priced (fee_at (apply_fee_policy ((rate + 999) / 1000) network)))
unfolding estimate_lock_tx_fee estimate_fee_provider
sats_cases rate mempool network = elim (Bool-cases (rate == 0)) [
  | inl e ↦ inl (ground arith)
  | inr e ↦ inr (ground arith)
]

-- Whatever the provider and mempool.space answer, or if both fail, but for an answer of `NaN` by the
-- provider: the rate for the lock transaction is at least 3 satoshis per vbyte and at most 100 on
-- mainnet and 10 on the test networks, and the fee is 130 times the rate.
pub estimate_lock_tx_fee-IsPriced :
    (provider : Option (Result ProviderRate)) (mempool : Result ℕ) (network : Network)
    → answers_nan provider ≡ false
    → IsPriced network (estimate_lock_tx_fee provider mempool network)
unfolding estimate_lock_tx_fee estimate_fee_provider
estimate_lock_tx_fee-IsPriced none mempool network h = from_mempool mempool network
estimate_lock_tx_fee-IsPriced (some (err x)) mempool network h =
    unfold estimate_lock_tx_fee in from_mempool mempool network
estimate_lock_tx_fee-IsPriced (some (ok infinite)) mempool network h = at_cap network
estimate_lock_tx_fee-IsPriced (some (ok not_a_number)) mempool network h = ground arith
estimate_lock_tx_fee-IsPriced (some (ok (sats_per_kb rate))) mempool network h =
    elim (sats_cases rate mempool network) [
      | inl e ↦ subst (IsPriced network) (sym e) (from_mempool mempool network)
      | inr e ↦ subst (IsPriced network) (sym e) (policy-IsAffordable ((rate + 999) / 1000) network)
    ]

not_priced :
    (mempool : Result ℕ) (network : Network) (fee : LockTxFee) (q : Option (Result ProviderRate))
    → answers_nan q ≡ true
    → estimate_lock_tx_fee q mempool network ≡ priced fee
    → IsAffordable network fee
unfolding estimate_lock_tx_fee estimate_fee_provider
not_priced mempool network fee none h f = ground arith
not_priced mempool network fee (some (err x)) h f = ground arith
not_priced mempool network fee (some (ok (sats_per_kb rate))) h f = ground arith
not_priced mempool network fee (some (ok infinite)) h f = ground arith
not_priced mempool network fee (some (ok not_a_number)) h f = ground arith

-- A fee that was estimated is within the bounds.
pub priced-IsAffordable :
    (provider : Option (Result ProviderRate)) (mempool : Result ℕ) (network : Network)
    (fee : LockTxFee)
    → estimate_lock_tx_fee provider mempool network ≡ priced fee
    → IsAffordable network fee
priced-IsAffordable provider mempool network fee e = elim (Bool-cases (answers_nan provider)) [
  | inr h ↦ subst (IsPriced network) e (estimate_lock_tx_fee-IsPriced provider mempool network h)
  | inl h ↦ not_priced mempool network fee provider h e
]
