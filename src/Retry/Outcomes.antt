-- ===== src/Retry/Outcomes.antt =====
-- What `withRetry` of src/lib/retry.ts ends with.
use miradex_client.Prelude.{
  ℕ, ◌+◌, ◌≤◌, ◌<◌, ◌≡◌, refl, ◌⊎◌, inl, inr, true, false, not, List, [], ◌∷◌, ◌++◌, arith, ltb,
  All, count_if, length, Bool-cases,
}
use miradex_client.Errors.{is_fatal, is_unbounded}
use miradex_client.Retry.{
  RetryInfo, Answer, returned, threw, Round, resolved, rejected, RetryOptions, Counters, start,
  sleep_rejects, count_error, surfaces, retry_info, retry_from, with_retry, compute_backoff_ms,
}

abbrev pub bounded_infos : List RetryInfo → ℕ
bounded_infos infos = count_if (λ i. not i.unbounded) infos

Answer-cases :
    {A E : Type 0} (x : Answer A E) → ((a : A) × (x ≡ returned a)) ⊎ ((err : E) × (x ≡ threw err))
Answer-cases (returned a) = inl (a, refl)
Answer-cases (threw err) = inr (err, refl)

module _ {A E : Type 0} (o : RetryOptions E) where
  bounded_from :
      (c : Counters) (rs : List (Round A E))
      → c.bounded_retries ≤ o.max_bounded
      → c.bounded_retries + bounded_infos (retry_from o c rs).0 ≤ o.max_bounded
  unfolding retry_from surfaces count_error retry_info
  bounded_from c [] h = omega arith
  bounded_from c (r ∷ rs) h = elim (Answer-cases (r.answer c.attempt)) [
    | inl (a, e) ↦ ground arith
    | inr (err, e) ↦ ground (arith, bounded_from (count_error o c err) rs)
  ]

  -- However long the schedule, at most `max_bounded` retries follow errors of a bounded category.
  pub bounded_infos-le : (rs : List (Round A E)) → bounded_infos (with_retry o rs).0 ≤ o.max_bounded
  unfolding with_retry
  bounded_infos-le rs = omega (arith, bounded_from start rs (omega arith))

-- A round that is not aborted and throws an error of this kind.
abbrev pub Throws : {A E : Type 0} → (E → Type 0) → Round A E → Type 0
Throws {E} P r =
    (r.aborted ≡ false)
    × (r.aborted_asleep ≡ false)
    × ((n : ℕ) → (err : E) × (r.answer n ≡ threw err) × P err)

module _ {E : Type 0} (o : RetryOptions E) where
  abbrev pub IsUnboundedError : E → Type 0
  IsUnboundedError err =
      (is_unbounded (o.classify err) ≡ true) × (is_fatal (o.classify err) ≡ false)

  abbrev pub IsBoundedError : E → Type 0
  IsBoundedError err = (is_unbounded (o.classify err) ≡ false) × (is_fatal (o.classify err) ≡ false)

  -- The retries are numbered on from `n`, wait as `computeBackoffMs` says, and follow no fatal error.
  abbrev pub Numbered : ℕ → List RetryInfo → Type 0
  Numbered n [] = Unit
  Numbered n (i ∷ is) =
      (i.attempt ≡ n + 1)
      × (i.backoff_ms ≡ compute_backoff_ms (n + 1) o.base_ms o.max_backoff_ms)
      × (is_fatal i.category ≡ false)
      × Numbered (n + 1) is

module _ {A E : Type 0} (o : RetryOptions E) where
  outage_from :
      (c : Counters) (rs : List (Round A E)) (r : Round A E) (a : A) (later : List (Round A E))
      → All (Throws (IsUnboundedError o)) rs
      → r.aborted ≡ false
      → ((n : ℕ) → r.answer n ≡ returned a)
      → ((retry_from o c (rs ++ r ∷ later)).1 ≡ resolved a)
        × (length (retry_from o c (rs ++ r ∷ later)).0 ≡ length rs)
  unfolding retry_from surfaces sleep_rejects
  outage_from c [] r a later h live good = ground (arith, good c.attempt)
  outage_from c (x ∷ rs) r a later (here, h) live good =
      let (err, threw_err, slow) = here.2 c.attempt in
      ground (arith, outage_from (count_error o c err) rs r a later h live good)

  -- An outage is outlasted: after any number of network and server errors, with no abort, the
  -- first answer is returned, and there was one retry for each error.
  pub outage_resolved :
      (rs : List (Round A E)) (r : Round A E) (a : A) (later : List (Round A E))
      → All (Throws (IsUnboundedError o)) rs
      → r.aborted ≡ false
      → ((n : ℕ) → r.answer n ≡ returned a)
      → ((with_retry o (rs ++ r ∷ later)).1 ≡ resolved a)
        × (length (with_retry o (rs ++ r ∷ later)).0 ≡ length rs)
  unfolding with_retry
  outage_resolved = outage_from start

  exhausts_from :
      (c : Counters) (rs : List (Round A E))
      → All (Throws (IsBoundedError o)) rs
      → o.max_bounded < c.bounded_retries + length rs
      → c.bounded_retries ≤ o.max_bounded
      → (err : E) × ((retry_from o c rs).1 ≡ rejected err)
        × (IsBoundedError o) err
        × (c.bounded_retries + length (retry_from o c rs).0 ≡ o.max_bounded)
  unfolding retry_from surfaces sleep_rejects count_error
  exhausts_from c [] h m l = absurd (omega arith)
  exhausts_from c (x ∷ rs) (here, h) m l =
      let (err, threw_err, slow) = here.2 c.attempt in
      elim (Bool-cases (ltb o.max_bounded (c.bounded_retries + 1))) [
        | inl over ↦ (err, ground arith, slow, ground arith)
        | inr under ↦
            let (last, ends, kind, total) =
              exhausts_from (count_error o c err) rs h (ground arith) (ground arith) in
            (last, ground arith, kind, ground arith)
      ]

  -- The loop ends: when every call fails with an error of a bounded category, and there are more
  -- calls than the cap, an error is thrown on after exactly `max_bounded` retries.
  pub bounded_exhausts :
      (rs : List (Round A E))
      → All (Throws (IsBoundedError o)) rs
      → o.max_bounded < length rs
      → (err : E) × ((with_retry o rs).1 ≡ rejected err)
        × (IsBoundedError o) err
        × (length (with_retry o rs).0 ≡ o.max_bounded)
  unfolding with_retry
  bounded_exhausts rs h m =
      let (err, e, k, t) = exhausts_from start rs h (omega arith) (omega arith) in
      (err, e, k, omega arith)

  Numbered-from :
      (c : Counters) (n : ℕ) (rs : List (Round A E))
      → n ≡ c.unbounded_retries + c.bounded_retries
      → Numbered o n (retry_from o c rs).0
  unfolding retry_from surfaces count_error retry_info
  Numbered-from c n [] e = tt
  Numbered-from c n (r ∷ rs) e = elim (Answer-cases (r.answer c.attempt)) [
    | inl (a, x) ↦ ground arith
    | inr (err, x) ↦ ground (arith, Numbered-from (count_error o c err) (n + 1) rs)
  ]

  -- Every schedule's retries are numbered from 1 with their delays, and none follows an error of
  -- a fatal category.
  pub infos-Numbered : (rs : List (Round A E)) → Numbered o 0 (with_retry o rs).0
  unfolding with_retry
  infos-Numbered rs = Numbered-from start 0 rs (omega arith)
