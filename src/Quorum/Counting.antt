-- ===== src/Quorum/Counting.antt =====
-- The counts of src/blockchain/quorum-provider.ts against the number of lists that hold a key.
use miradex_client.Prelude.{
  ℕ, ◌+◌, ◌≤◌, ◌≡◌, refl, ◌∙◌, inl, inr, Bool, true, not, ◌&&◌, List, [], ◌∷◌, arith, leb,
  if◌then◌else◌, any, count_if, Bool-cases,
}
use miradex_client.Quorum.{
  Settled, fulfilled_values, bump, distinct_from, tally_list, tally, accepted, pick_accepted,
}

-- What the comparison of keys has to satisfy.
pub record IsSame {A : Type 0} (same : A → A → Bool) : Type 0 where
  pub same_refl : (a : A) → same a a ≡ true
  pub same_symm : (a b : A) → same a b ≡ true → same b a ≡ true
  pub same_trans : (a b c : A) → same a b ≡ true → same b c ≡ true → same a c ≡ true

module _ {A : Type 0} (same : A → A → Bool) where
  -- A list holds the key of `a`.
  abbrev pub holds : A → List A → Bool
  holds a l = any (λ b. same b a) l

  -- How many lists hold it.
  abbrev pub votes : A → List (List A) → ℕ
  votes a lists = count_if (holds a) lists

  unfoldable pub count_of : A → List (A × ℕ) → ℕ
  count_of a [] = 0
  count_of a ((b, n) ∷ rest) = if same b a then n else count_of a rest

  unfoldable pub is_fresh : A → List (A × ℕ) → Bool
  is_fresh a [] = true
  is_fresh a ((b, n) ∷ rest) = not (same b a) && is_fresh a rest

  -- No key has two counters.
  abbrev pub HasDistinctKeys : List (A × ℕ) → Type 0
  HasDistinctKeys [] = Unit
  HasDistinctKeys ((b, n) ∷ rest) = (is_fresh b rest ≡ true) × HasDistinctKeys rest

  module _ (s : IsSame same) where
    open s use {same_refl, same_symm, same_trans}

    count_of-bump :
        (a b : A) (counts : List (A × ℕ))
        → count_of a (bump same b counts)
          ≡ (if same b a then count_of a counts + 1 else count_of a counts)
    unfolding count_of bump
    count_of-bump a b [] = ground arith
    count_of-bump a b ((c, n) ∷ rest) = ground (
      arith,
      count_of-bump a b rest,
      same_symm b a,
      same_trans c a b,
      same_trans c b a,
      same_symm c b,
      same_trans b c a,
    )

    pub count_of-tally_list :
        (a : A) (l : List A) (counts : List (A × ℕ))
        → count_of a (tally_list same l counts) ≡ count_of a counts + count_if (λ b. same b a) l
    unfolding tally_list
    count_of-tally_list a [] counts = omega arith
    count_of-tally_list a (b ∷ l) counts =
        ground (arith, count_of-tally_list a l (bump same b counts), count_of-bump a b counts)

    any_same :
        (a b : A) (l : List A) → same a b ≡ true → any (λ c. same c a) l ≡ any (λ c. same c b) l
    any_same a b [] h = refl
    any_same a b (c ∷ l) h =
        ground (arith, any_same a b l h, same_trans c a b, same_symm a b, same_trans c b a)

    count-distinct_from :
        (a : A) (seen l : List A)
        → count_if (λ b. same b a) (distinct_from same seen l)
          ≡ (if holds a seen then 0 else if holds a l then 1 else 0)
    unfolding distinct_from
    count-distinct_from a seen [] = ground arith
    count-distinct_from a seen (b ∷ l) =
        ground (
          arith,
          count-distinct_from a seen l,
          count-distinct_from a (b ∷ seen) l,
          any_same b a seen,
        )

    pub count_of-tally :
        (a : A) (lists : List (List A)) (counts : List (A × ℕ))
        → count_of a (tally same lists counts) ≡ count_of a counts + votes a lists
    unfolding tally
    count_of-tally a [] counts = omega arith
    count_of-tally a (l ∷ lists) counts = ground (
      arith,
      count_of-tally a lists (tally_list same (distinct_from same [] l) counts),
      count_of-tally_list a (distinct_from same [] l) counts,
      count-distinct_from a [] l,
    )

    is_fresh-bump :
        (a b : A) (counts : List (A × ℕ))
        → is_fresh a (bump same b counts) ≡ (is_fresh a counts && not (same b a))
    unfolding is_fresh bump
    is_fresh-bump a b [] = ground arith
    is_fresh-bump a b ((c, n) ∷ rest) =
        ground (arith, is_fresh-bump a b rest, same_trans c b a, same_symm c b, same_trans b c a)

    bump-HasDistinctKeys :
        (b : A) (counts : List (A × ℕ))
        → HasDistinctKeys counts
        → HasDistinctKeys (bump same b counts)
    unfolding bump is_fresh
    bump-HasDistinctKeys b [] h = (refl, tt)
    bump-HasDistinctKeys b ((c, n) ∷ rest) (new, h) = elim (Bool-cases (same c b)) [
      | inl old ↦ rw old (new, h)
      | inr other ↦
          rw other
            (ground (arith, is_fresh-bump c b rest, same_symm b c), bump-HasDistinctKeys b rest h)
    ]

    pub tally_list-HasDistinctKeys :
        (l : List A) (counts : List (A × ℕ))
        → HasDistinctKeys counts
        → HasDistinctKeys (tally_list same l counts)
    unfolding tally_list
    tally_list-HasDistinctKeys [] counts h = h
    tally_list-HasDistinctKeys (b ∷ l) counts h =
        tally_list-HasDistinctKeys l (bump same b counts) (bump-HasDistinctKeys b counts h)

    pub tally-HasDistinctKeys :
        (lists : List (List A)) (counts : List (A × ℕ))
        → HasDistinctKeys counts
        → HasDistinctKeys (tally same lists counts)
    unfolding tally
    tally-HasDistinctKeys [] counts h = h
    tally-HasDistinctKeys (l ∷ lists) counts h =
        tally-HasDistinctKeys lists _ (tally_list-HasDistinctKeys _ counts h)

    pub count_of_fresh :
        (a b : A) (counts : List (A × ℕ))
        → is_fresh b counts ≡ true
        → same b a ≡ true
        → count_of a counts ≡ 0
    unfolding is_fresh count_of
    count_of_fresh a b [] h e = refl
    count_of_fresh a b ((c, n) ∷ rest) h e =
        ground (arith, count_of_fresh a b rest, same_symm b a, same_trans c a b)

    pub holds-accepted :
        (a : A) (quorum : ℕ) (counts : List (A × ℕ))
        → 1 ≤ quorum
        → HasDistinctKeys counts
        → holds a (accepted same quorum counts) ≡ leb quorum (count_of a counts)
    unfolding accepted count_of
    holds-accepted a quorum [] q h = ground arith
    holds-accepted a quorum ((b, n) ∷ rest) q (new, h) =
        ground (arith, holds-accepted a quorum rest q h, count_of_fresh a b rest new)

    -- The answer of a read holds a key exactly if at least `quorum` of the lists that were
    -- delivered hold it.
    pub pick_accepted_iff :
        (a : A) (quorum : ℕ) (settled : List (Settled (List A)))
        → 1 ≤ quorum
        → holds a (pick_accepted same quorum settled)
          ≡ leb quorum (votes a (fulfilled_values settled))
    unfolding pick_accepted count_of
    pick_accepted_iff a quorum settled q =
        let lists = fulfilled_values settled in
        let distinct = tally-HasDistinctKeys lists [] tt in
        holds-accepted a quorum (tally same lists []) q distinct
        ∙ rw (count_of-tally a lists []) (ground arith)
