-- ===== src/Quorum/Sorting.antt =====
-- `sort` of src/blockchain/quorum-provider.ts gives the values in ascending order, and as often.
use miradex_client.Prelude.{
  ℕ, zero, suc, ◌+◌, ◌≤◌, ◌<◌, ◌≡◌, refl, Bool, List, [], ◌∷◌, arith, ltb, leb, All, length, get_or,
  count_if, count_if-le-length, Bool-cases, inl, inr,
}
use miradex_client.Quorum.{insert_sorted, sort}

abbrev pub IsSorted : List ℕ → Type 0
IsSorted [] = Unit
IsSorted (a ∷ rest) = All (λ b. a ≤ b) rest × IsSorted rest

All-insert_sorted :
    (m a : ℕ) (l : List ℕ) → m ≤ a → All (λ b. m ≤ b) l → All (λ b. m ≤ b) (insert_sorted a l)
unfolding insert_sorted
All-insert_sorted m a [] h k = (h, tt)
All-insert_sorted m a (b ∷ l) h (k, ks) = elim (Bool-cases (leb a b)) [
  | inl e ↦ rw e (h, (k, ks))
  | inr e ↦ rw e (k, All-insert_sorted m a l h ks)
]

All-le_trans : (a b : ℕ) (l : List ℕ) → a ≤ b → All (λ c. b ≤ c) l → All (λ c. a ≤ c) l
All-le_trans a b [] h k = tt
All-le_trans a b (c ∷ l) h (k, ks) = (omega arith, All-le_trans a b l h ks)

insert_sorted-IsSorted : (a : ℕ) (l : List ℕ) → IsSorted l → IsSorted (insert_sorted a l)
unfolding insert_sorted
insert_sorted-IsSorted a [] h = (tt, tt)
insert_sorted-IsSorted a (b ∷ l) (low, h) = elim (Bool-cases (leb a b)) [
  | inl e ↦ rw e ((ground arith, All-le_trans a b l (ground arith) low), (low, h))
  | inr e ↦ rw e (All-insert_sorted b a l (ground arith) low, insert_sorted-IsSorted a l h)
]

pub sort-IsSorted : (l : List ℕ) → IsSorted (sort l)
unfolding sort
sort-IsSorted [] = tt
sort-IsSorted (a ∷ l) = insert_sorted-IsSorted a (sort l) (sort-IsSorted l)

count-insert_sorted :
    (p : ℕ → Bool) (a : ℕ) (l : List ℕ) → count_if p (insert_sorted a l) ≡ count_if p (a ∷ l)
unfolding insert_sorted
count-insert_sorted p a [] = refl
count-insert_sorted p a (b ∷ l) = ground (arith, count-insert_sorted p a l)

pub count-sort : (p : ℕ → Bool) (l : List ℕ) → count_if p (sort l) ≡ count_if p l
unfolding sort
count-sort p [] = refl
count-sort p (a ∷ l) = ground (arith, count-insert_sorted p a (sort l), count-sort p l)

-- In an ascending list fewer than k + 1 values are below the one at place k, and at most the
-- values behind it are above.
below_none : (m : ℕ) (l : List ℕ) → All (λ b. m ≤ b) l → count_if (λ v. ltb v m) l ≡ 0
below_none m [] h = refl
below_none m (b ∷ l) (h, hs) = ground (arith, below_none m l hs)

at_le : (m : ℕ) (l : List ℕ) (k : ℕ) → All (λ b. m ≤ b) l → k < length l → m ≤ get_or l k 0
at_le m [] k h lt = absurd (omega arith)
at_le m (b ∷ l) zero h lt = h.0
at_le m (b ∷ l) (suc k) h lt = at_le m l k h.1 (omega arith)

pub below_place :
    (l : List ℕ) (k : ℕ) → IsSorted l → k < length l → count_if (λ v. ltb v (get_or l k 0)) l ≤ k
below_place [] k h lt = absurd (omega arith)
below_place (a ∷ l) zero h lt = ground (arith, below_none a l h.0)
below_place (a ∷ l) (suc k) h lt = ground (arith, below_place l k h.1 (omega arith))

pub above_place :
    (l : List ℕ) (k : ℕ)
    → IsSorted l
    → k < length l
    → count_if (λ v. ltb (get_or l k 0) v) l + k + 1 ≤ length l
above_place [] k h lt = absurd (omega arith)
above_place (a ∷ l) zero h lt = ground (arith, count_if-le-length (λ v. ltb a v) l)
above_place (a ∷ l) (suc k) h lt =
    ground (arith, above_place l k h.1 (omega arith), at_le a l k h.0 (omega arith))
