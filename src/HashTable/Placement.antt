-- ===== src/HashTable/Placement.antt =====
-- Where the entries of a bucket vector stand, and what `RehashBucket` does to the vectors.
use mathlib.Core.Option.{or_else}
use rdss.Base.{
  ℕ, zero, suc, ◌+◌, ◌%◌, ◌≤◌, ◌<◌, ◌≡◌, ◌≢◌, refl, ap, ◌∙◌, List, [], ◌∷◌, arith, Bytes,
  bytes_eq_iff, if◌then◌else◌, length, get_or, set, replicate, ◌==◌, length-set, get_or-set,
  get_or-replicate,
}
use rdss.HashTable.Buckets.{Chain, find_entry_in_bucket, count}
use rdss.HashTable.Entries.{find-eq-none}
use rdss.HashTable.{rehash_entries}

-- the number of entries of all the buckets
unfoldable pub total : {V : Type 0} → List (Chain V) → ℕ
total [] = 0
total (c ∷ bs) = length c + total bs

module _ {V : Type 0} where
  pub total-set :
      (bs : List (Chain V)) (i : ℕ) (c : Chain V)
      → i < length bs
      → total (set bs i c) + length (get_or bs i []) ≡ total bs + length c
  unfolding total
  total-set [] i c h = elim h [ ]
  total-set (b ∷ bs) zero c h = omega arith
  total-set (b ∷ bs) (suc i) c h = omega (arith, total-set bs i c (omega arith))

  pub length-le-total : (bs : List (Chain V)) (i : ℕ) → length (get_or bs i []) ≤ total bs
  unfolding total
  length-le-total [] i = omega arith
  length-le-total (b ∷ bs) zero = omega arith
  length-le-total (b ∷ bs) (suc i) = omega (arith, length-le-total bs i)

  pub total-cleared :
      (bs : List (Chain V)) → ((j : ℕ) → j < length bs → get_or bs j [] ≡ []) → total bs ≡ 0
  unfolding total
  total-cleared [] h = refl
  total-cleared (b ∷ bs) h =
      omega
        (arith, ap length (h 0 (omega arith)), total-cleared bs (λ j lt. h (suc j) (omega arith)))

pub total-replicate : (V : Type 0) (n : ℕ) → total (replicate {A = Chain V} n []) ≡ 0
unfolding total
total-replicate V zero = refl
total-replicate V (suc n) = omega (arith, total-replicate V n)

module _ {V : Type 0} (hash : Bytes → ℕ) where
  -- A key occurs at most once in a bucket, and only in the bucket that its hash selects.
  abbrev pub IsPlaced : List (Chain V) → Type 0
  IsPlaced bs =
      (q : Bytes) (j : ℕ)
      → (count q (get_or bs j []) ≤ 1) × (hash q % length bs ≢ j → count q (get_or bs j []) ≡ 0)

  -- the bucket of the key in one vector
  abbrev pub home : List (Chain V) → Bytes → Chain V
  home bs q = get_or bs (hash q % length bs) []

  pub length-rehash_entries :
      (c : Chain V) (bs : List (Chain V)) → length (rehash_entries hash c bs) ≡ length bs
  unfolding rehash_entries
  length-rehash_entries [] bs = refl
  length-rehash_entries (e ∷ c) bs = length-rehash_entries c _ ∙ length-set bs _ _

  pub total-rehash_entries :
      (c : Chain V) (bs : List (Chain V))
      → 0 < length bs
      → total (rehash_entries hash c bs) ≡ total bs + length c
  unfolding rehash_entries
  total-rehash_entries [] bs h = omega arith
  total-rehash_entries (e ∷ c) bs h =
      let i = hash e.key.data_ % length bs in
      let bs' = set bs i (e ∷ get_or bs i []) in
      omega (
        arith,
        total-rehash_entries c bs' (omega (arith, length-set bs i (e ∷ get_or bs i []))),
        total-set bs i (e ∷ get_or bs i []) (omega arith),
      )

  pub count-rehash_entries :
      (q : Bytes) (j : ℕ) (c : Chain V) (bs : List (Chain V))
      → 0 < length bs
      → count q (get_or (rehash_entries hash c bs) j [])
        ≡ count q (get_or bs j []) + (if hash q % length bs == j then count q c else 0)
  unfolding rehash_entries count
  count-rehash_entries q j [] bs h = ground arith
  count-rehash_entries q j (e ∷ c) bs h =
      let i = hash e.key.data_ % length bs in
      let d = e ∷ get_or bs i [] in
      ground (
        arith,
        count-rehash_entries q j c (set bs i d),
        length-set bs i d,
        get_or-set bs i j d [],
        bytes_eq_iff e.key.data_ q,
      )

  pub find-rehash_entries :
      (q : Bytes) (c : Chain V) (bs : List (Chain V))
      → 0 < length bs
      → count q c ≤ 1
      → find_entry_in_bucket q (home (rehash_entries hash c bs) q)
        ≡ or_else (find_entry_in_bucket q c) (find_entry_in_bucket q (home bs q))
  unfolding rehash_entries count find_entry_in_bucket or_else
  find-rehash_entries q [] bs h once = refl
  find-rehash_entries q (e ∷ c) bs h once =
      let i = hash e.key.data_ % length bs in
      let d = e ∷ get_or bs i [] in
      ground (
        arith,
        find-rehash_entries q c (set bs i d),
        length-set bs i d,
        get_or-set bs i (hash q % length bs) d [],
        bytes_eq_iff e.key.data_ q,
        find-eq-none q c,
      )

pub IsPlaced-replicate :
    (V : Type 0) (hash : Bytes → ℕ) (n : ℕ) → IsPlaced {V = V} hash (replicate n [])
unfolding count
IsPlaced-replicate V hash n q j = rw get_or-replicate (omega arith, λ _. refl)
