-- ===== src/HashTable/Hitting.antt =====
-- Draws with which `GetRandomEntry` returns: the hash of a key that the table holds.
use rdss.Base.{
  ℕ, zero, suc, ◌+◌, ◌%◌, ◌<◌, ◌≡◌, refl, true, false, Option, none, some, List, [], ◌∷◌, Bytes,
  bytes_eq_refl, ltb, length, get_or, arith, Bool-cases, inl, inr, is_some,
}
use rdss.HashTable.Buckets.{Entry, Chain, count}
use rdss.HashTable.Placement.{total}
use rdss.HashTable.Valid.{IsValid, ValidAt}
use rdss.HashTable.Rehash.{table}
use rdss.HashTable.Random.{bucket_at, get_random_entry, get_random_entry_lem}
use rdss.HashTable.{Table, is_empty}

module _ {V : Type 0} where
  -- the key of the first entry
  unfoldable pub first_key : List (Chain V) → Option Bytes
  first_key [] = none
  first_key ([] ∷ buckets) = first_key buckets
  first_key ((e ∷ es) ∷ buckets) = some e.key.data_

  first_key-filled :
      (b : List (Chain V))
      → 0 < total b
      → (j : ℕ) × (e : Entry V) × (es : Chain V) × (get_or b j [] ≡ e ∷ es)
        × (first_key b ≡ some e.key.data_)
  unfolding first_key total
  first_key-filled [] h = elim h [ ]
  first_key-filled ([] ∷ b) h =
      let (j, e, es, here, first) = first_key-filled b (omega (arith, h)) in
      (suc j, e, es, here, first)
  first_key-filled ((e ∷ es) ∷ b) h = (zero, e, es, refl, refl)

  first_key-empty : (b : List (Chain V)) → total b ≡ 0 → first_key b ≡ none
  unfolding first_key total
  first_key-empty [] h = refl
  first_key-empty ([] ∷ b) h = first_key-empty b (omega (arith, h))
  first_key-empty ((e ∷ es) ∷ b) h = ground (arith, h)

module _ {V : Type 0} (hash : Bytes → ℕ) where
  unfoldable pub hitting : Table V → List ℕ
  hitting t = elim (first_key t.buckets0) [
    | some k ↦ hash k ∷ 0 ∷ []
    | none ↦ elim (first_key t.buckets1) [ some k ↦ hash k ∷ 0 ∷ [] | none ↦ [] ]
  ]

  head_hits :
      (b0 b1 : List (Chain V)) (n : ℕ) (r : Option ℕ) (j : ℕ) (e : Entry V) (es : Chain V)
      → ValidAt hash b0 b1 r
      → get_or b0 j [] ≡ e ∷ es
      → is_empty (bucket_at (hash e.key.data_) (table b0 b1 n r)) ≡ false
  unfolding bucket_at count
  head_hits b0 b1 n none j e es (_, placed) here =
      let c : 0 < count e.key.data_ (get_or b0 j []) =
        rw here (ground (arith, bytes_eq_refl e.key.data_)) in
      let same : hash e.key.data_ % length b0 ≡ j = ground (arith, c, placed e.key.data_ j) in
      rw (same, here) refl
  head_hits b0 b1 n (some i) j e es (s, _) here =
      let c : 0 < count e.key.data_ (get_or b0 j []) =
        rw here (ground (arith, bytes_eq_refl e.key.data_)) in
      let same : hash e.key.data_ % length b0 ≡ j = ground (arith, c, s.placed0 e.key.data_ j) in
      let later : ltb j i ≡ false = ground (arith, s.cleared j, here) in rw (same, later, here) refl

  tail_hits :
      (b0 b1 : List (Chain V)) (n : ℕ) (r : Option ℕ) (j : ℕ) (e : Entry V) (es : Chain V)
      → ValidAt hash b0 b1 r
      → get_or b1 j [] ≡ e ∷ es
      → is_empty (bucket_at (hash e.key.data_) (table b0 b1 n r)) ≡ false
  unfolding bucket_at count
  tail_hits b0 b1 n none j e es (gone, placed) here = ground (arith, gone, here)
  tail_hits b0 b1 n (some i) j e es (s, _) here =
      let c : 0 < count e.key.data_ (get_or b1 j []) =
        rw here (ground (arith, bytes_eq_refl e.key.data_)) in
      let same : hash e.key.data_ % length b1 ≡ j = ground (arith, c, s.placed1 e.key.data_ j) in
      let moved : ltb (hash e.key.data_ % length b0) i ≡ true =
        ground (arith, c, s.fresh e.key.data_ j) in
      rw (moved, same, here) refl

  first_filled :
      (b0 b1 : List (Chain V)) (n : ℕ) (r : Option ℕ) (j : ℕ) (e : Entry V) (es : Chain V)
      → ValidAt hash b0 b1 r
      → get_or b1 j [] ≡ e ∷ es
      → is_empty b0 ≡ false
  first_filled [] b1 n none j e es (gone, placed) here = ground (arith, gone, here)
  first_filled [] b1 n (some i) j e es (s, lt) here = elim lt [ ]
  first_filled (b ∷ b0) b1 n r j e es v here = refl

  -- a table that is not empty, drawn from by the hash of one of its keys
  hits_at :
      (b0 b1 : List (Chain V)) (n : ℕ) (r : Option ℕ)
      → IsValid hash (table b0 b1 n r)
      → 0 < total b0 + total b1
      → is_some (get_random_entry (hitting (table b0 b1 n r)) (table b0 b1 n r)) ≡ true
  unfolding hitting
  hits_at b0 b1 n r v h = elim (Bool-cases (ltb 0 (total b0))) [
    | inl filled ↦
        let (j, e, es, here, first) = first_key-filled b0 (ground arith) in
        let (e', got, _) =
          get_random_entry_lem hash [] (hash e.key.data_) 0 (table b0 b1 n r) v
            (ground (arith, here)) (head_hits b0 b1 n r j e es v.shape here) in
        rw (hitting, first, got) refl
    | inr empty ↦
        let (j, e, es, here, first) = first_key-filled b1 (ground (arith, h)) in
        let (e', got, _) =
          get_random_entry_lem hash [] (hash e.key.data_) 0 (table b0 b1 n r) v
            (first_filled b0 b1 n r j e es v.shape here)
            (tail_hits b0 b1 n r j e es v.shape here) in
        rw (hitting, first_key-empty b0 (ground (arith, empty)), first, got) refl
  ]

  -- `GetRandomEntry` returns from every well-formed table that is not empty, with some values of `std::rand`.
  pub hitting_lem :
      (t : Table V)
      → IsValid hash t
      → 0 < t.entries
      → is_some (get_random_entry (hitting t) t) ≡ true
  hitting_lem t v h =
      hits_at t.buckets0 t.buckets1 t.entries t.rehash_index v (omega (arith, v.counted))
