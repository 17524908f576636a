-- ===== src/HashTable/Random.antt =====
-- data_structure/hash_table.h: `GetRandomEntry`. The values of `std::rand` are a parameter, a list from
-- which every call takes the next.
use rdss.Base.{
  ℕ, zero, suc, ◌%◌, ◌≤◌, ◌<◌, ◌≡◌, refl, true, false, Option, none, some, List, [], ◌∷◌, Bytes,
  bytes_eq_refl, if◌then◌else◌, ltb, length, get_or, get_elem?, arith, Bool-cases, inl, inr, subst,
  sym, ◌++◌,
}
use rdss.HashTable.Buckets.{Entry, Chain, find_entry_in_bucket, count}
use rdss.HashTable.Valid.{IsValid, ValidAt}
use rdss.HashTable.Rehash.{table}
use rdss.HashTable.{Table, is_empty, entry_at, bucket_of, in_second}

module _ {V : Type 0} where
  -- the bucket that one draw chooses
  unfoldable pub bucket_at : ℕ → Table V → Chain V
  bucket_at rand t =
      let bucket_index = rand % length t.buckets0 in
      elim t.rehash_index [
        | none ↦ get_or t.buckets0 bucket_index []
        | some i ↦
            if ltb bucket_index i
            then get_or t.buckets1 (rand % length t.buckets1) []
            else get_or t.buckets0 bucket_index []
      ]

  -- the loop that draws until a bucket is not empty; the draws left come with it
  unfoldable pub random_bucket : List ℕ → Table V → Option (Chain V × List ℕ)
  random_bucket [] t = none
  random_bucket (rand ∷ draws) t =
      let rest = random_bucket draws t in
      if is_empty (bucket_at rand t) then rest else some (bucket_at rand t, draws)

  -- `GetRandomEntryInBucket`, of the bucket and the next draw
  unfoldable pub random_entry_in_bucket : Chain V → List ℕ → Option (Entry V)
  random_entry_in_bucket c [] = none
  random_entry_in_bucket c (rand ∷ draws) = get_elem? c (rand % length c)

  -- `GetRandomEntry`; `none` is the null pointer, or that the draws ran out
  unfoldable pub get_random_entry : List ℕ → Table V → Option (Entry V)
  get_random_entry draws t =
      if is_empty t.buckets0
      then none
      else elim (random_bucket draws t) [ none ↦ none | some p ↦ random_entry_in_bucket p.0 p.1 ]

  pub count-get_elem :
      (c : Chain V) (i : ℕ) (e : Entry V) → get_elem? c i ≡ some e → 1 ≤ count e.key.data_ c
  unfolding count
  count-get_elem [] i e h = ground arith
  count-get_elem (a ∷ c) zero e h = ground (arith, bytes_eq_refl e.key.data_)
  count-get_elem (a ∷ c) (suc i) e h = ground (arith, count-get_elem c i e h)

  pub find-get_elem :
      (c : Chain V) (i : ℕ) (e : Entry V)
      → get_elem? c i ≡ some e
      → count e.key.data_ c ≤ 1
      → find_entry_in_bucket e.key.data_ c ≡ some e
  unfolding count find_entry_in_bucket
  find-get_elem [] i e h few = ground arith
  find-get_elem (a ∷ c) zero e h few = ground (arith, bytes_eq_refl e.key.data_)
  find-get_elem (a ∷ c) (suc i) e h few =
      ground (arith, count-get_elem c i e h, find-get_elem c i e h)

  drawn_from :
      (draws : List ℕ) (t : Table V) (p : Chain V × List ℕ)
      → random_bucket draws t ≡ some p
      → (rand : ℕ) × (bucket_at rand t ≡ p.0)
  unfolding random_bucket
  drawn_from [] t p h = ground arith
  drawn_from (rand ∷ draws) t p h = elim (Bool-cases (is_empty (bucket_at rand t))) [
    | inl e ↦ drawn_from draws t p (ground arith)
    | inr e ↦ (rand, ground arith)
  ]

module _ {V : Type 0} (hash : Bytes → ℕ) where
  -- An entry of a bucket that may be drawn is the one that lookups of its key find.
  drawn_reads :
      (b0 b1 : List (Chain V)) (n : ℕ) (r : Option ℕ) (rand j : ℕ) (e : Entry V)
      → ValidAt hash b0 b1 r
      → get_elem? (bucket_at rand (table b0 b1 n r)) j ≡ some e
      → entry_at hash (table b0 b1 n r) e.key.data_ ≡ some e
  unfolding bucket_at entry_at bucket_of in_second
  drawn_reads b0 b1 n none rand j e (_, placed) h =
      let c = get_or b0 (rand % length b0) [] in
      let here = count-get_elem c j e h in
      let p = placed e.key.data_ (rand % length b0) in
      let found = find-get_elem c j e h p.0 in
      let same : hash e.key.data_ % length b0 ≡ rand % length b0 = ground (arith, here, p) in
      rw same found
  drawn_reads b0 b1 n (some i) rand j e (s, _) h = elim (Bool-cases (ltb (rand % length b0) i)) [
    | inl second ↦
        let c = get_or b1 (rand % length b1) [] in
        let h' : get_elem? c j ≡ some e = ground (arith, h) in
        let here = count-get_elem c j e h' in
        let p = s.placed1 e.key.data_ (rand % length b1) in
        let found = find-get_elem c j e h' p.0 in
        let same : hash e.key.data_ % length b1 ≡ rand % length b1 = ground (arith, here, p) in
        let moved : ltb (hash e.key.data_ % length b0) i ≡ true =
          ground (arith, here, s.fresh e.key.data_ (rand % length b1)) in
        rw (moved, same) found
    | inr first ↦
        let c = get_or b0 (rand % length b0) [] in
        let h' : get_elem? c j ≡ some e = ground (arith, h) in
        let here = count-get_elem c j e h' in
        let p = s.placed0 e.key.data_ (rand % length b0) in
        let found = find-get_elem c j e h' p.0 in
        let same : hash e.key.data_ % length b0 ≡ rand % length b0 = ground (arith, here, p) in
        rw (same, first) found
  ]

  in_bucket_reads :
      (t : Table V) (rand : ℕ) (c : Chain V) (draws : List ℕ) (e : Entry V)
      → IsValid hash t
      → bucket_at rand t ≡ c
      → random_entry_in_bucket c draws ≡ some e
      → entry_at hash t e.key.data_ ≡ some e
  unfolding random_entry_in_bucket
  in_bucket_reads t rand c [] e v b h = ground arith
  in_bucket_reads t rand c (next ∷ draws) e v b h =
      drawn_reads t.buckets0 t.buckets1 t.entries t.rehash_index rand (next % length c) e v.shape
        (subst (λ k. get_elem? k (next % length c) ≡ some e) (sym b) h)

  random_reads :
      (t : Table V) (o : Option (Chain V × List ℕ)) (draws : List ℕ) (e : Entry V)
      → IsValid hash t
      → random_bucket draws t ≡ o
      → elim o [ none ↦ none | some p ↦ random_entry_in_bucket p.0 p.1 ] ≡ some e
      → entry_at hash t e.key.data_ ≡ some e
  random_reads t none draws e v b h = ground arith
  random_reads t (some p) draws e v b h =
      let (rand, from) = drawn_from draws t p b in in_bucket_reads t rand p.0 p.1 e v from h

  pub random_entry_stored :
      (draws : List ℕ) (t : Table V) (e : Entry V)
      → IsValid hash t
      → get_random_entry draws t ≡ some e
      → entry_at hash t e.key.data_ ≡ some e
  unfolding get_random_entry
  random_entry_stored draws t e v h =
      random_reads t (random_bucket draws t) draws e v refl (ground (arith, h))

  get_elem_some : (c : Chain V) (i : ℕ) → i < length c → (e : Entry V) × (get_elem? c i ≡ some e)
  get_elem_some [] i h = elim h [ ]
  get_elem_some (a ∷ c) zero h = (a, refl)
  get_elem_some (a ∷ c) (suc i) h = get_elem_some c i (omega arith)

  chosen :
      (c : Chain V) (next : ℕ)
      → is_empty c ≡ false
      → (e : Entry V) × (get_elem? c (next % length c) ≡ some e)
  chosen [] next h = ground arith
  chosen (a ∷ c) next h = get_elem_some (a ∷ c) (next % length (a ∷ c)) (omega arith)

  random_bucket-some :
      (misses : List ℕ) (rand next : ℕ) (t : Table V)
      → is_empty (bucket_at rand t) ≡ false
      → (c : Chain V) × (d : ℕ) × (ds : List ℕ) × (random_bucket (misses ++ rand ∷ next ∷ []) t
          ≡ some (c, d ∷ ds))
        × (is_empty c ≡ false)
  unfolding random_bucket
  random_bucket-some [] rand next t hit =
      (bucket_at rand t, next, [], rw (random_bucket, hit) refl, hit)
  random_bucket-some (miss ∷ []) rand next t hit = elim (Bool-cases (is_empty (bucket_at miss t))) [
    | inl e ↦ rw (random_bucket, e) (random_bucket-some [] rand next t hit)
    | inr e ↦ (bucket_at miss t, rand, next ∷ [], rw (random_bucket, e) refl, e)
  ]
  random_bucket-some (miss ∷ m ∷ misses) rand next t hit =
      elim (Bool-cases (is_empty (bucket_at miss t))) [
        | inl e ↦ rw (random_bucket, e) (random_bucket-some (m ∷ misses) rand next t hit)
        | inr e ↦ (bucket_at miss t, m, misses ++ rand ∷ next ∷ [], rw (random_bucket, e) refl, e)
      ]

  -- `GetRandomEntry` of a well-formed table that is not empty returns an entry as soon as a draw hits a bucket that
  -- is not empty, whatever was drawn before, and lookups of its key find that entry, during a
  -- rehashing too.
  pub get_random_entry_lem :
      (misses : List ℕ) (rand next : ℕ) (t : Table V)
      → IsValid hash t
      → is_empty t.buckets0 ≡ false
      → is_empty (bucket_at rand t) ≡ false
      → (e : Entry V) × (get_random_entry (misses ++ rand ∷ next ∷ []) t ≡ some e)
        × (entry_at hash t e.key.data_ ≡ some e)
  unfolding get_random_entry random_entry_in_bucket
  get_random_entry_lem misses rand next t v filled hit =
      let (c, d, ds, found, some_there) = random_bucket-some misses rand next t hit in
      let (e, there) = chosen c d some_there in
      let got : get_random_entry (misses ++ rand ∷ next ∷ []) t ≡ some e =
        rw (get_random_entry, filled, found) there in
      (e, got, random_entry_stored (misses ++ rand ∷ next ∷ []) t e v got)
