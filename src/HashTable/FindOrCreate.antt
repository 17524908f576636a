-- ===== src/HashTable/FindOrCreate.antt =====
-- `FindOrCreate` and `Find`: what the table reads as afterwards, in every phase of a rehashing.
use rdss.Base.{
  ℕ, ◌+◌, ◌<◌, ◌≡◌, refl, sym, ap, ◌∙◌, Bool, true, false, Option, none, some, ◌∷◌, arith, Bytes,
  bytes_eq, bytes_eq_iff, if◌then◌else◌, length, is_some, inl, inr, Bool-cases, Option-cases,
}
use rdss.HashTable.Buckets.{Entry, Chain, find_entry_in_bucket, count}
use rdss.HashTable.Entries.{count-eq-zero}
use rdss.HashTable.Valid.{IsValid}
use rdss.HashTable.Rehash.{Keeps, Keeps-refl, advance-Keeps}
use rdss.HashTable.Write.{entries-set_bucket, Fits, write_bucket}
use rdss.HashTable.{
  Table, entry_at, bucket_of, is_empty, advance, expand, refind, create_entry, find_or_create_in,
  find_or_create, find,
}
use rdss.HashTable.Expand.{empty_reads, refind-Keeps, nonempty, expand_nonempty, expand-Keeps}

module _ {V : Type 0} (hash : Bytes → ℕ) where
  module _ (default : V) where
    -- the entry that `FindOrCreate` leaves under the key
    abbrev pub fresh : Bytes → Entry V
    fresh k = record { key = record { data_ = k; lru = 0 }; value = default }

    abbrev pub or_fresh : Bytes → Option (Entry V) → Entry V
    or_fresh k none = fresh k
    or_fresh k (some e) = e

    -- What a creation leaves: the entry of the key, a new one if there was none, and the count.
    pub record Creates (k : Bytes) (t : Table V) (r : Table V × Bool) : Type 0 where
      pub valid : IsValid hash r.0
      pub reads :
          (q : Bytes)
          → entry_at hash r.0 q
            ≡ (if bytes_eq k q then some (or_fresh k (entry_at hash t k)) else entry_at hash t q)
      pub existed : r.1 ≡ is_some (entry_at hash t k)
      pub entries : r.0.entries ≡ t.entries + (if is_some (entry_at hash t k) then 0 else 1)

    Fits-create :
        (k : Bytes) (old : Chain V)
        → find_entry_in_bucket k old ≡ none
        → Fits hash k (fresh k ∷ old) (some (fresh k)) old
    unfolding find_entry_in_bucket count
    Fits-create k old h = record {
      few = λ q. ground (arith, count-eq-zero k old, bytes_eq_iff k q);
      finds = λ q. ground arith;
    }

    create_entry-Creates :
        (k : Bytes) (t : Table V)
        → IsValid hash t
        → 0 < length t.buckets0
        → entry_at hash t k ≡ none
        → Creates k t (create_entry hash default k t, false)
    unfolding create_entry
    create_entry-Creates k t v h absent =
        let u = refind hash (expand hash t) in
        let kept = refind-Keeps hash t (expand hash t) (expand-Keeps hash t v) in
        let w =
          write_bucket hash k (fresh k ∷ bucket_of hash u k) (some (fresh k)) u (u.entries + 1)
            kept.valid (kept.stays h)
            (Fits-create k (bucket_of hash u k) (unfold entry_at in (kept.reads k ∙ absent)))
            (omega arith) in
        record {
          valid = w.valid;
          reads = λ q. ground (arith, w.reads q, kept.reads q);
          existed = rw absent;
          entries = rw (entries-set_bucket, absent) (omega (arith, kept.entries));
        }

    Creates-after :
        (k : Bytes) {t u : Table V} (r : Table V × Bool)
        → Keeps hash t u
        → Creates k u r
        → Creates k t r
    Creates-after k r kept c = record {
      valid = c.valid;
      reads = λ q. ground (arith, c.reads q, kept.reads q, kept.reads k);
      existed = c.existed ∙ ap is_some (kept.reads k);
      entries = ground (arith, c.entries, kept.entries, kept.reads k);
    }

    Creates-present :
        (k : Bytes) (t : Table V) (e : Entry V)
        → IsValid hash t
        → entry_at hash t k ≡ some e
        → Creates k t (t, true)
    Creates-present k t e v present = record {
      valid = v;
      reads = λ q. ground (arith, bytes_eq_iff k q);
      existed = rw present;
      entries = rw present (omega arith);
    }

    find_or_create_in-Creates :
        (k : Bytes) (t : Table V)
        → IsValid hash t
        → 0 < length t.buckets0
        → Creates k t (find_or_create_in hash default k true t)
    unfolding find_or_create_in
    find_or_create_in-Creates k t v h =
        let kept = advance-Keeps hash t v in
        let u = advance hash t in
        elim (Option-cases (entry_at hash u k)) [
          | inl absent ↦
              rw (absent, find_or_create_in)
                (Creates-after k _ kept (create_entry-Creates k u kept.valid (kept.stays h) absent))
          | inr (e, present) ↦
              rw (present, find_or_create_in)
                (Creates-after k _ kept (Creates-present k u e kept.valid present))
        ]

    -- `FindOrCreate` of a well-formed table, where it may create, leaves an entry under the key: the one
    -- that was there, or a new one. It answers whether the key was there, and counts the new entry.
    pub find_or_create-Creates :
        (k : Bytes) (t : Table V)
        → IsValid hash t
        → Creates k t (find_or_create hash default k true t)
    unfolding find_or_create
    find_or_create-Creates k t v = elim (Bool-cases (is_empty t.buckets0)) [
      | inl bare ↦
          let grown = expand-Keeps hash t v in
          rw bare (
            Creates-after k _ grown (
              find_or_create_in-Creates k (expand hash t).0 grown.valid (expand_nonempty hash t v)))
      | inr built ↦ rw built (find_or_create_in-Creates k t v (nonempty t.buckets0 built))
    ]

    -- `FindOrCreate` that may not create.
    find_or_create_in-Keeps :
        (k : Bytes) (t : Table V)
        → IsValid hash t
        → Keeps hash t (find_or_create_in hash default k false t).0
          × ((find_or_create_in hash default k false t).1 ≡ is_some (entry_at hash t k))
    unfolding find_or_create_in
    find_or_create_in-Keeps k t v =
        let kept = advance-Keeps hash t v in
        elim (Option-cases (entry_at hash (advance hash t) k)) [
          | inl absent ↦
              rw (absent, find_or_create_in) (kept, ap is_some (sym absent ∙ kept.reads k))
          | inr (e, present) ↦
              rw (present, find_or_create_in) (kept, ap is_some (sym present ∙ kept.reads k))
        ]

    found_or_none :
        {o o' : Option (Entry V)} (b : Bool)
        → o ≡ o'
        → b ≡ is_some o'
        → (if b then o else none) ≡ o'
    found_or_none true p h = p
    found_or_none {o' = none} false p h = refl
    found_or_none {o' = some e} false p h = cc

    -- `Find` changes no lookup, and returns the entry that the table reads under the key.
    pub find_lem :
        (k : Bytes) (t : Table V)
        → IsValid hash t
        → Keeps hash t (find hash default k t).0 × ((find hash default k t).1 ≡ entry_at hash t k)
    unfolding find find_or_create
    find_lem k t v = elim (Bool-cases (is_empty t.buckets0)) [
      | inl bare ↦ rw (bare, empty_reads hash t k v bare) (Keeps-refl hash t v, refl)
      | inr built ↦
          let (kept, found) = find_or_create_in-Keeps k t v in
          rw built (kept, found_or_none _ (kept.reads k) found)
    ]
