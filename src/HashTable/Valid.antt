-- ===== src/HashTable/Valid.antt =====
-- The well-formedness of a table, in every phase of a rehashing, and the step that moves one bucket.
use mathlib.Core.Option.{or_else}
use rdss.Base.{
  ℕ, ◌+◌, ◌%◌, ◌≤◌, ◌<◌, ◌≡◌, Option, none, some, List, [], arith, Bytes, if◌then◌else◌, length,
  get_or, set, ltb, length-set, get_or-set,
}
use rdss.HashTable.Buckets.{Entry, Chain, find_entry_in_bucket, count}
use rdss.HashTable.Entries.{find-eq-none}
use rdss.HashTable.Placement.{
  total, IsPlaced, home, length-rehash_entries, count-rehash_entries, find-rehash_entries,
}
use rdss.HashTable.{Table, rehash_entries}

module _ {V : Type 0} (hash : Bytes → ℕ) where
  -- `rehash_index_` is `i`: the buckets below `i` are empty, and the second vector has no key whose
  -- bucket is still to be moved.
  pub record IsSplit (b0 b1 : List (Chain V)) (i : ℕ) : Type 0 where
    pub room : 0 < length b1
    pub within : i ≤ length b0
    pub placed0 : IsPlaced hash b0
    pub placed1 : IsPlaced hash b1
    pub cleared : (j : ℕ) → j < i → get_or b0 j [] ≡ []
    pub fresh : (q : Bytes) (j : ℕ) → i ≤ hash q % length b0 → count q (get_or b1 j []) ≡ 0

  abbrev pub ValidAt : List (Chain V) → List (Chain V) → Option ℕ → Type 0
  ValidAt b0 b1 none = (b1 ≡ []) × IsPlaced hash b0
  ValidAt b0 b1 (some i) = IsSplit b0 b1 i × (i < length b0)

  -- Every entry stands where `FindBucket` looks for it, no key twice, and `entries_` counts them.
  pub record IsValid (t : Table V) : Type 0 where
    pub counted : t.entries ≡ total t.buckets0 + total t.buckets1
    pub shape : ValidAt t.buckets0 t.buckets1 t.rehash_index

  -- what the two vectors hold under a key, with the rehashing at `i`
  abbrev pub split_entry : List (Chain V) → List (Chain V) → ℕ → Bytes → Option (Entry V)
  split_entry b0 b1 i q =
      find_entry_in_bucket q (if ltb (hash q % length b0) i then home hash b1 q else home hash b0 q)

  module _ (b0 b1 : List (Chain V)) (i : ℕ) (s : IsSplit b0 b1 i) (lt : i < length b0) where
    abbrev moving : Chain V
    moving = get_or b0 i []

    pub move-IsSplit : IsSplit (set b0 i []) (rehash_entries hash moving b1) (i + 1)
    unfolding count
    move-IsSplit = record {
      room = omega (arith, length-rehash_entries hash moving b1, s.room);
      within = omega (arith, length-set b0 i []);
      placed0 = λ q j. rw (length-set, get_or-set b0 i j [] [] lt) (ground (arith, s.placed0 q j));
      placed1 = λ q j.
          rw (length-rehash_entries, count-rehash_entries hash q j moving b1 s.room)
            (ground (arith, s.placed1 q j, s.placed0 q i, s.fresh q j));
      cleared = λ j h. rw (get_or-set b0 i j [] [] lt) (ground (arith, s.cleared j));
      fresh = λ q j.
          rw (length-set, count-rehash_entries hash q j moving b1 s.room)
            (λ h. ground (arith, s.fresh q j, s.placed0 q i));
    }

    -- Moving a bucket changes no lookup.
    pub move_reads :
        (q : Bytes)
        → split_entry (set b0 i []) (rehash_entries hash moving b1) (i + 1) q
          ≡ split_entry b0 b1 i q
    unfolding find_entry_in_bucket or_else
    move_reads q =
        rw (length-set, get_or-set b0 i (hash q % length b0) [] [] lt)
          (ground (
            arith,
            find-rehash_entries hash q moving b1 s.room (s.placed0 q i).0,
            s.fresh q (hash q % length b1),
            s.placed0 q i,
            find-eq-none q (home hash b1 q),
            find-eq-none q moving,
          ))
