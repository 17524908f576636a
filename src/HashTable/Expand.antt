-- ===== src/HashTable/Expand.antt =====
-- `Expand` allots buckets or starts a rehashing, keeps the table well formed, and changes no lookup.
use rdss.Base.{
  ℕ, ◌*◌, ◌%◌, ◌≤◌, ◌<◌, ◌≡◌, refl, ap, true, false, Option, none, some, List, [], ◌∷◌, arith,
  Bytes, length, replicate, leb, inl, inr, Bool-cases, get_or-replicate, length-replicate,
}
use rdss.HashTable.Buckets.{Chain, find_entry_in_bucket, count}
use rdss.HashTable.Placement.{total, total-replicate, length-le-total, IsPlaced-replicate}
use rdss.HashTable.Valid.{IsValid}
use rdss.HashTable.Rehash.{
  table, Keeps, Keeps-refl, Keeps-trans, entry_at_split, entry_at_idle, rehash_some_done,
  advance-Keeps,
}
use rdss.HashTable.{
  Table, ExpandResult, no_expand, rehashing, expand_done, entry_at, bucket_of, in_second, is_empty,
  needs_to_expand, start_rehashing, expand, refind,
}

pub nonempty : {V : Type 0} (bs : List (Chain V)) → is_empty bs ≡ false → 0 < length bs
nonempty [] h = cc
nonempty (b ∷ bs) h = omega arith

module _ {V : Type 0} (hash : Bytes → ℕ) where
  bucket_once_at :
      (b0 b1 : List (Chain V)) (n : ℕ) (idx : Option ℕ) (k q : Bytes)
      → IsValid hash (table b0 b1 n idx)
      → count q (bucket_of hash (table b0 b1 n idx) k) ≤ 1
  unfolding bucket_of in_second
  bucket_once_at b0 b1 n none k q v = (v.shape.1 q _).0
  bucket_once_at b0 b1 n (some i) k q v =
      ground
        (arith, v.shape.0.placed0 q (hash k % length b0), v.shape.0.placed1 q (hash k % length b1))

  pub bucket_once : (t : Table V) (k q : Bytes) → IsValid hash t → count q (bucket_of hash t k) ≤ 1
  bucket_once t k q v = bucket_once_at t.buckets0 t.buckets1 t.entries t.rehash_index k q v

  bucket-le-entries_at :
      (b0 b1 : List (Chain V)) (n : ℕ) (idx : Option ℕ) (k : Bytes)
      → IsValid hash (table b0 b1 n idx)
      → length (bucket_of hash (table b0 b1 n idx) k) ≤ n
  unfolding bucket_of in_second
  bucket-le-entries_at b0 b1 n none k v =
      omega (arith, v.counted, length-le-total b0 (hash k % length b0))
  bucket-le-entries_at b0 b1 n (some i) k v = ground (
    arith,
    v.counted,
    length-le-total b0 (hash k % length b0),
    length-le-total b1 (hash k % length b1),
  )

  pub bucket-le-entries :
      (t : Table V) (k : Bytes) → IsValid hash t → length (bucket_of hash t k) ≤ t.entries
  bucket-le-entries t k v = bucket-le-entries_at t.buckets0 t.buckets1 t.entries t.rehash_index k v

  empty_reads_at :
      (b0 b1 : List (Chain V)) (n : ℕ) (idx : Option ℕ) (q : Bytes)
      → IsValid hash (table b0 b1 n idx)
      → is_empty b0 ≡ true
      → entry_at hash (table b0 b1 n idx) q ≡ none
  unfolding find_entry_in_bucket entry_at bucket_of in_second
  empty_reads_at [] b1 n none q v h = refl
  empty_reads_at [] b1 n (some i) q v h = absurd (omega (arith, v.shape.1))
  empty_reads_at (b ∷ b0) b1 n idx q v h = cc

  pub empty_reads :
      (t : Table V) (q : Bytes)
      → IsValid hash t
      → is_empty t.buckets0 ≡ true
      → entry_at hash t q ≡ none
  empty_reads t q v h = empty_reads_at t.buckets0 t.buckets1 t.entries t.rehash_index q v h

  -- the table that `Expand` makes of one without buckets
  init_Keeps :
      (b0 b1 : List (Chain V)) (n : ℕ)
      → IsValid hash (table b0 b1 n none)
      → is_empty b0 ≡ true
      → Keeps hash (table b0 b1 n none) (table (replicate 4 []) b1 n none)
  unfolding total
  init_Keeps [] b1 n v h = record {
    valid = record {
      counted = omega (arith, v.counted, total-replicate V 4);
      shape = (v.shape.0, IsPlaced-replicate V hash 4);
    };
    reads = λ q. rw (entry_at_idle, entry_at_idle, get_or-replicate 4);
    entries = refl;
    stays = λ _. omega arith;
  }
  init_Keeps (b ∷ b0) b1 n v h = cc

  -- the second vector, allotted
  begin_Keeps :
      (b0 b1 : List (Chain V)) (n : ℕ)
      → IsValid hash (table b0 b1 n none)
      → is_empty b0 ≡ false
      → Keeps hash (table b0 b1 n none) (table b0 (replicate (length b0 * 2) []) n (some 0))
  unfolding total count
  begin_Keeps [] b1 n v h = cc
  begin_Keeps (b ∷ b0) b1 n v h = record {
    valid = record {
      counted =
          omega (arith, v.counted, total-replicate V (length (b ∷ b0) * 2), ap total v.shape.0);
      shape = (
        record {
          room = omega (arith, length-replicate {A = Chain V} (length (b ∷ b0) * 2) []);
          within = omega arith;
          placed0 = v.shape.1;
          placed1 = IsPlaced-replicate V hash (length (b ∷ b0) * 2);
          cleared = λ j lt. elim lt [ ];
          fresh = λ q j lt. rw get_or-replicate;
        },
        omega arith,
      );
    };
    reads = λ q. rw (entry_at_split, entry_at_idle) (ground arith);
    entries = refl;
    stays = λ _. omega arith;
  }

  expand_at :
      (b0 b1 : List (Chain V)) (n : ℕ) (idx : Option ℕ)
      → IsValid hash (table b0 b1 n idx)
      → Keeps hash (table b0 b1 n idx) (expand hash (table b0 b1 n idx)).0
  unfolding expand needs_to_expand start_rehashing
  expand_at b0 b1 n (some i) v = Keeps-refl hash _ v
  expand_at b0 b1 n none v = elim (Bool-cases (is_empty b0)) [
    | inl none_yet ↦ rw none_yet (init_Keeps b0 b1 n v none_yet)
    | inr some_there ↦
        let begun = begin_Keeps b0 b1 n v some_there in
        elim (Bool-cases (leb (length b0) n)) [
          | inl full ↦
              rw (some_there, full)
                (Keeps-trans hash begun (rehash_some_done hash _ 1 begun.valid refl).kept)
          | inr roomy ↦ rw (some_there, roomy) (Keeps-refl hash _ v)
        ]
  ]

  -- `Expand` of a well-formed table keeps it well-formed and as it reads, in each of its three outcomes.
  pub expand-Keeps : (t : Table V) → IsValid hash t → Keeps hash t (expand hash t).0
  expand-Keeps t v = expand_at t.buckets0 t.buckets1 t.entries t.rehash_index v

  pub refind-Keeps :
      (t : Table V) (r : Table V × ExpandResult) → Keeps hash t r.0 → Keeps hash t (refind hash r)
  unfolding refind
  refind-Keeps t (u, no_expand) k = k
  refind-Keeps t (u, rehashing) k = Keeps-trans hash k (advance-Keeps hash u k.valid)
  refind-Keeps t (u, expand_done) k = Keeps-trans hash k (advance-Keeps hash u k.valid)

  expand_nonempty_at :
      (b0 b1 : List (Chain V)) (n : ℕ) (idx : Option ℕ)
      → IsValid hash (table b0 b1 n idx)
      → 0 < length (expand hash (table b0 b1 n idx)).0.buckets0
  unfolding expand needs_to_expand
  expand_nonempty_at [] b1 n none v = omega arith
  expand_nonempty_at [] b1 n (some i) v = absurd (omega (arith, v.shape.1))
  expand_nonempty_at (b ∷ b0) b1 n idx v = (expand_at (b ∷ b0) b1 n idx v).stays (omega arith)

  pub expand_nonempty : (t : Table V) → IsValid hash t → 0 < length (expand hash t).0.buckets0
  expand_nonempty t v = expand_nonempty_at t.buckets0 t.buckets1 t.entries t.rehash_index v
