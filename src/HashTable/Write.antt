-- ===== src/HashTable/Write.antt =====
-- A write of the bucket that `FindBucket` finds: what it must hold for the table to stay well formed,
-- and what the table reads as afterwards.
use rdss.Base.{
  ℕ, ◌+◌, ◌%◌, ◌≤◌, ◌<◌, ◌≡◌, Option, none, some, List, [], arith, Bytes, bytes_eq, bytes_eq_iff,
  if◌then◌else◌, length, get_or, set, ltb, length-set, get_or-set, inl, inr, Bool-cases, ltb→lt,
  not_ltb→le,
}
use rdss.HashTable.Buckets.{Entry, Chain, find_entry_in_bucket, count}
use rdss.HashTable.Placement.{total-set, IsPlaced, home}
use rdss.HashTable.Valid.{IsValid}
use rdss.HashTable.Rehash.{table, entry_at_split, entry_at_idle}
use rdss.HashTable.{Table, entry_at, bucket_of, set_bucket, in_second}

pub entries-set_bucket :
    {V : Type 0} (hash : Bytes → ℕ) (t : Table V) (k : Bytes) (c : Chain V) (m : ℕ)
    → (set_bucket hash t k c m).entries ≡ m
unfolding set_bucket
entries-set_bucket hash t k c m = ground arith

module _ {V : Type 0} where
  -- `t'` is well formed, has `o` under `k`, and reads as `t` elsewhere.
  pub record Writes (hash : Bytes → ℕ) (k : Bytes) (o : Option (Entry V)) (t t' : Table V)
      : Type 0 where
    pub valid : IsValid hash t'
    pub reads : (q : Bytes) → entry_at hash t' q ≡ (if bytes_eq k q then o else entry_at hash t q)

module _ {V : Type 0} (hash : Bytes → ℕ) (k : Bytes) (c : Chain V) (o : Option (Entry V)) where
  -- `c` may take the place of `old`: no key but `k` gains an entry, and `k` has at most one.
  pub record Fits (old : Chain V) : Type 0 where
    pub few : (q : Bytes) → count q c ≤ (if bytes_eq k q then 1 else count q old)
    pub finds :
        (q : Bytes)
        → find_entry_in_bucket q c ≡ (if bytes_eq k q then o else find_entry_in_bucket q old)

  IsPlaced-set :
      (bs : List (Chain V))
      → IsPlaced hash bs
      → 0 < length bs
      → Fits (home hash bs k)
      → IsPlaced hash (set bs (hash k % length bs) c)
  IsPlaced-set bs p h fit q j =
      rw (length-set, get_or-set bs (hash k % length bs) j c [] (omega arith))
        (ground (arith, p q j, fit.few q, bytes_eq_iff k q))

  find-home-set :
      (bs : List (Chain V)) (q : Bytes)
      → 0 < length bs
      → Fits (home hash bs k)
      → find_entry_in_bucket q (get_or (set bs (hash k % length bs) c) (hash q % length bs) [])
        ≡ (if bytes_eq k q then o else find_entry_in_bucket q (home hash bs q))
  find-home-set bs q h fit =
      rw (get_or-set bs (hash k % length bs) (hash q % length bs) c [] (omega arith))
        (ground (arith, fit.finds q, bytes_eq_iff k q))

  write_idle :
      (b0 b1 : List (Chain V)) (n m : ℕ)
      → IsValid hash (table b0 b1 n none)
      → 0 < length b0
      → Fits (home hash b0 k)
      → m + length (home hash b0 k) ≡ n + length c
      → Writes hash k o (table b0 b1 n none) (table (set b0 (hash k % length b0) c) b1 m none)
  write_idle b0 b1 n m v h fit size = record {
    valid = record {
      counted = omega (arith, v.counted, total-set b0 (hash k % length b0) c (omega arith));
      shape = (v.shape.0, IsPlaced-set b0 v.shape.1 h fit);
    };
    reads = λ q. rw (entry_at_idle, entry_at_idle, length-set) (find-home-set b0 q h fit);
  }

  write_first :
      (b0 b1 : List (Chain V)) (n m i : ℕ)
      → IsValid hash (table b0 b1 n (some i))
      → i ≤ hash k % length b0
      → Fits (home hash b0 k)
      → m + length (home hash b0 k) ≡ n + length c
      → Writes hash k o
          (table b0 b1 n (some i))
          (table (set b0 (hash k % length b0) c) b1 m (some i))
  write_first b0 b1 n m i v late fit size =
      let s = v.shape.0 in
      let h : 0 < length b0 = omega (arith, v.shape.1) in
      record {
        valid = record {
          counted = omega (arith, v.counted, total-set b0 (hash k % length b0) c (omega arith));
          shape = (
            record {
              room = s.room;
              within = omega (arith, length-set b0 (hash k % length b0) c, s.within);
              placed0 = IsPlaced-set b0 s.placed0 h fit;
              placed1 = s.placed1;
              cleared = λ j lt.
                  rw (get_or-set b0 (hash k % length b0) j c [] (omega arith))
                    (ground (arith, s.cleared j));
              fresh = λ q j. rw length-set (s.fresh q j);
            },
            omega (arith, length-set b0 (hash k % length b0) c, v.shape.1),
          );
        };
        reads = λ q.
            rw (entry_at_split, entry_at_split, length-set)
              (ground (arith, find-home-set b0 q h fit, bytes_eq_iff k q));
      }

  write_second :
      (b0 b1 : List (Chain V)) (n m i : ℕ)
      → IsValid hash (table b0 b1 n (some i))
      → hash k % length b0 < i
      → Fits (home hash b1 k)
      → m + length (home hash b1 k) ≡ n + length c
      → Writes hash k o
          (table b0 b1 n (some i))
          (table b0 (set b1 (hash k % length b1) c) m (some i))
  write_second b0 b1 n m i v early fit size =
      let s = v.shape.0 in
      let h = s.room in
      record {
        valid = record {
          counted = omega (arith, v.counted, total-set b1 (hash k % length b1) c (omega arith));
          shape = (
            record {
              room = omega (arith, length-set b1 (hash k % length b1) c);
              within = s.within;
              placed0 = s.placed0;
              placed1 = IsPlaced-set b1 s.placed1 h fit;
              cleared = s.cleared;
              fresh = λ q j.
                  rw (get_or-set b1 (hash k % length b1) j c [] (omega arith))
                    (λ lt. ground (arith, s.fresh q j, fit.few q, bytes_eq_iff k q));
            },
            v.shape.1,
          );
        };
        reads = λ q.
            rw (entry_at_split, entry_at_split, length-set)
              (ground (arith, find-home-set b1 q h fit, bytes_eq_iff k q));
      }

  write_at :
      (b0 b1 : List (Chain V)) (n m : ℕ) (idx : Option ℕ)
      → IsValid hash (table b0 b1 n idx)
      → 0 < length b0
      → Fits (bucket_of hash (table b0 b1 n idx) k)
      → m + length (bucket_of hash (table b0 b1 n idx) k) ≡ n + length c
      → Writes hash k o (table b0 b1 n idx) (set_bucket hash (table b0 b1 n idx) k c m)
  unfolding bucket_of set_bucket in_second
  write_at b0 b1 n m none v h fit size = write_idle b0 b1 n m v h fit size
  write_at b0 b1 n m (some i) v h fit size = elim (Bool-cases (ltb (hash k % length b0) i)) [
    | inl early ↦
        rw early
          (write_second b0 b1 n m i v (ltb→lt _ _ early) (rw early at fit) (rw early at size))
    | inr late ↦
        rw late (write_first b0 b1 n m i v (not_ltb→le _ _ late) (rw late at fit) (rw late at size))
  ]

  -- The bucket of `k` is replaced by `c`, and the count of entries by `m`.
  pub write_bucket :
      (t : Table V) (m : ℕ)
      → IsValid hash t
      → 0 < length t.buckets0
      → Fits (bucket_of hash t k)
      → m + length (bucket_of hash t k) ≡ t.entries + length c
      → Writes hash k o t (set_bucket hash t k c m)
  write_bucket t m v h fit size =
      write_at t.buckets0 t.buckets1 t.entries m t.rehash_index v h fit size
