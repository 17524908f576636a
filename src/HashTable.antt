-- ===== src/HashTable.antt =====
-- data_structure/hash_table.h: a chained hash table that moves its entries to a vector of twice the
-- size a few buckets at a time. The hash (`XXH64`, of the xxhash library) is a parameter.
pub mod Buckets
pub mod Entries
pub mod Placement
pub mod Valid
pub mod Rehash
pub mod Write
pub mod Expand
pub mod FindOrCreate
pub mod Operations
pub mod Implementation
pub mod Refinement
pub mod Incremental
pub mod Random
pub mod Hitting
pub mod Traverse
unfoldable pub use Buckets.*
use rdss.Base.{
  ℕ, zero, suc, ◌+◌, ◌-◌, ◌*◌, ◌%◌, Bool, true, false, Option, none, some, List, [], ◌∷◌, Bytes,
  if◌then◌else◌, ltb, leb, ◌==◌, is_some, length, get_or, set, replicate,
}

-- `buckets_`, `entries_`, and `rehash_index_`, whose -1 is `none`. The vectors stay below 2 ^ 31
-- buckets, so that the casts of an index to int32_t change nothing.
pub record Table (V : Type 0) : Type 0 where
  pub buckets0 : List (Chain V)
  pub buckets1 : List (Chain V)
  pub entries : ℕ
  pub rehash_index : Option ℕ

pub data ExpandResult : Type 0 where
  no_expand rehashing expand_done : ExpandResult

abbrev pub empty : {V : Type 0} → Table V
empty = record { buckets0 = []; buckets1 = []; entries = 0; rehash_index = none }

abbrev pub is_empty : {A : Type 0} → List A → Bool
is_empty [] = true
is_empty (x ∷ xs) = false

abbrev pub is_rehashing : {V : Type 0} → Table V → Bool
is_rehashing t = is_some t.rehash_index

abbrev pub index_of : Option ℕ → ℕ
index_of none = 0
index_of (some i) = i

-- `rehash_index_ = -1` and the move of the second vector into the first
unfoldable pub finish_rehashing : {V : Type 0} → Table V → Table V
finish_rehashing t = record t { buckets0 = t.buckets1; buckets1 = []; rehash_index = none }

unfoldable pub needs_to_expand : {V : Type 0} → Table V → Table V × Bool
needs_to_expand t =
    if is_empty t.buckets0
    then (record t { buckets0 = replicate 4 [] }, false)
    else (t, leb (length t.buckets0) t.entries)

module _ {V : Type 0} (hash : Bytes → ℕ) where
  -- the loop of `RehashBucket`: every entry goes to the head of its bucket of the second vector
  unfoldable pub rehash_entries : Chain V → List (Chain V) → List (Chain V)
  rehash_entries [] b1 = b1
  rehash_entries (e ∷ c) b1 =
      let target = hash e.key.data_ % length b1 in
      rehash_entries c (set b1 target (e ∷ get_or b1 target []))

  -- `RehashBucket(buckets_[0].begin() + rehash_index_)` and `++rehash_index_`; the number is that
  -- of the entries moved.
  unfoldable pub rehash_bucket : Table V → Table V × ℕ
  rehash_bucket t =
      let i = index_of t.rehash_index in
      let c = get_or t.buckets0 i [] in
      (
        record t {
          buckets0 = set t.buckets0 i [];
          buckets1 = rehash_entries c t.buckets1;
          rehash_index = some (i + 1);
        },
        length c,
      )

  -- the loop of `RehashSome`, with fuel; `none` means that the fuel ran out
  unfoldable pub rehash_loop : ℕ → Table V → ℕ → ℕ → Option (Table V × Bool)
  rehash_loop zero t empty_allowed to_rehash = none
  rehash_loop (suc fuel) t empty_allowed to_rehash =
      let (t', moved) = rehash_bucket t in
      let empty_left = if moved == 0 then empty_allowed - 1 else empty_allowed in
      let left = if moved == 0 then to_rehash else to_rehash - 1 in
      let rest = rehash_loop fuel t' empty_left left in
      if index_of t'.rehash_index == length t.buckets0
      then some (finish_rehashing t', true)
      else if (if moved == 0 then empty_left == 0 else left == 0)
      then some (t', false)
      else rest

  -- The buckets left are fuel enough: `rehash_some_done` of HashTable/Rehash.
  unfoldable pub rehash_some : ℕ → Table V → Table V × Bool
  rehash_some n t = elim (rehash_loop (length t.buckets0 - index_of t.rehash_index) t (n * 10) n) [
    | some r ↦ r
    | none ↦ (t, false)
  ]

  -- the rehashing that `FindBucket` starts with
  unfoldable pub advance : Table V → Table V
  advance t = if is_rehashing t then (rehash_some 1 t).0 else t

  -- whether `FindBucket` goes to the second vector: `index < rehash_index_`
  unfoldable pub in_second : Table V → Bytes → Bool
  in_second t k = elim t.rehash_index [ none ↦ false | some i ↦ ltb (hash k % length t.buckets0) i ]

  -- the bucket that `FindBucket` finds
  unfoldable pub bucket_of : Table V → Bytes → Chain V
  bucket_of t k =
      if in_second t k
      then get_or t.buckets1 (hash k % length t.buckets1) []
      else get_or t.buckets0 (hash k % length t.buckets0) []

  -- a write of that bucket, and of `entries_`
  unfoldable pub set_bucket : Table V → Bytes → Chain V → ℕ → Table V
  set_bucket t k c n =
      if in_second t k
      then record t { buckets1 = set t.buckets1 (hash k % length t.buckets1) c; entries = n }
      else record t { buckets0 = set t.buckets0 (hash k % length t.buckets0) c; entries = n }

  unfoldable pub start_rehashing : Table V → Table V
  start_rehashing t = (rehash_some 1 (record t { rehash_index = some 0 })).0

  unfoldable pub expand : Table V → Table V × ExpandResult
  expand t =
      if is_rehashing t
      then (t, rehashing)
      else let (t', needed) = needs_to_expand t in
        let grown =
          start_rehashing (record t' { buckets1 = replicate (length t'.buckets0 * 2) [] }) in
        if needed
        then (grown, if is_rehashing grown then rehashing else expand_done)
        else (t', no_expand)

  -- `FindBucket` once more, if the table was expanded or is being rehashed
  unfoldable pub refind : Table V × ExpandResult → Table V
  refind (t, no_expand) = t
  refind (t, rehashing) = advance t
  refind (t, expand_done) = advance t

  -- what a pointer to the entry of the key points at, with no rehashing
  unfoldable pub entry_at : Table V → Bytes → Option (Entry V)
  entry_at t k = find_entry_in_bucket k (bucket_of t k)

  -- a write through a pointer to the entry of the key
  unfoldable pub write_entry : Bytes → (ℕ → ℕ) → (V → V) → Table V → Table V
  write_entry k f g t = set_bucket t k (modify k f g (bucket_of t k)) t.entries

  unfoldable pub erase : Bytes → Table V → Table V × Bool
  erase k t =
      let t' = advance t in
      let (c, erased) = erase_entry_in_bucket k (bucket_of t' k) in
      if is_empty t.buckets0
      then (t, false)
      else if erased
      then (set_bucket t' k c (t'.entries - 1), true)
      else (t', false)

  -- `default` is what `ValueType` is in a new entry: null, or the start of the epoch.
  module _ (default : V) where
    -- `Expand` and `CreateEntryInBucket`
    unfoldable pub create_entry : Bytes → Table V → Table V
    create_entry k t =
        let t' = refind (expand t) in
        let e : Entry V = record { key = record { data_ = k; lru = 0 }; value = default } in
        set_bucket t' k (e ∷ bucket_of t' k) (t'.entries + 1)

    -- `FindOrCreate` after its first test
    unfoldable pub find_or_create_in : Bytes → Bool → Table V → Table V × Bool
    find_or_create_in k create_on_missing t =
        let t' = advance t in
        elim (entry_at t' k) [
          | some e ↦ (t', true)
          | none ↦ (if create_on_missing then create_entry k t' else t', false)
        ]

    -- The entry that `FindOrCreate` returns is the one that `entry_at` reads in the new table.
    unfoldable pub find_or_create : Bytes → Bool → Table V → Table V × Bool
    find_or_create k create_on_missing t =
        if is_empty t.buckets0
        then if create_on_missing then find_or_create_in k true (expand t).0 else (t, false)
        else find_or_create_in k create_on_missing t

    -- `Find`
    unfoldable pub find : Bytes → Table V → Table V × Option (Entry V)
    find k t =
        let (t', found) = find_or_create k false t in (t', if found then entry_at t' k else none)

    -- `Upsert` of a `string_view`; the Boolean is whether the key was there
    unfoldable pub upsert : Bytes → V → Table V → Table V × Bool
    upsert k v t =
        let (t', exists) = find_or_create k true t in (write_entry k (λ a. a) (λ _. v) t', exists)

    -- `Insert`; the Boolean is whether the key was inserted
    unfoldable pub insert : Bytes → V → Table V → Table V × Bool
    insert k v t =
        let (t', exists) = find_or_create k true t in
        if exists then (t', false) else (write_entry k (λ a. a) (λ _. v) t', true)

    -- `Upsert` of a shared key: a new entry takes that key, its access time included. The assertion that
    -- an entry which is there has that very key is of debug builds, and left out.
    unfoldable pub upsert_shared : HashTableKey → V → Table V → Table V × Bool
    upsert_shared key v t =
        let (t', exists) = find_or_create key.data_ true t in
        (write_entry key.data_ (λ a. if exists then a else key.lru) (λ _. v) t', exists)
