-- ===== src/KeyTable.antt =====
-- The interface of a hash table (data_structure/hash_table.h) as the service uses it: the operations
-- by their names, and what a client may rely on. HashTable/Implementation.antt fills it.
use mathlib.Core.Option
use rdss.Base.{
  ℕ, ◌+◌, ◌≡◌, Bool, Option, none, some, List, get_elem?, Bytes, bytes_eq, if◌then◌else◌, is_some,
}
use rdss.HashTable.{HashTableKey, Entry, edit}

-- `FindOrCreate` under a key that is absent leaves `fresh`.
abbrev pub or_else_fresh : {V : Type 0} → V → Bytes → Option (Entry V) → Entry V
or_else_fresh default k none = record { key = record { data_ = k; lru = 0 }; value = default }
or_else_fresh default k (some e) = e

pub record KeyTable (V : Type 0) (default : V) : Type 1 where
  pub Store : Type 0
  -- what a pointer to the entry of the key points at
  pub entry_at : Store → Bytes → Option (Entry V)
  pub count : Store → ℕ
  pub find : Bytes → Store → Store × Option (Entry V)
  pub find_or_create : Bytes → Store → Store × Bool
  pub write_entry : Bytes → (ℕ → ℕ) → (V → V) → Store → Store
  pub upsert : Bytes → V → Store → Store × Bool
  pub upsert_shared : HashTableKey → V → Store → Store × Bool
  pub insert : Bytes → V → Store → Store × Bool
  pub erase : Bytes → Store → Store × Bool
  -- `GetRandomEntry`, with the values of `std::rand`
  pub random_entry : List ℕ → Store → Option (Entry V)
  -- `TraverseBucket`: the next index, and the entries of the bucket
  pub traverse_bucket : ℕ → Store → ℕ × List (Entry V)
  -- `IncrementalRehashing` of the table, with the readings of the clock
  pub incremental_rehashing : List Bool → Store → Store
  pub entry_at-key : (t : Store) (k : Bytes) (e : Entry V) → entry_at t k ≡ some e → e.key.data_ ≡ k
  pub find_reads : (k q : Bytes) (t : Store) → entry_at (find k t).0 q ≡ entry_at t q
  pub find_found : (k : Bytes) (t : Store) → (find k t).1 ≡ entry_at t k
  pub create_reads :
      (k q : Bytes) (t : Store)
      → entry_at (find_or_create k t).0 q
        ≡ (if bytes_eq k q then some (or_else_fresh default k (entry_at t k)) else entry_at t q)
  pub create_existed : (k : Bytes) (t : Store) → (find_or_create k t).1 ≡ is_some (entry_at t k)
  pub write_reads :
      (k q : Bytes) (f : ℕ → ℕ) (g : V → V) (t : Store)
      → entry_at (write_entry k f g t) q
        ≡ (if bytes_eq k q then Option.map (edit f g) (entry_at t k) else entry_at t q)
  pub upsert_reads :
      (k q : Bytes) (v : V) (t : Store)
      → entry_at (upsert k v t).0 q ≡ (
          if bytes_eq k q
          then some (edit (λ a. a) (λ _. v) (or_else_fresh default k (entry_at t k)))
          else entry_at t q)
  pub upsert_existed : (k : Bytes) (v : V) (t : Store) → (upsert k v t).1 ≡ is_some (entry_at t k)
  pub shared_reads :
      (key : HashTableKey) (q : Bytes) (v : V) (t : Store)
      → Option.map (λ (e : Entry V). e.value) (entry_at (upsert_shared key v t).0 q) ≡ (
          if bytes_eq key.data_ q
          then some v
          else Option.map (λ (e : Entry V). e.value) (entry_at t q))
  pub insert_reads :
      (k q : Bytes) (v : V) (t : Store)
      → entry_at (insert k v t).0 q ≡ (
          if bytes_eq k q
          then (if is_some (entry_at t k)
              then entry_at t k
              else some (edit (λ a. a) (λ _. v) (or_else_fresh default k none)))
          else entry_at t q)
  pub erase_reads :
      (k q : Bytes) (t : Store)
      → entry_at (erase k t).0 q ≡ (if bytes_eq k q then none else entry_at t q)
  pub erase_erased : (k : Bytes) (t : Store) → (erase k t).1 ≡ is_some (entry_at t k)
  pub count_find : (k : Bytes) (t : Store) → count (find k t).0 ≡ count t
  pub count_upsert :
      (k : Bytes) (v : V) (t : Store)
      → count (upsert k v t).0 ≡ count t + (if is_some (entry_at t k) then 0 else 1)
  pub count_erase :
      (k : Bytes) (t : Store)
      → count (erase k t).0 + (if is_some (entry_at t k) then 1 else 0) ≡ count t
  pub count_write :
      (k : Bytes) (f : ℕ → ℕ) (g : V → V) (t : Store) → count (write_entry k f g t) ≡ count t
  pub random_stored :
      (draws : List ℕ) (t : Store) (e : Entry V)
      → random_entry draws t ≡ some e
      → entry_at t e.key.data_ ≡ some e
  pub traverse_stored :
      (i j : ℕ) (t : Store) (e : Entry V)
      → get_elem? (traverse_bucket i t).1 j ≡ some e
      → entry_at t e.key.data_ ≡ some e
  pub rehashing_reads :
      (times : List Bool) (q : Bytes) (t : Store)
      → entry_at (incremental_rehashing times t) q ≡ entry_at t q
  pub count_rehashing :
      (times : List Bool) (t : Store) → count (incremental_rehashing times t) ≡ count t
