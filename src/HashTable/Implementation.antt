-- ===== src/HashTable/Implementation.antt =====
-- The hash table, with its well-formedness, is a `KeyTable`.
use rdss.Base.{
  ℕ, ◌≡◌, Option, none, some, Bytes, bytes_eq, if◌then◌else◌, is_some, arith, refl, bytes_eq_refl,
  bytes_eq_iff, true, Bool-cases, inl, inr,
}
use rdss.KeyTable.{KeyTable, or_else_fresh}
use rdss.HashTable.Buckets.{Entry, edit}
use rdss.HashTable.Entries.{find-key}
use rdss.HashTable.Valid.{IsValid}
use rdss.HashTable.FindOrCreate.{or_fresh, find_or_create-Creates, find_lem}
use rdss.HashTable.Operations.{
  write_entry-Writes, erase-Erases, upsert-Upserts, upsert_shared-Upserts,
}
use rdss.HashTable.Random.{get_random_entry, random_entry_stored}
use rdss.HashTable.Incremental.{incremental_rehashing, incremental_rehashing-Keeps}
use rdss.HashTable.Traverse.{traverse_bucket, traverse_stored}
use rdss.HashTable.{
  Table, bucket_of, entry_at, find, find_or_create, write_entry, upsert, upsert_shared, insert,
  erase,
}

module _ {V : Type 0} (hash : Bytes → ℕ) (default : V) where
  abbrev pub Valid : Type 0
  Valid = (t : Table V) × IsValid hash t

  -- `Insert` stores the value only where the key was absent.
  pub insert_lem :
      (k : Bytes) (x : V) (t : Table V)
      → IsValid hash t
      → IsValid hash (insert hash default k x t).0
        × ((q : Bytes)
            → entry_at hash (insert hash default k x t).0 q ≡ (
                if bytes_eq k q
                then (if is_some (entry_at hash t k)
                    then entry_at hash t k
                    else some (edit (λ a. a) (λ _. x) (or_else_fresh default k none)))
                else entry_at hash t q))
  unfolding insert
  insert_lem k x t v =
      let r = find_or_create hash default k true t in
      let c = find_or_create-Creates hash default k t v in
      let w = (write_entry-Writes hash k (λ a. a) (λ _. x) r.0 c.valid).0 in
      elim (Bool-cases r.1) [
        | inl there ↦
            rw there (c.valid, λ q. ground (arith, c.reads q, c.existed, there, bytes_eq_iff k q))
        | inr absent ↦ rw absent (
          w.valid,
          λ q. ground (arith, w.reads q, c.reads q, c.reads k, bytes_eq_refl k, c.existed, absent),
        )
      ]

  pub or_fresh-eq :
      (k : Bytes) (o : Option (Entry V)) → or_else_fresh default k o ≡ or_fresh hash default k o
  or_fresh-eq k none = refl
  or_fresh-eq k (some e) = refl

  pub entry_at-key :
      (t : Table V) (k : Bytes) (e : Entry V) → entry_at hash t k ≡ some e → e.key.data_ ≡ k
  unfolding entry_at
  entry_at-key t k e h = find-key k (bucket_of hash t k) e h

  unfoldable pub key_table : KeyTable V default
  key_table = record {
    Store = Valid;
    entry_at = λ t. entry_at hash t.0;
    count = λ t. t.0.entries;
    find = λ k t. (
      (((find hash default k t.0).0, (find_lem hash default k t.0 t.1).0.valid)),
      (find hash default k t.0).1,
    );
    find_or_create = λ k t. (
      (
        (find_or_create hash default k true t.0).0,
        (find_or_create-Creates hash default k t.0 t.1).valid,
      ),
      (find_or_create hash default k true t.0).1,
    );
    write_entry =
        λ k f g t. (write_entry hash k f g t.0, (write_entry-Writes hash k f g t.0 t.1).0.valid);
    upsert = λ k v t. (
      ((upsert hash default k v t.0).0, (upsert-Upserts hash default k v t.0 t.1).valid),
      (upsert hash default k v t.0).1,
    );
    upsert_shared = λ k v t. (
      (
        (upsert_shared hash default k v t.0).0,
        (upsert_shared-Upserts hash default k v t.0 t.1).valid,
      ),
      (upsert_shared hash default k v t.0).1,
    );
    insert = λ k v t. (
      ((insert hash default k v t.0).0, (insert_lem k v t.0 t.1).0),
      (insert hash default k v t.0).1,
    );
    erase =
        λ k t. (((erase hash k t.0).0, (erase-Erases hash k t.0 t.1).valid), (erase hash k t.0).1);
    random_entry = λ draws t. get_random_entry draws t.0;
    traverse_bucket = λ i t. traverse_bucket i t.0;
    incremental_rehashing = λ times t. (
      incremental_rehashing hash times t.0,
      (incremental_rehashing-Keeps hash times t.0 t.1).valid,
    );
    entry_at-key = λ t k e h. entry_at-key t.0 k e h;
    find_reads = λ k q t. (find_lem hash default k t.0 t.1).0.reads q;
    find_found = λ k t. (find_lem hash default k t.0 t.1).1;
    create_reads =
        λ k q t. rw or_fresh-eq ((find_or_create-Creates hash default k t.0 t.1).reads q);
    create_existed = λ k t. (find_or_create-Creates hash default k t.0 t.1).existed;
    write_reads = λ k q f g t. (write_entry-Writes hash k f g t.0 t.1).0.reads q;
    upsert_reads = λ k q v t. rw or_fresh-eq ((upsert-Upserts hash default k v t.0 t.1).reads q);
    upsert_existed = λ k v t. (upsert-Upserts hash default k v t.0 t.1).existed;
    shared_reads =
        λ key q v t. ground (arith, (upsert_shared-Upserts hash default key v t.0 t.1).reads q);
    insert_reads = λ k q v t. (insert_lem k v t.0 t.1).1 q;
    erase_reads = λ k q t. (erase-Erases hash k t.0 t.1).reads q;
    erase_erased = λ k t. (erase-Erases hash k t.0 t.1).erased;
    count_find = λ k t. (find_lem hash default k t.0 t.1).0.entries;
    count_upsert = λ k v t.
        rw (← (upsert-Upserts hash default k v t.0 t.1).existed)
          (upsert-Upserts hash default k v t.0 t.1).entries;
    count_erase =
        λ k t. rw (← (erase-Erases hash k t.0 t.1).erased) (erase-Erases hash k t.0 t.1).entries;
    count_write = λ k f g t. (write_entry-Writes hash k f g t.0 t.1).1;
    random_stored = λ draws t e h. random_entry_stored hash draws t.0 e t.1 h;
    traverse_stored = λ i j t e h. traverse_stored hash i j t.0 e t.1 h;
    rehashing_reads = λ times q t. (incremental_rehashing-Keeps hash times t.0 t.1).reads q;
    count_rehashing = λ times t. (incremental_rehashing-Keeps hash times t.0 t.1).entries;
  }
