-- ===== src/Tests/Tables.antt =====
-- The theorems on the hash table, at a table that the tests fill until it is being rehashed.
use rdss.Base.{ℕ, ◌≡◌, refl, List, [], ◌∷◌, ◌++◌, bytes, bytes_eq, true, none, some, false}
use rdss.HashTable.{
  Table, Entry, is_empty, empty, is_rehashing, rehash_some, expand, find_or_create, find,
  write_entry, erase, upsert, set_bucket, in_second, find_or_create_in, entry_at, bucket_of,
  advance, needs_to_expand, create_entry, refind, start_rehashing, rehash_loop, rehash_bucket,
  rehash_entries,
}
use rdss.HashTable.Buckets.{find_entry_in_bucket, modify}
use rdss.HashTable.Valid.{IsValid}
use rdss.HashTable.Rehash.{Rehashed, rehash_some_done}
use rdss.HashTable.Operations.{Erases, erase-Erases}
use rdss.HashTable.Refinement.{
  Op, upserting, erasing, inserting, call, call_all, call_all-IsValid, find-call_all, value_of,
  expect_all,
}
use rdss.HashTable.Random.{bucket_at, get_random_entry, get_random_entry_lem}
use rdss.Tests.Data.{hash, one, two}

abbrev fill : List (Op ℕ)
fill =
    upserting one 1
    ∷ upserting two 2
    ∷ upserting (bytes "three") 3
    ∷ upserting (bytes "four") 4
    ∷ upserting (bytes "five") 5
    ∷ []

abbrev filled : Table ℕ
filled = call_all hash 0 fill empty

filled_rehashes : is_rehashing filled ≡ true
unfolding call_all call upsert find_or_create expand rehash_some write_entry set_bucket in_second
    find_or_create_in entry_at find_entry_in_bucket bucket_of advance needs_to_expand create_entry
    refind modify bytes_eq start_rehashing rehash_loop rehash_bucket rehash_entries
filled_rehashes = refl

call_all-IsValid_example : IsValid hash filled
call_all-IsValid_example = call_all-IsValid hash 0 fill

find-call_all_example :
    value_of
      (find hash 0 two (call_all hash 0 (fill ++ erasing two ∷ inserting one 6 ∷ []) empty)).1
    ≡ expect_all (fill ++ erasing two ∷ inserting one 6 ∷ []) (λ _. none) two
find-call_all_example = find-call_all hash 0 (fill ++ erasing two ∷ inserting one 6 ∷ []) two

rehash_some_done_example : Rehashed hash filled (rehash_some hash 2 filled)
rehash_some_done_example =
    rehash_some_done hash filled 2 (call_all-IsValid hash 0 fill) filled_rehashes

erase-Erases_example : Erases hash two filled (erase hash two filled)
erase-Erases_example = erase-Erases hash two filled (call_all-IsValid hash 0 fill)

filled_hit : is_empty (bucket_at 2 filled) ≡ false
unfolding bucket_at call_all call upsert find_or_create expand rehash_some write_entry set_bucket
    in_second find_or_create_in entry_at find_entry_in_bucket bucket_of advance needs_to_expand
    create_entry refind modify bytes_eq start_rehashing rehash_loop rehash_bucket rehash_entries
filled_hit = refl

filled_buckets : is_empty filled.buckets0 ≡ false
unfolding call_all call upsert find_or_create expand rehash_some write_entry set_bucket in_second
    find_or_create_in entry_at find_entry_in_bucket bucket_of advance needs_to_expand create_entry
    refind modify bytes_eq start_rehashing rehash_loop rehash_bucket rehash_entries
filled_buckets = refl

get_random_entry_lem_example :
    (e : Entry ℕ) × (get_random_entry (0 ∷ 2 ∷ 7 ∷ []) filled ≡ some e)
    × (entry_at hash filled e.key.data_ ≡ some e)
get_random_entry_lem_example =
    get_random_entry_lem hash (0 ∷ []) 2 7 filled (call_all-IsValid hash 0 fill) filled_buckets
      filled_hit
