-- ===== src/Tests/Data.antt =====
-- A hash for the tests, two tables, and services with no key, one key, and one stale key.
use rdss.Base.{
  ℕ, ◌+◌, ◌<◌, ◌≡◌, refl, none, some, [], ◌∷◌, Bytes, bytes, true, false, arith, ◌∙◌, is_some,
  bytes_eq_refl, bytes_eq_iff,
}
use rdss.HashTable.{empty, entry_at, bucket_of, in_second}
use rdss.HashTable.Buckets.{find_entry_in_bucket}
use rdss.HashTable.Implementation.{key_table}
use rdss.HashTable.Refinement.{empty-IsValid}
use rdss.KeyTable.{KeyTable}
use rdss.Resp.Result.{MtsPtr}
use rdss.Service.{Service, set_data, set_regular, touch, regular}
use rdss.Service.View.{IsValid, live, stored, deadline, stale, put}
use rdss.Service.Invariant.{set_data-IsValid}
use rdss.Service.Effects.{set_regular-Becomes}

abbrev pub hash : Bytes → ℕ
hash [] = 0
hash (c ∷ cs) = c + hash cs

abbrev pub data_table : KeyTable MtsPtr none
data_table = key_table hash none

abbrev pub expire_table : KeyTable ℕ 0
expire_table = key_table hash 0

abbrev pub new_service : Service data_table expire_table
unfolding key_table
new_service = record {
  data_ht = (empty, empty-IsValid MtsPtr hash);
  expire_ht = (empty, empty-IsValid ℕ hash);
  now = 5;
  lru_clock = 7;
}

abbrev pub name : Bytes
name = bytes "CMD"

abbrev pub one : Bytes
one = bytes "one"

abbrev pub two : Bytes
two = bytes "two"

pub new_service-stored : (k : Bytes) → stored new_service k ≡ none
unfolding key_table entry_at bucket_of in_second find_entry_in_bucket
new_service-stored k = refl

pub new_service-deadline : (k : Bytes) → deadline new_service k ≡ none
unfolding key_table entry_at bucket_of in_second find_entry_in_bucket
new_service-deadline k = refl

pub new_service-IsValid : IsValid new_service
new_service-IsValid = record {
  bounded = λ k. ground (arith, new_service-deadline k);
  non_null = λ k. ground (arith, new_service-stored k);
}

-- the service once `one` is set
abbrev pub one_key : Service data_table expire_table
one_key = (set_data data_table expire_table one (bytes "1") regular false new_service).service

pub one_key-IsValid : IsValid one_key
one_key-IsValid = set_data-IsValid one new_service new_service-IsValid (bytes "1") regular false

pub one_key-stored :
    (q : Bytes) → stored one_key q ≡ put one (some (some (bytes "1"))) (stored new_service) q
unfolding set_data
one_key-stored = (set_regular-Becomes one (bytes "1") new_service).0.values

pub one_key-deadline : (q : Bytes) → deadline one_key q ≡ none
unfolding set_data
one_key-deadline q =
    (set_regular-Becomes one (bytes "1") new_service).0.deadlines q ∙ new_service-deadline q

pub one_key-live : is_some (live one_key one) ≡ true
one_key-live = ground (arith, one_key-stored one, one_key-deadline one, bytes_eq_refl one)

pub one_key-absent : live one_key two ≡ none
one_key-absent =
    ground (
      arith,
      one_key-stored two,
      one_key-deadline two,
      new_service-stored two,
      bytes_eq_iff one two,
    )

-- the service in which `one` has a deadline that has passed
abbrev pub late : Service data_table expire_table
late = record one_key { expire_ht = (expire_table.upsert one 3 one_key.expire_ht).0; now = 9 }

pub late-stale : stale late one ≡ true
late-stale =
    ground (arith, expire_table.upsert_reads one one 3 one_key.expire_ht, bytes_eq_refl one)

pub new_service-now : new_service.now ≡ 5
unfolding new_service
new_service-now = refl

pub late-IsValid : IsValid late
late-IsValid = record {
  bounded = λ q. ground (
    arith,
    expire_table.upsert_reads one q 3 one_key.expire_ht,
    one_key-stored q,
    one_key-IsValid.bounded q,
  );
  non_null = one_key-IsValid.non_null;
}

pub one_key-count : 0 < data_table.count one_key.data_ht
unfolding set_data set_regular touch
one_key-count =
    let dt = (data_table.upsert one (some (bytes "1")) new_service.data_ht).0 in
    ground (
      arith,
      data_table.count_write one (λ _. new_service.lru_clock) (λ v. v) dt,
      data_table.count_upsert one (some (bytes "1")) new_service.data_ht,
      new_service-stored one,
    )
