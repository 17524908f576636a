-- ===== src/Service/Eviction.antt =====
-- service/eviction_strategy.h, service/eviction_strategy.cc: keys are erased until enough memory is
-- free. `lru_clock_` is a field of the service. A pool entry is the access time at which a key was
-- sampled and the key's bytes.
pub mod Pool
pub mod Sampling
pub mod OldKeys
pub mod Effects
pub mod Progress
use rdss.Base.{
  ℕ, zero, suc, ◌+◌, ◌-◌, ◌%◌, ◌^◌, Bool, true, false, Option, none, some, List, [], ◌∷◌, Bytes,
  if◌then◌else◌, ltb, leb, ◌==◌, is_some, length, take, min,
}
use rdss.HashTable.{Entry}
use rdss.KeyTable.{KeyTable}
use rdss.Resp.Result.{MtsPtr}
use rdss.Config.{MaxmemoryPolicy, no_eviction, all_keys_random, all_keys_lru}
use rdss.Service.{Service}

-- `std::set<LRUEntry, CompareLRUEntry>`: sorted by the time, with no time twice
abbrev pub Pool : Type 0
Pool = List (ℕ × Bytes)

abbrev pub eviction_pool_limit : ℕ
eviction_pool_limit = 16

-- `eviction_pool_.emplace`
unfoldable pub emplace : ℕ → Bytes → Pool → Pool
emplace lru k [] = (lru, k) ∷ []
emplace lru k ((l, q) ∷ pool) =
    let rest = emplace lru k pool in
    if ltb lru l
    then (lru, k) ∷ (l, q) ∷ pool
    else if ltb l lru
    then (l, q) ∷ rest
    else (l, q) ∷ pool

-- `EvictionStrategy`, apart from the pointer to the service and the access clock
pub record Evictor : Type 0 where
  pub maxmemory_policy : MaxmemoryPolicy
  pub maxmemory : ℕ
  pub maxmemory_samples : ℕ
  pub eviction_pool : Pool
  pub evicted_keys : ℕ

-- `MaxmemoryExceeded`, where `allocated` bytes are
unfoldable pub maxmemory_exceeded : ℕ → Evictor → ℕ
maxmemory_exceeded allocated e =
    if e.maxmemory == 0 then 0 else if leb allocated e.maxmemory then 0 else allocated - e.maxmemory

module _ (d : KeyTable MtsPtr none) where
  -- The values of `std::rand` in the `n`th call of `GetRandomEntry`, where it finds the table so: as
  -- many as it takes.
  abbrev pub Draws : Type 0
  Draws = ℕ → d.Store → List ℕ

  -- what `GetSomeOldEntry` returns and leaves
  pub record OldEntry : Type 0 where
    pub entry : Entry MtsPtr
    pub table : d.Store
    pub pool : Pool
    pub calls : ℕ

  -- the loop that takes the oldest key which is still in the table and was not accessed since
  unfoldable pub pick : Pool → d.Store → Option (Entry MtsPtr) × d.Store × Pool
  pick [] t = (none, t, [])
  pick ((lru, k) ∷ pool) t =
      let (t', found) = d.find k t in
      elim found [
        | none ↦ pick pool t'
        | some e ↦ elim (e.key.lru == lru) [ true ↦ (some e, t', pool) | false ↦ pick pool t' ]
      ]

  module _ (draws : Draws) where
    -- The sampling loop of `GetSomeOldEntry`, with the rounds left and the number of the next call of
    -- `GetRandomEntry`. `none` is a call that does not return.
    unfoldable pub sample : ℕ → ℕ → d.Store → Pool → Option (Pool × ℕ)
    sample zero n t pool = some (pool, n)
    sample (suc rounds) n t pool = elim (d.random_entry (draws n t) t) [
      | none ↦ none
      | some e ↦ sample rounds (n + 1) t (emplace e.key.lru e.key.data_ pool)
    ]

    -- `GetSomeOldEntry`. The outer loop runs on fuel; two rounds are enough.
    unfoldable pub get_some_old_entry : ℕ → ℕ → ℕ → d.Store → Pool → Option OldEntry
    get_some_old_entry zero samples n t pool = none
    get_some_old_entry (suc fuel) samples n t pool =
        elim (sample (min samples (d.count t)) n t pool) [
          | none ↦ none
          | some s ↦
              let (result, t', pool') = pick (take eviction_pool_limit s.0) t in
              elim result [
                | none ↦ get_some_old_entry fuel samples s.1 t' pool'
                | some e ↦ some (record { entry = e; table = t'; pool = pool'; calls = s.1 })
              ]
        ]

module _ (d : KeyTable MtsPtr none) (x : KeyTable ℕ 0) where
  -- The bytes that the tracker counts for the allocator of the tables, while they and the pool, which
  -- shares its keys with them, are so.
  abbrev pub Usage : Type 0
  Usage = Service d x → Pool → ℕ

  module _ (draws : Draws d) where
    -- The service and the evictor while keys are evicted, with the number of the next call of
    -- `GetRandomEntry`.
    pub record Evicting : Type 0 where
      pub service : Service d x
      pub evictor : Evictor
      pub calls : ℕ

    -- the entry that the policy chooses
    unfoldable pub choose : MaxmemoryPolicy → Evicting → Option (Entry MtsPtr × Evicting)
    choose no_eviction w = none
    choose all_keys_random w =
        elim (d.random_entry (draws w.calls w.service.data_ht) w.service.data_ht) [
          | none ↦ none
          | some e ↦ some (e, record w { calls = w.calls + 1 })
        ]
    choose all_keys_lru w =
        elim (get_some_old_entry d draws 2 w.evictor.maxmemory_samples w.calls w.service.data_ht
          w.evictor.eviction_pool) [
            | none ↦ none
            | some r ↦ some (
              r.entry,
              record {
                service = record w.service { data_ht = r.table };
                evictor = record w.evictor { eviction_pool = r.pool };
                calls = r.calls;
              },
            )
          ]

    -- the two `Erase`s and the count of a key that is evicted
    unfoldable pub evict_key : Bytes → Evicting → Evicting
    evict_key k w = record w {
      service = record w.service {
        expire_ht = (x.erase k w.service.expire_ht).0;
        data_ht = (d.erase k w.service.data_ht).0;
      };
      evictor = record w.evictor { evicted_keys = w.evictor.evicted_keys + 1 };
    }

    -- The loop of `Evict`, of either policy, on fuel; `freed` is a size_t, and so is the difference of two
    -- readings of the tracker. `none` means that it does not return.
    unfoldable pub evict_loop : Usage → ℕ → ℕ → ℕ → Evicting → Option (Evicting × Bool)
    evict_loop usage zero bytes_to_free freed w = none
    evict_loop usage (suc fuel) bytes_to_free freed w = elim (ltb freed bytes_to_free) [
      | false ↦ some (w, true)
      | true ↦ elim (d.count w.service.data_ht == 0) [
        | true ↦ some (w, false)
        | false ↦ elim (choose w.evictor.maxmemory_policy w) [
          | none ↦ none
          | some c ↦
              let before = usage c.1.service c.1.evictor.eviction_pool in
              let w' = evict_key c.0.key.data_ c.1 in
              let after = usage w'.service w'.evictor.eviction_pool in
              evict_loop usage fuel bytes_to_free ((freed + (before + 2 ^ 64 - after)) % 2 ^ 64) w'
        ]
      ]
    ]

    -- `Evict`. Every round erases a key, so that one round more than there are keys is enough.
    unfoldable pub evict : Usage → ℕ → Evicting → Option (Evicting × Bool)
    evict usage bytes_to_free w = elim w.evictor.maxmemory_policy [
      | no_eviction ↦ some (w, false)
      | _ ↦ evict_loop usage (d.count w.service.data_ht + 1) bytes_to_free 0 w
    ]
