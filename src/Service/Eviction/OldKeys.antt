-- ===== src/Service/Eviction/OldKeys.antt =====
-- `GetSomeOldEntry`: it returns, and what it returns is stored and the oldest of what it considered.
use rdss.Base.{
  ℕ, suc, ◌<◌, ◌≡◌, refl, ◌∙◌, sym, ap, Option, none, some, [], Bytes, length, length-take, take,
  min, arith, Option-cases, inl, inr,
}
use rdss.HashTable.{Entry}
use rdss.KeyTable.{KeyTable}
use rdss.Resp.Result.{MtsPtr}
use rdss.Service.Eviction.{
  Pool, eviction_pool_limit, Draws, OldEntry, sample, pick, get_some_old_entry,
}
use rdss.Service.Eviction.Pool.{AllAbove, IsSorted, take-IsSorted}
use rdss.Service.Eviction.Sampling.{
  Hits, Fresh-take, Sampled, sample-Sampled, pick-Picked, pick-fresh,
}

module _ (d : KeyTable MtsPtr none) where
  -- What `GetSomeOldEntry` returns and leaves: an entry of the table as it was; and, where the pool was
  -- sorted, an access time that is before those left in the pool, which has room for another.
  pub record IsOld (t : d.Store) (pool : Pool) (r : OldEntry d) : Type 0 where
    pub reads : (q : Bytes) → d.entry_at r.table q ≡ d.entry_at t q
    pub counted : d.count r.table ≡ d.count t
    pub stored : d.entry_at t r.entry.key.data_ ≡ some r.entry
    pub oldest :
        IsSorted pool
        → AllAbove r.entry.key.lru r.pool × IsSorted r.pool × (length r.pool < eviction_pool_limit)

  module _ (draws : Draws d) where
    abbrev picked : Pool → d.Store → Option (Entry MtsPtr) × d.Store × Pool
    picked pool t = pick d (take eviction_pool_limit pool) t

    get_found :
        (fuel samples n : ℕ) (t : d.Store) (pool : Pool) (s : Pool × ℕ) (e : Entry MtsPtr)
        → sample d draws (min samples (d.count t)) n t pool ≡ some s
        → (picked s.0 t).0 ≡ some e
        → get_some_old_entry d draws (suc fuel) samples n t pool
          ≡ some
              (record { entry = e; table = (picked s.0 t).1; pool = (picked s.0 t).2; calls = s.1 })
    unfolding get_some_old_entry
    get_found fuel samples n t pool s e drawn found = rw (get_some_old_entry, drawn, found) refl

    get_again :
        (fuel samples n : ℕ) (t : d.Store) (pool : Pool) (s : Pool × ℕ)
        → sample d draws (min samples (d.count t)) n t pool ≡ some s
        → (picked s.0 t).0 ≡ none
        → get_some_old_entry d draws (suc fuel) samples n t pool
          ≡ get_some_old_entry d draws fuel samples s.1 (picked s.0 t).1 (picked s.0 t).2
    unfolding get_some_old_entry
    get_again fuel samples n t pool s drawn missed = rw (get_some_old_entry, drawn, missed) refl

    found-IsOld :
        (t : d.Store) (pool : Pool) (s : Pool × ℕ) (e : Entry MtsPtr) (rounds : ℕ)
        → Sampled d rounds t pool s.0
        → (picked s.0 t).0 ≡ some e
        → IsOld t pool
            (record { entry = e; table = (picked s.0 t).1; pool = (picked s.0 t).2; calls = s.1 })
    found-IsOld t pool s e rounds r found =
        let p = pick-Picked d (take eviction_pool_limit s.0) t in
        record {
          reads = p.reads;
          counted = p.counted;
          stored = p.stored e found;
          oldest = λ k.
              let (a, b, c) =
                p.oldest (take-IsSorted eviction_pool_limit s.0 (r.sorted k)) e found in
              (a, b, omega (arith, c, length-take eviction_pool_limit s.0));
        }

    -- `GetSomeOldEntry` returns after two rounds at most, if it is to take a sample and the table is not
    -- empty and every call of `GetRandomEntry` returns: the first round may find nothing but keys of the
    -- pool that are gone or were accessed since, and the second starts with an empty pool.
    pub get_some_old_entry-IsOld :
        (samples n : ℕ) (t : d.Store) (pool : Pool)
        → Hits d draws
        → 0 < samples
        → 0 < d.count t
        → (r : OldEntry d) × (get_some_old_entry d draws 2 samples n t pool ≡ some r)
          × IsOld t pool r
    get_some_old_entry-IsOld samples n t pool hits some_samples filled =
        let (s, drawn, r) = sample-Sampled d draws (min samples (d.count t)) n t pool hits filled in
        let p = pick-Picked d (take eviction_pool_limit s.0) t in
        let t1 = (picked s.0 t).1 in
        elim (Option-cases (picked s.0 t).0) [
          | inr (e, found) ↦ (
            record { entry = e; table = (picked s.0 t).1; pool = (picked s.0 t).2; calls = s.1 },
            get_found 1 samples n t pool s e drawn found,
            found-IsOld t pool s e (min samples (d.count t)) r found,
          )
          | inl missed ↦
              let filled1 : 0 < d.count t1 = omega (arith, p.counted) in
              let (s1, drawn1, r1) =
                sample-Sampled d draws (min samples (d.count t1)) s.1 t1 [] hits filled1 in
              let (e, found) =
                pick-fresh d (take eviction_pool_limit s1.0) t1
                  (Fresh-take d eviction_pool_limit t1 s1.0 (r1.fresh tt))
                  (omega (arith, length-take eviction_pool_limit s1.0, r1.filled (omega arith))) in
              let old = found-IsOld t1 [] s1 e (min samples (d.count t1)) r1 found in
              (
                record {
                  entry = e;
                  table = (picked s1.0 t1).1;
                  pool = (picked s1.0 t1).2;
                  calls = s1.1;
                },
                get_again 1 samples n t pool s drawn missed
                    ∙ ap (λ (l : Pool). get_some_old_entry d draws 1 samples s.1 t1 l)
                        (p.emptied missed)
                    ∙ get_found 0 samples s.1 t1 [] s1 e drawn1 found,
                record {
                  reads = λ q. old.reads q ∙ p.reads q;
                  counted = old.counted ∙ p.counted;
                  stored = sym (p.reads e.key.data_) ∙ old.stored;
                  oldest = λ k. old.oldest tt;
                },
              )
        ]
