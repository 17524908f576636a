-- ===== src/Service/Eviction/Sampling.antt =====
-- What `GetSomeOldEntry` works with: its samples, which are entries of the table, and the choice of the
-- oldest key of the pool that is still as it was sampled.
use rdss.Base.{
  ℕ, zero, suc, ◌+◌, ◌≤◌, ◌<◌, ◌≡◌, refl, ◌∙◌, sym, true, Option, none, some, [], ◌∷◌, Bytes, ltb,
  ◌==◌, is_some, length, take, arith, Bool-cases, Option-cases, inl, inr, subst,
}
use rdss.HashTable.{Entry}
use rdss.KeyTable.{KeyTable}
use rdss.Resp.Result.{MtsPtr}
use rdss.Service.Eviction.{Pool, emplace, Draws, sample, pick}
use rdss.Service.Eviction.Pool.{AllAbove, IsSorted, emplace-IsSorted, length-emplace}

module _ (d : KeyTable MtsPtr none) where
  -- The draws suffice for every call of `GetRandomEntry` on a table that is not empty.
  abbrev pub Hits : Draws d → Type 0
  Hits draws = (n : ℕ) (t : d.Store) → 0 < d.count t → is_some (d.random_entry (draws n t) t) ≡ true

  -- Every key of the pool is in the table, and was not accessed since it was sampled.
  abbrev pub Fresh : d.Store → Pool → Type 0
  Fresh t [] = Unit
  Fresh t ((l, k) ∷ pool) =
      ((e : Entry MtsPtr) × (d.entry_at t k ≡ some e) × (e.key.lru ≡ l)) × Fresh t pool

  Fresh-emplace :
      (t : d.Store) (e : Entry MtsPtr) (pool : Pool)
      → d.entry_at t e.key.data_ ≡ some e
      → Fresh t pool
      → Fresh t (emplace e.key.lru e.key.data_ pool)
  unfolding emplace
  Fresh-emplace t e [] h f = ((e, h, refl), tt)
  Fresh-emplace t e ((l, q) ∷ pool) h f = elim (Bool-cases (ltb e.key.lru l)) [
    | inl a ↦ rw (emplace, a) ((e, h, refl), f)
    | inr a ↦ elim (Bool-cases (ltb l e.key.lru)) [
      | inl b ↦ rw (emplace, a, b) (f.0, Fresh-emplace t e pool h f.1)
      | inr b ↦ rw (emplace, a, b) f
    ]
  ]

  pub Fresh-take : (n : ℕ) (t : d.Store) (pool : Pool) → Fresh t pool → Fresh t (take n pool)
  Fresh-take zero t pool f = tt
  Fresh-take (suc n) t [] f = tt
  Fresh-take (suc n) t ((l, k) ∷ pool) f = (f.0, Fresh-take n t pool f.1)

  -- what the sampling loop leaves
  pub record Sampled (rounds : ℕ) (t : d.Store) (pool after : Pool) : Type 0 where
    pub grown : length pool ≤ length after
    pub filled : 0 < rounds → 0 < length after
    pub sorted : IsSorted pool → IsSorted after
    pub fresh : Fresh t pool → Fresh t after

  pub sample-Sampled :
      (draws : Draws d) (rounds n : ℕ) (t : d.Store) (pool : Pool)
      → Hits draws
      → 0 < d.count t
      → (s : Pool × ℕ) × (sample d draws rounds n t pool ≡ some s) × Sampled rounds t pool s.0
  unfolding sample
  sample-Sampled draws zero n t pool hits h = (
    (pool, n),
    refl,
    record { grown = omega arith; filled = λ k. elim k [ ]; sorted = λ s. s; fresh = λ f. f },
  )
  sample-Sampled draws (suc rounds) n t pool hits h =
      elim (Option-cases (d.random_entry (draws n t) t)) [
        | inl e ↦ ground (arith, hits n t)
        | inr (e, drawn) ↦
            let pool' = emplace e.key.lru e.key.data_ pool in
            let (s, found, r) = sample-Sampled draws rounds (n + 1) t pool' hits h in
            let long = length-emplace e.key.lru e.key.data_ pool in
            (
              s,
              rw (sample, drawn) found,
              record {
                grown = omega (arith, r.grown, long);
                filled = λ k. omega (arith, r.grown, long);
                sorted = λ k. r.sorted (emplace-IsSorted e.key.lru e.key.data_ pool k);
                fresh =
                    λ f. r.fresh (Fresh-emplace t e pool (d.random_stored (draws n t) t e drawn) f);
              },
            )
      ]

  -- what `pick` returns and leaves
  pub record Picked (pool : Pool) (t : d.Store) (o : Option (Entry MtsPtr)) (t' : d.Store)
      (pool' : Pool) : Type 0 where
    pub reads : (q : Bytes) → d.entry_at t' q ≡ d.entry_at t q
    pub counted : d.count t' ≡ d.count t
    pub stored : (e : Entry MtsPtr) → o ≡ some e → d.entry_at t e.key.data_ ≡ some e
    pub emptied : o ≡ none → pool' ≡ []
    pub shorter : length pool' ≤ length pool
    pub oldest :
        IsSorted pool
        → (e : Entry MtsPtr) → o ≡ some e
        → AllAbove e.key.lru pool' × IsSorted pool' × (length pool' < length pool)

  -- the first entry of the pool was no good
  later :
      (l : ℕ) (k : Bytes) (pool : Pool) (t : d.Store) (o : Option (Entry MtsPtr)) (t' : d.Store)
      (pool' : Pool)
      → Picked pool (d.find k t).0 o t' pool'
      → Picked ((l, k) ∷ pool) t o t' pool'
  later l k pool t o t' pool' p = record {
    reads = λ q. p.reads q ∙ d.find_reads k q t;
    counted = p.counted ∙ d.count_find k t;
    stored = λ e h. sym (d.find_reads k e.key.data_ t) ∙ p.stored e h;
    emptied = p.emptied;
    shorter = omega (arith, p.shorter);
    oldest = λ s e h. let (a, b, c) = p.oldest s.1 e h in (a, b, omega (arith, c));
  }

  -- the first entry of the pool was good
  chosen :
      (l : ℕ) (k : Bytes) (pool : Pool) (t : d.Store) (e : Entry MtsPtr)
      → (d.find k t).1 ≡ some e
      → (e.key.lru == l) ≡ true
      → Picked ((l, k) ∷ pool) t (some e) (d.find k t).0 pool
  chosen l k pool t e found same =
      let there : d.entry_at t k ≡ some e = sym (d.find_found k t) ∙ found in
      let l_eq : e.key.lru ≡ l = ground arith in
      record {
        reads = λ q. d.find_reads k q t;
        counted = d.count_find k t;
        stored = λ e' h. ground (arith, h, there, d.entry_at-key t k e there);
        emptied = λ h. ground (arith, h);
        shorter = omega arith;
        oldest = λ s e' h.
            let same_entry : e ≡ e' = ground (arith, h) in
            subst
              (λ (c : Entry MtsPtr).
                AllAbove c.key.lru pool × IsSorted pool × (length pool < length ((l, k) ∷ pool)))
              same_entry (subst (λ (m : ℕ). AllAbove m pool) (sym l_eq) s.0, s.1, omega arith);
      }

  pub pick-Picked : (pool : Pool) (t : d.Store) → let p = pick d pool t in Picked pool t p.0 p.1 p.2
  unfolding pick
  pick-Picked [] t = record {
    reads = λ q. refl;
    counted = refl;
    stored = λ e h. ground (arith, h);
    emptied = λ h. refl;
    shorter = omega arith;
    oldest = λ s e h. ground (arith, h);
  }
  pick-Picked ((l, k) ∷ pool) t =
      let t1 = (d.find k t).0 in
      let p = pick-Picked pool t1 in
      elim (Option-cases (d.find k t).1) [
        | inl missing ↦
            rw (pick, missing)
              (later l k pool t (pick d pool t1).0 (pick d pool t1).1 (pick d pool t1).2 p)
        | inr (e, found) ↦ elim (Bool-cases (e.key.lru == l)) [
          | inl same ↦ rw (pick, found, same) (chosen l k pool t e found same)
          | inr old ↦
              rw (pick, found, old)
                (later l k pool t (pick d pool t1).0 (pick d pool t1).1 (pick d pool t1).2 p)
        ]
      ]

  pub pick-fresh :
      (pool : Pool) (t : d.Store)
      → Fresh t pool
      → 0 < length pool
      → (e : Entry MtsPtr) × ((pick d pool t).0 ≡ some e)
  unfolding pick
  pick-fresh [] t f h = elim h [ ]
  pick-fresh ((l, k) ∷ pool) t f h =
      let (e, there, same) = f.0 in
      let found : (d.find k t).1 ≡ some e = d.find_found k t ∙ there in
      let test : (e.key.lru == l) ≡ true = ground arith in (e, rw (pick, found, test) refl)
