-- ===== src/Service/Eviction/Progress.antt =====
-- `Evict` returns, and when it cannot free enough memory then no key is left, or no eviction is wanted.
use rdss.Base.{
  ℕ, zero, suc, ◌+◌, ◌-◌, ◌%◌, ◌^◌, ◌<◌, ◌≡◌, ◌≢◌, inl, inr, refl, ◌∙◌, sym, arith, Bool, true,
  false, none, some, Bytes, ltb, ◌==◌, Bool-cases, Option-cases,
}
use rdss.HashTable.{Entry}
use rdss.KeyTable.{KeyTable}
use rdss.Resp.Result.{MtsPtr}
use rdss.Config.{MaxmemoryPolicy, no_eviction, all_keys_random, all_keys_lru}
use rdss.Service.Eviction.{Evicting, Draws, Usage, choose, evict_key, evict_loop, evict}
use rdss.Service.Eviction.Sampling.{Hits}
use rdss.Service.Eviction.OldKeys.{get_some_old_entry-IsOld}
use rdss.Service.Eviction.Effects.{Drops, Drops-refl, Drops-trans, evict_key-Drops}

module _ (d : KeyTable MtsPtr none) (x : KeyTable ℕ 0) (draws : Draws d) where
  -- the choice of an entry changes no lookup, and the entry is stored
  record Chooses (w : Evicting d x draws) (e : Entry MtsPtr) (w' : Evicting d x draws)
      : Type 0 where
    reads : (q : Bytes) → d.entry_at w'.service.data_ht q ≡ d.entry_at w.service.data_ht q
    counted : d.count w'.service.data_ht ≡ d.count w.service.data_ht
    expires : w'.service.expire_ht ≡ w.service.expire_ht
    clock : w'.service.now ≡ w.service.now
    held : d.entry_at w'.service.data_ht e.key.data_ ≡ some e
    policy : w'.evictor.maxmemory_policy ≡ w.evictor.maxmemory_policy
    samples : w'.evictor.maxmemory_samples ≡ w.evictor.maxmemory_samples
    evicted : w'.evictor.evicted_keys ≡ w.evictor.evicted_keys

  choose-Chooses :
      (p : MaxmemoryPolicy) (w : Evicting d x draws)
      → Hits d draws
      → p ≢ no_eviction
      → 0 < w.evictor.maxmemory_samples
      → 0 < d.count w.service.data_ht
      → (c : Entry MtsPtr × Evicting d x draws) × (choose d x draws p w ≡ some c)
        × Chooses w c.0 c.1
  unfolding choose
  choose-Chooses no_eviction w hits wanted some_samples filled = absurd (wanted refl)
  choose-Chooses all_keys_random w hits wanted some_samples filled =
      elim (Option-cases (d.random_entry (draws w.calls w.service.data_ht) w.service.data_ht)) [
        | inl missed ↦ ground (arith, hits w.calls w.service.data_ht)
        | inr (e, drawn) ↦ (
          (e, record w { calls = w.calls + 1 }),
          rw (choose, drawn) refl,
          record {
            reads = λ q. refl;
            counted = refl;
            expires = refl;
            clock = refl;
            held = d.random_stored (draws w.calls w.service.data_ht) w.service.data_ht e drawn;
            policy = refl;
            samples = refl;
            evicted = refl;
          },
        )
      ]
  choose-Chooses all_keys_lru w hits wanted some_samples filled =
      let (r, found, old) =
        get_some_old_entry-IsOld d draws w.evictor.maxmemory_samples w.calls w.service.data_ht
          w.evictor.eviction_pool hits some_samples filled in
      (
        (
          r.entry,
          record {
            service = record w.service { data_ht = r.table };
            evictor = record w.evictor { eviction_pool = r.pool };
            calls = r.calls;
          },
        ),
        rw (choose, found) refl,
        record {
          reads = old.reads;
          counted = old.counted;
          expires = refl;
          clock = refl;
          held = old.reads r.entry.key.data_ ∙ old.stored;
          policy = refl;
          samples = refl;
          evicted = refl;
        },
      )

  -- What `Evict` leaves where it goes through: it drops keys and counts them, and if it freed too little
  -- then every key is gone.
  pub record Evicts (w : Evicting d x draws) (r : Evicting d x draws × Bool) : Type 0 where
    pub dropped : Drops w.service r.0.service
    pub counted :
        d.count r.0.service.data_ht + r.0.evictor.evicted_keys
        ≡ d.count w.service.data_ht + w.evictor.evicted_keys
    pub samples : r.0.evictor.maxmemory_samples ≡ w.evictor.maxmemory_samples
    pub exhausted : r.1 ≡ false → d.count r.0.service.data_ht ≡ 0

  Chooses-Drops :
      (w : Evicting d x draws) (e : Entry MtsPtr) (w' : Evicting d x draws)
      → Chooses w e w'
      → Drops w.service w'.service
  Chooses-Drops w e w' c = record {
    clock = c.clock;
    kept_or_gone = λ q. inl (ground (arith, c.reads q), ground (arith, c.expires));
  }

  -- the key that was chosen is erased
  record Shrinks (w w' : Evicting d x draws) : Type 0 where
    dropped : Drops w.service w'.service
    fewer : d.count w'.service.data_ht + 1 ≡ d.count w.service.data_ht
    policy : w'.evictor.maxmemory_policy ≡ w.evictor.maxmemory_policy
    samples : w'.evictor.maxmemory_samples ≡ w.evictor.maxmemory_samples
    evicted : w'.evictor.evicted_keys ≡ w.evictor.evicted_keys + 1

  evict_key-Shrinks :
      (w : Evicting d x draws) (e : Entry MtsPtr) (w1 : Evicting d x draws)
      → Chooses w e w1
      → Shrinks w (evict_key d x draws e.key.data_ w1)
  unfolding evict_key
  evict_key-Shrinks w e w1 c = record {
    dropped = Drops-trans (Chooses-Drops w e w1 c) (evict_key-Drops draws e.key.data_ w1);
    fewer = ground (arith, d.count_erase e.key.data_ w1.service.data_ht, c.held, c.counted);
    policy = c.policy;
    samples = c.samples;
    evicted = omega (arith, c.evicted);
  }

  -- the loop, from where it has `fuel` rounds left, returns
  abbrev Returns : Usage d x → ℕ → ℕ → Type 0
  Returns usage fuel bytes_to_free =
      (freed : ℕ) (w : Evicting d x draws)
      → w.evictor.maxmemory_policy ≢ no_eviction
      → 0 < w.evictor.maxmemory_samples
      → d.count w.service.data_ht < fuel
      → (r : Evicting d x draws × Bool) × (evict_loop d x draws usage fuel bytes_to_free freed w
          ≡ some r)
        × Evicts w r

  -- a round that erased a key, and the rounds after it
  evict_round :
      (usage : Usage d x) (fuel bytes_to_free freed : ℕ) (w w2 : Evicting d x draws)
      → Returns usage fuel bytes_to_free
      → w.evictor.maxmemory_policy ≢ no_eviction
      → 0 < w.evictor.maxmemory_samples
      → d.count w.service.data_ht < suc fuel
      → Shrinks w w2
      → (r : Evicting d x draws × Bool) × (evict_loop d x draws usage fuel bytes_to_free freed w2
          ≡ some r)
        × Evicts w r
  evict_round usage fuel bytes_to_free freed w w2 ih wanted some_samples enough s =
      let (r, done, v) =
        ih freed w2 (λ h. wanted (sym s.policy ∙ h)) (omega (arith, s.samples))
          (omega (arith, s.fewer)) in
      (
        r,
        done,
        record {
          dropped = Drops-trans s.dropped v.dropped;
          counted = omega (arith, v.counted, s.fewer, s.evicted);
          samples = v.samples ∙ s.samples;
          exhausted = v.exhausted;
        },
      )

  Evicts-refl :
      (w : Evicting d x draws) (freed : Bool)
      → (freed ≡ false → d.count w.service.data_ht ≡ 0)
      → Evicts w (w, freed)
  Evicts-refl w freed h = record {
    dropped = Drops-refl w.service;
    counted = refl;
    samples = refl;
    exhausted = h;
  }

  evict_loop-Evicts :
      (usage : Usage d x) (fuel bytes_to_free : ℕ) → Hits d draws → Returns usage fuel bytes_to_free
  unfolding evict_loop
  evict_loop-Evicts usage zero bytes_to_free hits freed w wanted some_samples enough =
      elim enough [ ]
  evict_loop-Evicts usage (suc fuel) bytes_to_free hits freed w wanted some_samples enough =
      elim (Bool-cases (ltb freed bytes_to_free)) [
        | inr over ↦
            ((w, true), rw (evict_loop, over) refl, Evicts-refl w true (λ h. ground (arith, h)))
        | inl more ↦ elim (Bool-cases (d.count w.service.data_ht == 0)) [
          | inl gone ↦ (
            (w, false),
            rw (evict_loop, more, gone) refl,
            Evicts-refl w false (λ h. ground arith),
          )
          | inr filled ↦
              let (c, found, v) =
                choose-Chooses w.evictor.maxmemory_policy w hits wanted some_samples
                  (ground arith) in
              let w2 = evict_key d x draws c.0.key.data_ c.1 in
              let before = usage c.1.service c.1.evictor.eviction_pool in
              let after = usage w2.service w2.evictor.eviction_pool in
              let (r, done, e) =
                evict_round usage fuel bytes_to_free ((freed + (before + 2 ^ 64 - after)) % 2 ^ 64)
                  w w2 (evict_loop-Evicts usage fuel bytes_to_free hits) wanted some_samples enough
                  (evict_key-Shrinks w c.0 c.1 v) in
              (r, rw (evict_loop, more, filled, found) done, e)
        ]
      ]

  evict_runs :
      (usage : Usage d x) (bytes_to_free : ℕ) (w : Evicting d x draws)
      → w.evictor.maxmemory_policy ≢ no_eviction
      → evict d x draws usage bytes_to_free w
        ≡ evict_loop d x draws usage (d.count w.service.data_ht + 1) bytes_to_free 0 w
  unfolding evict
  evict_runs usage bytes_to_free w wanted =
      let run = evict_loop d x draws usage (d.count w.service.data_ht + 1) bytes_to_free 0 w in
      elim w.evictor.maxmemory_policy
          as (λ p. p ≢ no_eviction → (elim p [ no_eviction ↦ some (w, false) | _ ↦ run ]) ≡ run) [
            | no_eviction ↦ λ h. absurd (h refl)
            | all_keys_random ↦ λ h. refl
            | all_keys_lru ↦ λ h. refl
          ]
        wanted

  -- `Evict`, where keys may be evicted, some samples are to be taken and every call of `GetRandomEntry`
  -- returns, returns as well, whatever the tracker reads: it drops keys from both tables together, it counts
  -- each of them, and if it says that it did not free enough then the table is empty.
  pub evict-Evicts :
      (usage : Usage d x) (bytes_to_free : ℕ) (w : Evicting d x draws)
      → Hits d draws
      → w.evictor.maxmemory_policy ≢ no_eviction
      → 0 < w.evictor.maxmemory_samples
      → (r : Evicting d x draws × Bool) × (evict d x draws usage bytes_to_free w ≡ some r)
        × Evicts w r
  evict-Evicts usage bytes_to_free w hits wanted some_samples =
      let result =
        evict_loop-Evicts usage (d.count w.service.data_ht + 1) bytes_to_free hits 0 w wanted
          some_samples (omega arith) in
      (result.0, evict_runs usage bytes_to_free w wanted ∙ result.1, result.2)

  -- Under any policy the call returns, and does no more than drop keys.
  pub evict_returns :
      (usage : Usage d x) (bytes_to_free : ℕ) (w : Evicting d x draws)
      → Hits d draws
      → 0 < w.evictor.maxmemory_samples
      → (r : Evicting d x draws × Bool) × (evict d x draws usage bytes_to_free w ≡ some r)
        × Drops w.service r.0.service
        × (r.0.evictor.maxmemory_samples ≡ w.evictor.maxmemory_samples)
  unfolding evict
  evict_returns usage bytes_to_free w hits some_samples =
      let run = evict_loop d x draws usage (d.count w.service.data_ht + 1) bytes_to_free 0 w in
      let loops : w.evictor.maxmemory_policy ≢ no_eviction
          → (r : Evicting d x draws × Bool) × (run ≡ some r)
            × Drops w.service r.0.service
            × (r.0.evictor.maxmemory_samples ≡ w.evictor.maxmemory_samples) =
        λ wanted.
          let (r, done, v) =
            evict_loop-Evicts usage (d.count w.service.data_ht + 1) bytes_to_free hits 0 w wanted
              some_samples (omega arith) in
          (r, done, v.dropped, v.samples) in
      elim w.evictor.maxmemory_policy
          as (λ p.
            w.evictor.maxmemory_policy ≡ p
            → (r : Evicting d x draws × Bool) × ((elim p [
              | no_eviction ↦ some (w, false)
              | _ ↦ run
            ])
                ≡ some r)
              × Drops w.service r.0.service
              × (r.0.evictor.maxmemory_samples ≡ w.evictor.maxmemory_samples)) [
                | no_eviction ↦ λ h. ((w, false), refl, Drops-refl w.service, refl)
                | all_keys_random ↦ λ h. loops (λ q. ground (arith, h, q))
                | all_keys_lru ↦ λ h. loops (λ q. ground (arith, h, q))
              ]
        refl

  -- Where nothing may be evicted, nothing is.
  pub evict-no_eviction :
      (usage : Usage d x) (bytes_to_free : ℕ) (w : Evicting d x draws)
      → w.evictor.maxmemory_policy ≡ no_eviction
      → evict d x draws usage bytes_to_free w ≡ some (w, false)
  unfolding evict
  evict-no_eviction usage bytes_to_free w h =
      let run = evict_loop d x draws usage (d.count w.service.data_ht + 1) bytes_to_free 0 w in
      elim w.evictor.maxmemory_policy
          as (λ p.
            p ≡ no_eviction
            → (elim p [ no_eviction ↦ some (w, false) | _ ↦ run ]) ≡ some (w, false)) [
              | no_eviction ↦ λ q. refl
              | all_keys_random ↦ λ q. ground (arith, q)
              | all_keys_lru ↦ λ q. ground (arith, q)
            ]
        h
