-- ===== src/Service/Expiry/View.antt =====
-- What the periodic removal of expired keys leaves for a client to see.
use rdss.Base.{
  ℕ, zero, suc, ◌+◌, ◌≡◌, ◌⊎◌, inl, inr, refl, ◌∙◌, sym, arith, Bool, true, false, Option, none,
  some, List, [], ◌∷◌, Bytes, bytes_eq, bytes_eq_iff, if◌then◌else◌, ltb, ◌==◌, ◌*◌, ◌/◌, ◌^◌,
  get_elem?, Bool-cases, min, not, subst, either,
}
use rdss.HashTable.{Entry}
use rdss.KeyTable.{KeyTable}
use rdss.Resp.Result.{MtsPtr}
use rdss.Service.{Service}
use rdss.Service.View.{stored, deadline, past, IsValid}
use rdss.Service.Expiry.{
  Expirer, Round, Sampling, Cycle, expire_key, expire_entries, sample_buckets, end_round,
  expire_loop, active_expire,
}

module _ {d : KeyTable MtsPtr none} {x : KeyTable ℕ 0} where
  -- the value that the key has for a client at a time
  abbrev pub live_at : ℕ → Service d x → Bytes → Option MtsPtr
  live_at now s k = if past (deadline s k) now then none else stored s k

  -- Every key is as it was, or its deadline has come and both tables have dropped it.
  pub record Expires (now : ℕ) (s s' : Service d x) : Type 0 where
    pub clock : s'.now ≡ s.now
    pub kept_or_gone :
        (q : Bytes)
        → ((stored s' q ≡ stored s q) × (deadline s' q ≡ deadline s q))
          ⊎ ((past (deadline s q) now ≡ true) × (stored s' q ≡ none) × (deadline s' q ≡ none))

  Expires-refl : (now : ℕ) (s : Service d x) → Expires now s s
  Expires-refl now s = record { clock = refl; kept_or_gone = λ q. inl (refl, refl) }

  Expires-trans :
      {now : ℕ} {s t u : Service d x} → Expires now s t → Expires now t u → Expires now s u
  Expires-trans a b = record {
    clock = b.clock ∙ a.clock;
    kept_or_gone = λ q. elim (a.kept_or_gone q) [
      | inl (v, t) ↦ elim (b.kept_or_gone q) [
        | inl (v', t') ↦ inl (v' ∙ v, t' ∙ t)
        | inr (late, gone, dropped) ↦ inr (ground (arith, late, t), gone, dropped)
      ]
      | inr (late, gone, dropped) ↦ elim (b.kept_or_gone q) [
        | inl (v', t') ↦ inr (late, v' ∙ gone, t' ∙ dropped)
        | inr (_, v', t') ↦ inr (late, v', t')
      ]
    ];
  }

  -- the entries that are still to be looked at: stored as they were sampled, or dropped from both tables
  abbrev Current : Service d x → List (Entry ℕ) → Type 0
  Current s es =
      (j : ℕ) (e : Entry ℕ)
      → get_elem? es j ≡ some e
      → (x.entry_at s.expire_ht e.key.data_ ≡ some e)
        ⊎ ((deadline s e.key.data_ ≡ none) × (stored s e.key.data_ ≡ none))

  expire_key-Expires :
      (now : ℕ) (e : Entry ℕ) (s : Service d x)
      → (x.entry_at s.expire_ht e.key.data_ ≡ some e)
        ⊎ ((deadline s e.key.data_ ≡ none) × (stored s e.key.data_ ≡ none))
      → ltb now e.value ≡ false
      → Expires now s (expire_key d x e.key.data_ s)
  unfolding expire_key
  expire_key-Expires now e s here late =
      let k = e.key.data_ in
      record {
        clock = refl;
        kept_or_gone = λ q.
            let values = d.erase_reads k q s.data_ht in
            let times = x.erase_reads k q s.expire_ht in
            elim here [
              | inr (no_time, no_value) ↦ inl (
                ground (arith, values, no_value, bytes_eq_iff k q),
                ground (arith, times, no_time, bytes_eq_iff k q),
              )
              | inl there ↦ elim (Bool-cases (bytes_eq k q)) [
                | inl same ↦ inr (
                  ground (arith, there, late, bytes_eq_iff k q),
                  ground (arith, values),
                  ground (arith, times),
                )
                | inr other ↦ inl (ground (arith, values), ground (arith, times))
              ]
            ];
      }

  -- an entry stays current when a key is expired
  Current-expire_key :
      (k : Bytes) (s : Service d x) (e : Entry ℕ)
      → (x.entry_at s.expire_ht e.key.data_ ≡ some e)
        ⊎ ((deadline s e.key.data_ ≡ none) × (stored s e.key.data_ ≡ none))
      → (x.entry_at (expire_key d x k s).expire_ht e.key.data_ ≡ some e)
        ⊎ ((deadline (expire_key d x k s) e.key.data_ ≡ none)
            × (stored (expire_key d x k s) e.key.data_ ≡ none))
  unfolding expire_key
  Current-expire_key k s e here =
      let q = e.key.data_ in
      let values = d.erase_reads k q s.data_ht in
      let times = x.erase_reads k q s.expire_ht in
      elim (Bool-cases (bytes_eq k q)) [
        | inl same ↦ inr (ground (arith, times), ground (arith, values))
        | inr other ↦ elim here [
          | inl there ↦ inl (ground (arith, times))
          | inr (no_time, no_value) ↦ inr (ground (arith, times), ground (arith, values))
        ]
      ]

  expire_entries-Expires :
      (now : ℕ) (es : List (Entry ℕ)) (n : Round) (s : Service d x)
      → Current s es
      → Expires now s (expire_entries d x now es n s).1
  unfolding expire_entries
  expire_entries-Expires now [] n s here = Expires-refl now s
  expire_entries-Expires now (e ∷ es) n s here = elim (Bool-cases (ltb now e.value)) [
    | inl early ↦
        rw (expire_entries, early) (expire_entries-Expires now es _ s (λ j f h. here (suc j) f h))
    | inr late ↦
        rw (expire_entries, late)
          (Expires-trans (expire_key-Expires now e s (here 0 e refl) late) (
            expire_entries-Expires now es _ (expire_key d x e.key.data_ s)
              (λ j f h. Current-expire_key e.key.data_ s f (here (suc j) f h))))
  ]

  sample_buckets-Expires :
      (buckets now keys_to_sample : ℕ) (w : Sampling d x)
      → Expires now w.service (sample_buckets d x buckets now keys_to_sample w).0.service
  unfolding sample_buckets
  sample_buckets-Expires zero now keys_to_sample w = Expires-refl now w.service
  sample_buckets-Expires (suc buckets) now keys_to_sample w =
      let t = x.traverse_bucket w.bucket_index w.service.expire_ht in
      let a =
        expire_entries-Expires now t.1 w.round w.service
          (λ j e h. inl (x.traverse_stored w.bucket_index j w.service.expire_ht e h)) in
      elim (Bool-cases (ltb w.round.sampled keys_to_sample)) [
        | inr enough ↦ rw (sample_buckets, enough) (Expires-refl now w.service)
        | inl more ↦ elim (Bool-cases (t.0 == 0)) [
          | inl last ↦ rw (sample_buckets, more, last) a
          | inr other ↦
              rw (sample_buckets, more, other)
                (Expires-trans a (sample_buckets-Expires buckets now keys_to_sample _))
        ]
      ]

  end_round_service :
      (time_limit elapsed max_samples : ℕ) (w : Sampling d x) (c : Cycle d x)
      → (end_round d x time_limit elapsed max_samples w c).0.service ≡ w.service
  unfolding end_round
  end_round_service time_limit elapsed max_samples w c = ground arith

  -- one round's buckets, from where the cycle stands
  abbrev sampled : ℕ → ℕ → ℕ → Cycle d x → Sampling d x × Bool
  sampled buckets now keys_to_sample c = sample_buckets d x buckets now keys_to_sample (record {
    round = record { sampled = 0; expired = 0 };
    bucket_index = c.expirer.bucket_index;
    service = c.service;
  })

  expire_loop-Expires :
      (rounds buckets now time_limit : ℕ) (elapsed : ℕ → ℕ) (max_samples : ℕ) (c : Cycle d x)
      → Expires now c.service
          (expire_loop d x rounds buckets now time_limit elapsed max_samples c).0.service
  unfolding expire_loop
  expire_loop-Expires zero buckets now time_limit elapsed max_samples c = Expires-refl now c.service
  expire_loop-Expires (suc rounds) buckets now time_limit elapsed max_samples c =
      let keys_to_sample = min c.expirer.keys_per_loop (x.count c.service.expire_ht) in
      let w = sampled buckets now keys_to_sample c in
      let a = sample_buckets-Expires buckets now keys_to_sample (record {
        round = record { sampled = 0; expired = 0 };
        bucket_index = c.expirer.bucket_index;
        service = c.service;
      }) in
      let out = end_round d x time_limit (elapsed 0) max_samples w.0 c in
      let b =
        subst (λ (t : Service d x). Expires now c.service t)
          (sym (end_round_service time_limit (elapsed 0) max_samples w.0 c)) a in
      let rest =
        expire_loop-Expires rounds buckets now time_limit (λ n. elapsed (n + 1)) max_samples
          out.0 in
      let P = λ (p : Cycle d x × Bool). Expires now c.service p.0.service in
      either P (keys_to_sample == 0) (Expires-refl now c.service)
        (either P (not w.1) a (either P out.1 b (Expires-trans b rest)))

  Expires-IsValid : {now : ℕ} {s s' : Service d x} → Expires now s s' → IsValid s → IsValid s'
  Expires-IsValid a v = record {
    bounded = λ q h. elim (a.kept_or_gone q) [
      | inl (value, time) ↦ ground (arith, value, time, v.bounded q, h)
      | inr (late, value, time) ↦ ground (arith, time, h)
    ];
    non_null = λ q h. elim (a.kept_or_gone q) [
      | inl (value, time) ↦ v.non_null q (sym value ∙ h)
      | inr (late, value, time) ↦ ground (arith, value, h)
    ];
  }

  Expires-live_at :
      {now : ℕ} {s s' : Service d x}
      → Expires now s s'
      → (q : Bytes) → live_at now s' q ≡ live_at now s q
  Expires-live_at a q = elim (a.kept_or_gone q) [
    | inl (value, time) ↦ ground (arith, value, time)
    | inr (late, value, time) ↦ ground (arith, late, value, time)
  ]

  -- `ActiveExpire` removes a key only once its deadline has come, and then from both tables; so at the time that
  -- it read from the clock every key has the value that it had, and a well-formed service stays so. This holds wherever
  -- its loops stand, after any number of rounds and of buckets.
  pub active_expire-Expires :
      (rounds buckets now : ℕ) (elapsed : ℕ → ℕ) (percent hz : ℕ) (e : Expirer) (s : Service d x)
      → IsValid s
      → let s' = (active_expire d x rounds buckets now elapsed percent hz e s).1 in
        IsValid s' × Expires now s s' × ((q : Bytes) → live_at now s' q ≡ live_at now s q)
  unfolding active_expire
  active_expire-Expires rounds buckets now elapsed percent hz e s v =
      let a =
        expire_loop-Expires rounds buckets now (10 ^ 9 * percent / 100 / hz) elapsed
          (x.count s.expire_ht)
          (record { expirer = e; service = s; sampled_keys = 0; expired_keys = 0 }) in
      (Expires-IsValid a v, a, Expires-live_at a)
