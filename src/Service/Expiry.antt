-- ===== src/Service/Expiry.antt =====
-- service/expire_strategy.h, service/expire_strategy.cc: the periodic removal of expired keys.
pub mod View
use rdss.Base.{
  ℕ, zero, suc, ◌+◌, ◌*◌, ◌/◌, ◌%◌, ◌^◌, ◌<◌, Bool, true, false, not, Option, none, some, List, [],
  ◌∷◌, Bytes, if◌then◌else◌, ltb, leb, ◌==◌, min,
}
use rdss.HashTable.{Entry}
use rdss.KeyTable.{KeyTable}
use rdss.Resp.Result.{MtsPtr}
use rdss.Service.{Service}

pub record ExpireStats : Type 0 where
  pub active_expired_keys : ℕ
  pub expired_stale_perc : ℕ
  pub expired_time_cap_reached_count : ℕ
  pub elapsed_time : ℕ

-- `ExpireStrategy`
pub record Expirer : Type 0 where
  pub bucket_index : ℕ
  pub threshold_percentage : ℕ
  pub keys_per_loop : ℕ
  pub stats : ExpireStats

-- the counts of a round: `sampled_this_iter` and `expired_this_iter`
pub record Round : Type 0 where
  pub sampled : ℕ
  pub expired : ℕ

module _ (d : KeyTable MtsPtr none) (x : KeyTable ℕ 0) where
  -- the two `Erase`s of the callback of `ActiveExpire`
  unfoldable pub expire_key : Bytes → Service d x → Service d x
  expire_key k s = record s {
    data_ht = (d.erase k s.data_ht).0;
    expire_ht = (x.erase k s.expire_ht).0;
  }

  -- The callback on the entries of a bucket, at the time `now`. `TraverseBucket` reads the next entry
  -- through the one before, after the callback has freed it; here the entries are as they were.
  unfoldable pub expire_entries : ℕ → List (Entry ℕ) → Round → Service d x → Round × Service d x
  expire_entries now [] n s = (n, s)
  expire_entries now (e ∷ es) n s = elim (ltb now e.value) [
    | true ↦ expire_entries now es (record n { sampled = (n.sampled + 1) % 2 ^ 32 }) s
    | false ↦
        expire_entries now es
          (record n { sampled = (n.sampled + 1) % 2 ^ 32; expired = (n.expired + 1) % 2 ^ 32 })
          (expire_key e.key.data_ s)
  ]

  -- what the sampling loop leaves, and the next bucket
  pub record Sampling : Type 0 where
    pub round : Round
    pub bucket_index : ℕ
    pub service : Service d x

  -- The loop over the buckets, of which it visits `buckets` at most; the Boolean is whether it ended.
  unfoldable pub sample_buckets : ℕ → ℕ → ℕ → Sampling → Sampling × Bool
  sample_buckets zero now keys_to_sample w = (w, false)
  sample_buckets (suc buckets) now keys_to_sample w = elim (ltb w.round.sampled keys_to_sample) [
    | false ↦ (w, true)
    | true ↦
        let (next, entries) = x.traverse_bucket w.bucket_index w.service.expire_ht in
        let (round, service) = expire_entries now entries w.round w.service in
        let w' : Sampling = record { round = round; bucket_index = next; service = service } in
        elim (next == 0) [
          | true ↦ (w', true)
          | false ↦ sample_buckets buckets now keys_to_sample w'
        ]
  ]

  -- the counters that a round leaves, with the time it took so far; `expired_rate` is cut to an integer
  unfoldable pub count_round : Round → ℕ → ExpireStats → ExpireStats
  count_round n elapsed stats = record stats {
    expired_stale_perc = n.expired * 100 % 2 ^ 32 / n.sampled;
    elapsed_time = (stats.elapsed_time + elapsed) % 2 ^ 64;
  }

  -- whether `expired_rate` is at most the threshold: the quotient of two numbers below 2 ^ 32 is
  -- rounded to a double, which does not change how it compares with an integer
  abbrev pub rate_below : Round → ℕ → Bool
  rate_below n threshold = leb (n.expired * 100 % 2 ^ 32) (threshold * n.sampled)

  -- what `ActiveExpire` keeps between its rounds: `sampled_keys` and `expired_keys`
  pub record Cycle : Type 0 where
    pub expirer : Expirer
    pub service : Service d x
    pub sampled_keys : ℕ
    pub expired_keys : ℕ

  abbrev pub with_stats : Cycle → (ExpireStats → ExpireStats) → Cycle
  with_stats c f = record c { expirer = record c.expirer { stats = f c.expirer.stats } }

  -- a round of the loop once its buckets are sampled, and whether the loop ends with it
  unfoldable pub end_round : ℕ → ℕ → ℕ → Sampling → Cycle → Cycle × Bool
  end_round time_limit elapsed max_samples w c =
      let sampled : Cycle = record c {
        service = w.service;
        expirer = record c.expirer { bucket_index = w.bucket_index };
      } in
      let counted : Cycle =
        with_stats
          (record sampled {
            sampled_keys = c.sampled_keys + w.round.sampled;
            expired_keys = c.expired_keys + w.round.expired;
          })
          (count_round w.round elapsed) in
      if w.round.sampled == 0
      then (sampled, true)
      else if rate_below w.round c.expirer.threshold_percentage
      then (counted, true)
      else if leb time_limit elapsed
      then (
        with_stats counted (λ s. record s {
          expired_time_cap_reached_count = s.expired_time_cap_reached_count + 1;
        }),
        true,
      )
      else (counted, counted.sampled_keys == max_samples)

  -- The loop of `ActiveExpire`, of which it takes `rounds` rounds at most, each over `buckets` buckets
  -- at most; the Boolean is whether it ended. `elapsed` has the readings of the clock, the next first.
  unfoldable pub expire_loop : ℕ → ℕ → ℕ → ℕ → (ℕ → ℕ) → ℕ → Cycle → Cycle × Bool
  expire_loop zero buckets now time_limit elapsed max_samples c = (c, false)
  expire_loop (suc rounds) buckets now time_limit elapsed max_samples c =
      let keys_to_sample = min c.expirer.keys_per_loop (x.count c.service.expire_ht) in
      let w = sample_buckets buckets now keys_to_sample (record {
        round = record { sampled = 0; expired = 0 };
        bucket_index = c.expirer.bucket_index;
        service = c.service;
      }) in
      let out = end_round time_limit (elapsed 0) max_samples w.0 c in
      let rest =
        expire_loop rounds buckets now time_limit (λ n. elapsed (n + 1)) max_samples out.0 in
      if keys_to_sample == 0
      then (with_stats c (λ s. record s { expired_stale_perc = 0 }), true)
      else if not w.1
      then (record c { service = w.0.service }, false)
      else if out.1
      then (out.0, true)
      else rest

  -- `ActiveExpire`, with the cycle time in percent and `hz` of the configuration; a second is 10 ^ 9
  -- ticks of the clock.
  unfoldable pub active_expire :
      ℕ → ℕ → ℕ → (ℕ → ℕ) → ℕ → ℕ → Expirer → Service d x → Expirer × Service d x × Bool
  active_expire rounds buckets now elapsed percent hz e s =
      let out =
        expire_loop rounds buckets now (10 ^ 9 * percent / 100 / hz) elapsed (x.count s.expire_ht)
          (record { expirer = e; service = s; sampled_keys = 0; expired_keys = 0 }) in
      let c =
        with_stats out.0
          (λ t. record t { active_expired_keys = t.active_expired_keys + out.0.expired_keys }) in
      (c.expirer, c.service, out.1)
