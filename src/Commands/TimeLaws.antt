-- ===== src/Commands/TimeLaws.antt =====
-- TTL, the commands that set a value with a deadline, and the bounds of the deadlines.
use rdss.Base.{
  ℕ, ◌+◌, ◌-◌, ◌*◌, ◌/◌, ◌≤◌, ◌<◌, ◌≡◌, refl, arith, ◌&&◌, Option, none, some, [], ◌∷◌, Bytes,
  bytes_eq, bytes_eq_iff, if◌then◌else◌, ap, ◌∙◌, ℤ, pos, negsuc,
}
use rdss.KeyTable.{KeyTable}
use rdss.Resp.Result.{MtsPtr, Result, set_int}
use rdss.Service.{Service, touch}
use rdss.Service.View.{stored, deadline, live, put}
use rdss.Service.Effects.{Becomes, dead}
use rdss.Service.Invariant.{touch-Becomes}
use rdss.Commands.Times.{
  time_max, parse_int, int_to_time_point, ExpireKind, px, ex, pxat, exat, rep_to_tp,
}
use rdss.Commands.SetLaws.{set_expire-Becomes}
use rdss.Commands.Writes.{set_expire, set_ex_function_base, set_ex_function, ttl_of, ttl_function}

-- the answer of TTL: -2 without a value, -1 without a deadline, and else the seconds left
abbrev pub ttl_reply : Option MtsPtr → Option ℕ → ℕ → ℤ
ttl_reply none t now = negsuc 1
ttl_reply (some v) none now = negsuc 0
ttl_reply (some v) (some t) now = pos ((t - now) / 1000)

in_range :
    (now n : ℕ)
    → 0 < n
    → now + n * 1000 ≤ time_max
    → int_to_time_point 1000 now (pos n) ≡ some (now + n * 1000)
unfolding int_to_time_point
in_range now n positive fits = ground arith

-- A deadline that the options of SET name is after 1970 and one that the clock can represent.
pub rep_to_tp_bounds :
    (kind : ExpireKind) (now n : ℕ) {t : ℕ}
    → 0 < n
    → n ≤ time_max
    → now ≤ time_max
    → rep_to_tp kind now n ≡ some t
    → (0 < t) × (t ≤ time_max)
unfolding rep_to_tp
rep_to_tp_bounds px now n positive small clock h = ground arith
rep_to_tp_bounds ex now n positive small clock h = ground arith
rep_to_tp_bounds pxat now n positive small clock h = ground arith
rep_to_tp_bounds exat now n positive small clock h = ground arith

module _ {d : KeyTable MtsPtr none} {x : KeyTable ℕ 0} where
  pub ttl_of-Becomes :
      (k : Bytes) (s : Service d x) (r : Result)
      → Becomes s
          (ttl_of d x k s r).0
          (λ q. if bytes_eq k q && dead s k then none else stored s q)
          (λ q. if bytes_eq k q && dead s k then none else deadline s q)
  unfolding ttl_of
  ttl_of-Becomes k s r =
      let dt = (d.find k s.data_ht).0 in
      let xt = (x.find k s.expire_ht).0 in
      record {
        values = λ q. ground (
          arith,
          d.find_found k s.data_ht,
          x.find_found k s.expire_ht,
          d.find_reads k q s.data_ht,
          d.erase_reads k q dt,
        );
        deadlines = λ q. ground (
          arith,
          d.find_found k s.data_ht,
          x.find_found k s.expire_ht,
          x.find_reads k q s.expire_ht,
          x.erase_reads k q xt,
        );
        clock = ground arith;
      }

  -- TTL answers -2 for a key that no client sees, -1 for one without a deadline, and else the whole
  -- seconds up to its deadline; no value that a client sees changes.
  pub ttl_function_lem :
      (s : Service d x) (name k : Bytes) (r : Result)
      → (s' : Service d x) × (ttl_function d x s (name ∷ k ∷ []) r
          ≡ some (s', set_int r (ttl_reply (live s k) (deadline s k) s.now)))
        × ((q : Bytes) → live s' q ≡ live s q)
  unfolding ttl_function
  ttl_function_lem s name k r =
      let b = ttl_of-Becomes k s r in
      (
        (ttl_of d x k s r).0,
        ap some (λ i. ((ttl_of d x k s r).0, answer i)),
        λ q. ground (arith, b.values q, b.deadlines q, b.clock, bytes_eq_iff k q),
      )
    where
      answer : (ttl_of d x k s r).1 ≡ set_int r (ttl_reply (live s k) (deadline s k) s.now)
      answer = unfold ttl_of in ground (arith, d.find_found k s.data_ht, x.find_found k s.expire_ht)

  -- TTL with its name alone reads past the end of its arguments.
  pub ttl_function_out_of_range :
      (s : Service d x) (name : Bytes) (r : Result) → ttl_function d x s (name ∷ []) r ≡ none
  unfolding ttl_function
  ttl_function_out_of_range s name r = refl

  pub set_ex_value-Becomes :
      (k v : Bytes) (t : ℕ) (s : Service d x)
      → Becomes s
          (touch d x k
            (set_expire d x k t (record s { data_ht = (d.upsert k (some v) s.data_ht).0 })))
          (put k (some (some v)) (stored s))
          (put k (some t) (deadline s))
  set_ex_value-Becomes k v t s =
      let u : Service d x = record s { data_ht = (d.upsert k (some v) s.data_ht).0 } in
      let b = set_expire-Becomes k t u in
      let c = touch-Becomes k (set_expire d x k t u) in
      record {
        values = λ q. ground (arith, c.values q, b.values q, d.upsert_reads k q (some v) s.data_ht);
        deadlines = λ q. c.deadlines q ∙ b.deadlines q;
        clock = c.clock ∙ b.clock;
      }

  -- SETEX of a positive number of seconds whose deadline the clock can represent stores the value and
  -- that deadline; the result is left as it was, and other keys are kept.
  pub set_ex_function_lem :
      (s : Service d x) (name k secs v : Bytes) (n : ℕ) (r : Result)
      → parse_int time_max secs ≡ some (pos n)
      → 0 < n
      → s.now + n * 1000 ≤ time_max
      → ((set_ex_function d x s (name ∷ k ∷ secs ∷ v ∷ []) r).1 ≡ r)
        × Becomes s
            (set_ex_function d x s (name ∷ k ∷ secs ∷ v ∷ []) r).0
            (put k (some (some v)) (stored s))
            (put k (some (s.now + n * 1000)) (deadline s))
  unfolding set_ex_function set_ex_function_base
  set_ex_function_lem s name k secs v n r parsed positive fits =
      rw (parsed, in_range s.now n positive fits)
        (refl, set_ex_value-Becomes k v (s.now + n * 1000) s)
