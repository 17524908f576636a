-- ===== src/HashTable/Rehash.antt =====
-- `RehashSome` ends, keeps the table well formed, and changes no lookup.
use rdss.Base.{
  ℕ, zero, suc, ◌+◌, ◌-◌, ◌*◌, ◌%◌, ◌≤◌, ◌<◌, ◌≡◌, refl, sym, ap, ◌∙◌, Bool, true, false, Option,
  none, some, List, [], arith, Bytes, if◌then◌else◌, length, get_or, set, ltb, ◌==◌, length-set,
  inl, inr, Bool-cases, lt→ltb, not, ==_iff,
}
use rdss.HashTable.Buckets.{Chain, find_entry_in_bucket}
use rdss.HashTable.Placement.{total, total-set, total-cleared, home, total-rehash_entries}
use rdss.HashTable.Valid.{IsSplit, IsValid, split_entry, move-IsSplit, move_reads}
use rdss.HashTable.{
  Table, rehash_entries, rehash_bucket, finish_rehashing, rehash_loop, rehash_some, advance,
  entry_at, bucket_of, in_second, index_of, is_rehashing,
}

abbrev pub table : {V : Type 0} → List (Chain V) → List (Chain V) → ℕ → Option ℕ → Table V
table b0 b1 n idx = record { buckets0 = b0; buckets1 = b1; entries = n; rehash_index = idx }

module _ {V : Type 0} (hash : Bytes → ℕ) where
  -- `t'` is well formed, and reads and counts as `t` does.
  pub record Keeps (t t' : Table V) : Type 0 where
    pub valid : IsValid hash t'
    pub reads : (q : Bytes) → entry_at hash t' q ≡ entry_at hash t q
    pub entries : t'.entries ≡ t.entries
    pub stays : 0 < length t.buckets0 → 0 < length t'.buckets0

  pub Keeps-refl : (t : Table V) → IsValid hash t → Keeps t t
  Keeps-refl t v = record { valid = v; reads = λ q. refl; entries = refl; stays = λ h. h }

  pub Keeps-trans : {t u w : Table V} → Keeps t u → Keeps u w → Keeps t w
  Keeps-trans k l = record {
    valid = l.valid;
    reads = λ q. l.reads q ∙ k.reads q;
    entries = l.entries ∙ k.entries;
    stays = λ h. l.stays (k.stays h);
  }

  -- what one call of `RehashSome` returned
  pub record Rehashed (t : Table V) (r : Table V × Bool) : Type 0 where
    pub kept : Keeps t r.0
    pub finished : r.1 ≡ not (is_rehashing r.0)
    pub progress : r.1 ≡ false → index_of t.rehash_index < index_of r.0.rehash_index

  pub entry_at_split :
      (b0 b1 : List (Chain V)) (n i : ℕ) (q : Bytes)
      → entry_at hash (table b0 b1 n (some i)) q ≡ split_entry hash b0 b1 i q
  unfolding entry_at bucket_of in_second
  entry_at_split b0 b1 n i q = refl

  pub entry_at_idle :
      (b0 b1 : List (Chain V)) (n : ℕ) (q : Bytes)
      → entry_at hash (table b0 b1 n none) q ≡ find_entry_in_bucket q (home hash b0 q)
  unfolding entry_at bucket_of in_second
  entry_at_idle b0 b1 n q = refl

  module _ (b0 b1 : List (Chain V)) (n i : ℕ) (s : IsSplit hash b0 b1 i) (lt : i < length b0)
      (counted : n ≡ total b0 + total b1) where
    abbrev t : Table V
    t = table b0 b1 n (some i)

    abbrev c : Chain V
    c = get_or b0 i []

    abbrev moved : Table V
    moved = table (set b0 i []) (rehash_entries hash c b1) n (some (i + 1))

    moved-counted : n ≡ total (set b0 i []) + total (rehash_entries hash c b1)
    moved-counted = omega (arith, total-set b0 i [] lt, total-rehash_entries hash c b1 s.room)

    pub moved-Keeps : i + 1 < length b0 → Keeps t moved
    moved-Keeps h = record {
      valid = record {
        counted = moved-counted;
        shape = (move-IsSplit hash b0 b1 i s lt, omega (arith, length-set b0 i []));
      };
      reads = λ q.
          entry_at_split _ _ n (i + 1) q
          ∙ move_reads hash b0 b1 i s lt q
          ∙ sym (entry_at_split b0 b1 n i q);
      entries = refl;
      stays = λ _. omega (arith, length-set b0 i []);
    }

    pub finished-Keeps : i + 1 ≡ length b0 → Keeps t (finish_rehashing moved)
    unfolding finish_rehashing total
    finished-Keeps h =
        let u = move-IsSplit hash b0 b1 i s lt in
        record {
          valid = record {
            counted = omega (
              arith,
              moved-counted,
              total-cleared (set b0 i [])
                  (λ j lt'. u.cleared j (omega (arith, length-set b0 i []))),
            );
            shape = (refl, u.placed1);
          };
          reads = λ q.
              entry_at_idle _ [] n q
              ∙ sym (ap (find_entry_in_bucket q) (later q))
              ∙ move_reads hash b0 b1 i s lt q
              ∙ sym (entry_at_split b0 b1 n i q);
          entries = refl;
          stays = λ _. u.room;
        }
      where
        later :
            (q : Bytes)
            → (if ltb (hash q % length (set b0 i [])) (i + 1)
                then home hash (rehash_entries hash c b1) q
                else home hash (set b0 i []) q)
              ≡ home hash (rehash_entries hash c b1) q
        later q =
            rw (lt→ltb (hash q % length (set b0 i [])) (i + 1) (omega (arith, length-set b0 i [])))

  -- The buckets left are fuel enough for the loop.
  pub rehash_loop_done :
      (fuel : ℕ) (b0 b1 : List (Chain V)) (n i a m : ℕ)
      → IsSplit hash b0 b1 i
      → i < length b0
      → n ≡ total b0 + total b1
      → length b0 - i ≤ fuel
      → (r : Table V × Bool) × (rehash_loop hash fuel (table b0 b1 n (some i)) a m ≡ some r)
        × Rehashed (table b0 b1 n (some i)) r
  unfolding rehash_loop rehash_bucket
  rehash_loop_done zero b0 b1 n i a m s lt counted enough = absurd (omega arith)
  rehash_loop_done (suc fuel) b0 b1 n i a m s lt counted enough =
      let c = get_or b0 i [] in
      let b0' = set b0 i [] in
      let b1' = rehash_entries hash c b1 in
      let a' = if length c == 0 then a - 1 else a in
      let m' = if length c == 0 then m else m - 1 in
      elim (Bool-cases (i + 1 == length b0)) [
        | inl end ↦ (
          (finish_rehashing (table b0' b1' n (some (i + 1))), true),
          rw end,
          record {
            kept = finished-Keeps b0 b1 n i s lt counted ((==_iff (i + 1) (length b0)).0 end);
            finished = unfold finish_rehashing in refl;
            progress = λ e. cc;
          },
        )
        | inr more ↦
            let next = moved-Keeps b0 b1 n i s lt counted (ground (arith)) in
            elim (Bool-cases (if length c == 0 then a' == 0 else m' == 0)) [
              | inl stop ↦ (
                (table b0' b1' n (some (i + 1)), false),
                rw (more, stop),
                record { kept = next; finished = refl; progress = λ _. omega arith },
              )
              | inr go ↦
                  let (r, run, rest) =
                    rehash_loop_done fuel b0' b1' n (i + 1) a' m' next.valid.shape.0
                      next.valid.shape.1 next.valid.counted (omega (arith, length-set b0 i [])) in
                  (
                    r,
                    rw (more, go) run,
                    record {
                      kept = Keeps-trans next rest.kept;
                      finished = rest.finished;
                      progress = λ e. omega (arith, rest.progress e);
                    },
                  )
            ]
      ]

  rehash_some_at :
      (b0 b1 : List (Chain V)) (n m : ℕ) (idx : Option ℕ)
      → IsValid hash (table b0 b1 n idx)
      → is_rehashing (table b0 b1 n idx) ≡ true
      → Rehashed (table b0 b1 n idx) (rehash_some hash m (table b0 b1 n idx))
  unfolding rehash_some
  rehash_some_at b0 b1 n m none v h = cc
  rehash_some_at b0 b1 n m (some i) v h =
      let (r, run, done) =
        rehash_loop_done (length b0 - i) b0 b1 n i (m * 10) m v.shape.0 v.shape.1 v.counted
          (omega arith) in
      rw (run, rehash_some) done

  -- `RehashSome` of a well-formed table that is being rehashed returns: its loop ends by one of its own exits.
  pub rehash_some_done :
      (t : Table V) (m : ℕ)
      → IsValid hash t
      → is_rehashing t ≡ true
      → Rehashed t (rehash_some hash m t)
  rehash_some_done t m v h = rehash_some_at t.buckets0 t.buckets1 t.entries m t.rehash_index v h

  pub advance-Keeps : (t : Table V) → IsValid hash t → Keeps t (advance hash t)
  unfolding advance
  advance-Keeps t v = elim (Bool-cases (is_rehashing t)) [
    | inl on ↦ rw on (rehash_some_done t 1 v on).kept
    | inr off ↦ rw off (Keeps-refl t v)
  ]
