-- ===== src/Commands/SetLaws.antt =====
-- SET against its documented meaning, and the states in which it departs from it.
use rdss.Base.{
  ℕ, ◌≡◌, refl, arith, Bool, true, false, ◌&&◌, not, Option, none, some, Bytes, bytes_eq,
  bytes_eq_iff, bytes_eq_refl, if◌then◌else◌, is_some, ◌∙◌, subst,
}
use rdss.HashTable.{Entry}
use rdss.KeyTable.{KeyTable}
use rdss.Resp.Result.{MtsPtr, Result, set_nil, set_string, set_ok}
use rdss.Service.{
  Service, SetMode, regular, nx, xx, SetStatus, set_data, set_regular, set_regular_get, set_nx,
  set_xx, SetOutcome,
}
use rdss.Service.View.{stored, deadline, stale, live, put, join, IsValid}
use rdss.Service.Effects.{
  Becomes, set_regular-Becomes, set_regular_get-Becomes, set_nx-Becomes, set_xx-Becomes,
}
use rdss.Commands.Options.{SetOptions}
use rdss.Commands.Writes.{
  set_expire, clear_expire, set_with, key_or, settle_deadline, set_reply, is_updated, is_no_op,
}

-- whether the mode lets a key with (`true`) or without a visible value be set
abbrev pub admits : SetMode → Bool → Bool
admits regular there = true
admits nx there = not there
admits xx there = there

-- the deadline that the options leave, where the old one is `old`
abbrev pub new_deadline : SetOptions → Option ℕ → Option ℕ
new_deadline o old = elim o.expire_time [
  | some t ↦ some t
  | none ↦ if o.keep_ttl then (elim o.set_mode [ nx ↦ none | _ ↦ old ]) else none
]

-- what `settle_deadline` leaves, where it finds `old`
abbrev pub settled : SetOptions → SetStatus → Option ℕ → Option ℕ
settled o status old = elim o.expire_time [
  | some t ↦ some t
  | none ↦ if is_updated status && not o.keep_ttl then none else old
]

abbrev plain : SetMode → Option ℕ → Bool → SetOptions
plain m e keep = record { set_mode = m; expire_time = e; keep_ttl = keep; get = false }

without_get : (o : SetOptions) → o.get ≡ false → plain o.set_mode o.expire_time o.keep_ttl ≡ o
without_get o h = ground arith

module _ {d : KeyTable MtsPtr none} {x : KeyTable ℕ 0} where
  pub set_expire-Becomes :
      (k : Bytes) (t : ℕ) (s : Service d x)
      → Becomes s (set_expire d x k t s) (stored s) (put k (some t) (deadline s))
  unfolding set_expire
  set_expire-Becomes k t s =
      let key = key_or k (d.entry_at s.data_ht k) in
      record {
        values = λ q. refl;
        deadlines = λ q.
            ground (arith, x.shared_reads key q t s.expire_ht, named (d.entry_at s.data_ht k) refl);
        clock = refl;
      }
    where
      named : (o : Option (Entry MtsPtr)) → d.entry_at s.data_ht k ≡ o → (key_or k o).data_ ≡ k
      named none h = refl
      named (some e) h = d.entry_at-key s.data_ht k e h

  pub clear_expire-Becomes :
      (k : Bytes) (s : Service d x)
      → Becomes s (clear_expire d x k s) (stored s) (put k none (deadline s))
  unfolding clear_expire
  clear_expire-Becomes k s = record {
    values = λ q. refl;
    deadlines = λ q. ground (arith, x.erase_reads k q s.expire_ht);
    clock = refl;
  }

  pub settle_deadline-Becomes :
      (k : Bytes) (o : SetOptions) (status : SetStatus) (s : Service d x)
      → Becomes s
          (settle_deadline d x k o status s)
          (stored s)
          (put k (settled o status (deadline s k)) (deadline s))
  unfolding settle_deadline
  settle_deadline-Becomes k o status s =
      let a = clear_expire-Becomes k s in
      record {
        values = λ q. ground (arith, a.values q, e.values q);
        deadlines = λ q. ground (arith, a.deadlines q, bytes_eq_iff k q, e.deadlines q);
        clock = ground (arith, a.clock, e.clock);
      }
    where
      t : ℕ
      t = elim o.expire_time [ none ↦ 0 | some t' ↦ t' ]

      e : Becomes s (set_expire d x k t s) (stored s) (put k (some t) (deadline s))
      e = set_expire-Becomes k t s

  abbrev finished :
      Service d x → Bytes → SetOptions → SetOutcome d x → Result → Service d x × Result
  finished s k o out r =
      if is_no_op out.status
      then (out.service, set_nil r)
      else (settle_deadline d x k o out.status out.service, set_reply o out.old_value r)

  module _ (s : Service d x) (k v : Bytes) (o : SetOptions) (r : Result) where
    -- the end of SET, after a `SetData` that stored the value
    finish :
        (out : SetOutcome d x) {f : Bytes → Option MtsPtr} {g : Bytes → Option ℕ}
        → Becomes s out.service f g
        → is_no_op out.status ≡ false
        → ((q : Bytes) → f q ≡ put k (some (some v)) (stored s) q)
        → settled o out.status (g k) ≡ new_deadline o (deadline s k)
        → ((q : Bytes) → bytes_eq k q ≡ false → g q ≡ deadline s q)
        → ((finished s k o out r).1 ≡ set_reply o out.old_value r)
          × Becomes s
              (finished s k o out r).0
              (put k (some (some v)) (stored s))
              (put k (new_deadline o (deadline s k)) (deadline s))
    finish out b stored_it fs settles gs =
        let c = settle_deadline-Becomes k o out.status out.service in
        rw stored_it (
          refl,
          record {
            values = λ q. c.values q ∙ b.values q ∙ fs q;
            deadlines = λ q. ground (
              arith,
              c.deadlines q,
              b.deadlines q,
              b.deadlines k,
              gs q,
              settles,
              bytes_eq_iff k q,
            );
            clock = c.clock ∙ b.clock;
          },
        )

  admitted_at :
      (m : SetMode) (e : Option ℕ) (keep : Bool) (s : Service d x) (k v : Bytes) (r : Result)
      → IsValid s
      → admits m (is_some (live s k)) ≡ true
      → let o = plain m e keep in
        ((set_with d x k v o s r).1 ≡ set_ok r)
        × Becomes s
            (set_with d x k v o s r).0
            (put k (some (some v)) (stored s))
            (put k (new_deadline o (deadline s k)) (deadline s))
  unfolding set_with set_data set_reply
  admitted_at regular e keep s k v r valid h =
      let (b, st) = set_regular-Becomes k v s in
      finish s k v _ r (set_regular d x k v s) b (ground (arith, st)) (λ q. refl)
        (ground (arith, st, valid.bounded k)) (λ q _. refl)
  admitted_at nx e keep s k v r valid h =
      let (b, st) = set_nx-Becomes k v s in
      finish s k v _ r (set_nx d x k v s) b (ground (arith, st)) (λ q. ground arith)
        (ground (arith, st, valid.bounded k, bytes_eq_refl k)) (λ q ne. ground arith)
  admitted_at xx e keep s k v r valid h =
      let (b, st, _) = set_xx-Becomes k v s false in
      finish s k v _ r (set_xx d x k v false s) b (ground (arith, st)) (λ q. ground arith)
        (ground (arith, st, bytes_eq_refl k)) (λ q ne. ground arith)

  -- In a well-formed service, SET without GET, where the mode admits it: the reply is OK, the key has the value and the deadline
  -- that the options leave, and other keys are kept.
  pub set_with_admitted :
      (s : Service d x) (k v : Bytes) (o : SetOptions) (r : Result)
      → IsValid s
      → o.get ≡ false
      → admits o.set_mode (is_some (live s k)) ≡ true
      → ((set_with d x k v o s r).1 ≡ set_ok r)
        × Becomes s
            (set_with d x k v o s r).0
            (put k (some (some v)) (stored s))
            (put k (new_deadline o (deadline s k)) (deadline s))
  set_with_admitted s k v o r valid no_get h =
      subst
        (λ (p : SetOptions).
          ((set_with d x k v p s r).1 ≡ set_ok r)
          × Becomes s (set_with d x k v p s r).0 (put k (some (some v)) (stored s))
              (put k (new_deadline p (deadline s k)) (deadline s)))
        (without_get o no_get) (admitted_at o.set_mode o.expire_time o.keep_ttl s k v r valid h)

  -- SET with GET and neither NX, XX nor an expiry option answers the value that a client saw, and
  -- leaves the deadline of the key as it was, KEEPTTL or not.
  pub set_get_keeps_deadline :
      (s : Service d x) (k v : Bytes) (keep : Bool) (r : Result)
      → let o : SetOptions = record {
        set_mode = regular;
        expire_time = none;
        keep_ttl = keep;
        get = true;
      } in
        ((set_with d x k v o s r).1
          ≡ (elim (join (live s k)) [ none ↦ set_nil r | some w ↦ set_string r (some w) ]))
        × Becomes s (set_with d x k v o s r).0 (put k (some (some v)) (stored s)) (deadline s)
  unfolding set_with set_data set_reply settle_deadline set_regular_get
  set_get_keeps_deadline s k v keep r = let (b, old) = set_regular_get-Becomes k v s in (rw old, b)

  -- A value that SET with GET stores under a key whose deadline has passed is not seen: the key keeps
  -- that deadline.
  pub set_get_lost :
      (s : Service d x) (k v : Bytes) (keep : Bool) (r : Result)
      → stale s k ≡ true
      → let o : SetOptions = record {
        set_mode = regular;
        expire_time = none;
        keep_ttl = keep;
        get = true;
      } in
        live (set_with d x k v o s r).0 k ≡ none
  set_get_lost s k v keep r h =
      let (_, b) = set_get_keeps_deadline s k v keep r in ground (arith, b.deadlines k, b.clock)
