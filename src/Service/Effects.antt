-- ===== src/Service/Effects.antt =====
-- The operations of the service as changes of the stored values and of the deadlines.
use rdss.Base.{
  ℕ, ◌≡◌, refl, arith, Bool, ◌&&◌, Option, none, some, Bytes, bytes_eq, bytes_eq_iff, bytes_eq_refl,
  if◌then◌else◌, is_some,
}
use rdss.KeyTable.{KeyTable}
use rdss.Resp.Result.{MtsPtr}
use rdss.Service.{
  Service, no_op, inserted, updated, find_or_expire, touch, assign, set_regular, set_regular_get,
  set_nx, set_xx,
}
use rdss.Service.View.{value_of, stored, deadline, stale, live, put, join}

module _ {d : KeyTable MtsPtr none} {x : KeyTable ℕ 0} where
  -- `s'` has the clock of `s`, the values `f` and the deadlines `g`.
  pub record Becomes (s s' : Service d x) (f : Bytes → Option MtsPtr) (g : Bytes → Option ℕ)
      : Type 0 where
    pub values : (q : Bytes) → stored s' q ≡ f q
    pub deadlines : (q : Bytes) → deadline s' q ≡ g q
    pub clock : s'.now ≡ s.now

  -- whether `FindOrExpire` erases the key
  abbrev pub dead : Service d x → Bytes → Bool
  dead s k = is_some (stored s k) && stale s k

  module _ (k : Bytes) (s : Service d x) where
    pub find_or_expire-Becomes :
        Becomes s
          (find_or_expire d x k s).0
          (λ q. if bytes_eq k q && dead s k then none else stored s q)
          (λ q. if bytes_eq k q && dead s k then none else deadline s q)
    unfolding find_or_expire
    find_or_expire-Becomes =
        let dt = (d.find k s.data_ht).0 in
        let xt = (x.find k s.expire_ht).0 in
        record {
          values = λ q. ground (
            arith,
            d.find_found k s.data_ht,
            x.find_found k s.expire_ht,
            d.find_reads k q s.data_ht,
            d.erase_reads k q dt,
          );
          deadlines = λ q. ground (
            arith,
            d.find_found k s.data_ht,
            x.find_found k s.expire_ht,
            x.find_reads k q s.expire_ht,
            x.erase_reads k q xt,
          );
          clock = ground arith;
        }

    -- `FindOrExpire` finds the value that the key has for a client.
    pub find_or_expire_found : value_of (find_or_expire d x k s).1 ≡ live s k
    unfolding find_or_expire
    find_or_expire_found = ground (arith, d.find_found k s.data_ht, x.find_found k s.expire_ht)

  module _ (k v : Bytes) (s : Service d x) where
    pub set_regular-Becomes :
        Becomes s (set_regular d x k v s).service (put k (some (some v)) (stored s)) (deadline s)
        × ((set_regular d x k v s).status ≡ (if is_some (stored s k) then updated else inserted))
    unfolding set_regular touch
    set_regular-Becomes =
        let dt = (d.upsert k (some v) s.data_ht).0 in
        (
          record {
            values = λ q. ground (
              arith,
              d.upsert_reads k q (some v) s.data_ht,
              d.upsert_reads k k (some v) s.data_ht,
              d.write_reads k q (λ _. s.lru_clock) (λ w. w) dt,
              bytes_eq_refl k,
            );
            deadlines = λ q. refl;
            clock = refl;
          },
          ground (arith, d.upsert_existed k (some v) s.data_ht),
        )

    pub set_regular_get-Becomes :
        Becomes s
          (set_regular_get d x k v s).service
          (put k (some (some v)) (stored s))
          (deadline s)
        × ((set_regular_get d x k v s).old_value ≡ join (live s k))
    unfolding set_regular_get touch assign
    set_regular_get-Becomes =
        let dt = (d.find_or_create k s.data_ht).0 in
        let du = d.write_entry k (λ a. a) (λ _. some v) dt in
        (
          record {
            values = λ q. ground (
              arith,
              d.create_reads k q s.data_ht,
              d.create_reads k k s.data_ht,
              d.write_reads k q (λ a. a) (λ _. some v) dt,
              d.write_reads k k (λ a. a) (λ _. some v) dt,
              d.write_reads k q (λ _. s.lru_clock) (λ w. w) du,
              d.create_existed k s.data_ht,
              bytes_eq_refl k,
            );
            deadlines =
                λ q. ground (arith, x.find_reads k q s.expire_ht, d.create_existed k s.data_ht);
            clock = ground (arith, d.create_existed k s.data_ht);
          },
          ground (
            arith,
            d.create_existed k s.data_ht,
            d.create_reads k k s.data_ht,
            x.find_found k s.expire_ht,
            bytes_eq_refl k,
          ),
        )

    -- `kNX` stores the value if no client sees the key, and else changes nothing.
    pub set_nx-Becomes :
        Becomes s
          (set_nx d x k v s).service
          (if is_some (live s k) then stored s else put k (some (some v)) (stored s))
          (λ q. if bytes_eq k q && dead s k then none else deadline s q)
        × ((set_nx d x k v s).status ≡ (if is_some (live s k) then no_op else inserted))
    unfolding set_nx touch assign
    set_nx-Becomes =
        let dt = (d.find k s.data_ht).0 in
        let xt = (x.find k s.expire_ht).0 in
        let di = (d.insert k (some v) dt).0 in
        let da = d.write_entry k (λ a. a) (λ _. some v) dt in
        (
          record {
            values = λ q. ground (
              arith,
              d.find_found k s.data_ht,
              x.find_found k s.expire_ht,
              d.find_reads k q s.data_ht,
              d.find_reads k k s.data_ht,
              d.insert_reads k q (some v) dt,
              d.insert_reads k k (some v) dt,
              d.write_reads k q (λ a. a) (λ _. some v) dt,
              d.write_reads k k (λ a. a) (λ _. some v) dt,
              d.write_reads k q (λ _. s.lru_clock) (λ w. w) da,
              d.write_reads k q (λ _. s.lru_clock) (λ w. w) di,
              bytes_eq_refl k,
            );
            deadlines = λ q. ground (
              arith,
              d.find_found k s.data_ht,
              x.find_found k s.expire_ht,
              x.find_reads k q s.expire_ht,
              x.erase_reads k q xt,
            );
            clock = ground arith;
          },
          ground (arith, d.find_found k s.data_ht, x.find_found k s.expire_ht),
        )

    -- `kXX` stores the value if a client sees the key; a stale key is erased, and the rest is kept.
    pub set_xx-Becomes :
        (get : Bool)
        → Becomes s
            (set_xx d x k v get s).service
            (put k (if is_some (live s k) then some (some v) else none) (stored s))
            (λ q. if bytes_eq k q && dead s k then none else deadline s q)
          × ((set_xx d x k v get s).status ≡ (if is_some (live s k) then updated else no_op))
          × ((set_xx d x k v get s).old_value ≡ (if get then join (live s k) else none))
    unfolding set_xx touch assign
    set_xx-Becomes get =
        let dt = (d.find k s.data_ht).0 in
        let xt = (x.find k s.expire_ht).0 in
        let da = d.write_entry k (λ a. a) (λ _. some v) dt in
        (
          record {
            values = λ q. ground (
              arith,
              d.find_found k s.data_ht,
              x.find_found k s.expire_ht,
              d.find_reads k q s.data_ht,
              d.find_reads k k s.data_ht,
              d.erase_reads k q dt,
              d.write_reads k q (λ a. a) (λ _. some v) dt,
              d.write_reads k k (λ a. a) (λ _. some v) dt,
              d.write_reads k q (λ _. s.lru_clock) (λ w. w) da,
              bytes_eq_refl k,
              bytes_eq_iff k q,
            );
            deadlines = λ q. ground (
              arith,
              d.find_found k s.data_ht,
              x.find_found k s.expire_ht,
              x.find_reads k q s.expire_ht,
              x.erase_reads k q xt,
            );
            clock = ground arith;
          },
          ground (arith, d.find_found k s.data_ht, x.find_found k s.expire_ht),
          ground (arith, d.find_found k s.data_ht, x.find_found k s.expire_ht),
        )
