-- ===== src/Service/Invariant.antt =====
-- Every operation of the service keeps its two tables well formed.
use rdss.Base.{
  ℕ, ◌≡◌, ◌≢◌, refl, sym, arith, Bool, true, false, Option, none, some, Bytes, bytes_eq_iff,
  is_some, ◌∙◌,
}
use rdss.KeyTable.{KeyTable}
use rdss.Resp.Result.{MtsPtr}
use rdss.Service.{Service, SetMode, regular, nx, xx, find_or_expire, erase_key, touch, set_data}
use rdss.Service.View.{stored, deadline, put, IsValid}
use rdss.Service.Effects.{
  Becomes, find_or_expire-Becomes, set_regular-Becomes, set_regular_get-Becomes, set_nx-Becomes,
  set_xx-Becomes,
}

module _ {d : KeyTable MtsPtr none} {x : KeyTable ℕ 0} where
  pub Becomes-IsValid :
      {s s' : Service d x} {f : Bytes → Option MtsPtr} {g : Bytes → Option ℕ}
      → Becomes s s' f g
      → ((q : Bytes) → is_some (g q) ≡ true → is_some (f q) ≡ true)
      → ((q : Bytes) → f q ≢ some none)
      → IsValid s'
  Becomes-IsValid b bounded non_null = record {
    bounded = λ q. ground (arith, b.values q, b.deadlines q, bounded q);
    non_null = λ q h. non_null q (sym (b.values q) ∙ h);
  }

  pub touch-Becomes :
      (k : Bytes) (s : Service d x) → Becomes s (touch d x k s) (stored s) (deadline s)
  unfolding touch
  touch-Becomes k s = record {
    values = λ q.
        ground (arith, d.write_reads k q (λ _. s.lru_clock) (λ w. w) s.data_ht, bytes_eq_iff k q);
    deadlines = λ q. refl;
    clock = refl;
  }

  module _ (k : Bytes) (s : Service d x) (v : IsValid s) where
    -- `FindOrExpire` keeps every deadline on a stored key, and every stored value apart from null.
    pub find_or_expire-IsValid : IsValid (find_or_expire d x k s).0
    find_or_expire-IsValid =
        Becomes-IsValid (find_or_expire-Becomes k s) (λ q. ground (arith, v.bounded q))
          (λ q. ground (arith, v.non_null q))

    pub erase_key-Becomes :
        Becomes s (erase_key d x k s) (put k none (stored s)) (put k none (deadline s))
    unfolding erase_key
    erase_key-Becomes = record {
      values = λ q. ground (arith, d.erase_reads k q s.data_ht);
      deadlines = λ q. ground (
        arith,
        d.erase_erased k s.data_ht,
        x.erase_reads k q s.expire_ht,
        v.bounded k,
        bytes_eq_iff k q,
      );
      clock = ground arith;
    }

    -- `EraseKey` keeps every deadline on a stored key, and every stored value apart from null.
    pub erase_key-IsValid : IsValid (erase_key d x k s)
    erase_key-IsValid =
        Becomes-IsValid erase_key-Becomes (λ q. ground (arith, v.bounded q))
          (λ q. ground (arith, v.non_null q))

    pub touch-IsValid : IsValid (touch d x k s)
    touch-IsValid = Becomes-IsValid (touch-Becomes k s) v.bounded v.non_null

    -- `SetData`, in each of its modes, keeps every deadline on a stored key, and every stored value
    -- apart from null.
    pub set_data-IsValid :
        (value : Bytes) (m : SetMode) (get : Bool) → IsValid (set_data d x k value m get s).service
    unfolding set_data
    set_data-IsValid value regular true =
        Becomes-IsValid (set_regular_get-Becomes k value s).0 (λ q. ground (arith, v.bounded q))
          (λ q. ground (arith, v.non_null q))
    set_data-IsValid value regular false =
        Becomes-IsValid (set_regular-Becomes k value s).0 (λ q. ground (arith, v.bounded q))
          (λ q. ground (arith, v.non_null q))
    set_data-IsValid value nx get =
        Becomes-IsValid (set_nx-Becomes k value s).0 (λ q. ground (arith, v.bounded q))
          (λ q. ground (arith, v.non_null q))
    set_data-IsValid value xx get =
        Becomes-IsValid (set_xx-Becomes k value s get).0
          (λ q. ground (arith, v.bounded q, bytes_eq_iff k q)) (λ q. ground (arith, v.non_null q))
