-- ===== src/Commands/WriteValidity.antt =====
-- The handlers that write keep the two tables well formed.
use rdss.Base.{
  ℕ, ◌≡◌, arith, Bool, true, false, ◌||◌, none, some, List, [], ◌∷◌, Bytes, bytes_eq_iff,
  bytes_eq_refl, ltb, ◌==◌, ◌%◌, ◌^◌, ◌-◌, is_some, length, Bool-cases, inl, inr, drop, either,
  whichever,
}
use rdss.KeyTable.{KeyTable}
use rdss.Resp.Result.{MtsPtr, Result, set_error}
use rdss.Service.{Service, SetMode, regular, nx, xx, touch, assign, set_data}
use rdss.Service.View.{stored, IsValid}
use rdss.Service.Effects.{
  set_regular-Becomes, set_regular_get-Becomes, set_nx-Becomes, set_xx-Becomes,
}
use rdss.Service.Invariant.{Becomes-IsValid, set_data-IsValid}
use rdss.Commands.Times.{time_max, parse_int, parse_unsigned, int_to_time_point}
use rdss.Commands.Options.{SetOptions, no_options, Extracted, extract_set_options, options, refused}
use rdss.Commands.Reads.{arg}
use rdss.Commands.SetLaws.{settle_deadline-Becomes}
use rdss.Commands.TimeLaws.{ttl_of-Becomes, set_ex_value-Becomes}
use rdss.Commands.WriteLaws.{del_loop_lem}
use rdss.Commands.Validity.{Good, Preserves, clear_expire-IsValid}
use rdss.Commands.Writes.{
  is_no_op, settle_deadline, set_with, set_function, mset_loop, m_set_function, msetnx_loop,
  m_set_nx_function, set_ex_function_base, set_nx_function, get_set_function, append_function,
  set_range_function, del_function, ttl_of, clear_expire, set_expire,
}

module _ {d : KeyTable MtsPtr none} {x : KeyTable ℕ 0} where
  -- a key that `SetData` set is stored
  set_data-stored :
      (k value : Bytes) (m : SetMode) (get : Bool) (s : Service d x)
      → is_no_op (set_data d x k value m get s).status ≡ false
      → is_some (stored (set_data d x k value m get s).service k) ≡ true
  unfolding set_data
  set_data-stored k value regular true s h =
      ground (arith, (set_regular_get-Becomes k value s).0.values k, bytes_eq_refl k)
  set_data-stored k value regular false s h =
      ground (arith, (set_regular-Becomes k value s).0.values k, bytes_eq_refl k)
  set_data-stored k value nx get s h =
      let (b, status) = set_nx-Becomes k value s in
      ground (arith, b.values k, status, bytes_eq_refl k)
  set_data-stored k value xx get s h =
      let (b, status, _) = set_xx-Becomes k value s get in
      ground (arith, b.values k, status, bytes_eq_refl k)

  settle_deadline-IsValid :
      (k : Bytes) (o : SetOptions) (s : Service d x) (value : Bytes)
      → IsValid s
      → is_no_op (set_data d x k value o.set_mode o.get s).status ≡ false
      → IsValid (
          settle_deadline d x k o
            (set_data d x k value o.set_mode o.get s).status
            (set_data d x k value o.set_mode o.get s).service)
  settle_deadline-IsValid k o s value v h =
      let out = set_data d x k value o.set_mode o.get s in
      let w = set_data-IsValid k s v value o.set_mode o.get in
      let there = set_data-stored k value o.set_mode o.get s h in
      Becomes-IsValid (settle_deadline-Becomes k o out.status out.service)
        (λ q. ground (arith, w.bounded q, bytes_eq_iff k q, there)) w.non_null

  set_with-IsValid :
      (k value : Bytes) (o : SetOptions) (s : Service d x) (r : Result)
      → IsValid s
      → Good (set_with d x k value o s r)
  unfolding set_with
  set_with-IsValid k value o s r v =
      elim (Bool-cases (is_no_op (set_data d x k value o.set_mode o.get s).status)) [
        | inl kept ↦ rw (set_with, kept) (set_data-IsValid k s v value o.set_mode o.get)
        | inr set ↦ rw (set_with, set) (settle_deadline-IsValid k o s value v set)
      ]

  set_options-IsValid :
      (k value : Bytes) (e : Extracted) (s : Service d x) (r : Result)
      → IsValid s
      → Good {d = d} {x = x}
          (elim e [ refused err ↦ (s, set_error r err) | options o ↦ set_with d x k value o s r ])
  set_options-IsValid k value (refused err) s r v = v
  set_options-IsValid k value (options o) s r v = set_with-IsValid k value o s r v

  pub set_function-Preserves : Preserves (set_function d x)
  unfolding set_function
  set_function-Preserves s args r v = either Good (ltb (length args) 3) v (
      set_options-IsValid (arg args 1) (arg args 2)
        (extract_set_options (drop 3 args) s.now no_options) s r v)

  mset_loop-IsValid :
      (args : List Bytes) (s : Service d x) → IsValid s → IsValid (mset_loop d x args s)
  unfolding mset_loop
  mset_loop-IsValid (k ∷ value ∷ args) s v =
      let s' = (set_data d x k value regular false s).service in
      mset_loop-IsValid args (clear_expire d x k s')
        (clear_expire-IsValid k s' (set_data-IsValid k s v value regular false))
  mset_loop-IsValid (k ∷ []) s v = v
  mset_loop-IsValid [] s v = v

  pub m_set_function-Preserves : Preserves (m_set_function d x)
  unfolding m_set_function
  m_set_function-Preserves s args r v =
      either Good (ltb (length args) 3 || length args % 2 == 0) v
        (mset_loop-IsValid (drop 1 args) s v)

  msetnx_loop-IsValid :
      (args : List Bytes) (s : Service d x) (b : Bool)
      → IsValid s
      → IsValid (msetnx_loop d x args s b).0
  unfolding msetnx_loop
  msetnx_loop-IsValid (k ∷ value ∷ args) s b v =
      msetnx_loop-IsValid args (set_data d x k value nx false s).service _
        (set_data-IsValid k s v value nx false)
  msetnx_loop-IsValid (k ∷ []) s b v = v
  msetnx_loop-IsValid [] s b v = v

  pub m_set_nx_function-Preserves : Preserves (m_set_nx_function d x)
  unfolding m_set_nx_function
  m_set_nx_function-Preserves s args r v =
      either Good (ltb (length args) 3 || length args % 2 == 0) v
        (msetnx_loop-IsValid (drop 1 args) s false v)

  set_ex_value-IsValid :
      (k value : Bytes) (t : ℕ) (s : Service d x)
      → IsValid s
      → IsValid (
          touch d x k
            (set_expire d x k t (record s { data_ht = (d.upsert k (some value) s.data_ht).0 })))
  set_ex_value-IsValid k value t s v =
      Becomes-IsValid (set_ex_value-Becomes k value t s) (λ q. ground (arith, v.bounded q))
        (λ q. ground (arith, v.non_null q))

  pub set_ex_function_base-Preserves : (unit : ℕ) → Preserves (set_ex_function_base d x unit)
  unfolding set_ex_function_base
  set_ex_function_base-Preserves unit s args r v =
      either Good (length args == 4)
        (whichever Good (parse_int time_max (arg args 2)) v (λ ll.
          whichever Good (int_to_time_point unit s.now ll) v
            (λ t. set_ex_value-IsValid (arg args 1) (arg args 3) t s v)))
        v

  pub set_nx_function-Preserves : Preserves (set_nx_function d x)
  unfolding set_nx_function
  set_nx_function-Preserves s args r v =
      either Good (length args == 3) (set_data-IsValid (arg args 1) s v (arg args 2) nx false) v

  pub get_set_function-Preserves : Preserves (get_set_function d x)
  unfolding get_set_function
  get_set_function-Preserves s args r v =
      let out = set_data d x (arg args 1) (arg args 2) regular true s in
      let w = set_data-IsValid (arg args 1) s v (arg args 2) regular true in
      either Good (length args == 3)
        (whichever Good out.old_value w (λ old. clear_expire-IsValid (arg args 1) out.service w)) v

  -- a key that is there or created, and given a value, with no deadline more than before
  assigned-IsValid :
      (k value : Bytes) (e : x.Store) (s : Service d x)
      → IsValid s
      → ((q : Bytes) → is_some (x.entry_at e q) ≡ true → is_some (x.entry_at s.expire_ht q) ≡ true)
      → IsValid (
          touch d x k (
            assign d x k
              (some value)
              (record s { data_ht = (d.find_or_create k s.data_ht).0; expire_ht = e })))
  unfolding assign touch
  assigned-IsValid k value e s v fewer =
      let dt = (d.find_or_create k s.data_ht).0 in
      let da = d.write_entry k (λ a. a) (λ _. some value) dt in
      record {
        bounded = λ q h. ground (
          arith,
          d.write_reads k q (λ _. s.lru_clock) (λ a. a) da,
          d.write_reads k q (λ a. a) (λ _. some value) dt,
          d.write_reads k k (λ a. a) (λ _. some value) dt,
          d.create_reads k q s.data_ht,
          d.create_reads k k s.data_ht,
          bytes_eq_refl k,
          fewer q,
          v.bounded q,
          h,
        );
        non_null = λ q h. ground (
          arith,
          d.write_reads k q (λ _. s.lru_clock) (λ a. a) da,
          d.write_reads k q (λ a. a) (λ _. some value) dt,
          d.write_reads k k (λ a. a) (λ _. some value) dt,
          d.create_reads k q s.data_ht,
          d.create_reads k k s.data_ht,
          bytes_eq_refl k,
          v.non_null q,
          h,
        );
      }

  pub append_function-Preserves : Preserves (append_function d x)
  unfolding append_function
  append_function-Preserves s args r v =
      either Good (length args == 3) (assigned-IsValid (arg args 1) _ s.expire_ht s v (λ q h. h)) v

  pub set_range_function-Preserves : (shared : Bool) → Preserves (set_range_function d x shared)
  unfolding set_range_function
  set_range_function-Preserves shared s args r v =
      let k = arg args 1 in
      let xt = (x.find k s.expire_ht).0 in
      either Good (length args == 4)
        (whichever Good (parse_unsigned (2 ^ 32 - 1) (arg args 2)) v (λ start.
          assigned-IsValid k _ _ s v
            (λ q. ground (arith, x.find_reads k q s.expire_ht, x.erase_reads k q xt))))
        v

  pub del_function-Preserves : Preserves (del_function d x)
  unfolding del_function
  del_function-Preserves s args r v =
      either Good (ltb (length args) 2) v (del_loop_lem (drop 1 args) s 0 v).0

  pub ttl_of-IsValid :
      (k : Bytes) (s : Service d x) (r : Result) → IsValid s → Good (ttl_of d x k s r)
  ttl_of-IsValid k s r v =
      Becomes-IsValid (ttl_of-Becomes k s r) (λ q. ground (arith, v.bounded q))
        (λ q. ground (arith, v.non_null q))
