-- ===== src/Commands/Validity.antt =====
-- Every handler keeps the two tables well formed, whatever its arguments are.
use rdss.Base.{
  ℕ, ◌≡◌, refl, sym, arith, Bool, true, false, none, some, List, [], ◌∷◌, Bytes, bytes_eq_iff,
  if◌then◌else◌, ltb, ◌==◌, is_some, length, Option-cases, Bool-cases, inl, inr, drop, subst,
  either, whichever, ◌^◌, ◌-◌,
}
use rdss.KeyTable.{KeyTable}
use rdss.Resp.Result.{MtsPtr, Result, set_error, wrong_arg_num}
use rdss.Service.{Service, find_or_expire, erase_key, touch}
use rdss.Service.View.{stored, IsValid}
use rdss.Service.Invariant.{
  find_or_expire-IsValid, erase_key-IsValid, touch-IsValid, Becomes-IsValid,
}
use rdss.Commands.ReadLaws.{read_key, read_key-SameView, get_function_base_lem}
use rdss.Commands.SetLaws.{clear_expire-Becomes}
use rdss.Commands.Writes.{clear_expire}
use rdss.Commands.Times.{parse_int}
use rdss.Commands.Reads.{
  Handler, arg, get_function_base, get_function, get_del_function, getex_callback, get_ex_function,
  mget_loop, m_get_function, strlen_function, get_range_function, exists_loop, exists_function,
  GetexOptions, GetexExtracted, no_getex_options, extract_getex_options, options, refused,
}

module _ {d : KeyTable MtsPtr none} {x : KeyTable ℕ 0} where
  -- the service that a handler leaves is well formed
  abbrev pub Good : Service d x × Result → Type 0
  Good p = IsValid p.0

  abbrev pub Preserves : Handler d x → Type 0
  Preserves h = (s : Service d x) (args : List Bytes) (r : Result) → IsValid s → Good (h s args r)

  pub clear_expire-IsValid :
      (k : Bytes) (s : Service d x) → IsValid s → IsValid (clear_expire d x k s)
  clear_expire-IsValid k s v =
      Becomes-IsValid (clear_expire-Becomes k s) (λ q. ground (arith, v.bounded q)) v.non_null

  read_key-IsValid : (k : Bytes) (s : Service d x) → IsValid s → IsValid (read_key k s)
  read_key-IsValid k s v = (read_key-SameView k s v).valid

  -- the lookup and then the access time
  touched :
      (k : Bytes) (s : Service d x) → IsValid s → IsValid (touch d x k (find_or_expire d x k s).0)
  touched k s v = touch-IsValid k (find_or_expire d x k s).0 (find_or_expire-IsValid k s v)

  get_function_base-IsValid :
      (k : Bytes) (s : Service d x) (r : Result)
      → IsValid s
      → IsValid (get_function_base d x k s r).0
  unfolding get_function_base
  get_function_base-IsValid k s r v = elim (Option-cases (find_or_expire d x k s).1) [
    | inl missing ↦ rw (get_function_base, missing) (find_or_expire-IsValid k s v)
    | inr (e, found) ↦ rw (get_function_base, found) (touched k s v)
  ]

  pub get_function-Preserves : Preserves (get_function d x)
  unfolding get_function
  get_function-Preserves s args r v =
      either Good (length args == 2) (get_function_base-IsValid (arg args 1) s r v) v

  -- GETDEL of a key that stays readable
  pub get_del_function_returns :
      (s : Service d x) (args : List Bytes) (r : Result)
      → IsValid s
      → (p : Service d x × Result) × (get_del_function d x true s args r ≡ some p) × IsValid p.0
  unfolding get_del_function
  get_del_function_returns s args r v =
      let b = get_function_base d x (arg args 1) s r in
      let w = get_function_base-IsValid (arg args 1) s r v in
      elim (Bool-cases (length args == 2)) [
        | inr other ↦ ((s, set_error r wrong_arg_num), rw other refl, v)
        | inl two ↦ elim (Bool-cases b.2) [
          | inl found ↦ (
            (erase_key d x (arg args 1) b.0, b.1),
            rw (two, found) refl,
            erase_key-IsValid (arg args 1) b.0 w,
          )
          | inr missing ↦ ((b.0, b.1), rw (two, missing) refl, w)
        ]
      ]

  pub strlen_function-Preserves : Preserves (strlen_function d x)
  unfolding strlen_function
  strlen_function-Preserves s args r v =
      let k = arg args 1 in
      elim (Option-cases (find_or_expire d x k s).1) [
        | inl missing ↦ rw missing (either Good (length args == 2) (find_or_expire-IsValid k s v) v)
        | inr (e, found) ↦ rw found (either Good (length args == 2) (touched k s v) v)
      ]

  pub get_range_function-Preserves : Preserves (get_range_function d x)
  unfolding get_range_function
  get_range_function-Preserves s args r v =
      let k = arg args 1 in
      either Good (length args == 4)
        (whichever Good (parse_int (2 ^ 31 - 1) (arg args 2)) v (λ a.
          whichever Good (parse_int (2 ^ 31 - 1) (arg args 3)) v (λ b.
            whichever Good (find_or_expire d x k s).1 (find_or_expire-IsValid k s v)
              (λ e. touched k s v))))
        v

  mget_loop-IsValid :
      (keys : List Bytes) (s : Service d x) (r : Result) → IsValid s → Good (mget_loop d x keys s r)
  unfolding mget_loop read_key
  mget_loop-IsValid [] s r v = v
  mget_loop-IsValid (k ∷ keys) s r v =
      mget_loop-IsValid keys (read_key k s) _ (read_key-IsValid k s v)

  pub m_get_function-Preserves : Preserves (m_get_function d x)
  unfolding m_get_function
  m_get_function-Preserves s args r v =
      either Good (ltb (length args) 2) v (mget_loop-IsValid (drop 1 args) s r v)

  exists_loop-IsValid :
      (keys : List Bytes) (s : Service d x) (n : ℕ)
      → IsValid s
      → IsValid (exists_loop d x keys s n).0
  unfolding exists_loop read_key
  exists_loop-IsValid [] s n v = v
  exists_loop-IsValid (k ∷ keys) s n v =
      exists_loop-IsValid keys (read_key k s) _ (read_key-IsValid k s v)

  pub exists_function-Preserves : Preserves (exists_function d x)
  unfolding exists_function
  exists_function-Preserves s args r v = exists_loop-IsValid (drop 1 args) s 0 v

  -- a deadline is set for a key that is stored, or dropped
  getex_callback-IsValid :
      (k : Bytes) (o : GetexOptions) (s : Service d x)
      → IsValid s
      → is_some (stored s k) ≡ true
      → IsValid (getex_callback d x k o s)
  unfolding getex_callback clear_expire
  getex_callback-IsValid k o s v there = elim (Option-cases o.expire_time) [
    | inl kept ↦ rw (getex_callback, kept) (either IsValid o.persist (clear_expire-IsValid k s v) v)
    | inr (t, set) ↦
        rw (getex_callback, set)
          (either IsValid o.persist (clear_expire-IsValid k s v) (record {
            bounded = λ q.
                ground
                  (arith, x.upsert_reads k q t s.expire_ht, v.bounded q, bytes_eq_iff k q, there);
            non_null = v.non_null;
          }))
  ]

  -- the entry that the lookup of a read found is stored
  base_found :
      (k : Bytes) (s : Service d x) (r : Result)
      → IsValid s
      → (get_function_base d x k s r).2 ≡ true
      → is_some (stored (get_function_base d x k s r).0 k) ≡ true
  base_found k s r v h =
      let (kept, answer, found) = get_function_base_lem k s r in
      let there : is_some (stored (read_key k s) k) ≡ true =
        ground (arith, (read_key-SameView k s v).lives k, found, h) in
      subst (λ (t : Service d x). is_some (stored t k) ≡ true) (sym kept) there

  extracted-IsValid :
      (k : Bytes) (s s' : Service d x) (r r' : Result) (found : Bool) (e : GetexExtracted)
      → IsValid s
      → IsValid s'
      → (found ≡ true → is_some (stored s' k) ≡ true)
      → Good (elim e [
        | refused err ↦ (s, set_error r err)
        | options o ↦ (if found then getex_callback d x k o s' else s', r')
      ])
  extracted-IsValid k s s' r r' found (refused err) v w there = v
  extracted-IsValid k s s' r r' true (options o) v w there =
      getex_callback-IsValid k o s' w (there refl)
  extracted-IsValid k s s' r r' false (options o) v w there = w

  pub get_ex_function-Preserves : Preserves (get_ex_function d x)
  unfolding get_ex_function
  get_ex_function-Preserves s args r v =
      let k = arg args 1 in
      let b = get_function_base d x k s r in
      either Good (ltb (length args) 2) v (
        extracted-IsValid k s b.0 r b.1 b.2
          (extract_getex_options (drop 2 args) s.now no_getex_options) v
          (get_function_base-IsValid k s r v) (base_found k s r v))
