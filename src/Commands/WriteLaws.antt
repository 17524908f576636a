-- ===== src/Commands/WriteLaws.antt =====
-- The other writing commands against what a client sees.
use rdss.Base.{
  ℕ, ◌+◌, ◌≡◌, refl, arith, Bool, true, false, ◌&&◌, ◌||◌, not, Option, none, some, List, [], ◌∷◌,
  Bytes, bytes_eq, bytes_eq_iff, bytes_eq_refl, if◌then◌else◌, ltb, ◌==◌, ◌%◌, is_some, ap, ◌∙◌,
  Option-cases, inl, inr, length, pos,
}
use rdss.KeyTable.{KeyTable}
use rdss.Resp.Result.{MtsPtr, Result, set_nil, set_string, set_int}
use rdss.Service.{
  Service, regular, nx, set_data, set_regular, set_regular_get, set_nx, find_or_expire, erase_key,
}
use rdss.Service.View.{stored, deadline, stale, live, put, join, IsValid}
use rdss.Service.Effects.{
  Becomes, find_or_expire_found, set_regular-Becomes, set_regular_get-Becomes, set_nx-Becomes,
}
use rdss.Service.Invariant.{set_data-IsValid, erase_key-Becomes, erase_key-IsValid}
use rdss.Commands.ReadLaws.{find_or_expire-SameView}
use rdss.Commands.SetLaws.{clear_expire-Becomes}
use rdss.Commands.Writes.{
  clear_expire, mset_loop, m_set_function, msetnx_loop, m_set_nx_function, set_nx_function,
  get_set_function, del_loop, del_function,
}

-- whether the key is one of the list
unfoldable pub among : Bytes → List Bytes → Bool
among q [] = false
among q (k ∷ ks) = bytes_eq k q || among q ks

-- the last value that a list of keys and values gives the key, or `old`
unfoldable pub last_value : List Bytes → Bytes → Option MtsPtr → Option MtsPtr
last_value (k ∷ v ∷ args) q old = last_value args q (if bytes_eq k q then some (some v) else old)
last_value (k ∷ []) q old = old
last_value [] q old = old

-- whether the key is one that a list of keys and values names
unfoldable pub is_named : List Bytes → Bytes → Bool
is_named (k ∷ v ∷ args) q = bytes_eq k q || is_named args q
is_named (k ∷ []) q = false
is_named [] q = false

module _ {d : KeyTable MtsPtr none} {x : KeyTable ℕ 0} where
  -- one round of the loop of DEL
  pub del_key : Bytes → Service d x → Service d x
  del_key k s =
      let (s', found) = find_or_expire d x k s in if is_some found then erase_key d x k s' else s'

  del_key_lem :
      (k : Bytes) (s : Service d x)
      → IsValid s
      → IsValid (del_key k s)
        × ((q : Bytes) → live (del_key k s) q ≡ (if bytes_eq k q then none else live s q))
  unfolding del_key
  del_key_lem k s v =
      let s' = (find_or_expire d x k s).0 in
      let a = find_or_expire-SameView k s v in
      let b = erase_key-Becomes k s' a.valid in
      elim (Option-cases (find_or_expire d x k s).1) [
        | inl absent ↦ rw absent (
          a.valid,
          λ q. ground (arith, a.lives q, find_or_expire_found k s, bytes_eq_iff k q, absent),
        )
        | inr (e, present) ↦ rw present (
          erase_key-IsValid k s' a.valid,
          λ q. ground (arith, b.values q, b.deadlines q, b.clock, a.lives q),
        )
      ]

  pub del_loop_lem :
      (ks : List Bytes) (s : Service d x) (n : ℕ)
      → IsValid s
      → IsValid (del_loop d x ks s n).0
        × ((q : Bytes) → live (del_loop d x ks s n).0 q ≡ (if among q ks then none else live s q))
  unfolding del_loop del_key among
  del_loop_lem [] s n v = (v, λ q. refl)
  del_loop_lem (k ∷ ks) s n v =
      let (w, lives) = del_key_lem k s v in
      let n' = if is_some (find_or_expire d x k s).1 then n + 1 else n in
      let (w', lives') = del_loop_lem ks (del_key k s) n' w in
      (w', λ q. ground (arith, lives q, lives' q))

  -- In a well-formed service, after DEL none of its keys has a value, and every other key has the value that it had.
  pub del_function_lem :
      (s : Service d x) (name k : Bytes) (ks : List Bytes) (r : Result)
      → IsValid s
      → (q : Bytes)
      → live (del_function d x s (name ∷ k ∷ ks) r).0 q
        ≡ (if among q (k ∷ ks) then none else live s q)
  unfolding del_function
  del_function_lem s name k ks r v q =
      let enough : ltb (length (name ∷ k ∷ ks)) 2 ≡ false = ground arith in
      rw enough ((del_loop_lem (k ∷ ks) s 0 v).1 q)

  -- one round of the loop of MSET
  mset_pair : Bytes → Bytes → Service d x → Service d x
  mset_pair k v s = clear_expire d x k (set_data d x k v regular false s).service

  mset_pair-Becomes :
      (k v : Bytes) (s : Service d x)
      → Becomes s (mset_pair k v s) (put k (some (some v)) (stored s)) (put k none (deadline s))
  unfolding mset_pair set_data
  mset_pair-Becomes k v s =
      let (b, _) = set_regular-Becomes k v s in
      let c = clear_expire-Becomes k (set_regular d x k v s).service in
      record {
        values = λ q. c.values q ∙ b.values q;
        deadlines = λ q. ground (arith, c.deadlines q, b.deadlines q);
        clock = c.clock ∙ b.clock;
      }

  mset_loop_lem :
      (args : List Bytes) (s : Service d x) (q : Bytes)
      → (live (mset_loop d x args s) q ≡ last_value args q (live s q))
        × (deadline (mset_loop d x args s) q ≡ (if is_named args q then none else deadline s q))
  unfolding mset_loop mset_pair last_value is_named
  mset_loop_lem [] s q = (refl, refl)
  mset_loop_lem (k ∷ []) s q = (refl, refl)
  mset_loop_lem (k ∷ v ∷ args) s q =
      let b = mset_pair-Becomes k v s in
      let (lives, deadlines) = mset_loop_lem args (mset_pair k v s) q in
      (
        lives ∙ ap (last_value args q) (ground (arith, b.values q, b.deadlines q, b.clock)),
        ground (arith, deadlines, b.deadlines q),
      )

  -- MSET of an even number of arguments gives every key the last value that its arguments name for it, and leaves it no deadline, past or future; it keeps
  -- the values and the deadlines of the other keys.
  pub m_set_function_lem :
      (s : Service d x) (name k v : Bytes) (args : List Bytes) (r : Result)
      → length args % 2 ≡ 0
      → (q : Bytes)
      → let s' = (m_set_function d x s (name ∷ k ∷ v ∷ args) r).0 in
        (live s' q ≡ last_value (k ∷ v ∷ args) q (live s q))
        × (deadline s' q ≡ (if is_named (k ∷ v ∷ args) q then none else deadline s q))
  unfolding m_set_function
  m_set_function_lem s name k v args r even q =
      let long : ltb (length (name ∷ k ∷ v ∷ args)) 3 ≡ false = ground arith in
      let odd : (length (name ∷ k ∷ v ∷ args) % 2 == 0) ≡ false = ground arith in
      rw (long, odd) (mset_loop_lem (k ∷ v ∷ args) s q)

  set_nx_lives :
      (k v : Bytes) (s : Service d x)
      → IsValid s
      → (q : Bytes)
      → live (set_nx d x k v s).service q
        ≡ (if bytes_eq k q && not (is_some (live s k)) then some (some v) else live s q)
  set_nx_lives k v s valid q =
      let (b, _) = set_nx-Becomes k v s in
      ground (arith, b.values q, b.deadlines q, b.clock, bytes_eq_iff k q, valid.bounded k)

  -- In a well-formed service, SETNX answers 1 and stores the value if no client sees the key, and else answers 0; the other keys
  -- are kept.
  pub set_nx_function_lem :
      (s : Service d x) (name k v : Bytes) (r : Result)
      → IsValid s
      → ((set_nx_function d x s (name ∷ k ∷ v ∷ []) r).1
          ≡ set_int r (pos (if is_some (live s k) then 0 else 1)))
        × ((q : Bytes)
            → live (set_nx_function d x s (name ∷ k ∷ v ∷ []) r).0 q
              ≡ (if bytes_eq k q && not (is_some (live s k)) then some (some v) else live s q))
  unfolding set_nx_function set_data
  set_nx_function_lem s name k v r valid =
      let (_, st) = set_nx-Becomes k v s in (ground (arith, st), set_nx_lives k v s valid)

  -- In a well-formed service, MSETNX of a key that has a value and one that has none stores the second all the same, and
  -- answers 1.
  pub m_set_nx_function_partial :
      (s : Service d x) (name j v k w : Bytes) (r : Result)
      → IsValid s
      → is_some (live s j) ≡ true
      → live s k ≡ none
      → ((m_set_nx_function d x s (name ∷ j ∷ v ∷ k ∷ w ∷ []) r).1 ≡ set_int r (pos 1))
        × (live (m_set_nx_function d x s (name ∷ j ∷ v ∷ k ∷ w ∷ []) r).0 k ≡ some (some w))
        × (live (m_set_nx_function d x s (name ∷ j ∷ v ∷ k ∷ w ∷ []) r).0 j ≡ live s j)
  unfolding m_set_nx_function msetnx_loop set_data
  m_set_nx_function_partial s name j v k w r valid there absent =
      let t = (set_nx d x j v s).service in
      let first = set_nx_lives j v s valid in
      let valid' : IsValid t = unfold set_data in set_data-IsValid j s valid v nx false in
      let second = set_nx_lives k w t valid' in
      let (_, st) = set_nx-Becomes k w t in
      (
        ground (arith, st, first k),
        ground (arith, second k, first k, bytes_eq_refl k),
        ground (arith, second j, first j, first k, bytes_eq_iff k j),
      )

  -- GETSET answers the value that the key had. The new value is seen unless the key had a deadline
  -- that has passed; other keys are kept.
  pub get_set_function_lem :
      (s : Service d x) (name k v : Bytes) (r : Result)
      → ((get_set_function d x s (name ∷ k ∷ v ∷ []) r).1
          ≡ (elim (join (live s k)) [ none ↦ set_nil r | some w ↦ set_string r (some w) ]))
        × ((q : Bytes)
            → live (get_set_function d x s (name ∷ k ∷ v ∷ []) r).0 q
              ≡ (if bytes_eq k q then (if stale s k then none else some (some v)) else live s q))
  unfolding get_set_function set_data
  get_set_function_lem s name k v r =
      let (b, old) = set_regular_get-Becomes k v s in
      let c = clear_expire-Becomes k (set_regular_get d x k v s).service in
      elim (Option-cases (set_regular_get d x k v s).old_value) [
        | inl absent ↦ rw absent (
          ground (arith, old),
          λ q. ground (arith, b.values q, b.deadlines q, b.clock, bytes_eq_iff k q),
        )
        | inr (w, present) ↦ rw present (
          ground (arith, old),
          λ q. ground (
            arith,
            old,
            b.values q,
            b.deadlines q,
            b.clock,
            c.values q,
            c.deadlines q,
            c.clock,
            bytes_eq_iff k q,
          ),
        )
      ]
