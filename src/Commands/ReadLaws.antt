-- ===== src/Commands/ReadLaws.antt =====
-- The reading commands against what a client sees: the answers, and that nothing visible changes.
use mathlib.Core.List.{append_assoc}
use rdss.Base.{
  ℕ, ◌+◌, ◌≡◌, refl, arith, true, false, Option, none, some, List, [], ◌∷◌, ◌++◌, map, Bytes,
  bytes_eq, bytes_eq_iff, if◌then◌else◌, ltb, is_some, ap, ◌∙◌, Bool-cases, Option-cases, inl, inr,
  length, pos,
}
use rdss.HashTable.{Entry}
use rdss.KeyTable.{KeyTable}
use rdss.Resp.Result.{MtsPtr, Result, strings, set_nil, set_string, set_int, add_string}
use rdss.Service.{Service, find_or_expire, erase_key, touch, pointee}
use rdss.Service.View.{value_of, deadline, stale, live, join, IsValid}
use rdss.Service.Effects.{find_or_expire-Becomes, find_or_expire_found}
use rdss.Service.Invariant.{
  find_or_expire-IsValid, touch-Becomes, touch-IsValid, erase_key-Becomes, erase_key-IsValid,
}
use rdss.Commands.Reads.{
  get_function_base, get_function, get_del_function, mget_loop, m_get_function, strlen_function,
  exists_loop, exists_function, text,
}

pointee-join : (o : Option (Entry MtsPtr)) → pointee o ≡ join (value_of o)
pointee-join none = refl
pointee-join (some e) = refl

-- the answer of GET
abbrev pub get_reply : Option MtsPtr → Result → Result
get_reply none r = set_nil r
get_reply (some v) r = set_string r v

-- the result once the strings are added to it
abbrev pub answered : List MtsPtr → Result → Result
answered [] r = r
answered (a ∷ rest) r = record r { kind = strings; strings_list = r.strings_list ++ a ∷ rest }

answered-add_string :
    (a : MtsPtr) (rest : List MtsPtr) (r : Result)
    → answered rest (add_string r a) ≡ answered (a ∷ rest) r
answered-add_string a [] r = refl
answered-add_string a (b ∷ bs) r =
    ap (λ (l : List MtsPtr). record r { kind = strings; strings_list = l })
      (append_assoc r.strings_list (a ∷ []) (b ∷ bs))

module _ {d : KeyTable MtsPtr none} {x : KeyTable ℕ 0} where
  -- A client sees the same in `s'` as in `s`: the values, and the deadlines that are not past.
  pub record SameView (s s' : Service d x) : Type 0 where
    pub valid : IsValid s'
    pub lives : (q : Bytes) → live s' q ≡ live s q
    pub deadlines : (q : Bytes) → stale s q ≡ false → deadline s' q ≡ deadline s q
    pub stales : (q : Bytes) → stale s' q ≡ true → stale s q ≡ true
    pub clock : s'.now ≡ s.now

  pub SameView-refl : {s : Service d x} → IsValid s → SameView s s
  SameView-refl v = record {
    valid = v;
    lives = λ q. refl;
    deadlines = λ q h. refl;
    stales = λ q h. h;
    clock = refl;
  }

  pub SameView-trans : {s t u : Service d x} → SameView s t → SameView t u → SameView s u
  SameView-trans {s} {t} a b = record {
    valid = b.valid;
    lives = λ q. b.lives q ∙ a.lives q;
    deadlines =
        λ q h. ground (arith, a.deadlines q, b.deadlines q, a.stales q, Bool-cases (stale t q));
    stales = λ q h. a.stales q (b.stales q h);
    clock = b.clock ∙ a.clock;
  }

  module _ (k : Bytes) (s : Service d x) (v : IsValid s) where
    pub find_or_expire-SameView : SameView s (find_or_expire d x k s).0
    find_or_expire-SameView =
        let b = find_or_expire-Becomes k s in
        record {
          valid = find_or_expire-IsValid k s v;
          lives = λ q. ground (arith, b.values q, b.deadlines q, b.clock, bytes_eq_iff k q);
          deadlines = λ q. ground (arith, b.deadlines q, bytes_eq_iff k q);
          stales = λ q. ground (arith, b.deadlines q, b.clock);
          clock = b.clock;
        }

    pub touch-SameView : SameView s (touch d x k s)
    touch-SameView =
        let b = touch-Becomes k s in
        record {
          valid = touch-IsValid k s v;
          lives = λ q. ground (arith, b.values q, b.deadlines q, b.clock);
          deadlines = λ q h. b.deadlines q;
          stales = λ q. ground (arith, b.deadlines q, b.clock);
          clock = b.clock;
        }

  -- what every read does for a key: the lookup, and the access time of an entry that is found
  unfoldable pub read_key : Bytes → Service d x → Service d x
  read_key k s =
      let (s', found) = find_or_expire d x k s in if is_some found then touch d x k s' else s'

  pub read_key-SameView : (k : Bytes) (s : Service d x) → IsValid s → SameView s (read_key k s)
  unfolding read_key
  read_key-SameView k s v =
      let a = find_or_expire-SameView k s v in
      elim (Option-cases (find_or_expire d x k s).1) [
        | inl absent ↦ rw absent a
        | inr (e, present) ↦
            rw present (SameView-trans a (touch-SameView k (find_or_expire d x k s).0 a.valid))
      ]

  pub get_function_base_lem :
      (k : Bytes) (s : Service d x) (r : Result)
      → ((get_function_base d x k s r).0 ≡ read_key k s)
        × ((get_function_base d x k s r).1 ≡ get_reply (live s k) r)
        × ((get_function_base d x k s r).2 ≡ is_some (live s k))
  unfolding get_function_base read_key
  get_function_base_lem k s r = (
    ground (arith),
    ground (arith, find_or_expire_found k s),
    ground (arith, find_or_expire_found k s),
  )

  -- In a well-formed service, GET answers the value that the key has, or nil if it has none or has expired, and changes nothing
  -- that a client sees.
  pub get_function_lem :
      (s : Service d x) (name k : Bytes) (r : Result)
      → IsValid s
      → SameView s (get_function d x s (name ∷ k ∷ []) r).0
        × ((get_function d x s (name ∷ k ∷ []) r).1 ≡ get_reply (live s k) r)
  unfolding get_function
  get_function_lem s name k r v =
      let (state, reply, _) = get_function_base_lem k s r in
      (rw state (read_key-SameView k s v), reply)

  pub mget_loop_lem :
      (keys : List Bytes) (s : Service d x) (r : Result)
      → IsValid s
      → SameView s (mget_loop d x keys s r).0
        × ((mget_loop d x keys s r).1 ≡ answered (map (λ k. join (live s k)) keys) r)
  unfolding mget_loop read_key
  mget_loop_lem [] s r v = (SameView-refl v, refl)
  mget_loop_lem (k ∷ ks) s r v =
      let a = read_key-SameView k s v in
      let e = (find_or_expire d x k s).1 in
      let (b, listed) = mget_loop_lem ks (read_key k s) (add_string r (pointee e)) a.valid in
      let there : pointee e ≡ join (live s k) =
        pointee-join e ∙ ap join (find_or_expire_found k s) in
      (
        SameView-trans a b,
        listed
            ∙ answered-add_string (pointee e) _ r
            ∙ (λ i. answered (there i ∷ map (λ q. join (a.lives q i)) ks) r),
      )

  -- In a well-formed service, with no strings in the result yet, MGET answers a list of strings, the values of its keys in order, null where a key has none, and changes nothing that
  -- a client sees.
  pub m_get_function_lem :
      (s : Service d x) (name k : Bytes) (ks : List Bytes) (r : Result)
      → IsValid s
      → r.strings_list ≡ []
      → SameView s (m_get_function d x s (name ∷ k ∷ ks) r).0
        × ((m_get_function d x s (name ∷ k ∷ ks) r).1
            ≡ record r { kind = strings; strings_list = map (λ q. join (live s q)) (k ∷ ks) })
  unfolding m_get_function
  m_get_function_lem s name k ks r v fresh =
      let (same, listed) = mget_loop_lem (k ∷ ks) s r v in
      let enough : ltb (length (name ∷ k ∷ ks)) 2 ≡ false = ground arith in
      rw enough (
        same,
        listed
            ∙ ap
                (λ (l : List MtsPtr). record r {
                  kind = strings;
                  strings_list = l ++ map (λ q. join (live s q)) (k ∷ ks);
                })
                fresh,
      )

  -- how many of the keys a client sees, with those named twice counted twice
  unfoldable pub count_live : Service d x → List Bytes → ℕ
  count_live s [] = 0
  count_live s (k ∷ ks) = (if is_some (live s k) then 1 else 0) + count_live s ks

  count_live-SameView :
      (s s' : Service d x) (ks : List Bytes) → SameView s s' → count_live s' ks ≡ count_live s ks
  unfolding count_live
  count_live-SameView s s' [] a = refl
  count_live-SameView s s' (k ∷ ks) a = ground (arith, a.lives k, count_live-SameView s s' ks a)

  exists_loop_lem :
      (keys : List Bytes) (s : Service d x) (cnt : ℕ)
      → IsValid s
      → SameView s (exists_loop d x keys s cnt).0
        × ((exists_loop d x keys s cnt).1 ≡ cnt + count_live s keys)
  unfolding exists_loop read_key count_live
  exists_loop_lem [] s cnt v = (SameView-refl v, omega arith)
  exists_loop_lem (k ∷ ks) s cnt v =
      let a = read_key-SameView k s v in
      let cnt' = if is_some (find_or_expire d x k s).1 then cnt + 1 else cnt in
      let (b, counted) = exists_loop_lem ks (read_key k s) cnt' a.valid in
      (
        SameView-trans a b,
        ground
            (arith, counted, find_or_expire_found k s, count_live-SameView s (read_key k s) ks a),
      )

  -- In a well-formed service, EXISTS answers how many of its arguments are keys that have a value, and changes nothing that a
  -- client sees.
  pub exists_function_lem :
      (s : Service d x) (name : Bytes) (ks : List Bytes) (r : Result)
      → IsValid s
      → SameView s (exists_function d x s (name ∷ ks) r).0
        × ((exists_function d x s (name ∷ ks) r).1 ≡ set_int r (pos (count_live s ks)))
  unfolding exists_function
  exists_function_lem s name ks r v =
      let (same, counted) = exists_loop_lem ks s 0 v in (same, ground (arith, counted))

  -- In a well-formed service, STRLEN answers the length of the key's value, or 0 if it has none, and changes nothing that a
  -- client sees.
  pub strlen_function_lem :
      (s : Service d x) (name k : Bytes) (r : Result)
      → IsValid s
      → SameView s (strlen_function d x s (name ∷ k ∷ []) r).0
        × ((strlen_function d x s (name ∷ k ∷ []) r).1
            ≡ set_int r (pos (length (text (join (live s k))))))
  unfolding strlen_function read_key
  strlen_function_lem s name k r v =
      let a = read_key-SameView k s v in
      elim (Option-cases (find_or_expire d x k s).1) [
        | inl absent ↦ rw absent (rw absent at a, ground (arith, find_or_expire_found k s))
        | inr (e, present) ↦ rw present (rw present at a, ground (arith, find_or_expire_found k s))
      ]

  -- In a well-formed service, GETDEL of a key that stays readable answers as GET does, and then the key has no value and no
  -- deadline; other keys are kept.
  pub get_del_function_lem :
      (s : Service d x) (name k : Bytes) (r : Result)
      → IsValid s
      → (t : Service d x) × (get_del_function d x true s (name ∷ k ∷ []) r
          ≡ some (t, get_reply (live s k) r))
        × IsValid t
        × ((q : Bytes) → live t q ≡ (if bytes_eq k q then none else live s q))
  unfolding get_del_function
  get_del_function_lem s name k r v =
      let (state, reply, found) = get_function_base_lem k s r in
      let a = read_key-SameView k s v in
      let s' = read_key k s in
      let b = erase_key-Becomes k s' a.valid in
      elim (Bool-cases (is_some (live s k))) [
        | inl there ↦ (
          erase_key d x k s',
          rw (state, reply, found, there) refl,
          erase_key-IsValid k s' a.valid,
          λ q. ground (arith, b.values q, b.deadlines q, b.clock, a.lives q),
        )
        | inr gone ↦ (
          s',
          rw (state, reply, found, gone) refl,
          a.valid,
          λ q. ground (arith, a.lives q, bytes_eq_iff k q),
        )
      ]
