-- ===== src/Commands/RangeLaws.antt =====
-- GETRANGE, SETRANGE and APPEND.
use rdss.Base.{
  ℕ, zero, suc, ◌+◌, ◌-◌, ◌%◌, ◌^◌, ◌≤◌, ◌<◌, ◌≡◌, refl, arith, Bool, true, false, ◌&&◌, not,
  Option, none, some, [], ◌∷◌, ◌++◌, Bytes, bytes_eq_iff, bytes_eq_refl, if◌then◌else◌, leb, ◌==◌,
  ap, ◌∙◌, length, length-append, take-append, drop-append, pos, take, drop, replicate, min, ltb,
  is_some, Bool-cases, inl, inr,
}
use rdss.KeyTable.{KeyTable}
use rdss.Resp.Result.{MtsPtr, Result, set_int}
use rdss.Service.{Service, touch, assign, pointee}
use rdss.Service.View.{stored, deadline, stale, put, join}
use rdss.Service.Effects.{Becomes}
use rdss.Service.Invariant.{touch-Becomes}
use rdss.Commands.Reads.{text, transform_index, get_range}
use rdss.Commands.Times.{parse_unsigned}
use rdss.Commands.Writes.{range_value, append_function, set_range_function}

take-all : (n : ℕ) (xs : Bytes) → length xs ≤ n → take n xs ≡ xs
take-all zero [] h = refl
take-all zero (a ∷ xs) h = elim h [ ]
take-all (suc n) [] h = refl
take-all (suc n) (a ∷ xs) h = ap (λ (l : Bytes). a ∷ l) (take-all n xs (omega arith))

length-drop' : (n : ℕ) (xs : Bytes) → length (drop n xs) ≡ length xs - n
length-drop' zero xs = omega arith
length-drop' (suc n) [] = omega arith
length-drop' (suc n) (a ∷ xs) = omega (arith, length-drop' n xs)

-- the bytes of a value from index `a` to index `b`, both included
abbrev pub slice : Bytes → ℕ → ℕ → Bytes
slice v a b = take (b - a + 1) (drop a v)

get_range_at :
    (v : Bytes) (a b : ℕ)
    → a < length v
    → a < b
    → get_range v (pos a) (pos b) ≡ take (min (length v) b - a + 1) (drop a v ++ 0 ∷ [])
unfolding get_range transform_index
get_range_at v a b small le =
    let i : min (length v) a ≡ a = omega arith in
    let one : (a == length v) ≡ false = ground arith in
    let two : leb (min (length v) b) a ≡ false = ground arith in
    rw (i, one, two, drop-append a v (0 ∷ []) (omega arith))

-- GETRANGE with indices from the start returns the bytes between them, both included, if the first is
-- before the last and the last is within the value.
pub get_range_inside :
    (v : Bytes) (a b : ℕ) → a < b → b < length v → get_range v (pos a) (pos b) ≡ slice v a b
get_range_inside v a b le small =
    let i : min (length v) b ≡ b = omega arith in
    get_range_at v a b (omega arith) le
    ∙ rw i (take-append (b - a + 1) (drop a v) (0 ∷ []) (omega (arith, length-drop' a v)))

-- GETRANGE of one index returns nothing.
pub get_range_single : (v : Bytes) (a : ℕ) → get_range v (pos a) (pos a) ≡ []
unfolding get_range transform_index
get_range_single v a = ground arith

-- GETRANGE whose last index is past the end returns the rest of the value and one null byte more.
pub get_range_past_end :
    (v : Bytes) (a b : ℕ)
    → a < length v
    → length v ≤ b
    → get_range v (pos a) (pos b) ≡ drop a v ++ 0 ∷ []
get_range_past_end v a b small past_end =
    let i : min (length v) b ≡ length v = omega arith in
    get_range_at v a b small (omega arith)
    ∙ rw i (
        take-all (length v - a + 1) (drop a v ++ 0 ∷ [])
          (omega (arith, length-drop' a v, length-append (drop a v) (0 ∷ []))))

-- The bytes before those that SETRANGE writes. In place: the old value, cut or padded with null bytes
-- to the offset. In a new value: one null byte more than the offset, but none for the offset 0.
abbrev pub before_range : Bool → Bytes → ℕ → Bytes
before_range true old start = take start (old ++ replicate start 0)
before_range false old zero = []
before_range false old (suc n) = replicate (n + 2) 0

replicate-take : (n m : ℕ) → n ≤ m → take {A = ℕ} n (replicate m 0) ≡ replicate n 0
replicate-take zero m h = refl
replicate-take (suc n) zero h = elim h [ ]
replicate-take (suc n) (suc m) h = ap (λ (l : Bytes). 0 ∷ l) (replicate-take n m (omega arith))

-- a value cut or padded to a length, by cases on which of the two it is
padded :
    (old : Bytes) (n : ℕ)
    → (length old ≤ n → take n (old ++ replicate n 0) ≡ old ++ replicate (n - length old) 0)
      × (n ≤ length old → take n (old ++ replicate n 0) ≡ take n old)
padded old n = (λ h. long old n n h (omega arith), λ h. take-append n old (replicate n 0) h)
  where
    long :
        (xs : Bytes) (k m : ℕ)
        → length xs ≤ k
        → k ≤ m
        → take k (xs ++ replicate m 0) ≡ xs ++ replicate (k - length xs) 0
    long [] k m h le = let same : k - 0 ≡ k = omega arith in rw same (replicate-take k m le)
    long (a ∷ xs) zero m h le = elim h [ ]
    long (a ∷ xs) (suc k) m h le =
        let same : suc k - suc (length xs) ≡ k - length xs = omega arith in
        rw same (ap (λ (l : Bytes). a ∷ l) (long xs k m (omega arith) (omega arith)))

range_value_lem :
    (keep : Bool) (old : Bytes) (start : ℕ) (v : Bytes)
    → start + 1 < 2 ^ 32
    → range_value keep old start v ≡ before_range keep old start ++ v
unfolding range_value
range_value_lem true old start v h = elim (Bool-cases (ltb (length old) start)) [
  | inl short ↦ rw short (rw ((padded old start).0 (ground (arith, short))) refl)
  | inr long ↦ rw long (rw ((padded old start).1 (ground (arith, long))) refl)
]
range_value_lem false old zero v h = refl
range_value_lem false old (suc n) v h =
    let small : (suc n + 1) % 2 ^ 32 ≡ n + 2 = omega arith in
    let some_offset : (suc n == 0) ≡ false = ground arith in rw (some_offset, small) refl

-- the value that APPEND leaves under the key
abbrev pub appended : Option MtsPtr → Bytes → Bytes
appended none v = v
appended (some o) v = text o ++ v

module _ {d : KeyTable MtsPtr none} {x : KeyTable ℕ 0} where
  -- APPEND adds the bytes to the value that is stored, stale or not, answers the new length, and keeps
  -- every deadline and every other value.
  pub append_function_lem :
      (s : Service d x) (name k v : Bytes) (r : Result)
      → ((append_function d x s (name ∷ k ∷ v ∷ []) r).1
          ≡ set_int r (pos (length (appended (stored s k) v))))
        × Becomes s
            (append_function d x s (name ∷ k ∷ v ∷ []) r).0
            (put k (some (some (appended (stored s k) v))) (stored s))
            (deadline s)
  unfolding append_function assign touch
  append_function_lem s name k v r =
      let dt = (d.find_or_create k s.data_ht).0 in
      let n = appended (stored s k) v in
      let c = touch-Becomes k (assign d x k (some n) (record s { data_ht = dt })) in
      (
        ground (arith, d.create_existed k s.data_ht, d.create_reads k k s.data_ht, bytes_eq_refl k),
        record {
          values = λ q. ground (
            arith,
            c.values q,
            d.create_existed k s.data_ht,
            d.create_reads k k s.data_ht,
            d.create_reads k q s.data_ht,
            d.write_reads k q (λ a. a) (λ _. some n) dt,
            bytes_eq_refl k,
            bytes_eq_iff k q,
          );
          deadlines = λ q. refl;
          clock = refl;
        },
      )

  -- SETRANGE with an offset below 2 ^ 32 - 1 stores the bytes before the offset and then the new bytes, with nothing of
  -- the old value after them, and answers the length. It changes a value in place that is not stale and
  -- not held by a reply, padded with null bytes up to the offset; else it starts a new value, with one null byte more than the offset unless that is 0. Other keys keep value and deadline; the key,
  -- if it is stored, loses a deadline that has passed.
  pub set_range_function_lem :
      (shared : Bool) (s : Service d x) (name k offset v : Bytes) (start : ℕ) (r : Result)
      → parse_unsigned (2 ^ 32 - 1) offset ≡ some start
      → start + 1 < 2 ^ 32
      → let keep = is_some (stored s k) && not (stale s k) && not shared in
        let value = before_range keep (text (join (stored s k))) start ++ v in
        let p = set_range_function d x shared s (name ∷ k ∷ offset ∷ v ∷ []) r in
        (p.1 ≡ set_int r (pos (length value)))
        × Becomes s p.0
            (put k (some (some value)) (stored s))
            (if is_some (stored s k) && stale s k then put k none (deadline s) else deadline s)
  unfolding set_range_function assign touch
  set_range_function_lem shared s name k offset v start r parsed small =
      let dt = (d.find_or_create k s.data_ht).0 in
      let xt = (x.find k s.expire_ht).0 in
      let keep = is_some (stored s k) && not (stale s k) && not shared in
      let there : (d.find_or_create k s.data_ht).1 ≡ is_some (stored s k) =
        ground (arith, d.create_existed k s.data_ht) in
      let old : text (pointee (d.entry_at dt k)) ≡ text (join (stored s k)) =
        ground (arith, d.create_reads k k s.data_ht, bytes_eq_refl k) in
      let past_now : (elim (x.find k s.expire_ht).1 as (λ _. Bool) [
        | none ↦ false
        | some t ↦ leb t.value s.now
      ])
          ≡ stale s k =
        ground (arith, x.find_found k s.expire_ht) in
      let value = before_range keep (text (join (stored s k))) start ++ v in
      let same : range_value keep (text (join (stored s k))) start v ≡ value =
        range_value_lem keep (text (join (stored s k))) start v small in
      rw (parsed, there, old, past_now, same)
        (
          refl,
          record {
            values = λ q. ground (
              arith,
              d.create_reads k q s.data_ht,
              d.write_reads k q (λ a. a) (λ _. some value) dt,
              d.write_reads k q (λ _. s.lru_clock) (λ a. a)
                  (d.write_entry k (λ a. a) (λ _. some value) dt),
              bytes_eq_refl k,
              bytes_eq_iff k q,
            );
            deadlines = λ q. ground (arith, x.find_reads k q s.expire_ht, x.erase_reads k q xt);
            clock = refl;
          },
        )
