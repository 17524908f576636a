-- ===== src/HashTable/Refinement.antt =====
-- Every sequence of operations on a new table reads as the same sequence on a function from keys to
-- values, whatever rehashing the operations start, advance and finish on the way.
use rdss.Base.{
  ℕ, ◌≡◌, refl, ap, ◌∙◌, Option, none, some, List, [], ◌∷◌, arith, Bytes, bytes_eq, if◌then◌else◌,
  is_some, inl, inr, Bool-cases,
}
use rdss.HashTable.Buckets.{Entry, count, find_entry_in_bucket}
use rdss.HashTable.Placement.{total}
use rdss.HashTable.Valid.{IsValid}
use rdss.HashTable.Rehash.{rehash_some_done, entry_at_idle}
use rdss.HashTable.FindOrCreate.{find_lem}
use rdss.HashTable.Operations.{write_entry-Writes, erase-Erases, upsert-Upserts}
use rdss.HashTable.Implementation.{insert_lem}
use rdss.HashTable.{
  Table, empty, is_rehashing, entry_at, find, write_entry, upsert, insert, erase, rehash_some,
}

-- a call of the table by its client
pub data Op (V : Type 0) : Type 0 where
  finding : Bytes → Op V
  upserting : Bytes → V → Op V
  inserting : Bytes → V → Op V
  assigning : Bytes → V → Op V
  erasing : Bytes → Op V
  rehashing_some : ℕ → Op V

abbrev pub value_of : {V : Type 0} → Option (Entry V) → Option V
value_of none = none
value_of (some e) = some e.value

-- the client's calls on a function from keys to values
unfoldable pub expect : {V : Type 0} → Op V → (Bytes → Option V) → Bytes → Option V
expect (finding k) m q = m q
expect (upserting k v) m q = if bytes_eq k q then some v else m q
expect (inserting k v) m q = if bytes_eq k q then (if is_some (m k) then m k else some v) else m q
expect (assigning k v) m q = if bytes_eq k q then (if is_some (m k) then some v else none) else m q
expect (erasing k) m q = if bytes_eq k q then none else m q
expect (rehashing_some n) m q = m q

unfoldable pub expect_all : {V : Type 0} → List (Op V) → (Bytes → Option V) → Bytes → Option V
expect_all [] m = m
expect_all (o ∷ os) m = expect_all os (expect o m)

pub empty-IsValid : (V : Type 0) (hash : Bytes → ℕ) → IsValid {V = V} hash empty
unfolding total count
empty-IsValid V hash = record {
  counted = omega arith;
  shape = (refl, λ q j. (omega arith, λ _. refl));
}

module _ {V : Type 0} (hash : Bytes → ℕ) (default : V) where
  -- `RehashSome` is called of a table that is being rehashed only.
  unfoldable pub call : Op V → Table V → Table V
  call (finding k) t = (find hash default k t).0
  call (upserting k v) t = (upsert hash default k v t).0
  call (inserting k v) t = (insert hash default k v t).0
  call (assigning k v) t = write_entry hash k (λ a. a) (λ _. v) t
  call (erasing k) t = (erase hash k t).0
  call (rehashing_some n) t = if is_rehashing t then (rehash_some hash n t).0 else t

  unfoldable pub call_all : List (Op V) → Table V → Table V
  call_all [] t = t
  call_all (o ∷ os) t = call_all os (call o t)

  record Agrees (t : Table V) (m : Bytes → Option V) : Type 0 where
    valid : IsValid hash t
    agrees : (q : Bytes) → value_of (entry_at hash t q) ≡ m q

  call-Agrees :
      (o : Op V) (t : Table V) (m : Bytes → Option V) → Agrees t m → Agrees (call o t) (expect o m)
  unfolding call expect
  call-Agrees (finding k) t m a =
      let (kept, found) = find_lem hash default k t a.valid in
      record { valid = kept.valid; agrees = λ q. ap value_of (kept.reads q) ∙ a.agrees q }
  call-Agrees (upserting k v) t m a =
      let u = upsert-Upserts hash default k v t a.valid in
      record { valid = u.valid; agrees = λ q. ground (arith, u.reads q, a.agrees q) }
  call-Agrees (inserting k v) t m a =
      let u = insert_lem hash default k v t a.valid in
      record { valid = u.0; agrees = λ q. ground (arith, u.1 q, a.agrees q, a.agrees k) }
  call-Agrees (assigning k v) t m a =
      let w = (write_entry-Writes hash k (λ x. x) (λ _. v) t a.valid).0 in
      record { valid = w.valid; agrees = λ q. ground (arith, w.reads q, a.agrees q, a.agrees k) }
  call-Agrees (erasing k) t m a =
      let e = erase-Erases hash k t a.valid in
      record { valid = e.valid; agrees = λ q. ground (arith, e.reads q, a.agrees q) }
  call-Agrees (rehashing_some n) t m a = elim (Bool-cases (is_rehashing t)) [
    | inl on ↦
        let kept = (rehash_some_done hash t n a.valid on).kept in
        rw on record { valid = kept.valid; agrees = λ q. ap value_of (kept.reads q) ∙ a.agrees q }
    | inr off ↦ rw off a
  ]

  call_all-Agrees :
      (os : List (Op V)) (t : Table V) (m : Bytes → Option V)
      → Agrees t m
      → Agrees (call_all os t) (expect_all os m)
  unfolding call_all expect_all
  call_all-Agrees [] t m a = a
  call_all-Agrees (o ∷ os) t m a = call_all-Agrees os (call o t) (expect o m) (call-Agrees o t m a)

  empty-Agrees : Agrees empty (λ _. none)
  unfolding find_entry_in_bucket
  empty-Agrees = record {
    valid = empty-IsValid V hash;
    agrees = λ q. ap value_of (entry_at_idle hash [] [] 0 q);
  }

  -- After any sequence of calls on a new table, every entry stands where the lookups go, no key has
  -- two entries, and the count is that of the entries stored.
  pub call_all-IsValid : (os : List (Op V)) → IsValid hash (call_all os empty)
  call_all-IsValid os = (call_all-Agrees os empty (λ _. none) empty-Agrees).valid

  -- After any sequence of calls on a new table, `Find` returns for every key the value that the same
  -- calls leave in a function from keys to values, or nothing where they leave none.
  pub find-call_all :
      (os : List (Op V)) (q : Bytes)
      → value_of (find hash default q (call_all os empty)).1 ≡ expect_all os (λ _. none) q
  find-call_all os q =
      let a = call_all-Agrees os empty (λ _. none) empty-Agrees in
      ap value_of (find_lem hash default q (call_all os empty) a.valid).1 ∙ a.agrees q
