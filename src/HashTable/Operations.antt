-- ===== src/HashTable/Operations.antt =====
-- Writes through an entry, erasures, and the insertions made of `FindOrCreate` and a write.
use mathlib.Core.Option
use rdss.Base.{
  ℕ, ◌+◌, ◌-◌, ◌≤◌, ◌<◌, ◌≡◌, refl, sym, ap, ◌∙◌, Bool, true, false, Option, none, some, List, [],
  ◌∷◌, arith, Bytes, bytes_eq, bytes_eq_iff, bytes_eq_refl, if◌then◌else◌, length, is_some, inl,
  inr, Bool-cases,
}
use rdss.HashTable.Buckets.{
  HashTableKey, Entry, Chain, edit, find_entry_in_bucket, erase_entry_in_bucket, modify, count,
}
use rdss.HashTable.Entries.{
  find-erase, count-erase-le, find-modify, count-modify, erased-is_some, length-erase,
  length-modify,
}
use rdss.HashTable.Valid.{IsValid}
use rdss.HashTable.Rehash.{table, Keeps, Keeps-refl, advance-Keeps}
use rdss.HashTable.Write.{entries-set_bucket, Fits, Writes, write_bucket}
use rdss.HashTable.{
  Table, entry_at, bucket_of, set_bucket, in_second, is_empty, advance, find_or_create, write_entry,
  upsert, upsert_shared, erase,
}
use rdss.HashTable.Expand.{bucket_once, bucket-le-entries, empty_reads, nonempty}
use rdss.HashTable.FindOrCreate.{or_fresh, find_or_create-Creates}

module _ {V : Type 0} (hash : Bytes → ℕ) where
  module _ (k : Bytes) (f : ℕ → ℕ) (g : V → V) where
    Fits-modify :
        (old : Chain V)
        → ((q : Bytes) → count q old ≤ 1)
        → Fits hash k (modify k f g old) (Option.map (edit f g) (find_entry_in_bucket k old)) old
    Fits-modify old once = record {
      few = λ q. ground (arith, count-modify k q f g old, once q);
      finds = λ q. ground (arith, find-modify k q f g old, bytes_eq_iff k q);
    }

    write_entry_bare :
        (b0 b1 : List (Chain V)) (n : ℕ) (idx : Option ℕ)
        → IsValid hash (table b0 b1 n idx)
        → is_empty b0 ≡ true
        → write_entry hash k f g (table b0 b1 n idx) ≡ table b0 b1 n idx
    unfolding write_entry set_bucket in_second
    write_entry_bare [] b1 n none v h = refl
    write_entry_bare [] b1 n (some i) v h = absurd (omega (arith, v.shape.1))
    write_entry_bare (b ∷ b0) b1 n idx v h = cc

    -- A write through a pointer changes the entry of its key alone.
    pub write_entry-Writes :
        (t : Table V)
        → IsValid hash t
        → Writes hash k (Option.map (edit f g) (entry_at hash t k)) t (write_entry hash k f g t)
          × ((write_entry hash k f g t).entries ≡ t.entries)
    unfolding write_entry
    write_entry-Writes t v = elim (Bool-cases (is_empty t.buckets0)) [
      | inl bare ↦ rw (write_entry_bare t.buckets0 t.buckets1 t.entries t.rehash_index v bare) (
        record {
          valid = v;
          reads = λ q. ground (arith, empty_reads hash t q v, empty_reads hash t k v);
        },
        refl,
      )
      | inr built ↦ (
        write_bucket hash k (modify k f g (bucket_of hash t k))
            (Option.map (edit f g) (entry_at hash t k)) t t.entries v (nonempty t.buckets0 built)
            (unfold entry_at in Fits-modify (bucket_of hash t k) (λ q. bucket_once hash t k q v))
            (omega (arith, length-modify k f g (bucket_of hash t k))),
        entries-set_bucket hash t k (modify k f g (bucket_of hash t k)) t.entries,
      )
    ]

  module _ (k : Bytes) where
    Fits-erase :
        (old : Chain V)
        → ((q : Bytes) → count q old ≤ 1)
        → Fits hash k (erase_entry_in_bucket k old).0 none old
    Fits-erase old once = record {
      few = λ q. ground (arith, count-erase-le k q old, once q);
      finds = λ q. ground (arith, find-erase k q old, once q);
    }

    -- What an erasure leaves: nothing under the key, the answer, and the count.
    pub record Erases (t : Table V) (r : Table V × Bool) : Type 0 where
      pub valid : IsValid hash r.0
      pub reads :
          (q : Bytes) → entry_at hash r.0 q ≡ (if bytes_eq k q then none else entry_at hash t q)
      pub erased : r.1 ≡ is_some (entry_at hash t k)
      pub entries : r.0.entries + (if r.1 then 1 else 0) ≡ t.entries

    erase_absent : (t u : Table V) → Keeps hash t u → entry_at hash u k ≡ none → Erases t (u, false)
    erase_absent t u kept absent = record {
      valid = kept.valid;
      reads = λ q. ground (arith, kept.reads q, bytes_eq_iff k q);
      erased = ap is_some (sym absent ∙ kept.reads k);
      entries = omega (arith, kept.entries);
    }

    erase_present :
        (t u : Table V)
        → Keeps hash t u
        → 0 < length u.buckets0
        → (erase_entry_in_bucket k (bucket_of hash u k)).1 ≡ true
        → Erases t (
          set_bucket hash u k (erase_entry_in_bucket k (bucket_of hash u k)).0 (u.entries - 1),
          true,
        )
    unfolding entry_at
    erase_present t u kept built gone =
        let old = bucket_of hash u k in
        let c = (erase_entry_in_bucket k old).0 in
        let shorter : length c + 1 ≡ length old = rw gone at (length-erase k old) in
        let some_left : 0 < u.entries =
          omega (arith, shorter, bucket-le-entries hash u k kept.valid) in
        let w =
          write_bucket hash k c none u (u.entries - 1) kept.valid built
            (Fits-erase old (λ q. bucket_once hash u k q kept.valid)) (omega (arith, shorter)) in
        record {
          valid = w.valid;
          reads = λ q. ground (arith, w.reads q, kept.reads q);
          erased = sym gone ∙ erased-is_some k old ∙ ap is_some (kept.reads k);
          entries = rw (entries-set_bucket) (omega (arith, kept.entries));
        }

    not_found : (o : Option (Entry V)) → is_some o ≡ false → o ≡ none
    not_found none h = refl
    not_found (some e) h = cc

    -- `Erase` of a well-formed table removes the key, answers whether it was there, and counts one entry less if it was.
    pub erase-Erases : (t : Table V) → IsValid hash t → Erases t (erase hash k t)
    unfolding erase
    erase-Erases t v =
        let u = advance hash t in
        let kept = advance-Keeps hash t v in
        let old = bucket_of hash u k in
        elim (Bool-cases (is_empty t.buckets0)) [
          | inl bare ↦
              rw bare (erase_absent t t (Keeps-refl hash t v) (empty_reads hash t k v bare))
          | inr built ↦ elim (Bool-cases (erase_entry_in_bucket k old).1) [
            | inl gone ↦
                rw (built, gone)
                  (erase_present t u kept (kept.stays (nonempty t.buckets0 built)) gone)
            | inr kept_all ↦
                rw (built, kept_all)
                  (erase_absent t u kept
                    (unfold entry_at in not_found _ (sym (erased-is_some k old) ∙ kept_all)))
          ]
        ]

  module _ (default : V) where
    -- What `Upsert` leaves.
    pub record Upserts (k : Bytes) (e : Entry V) (t : Table V) (r : Table V × Bool) : Type 0 where
      pub valid : IsValid hash r.0
      pub reads :
          (q : Bytes) → entry_at hash r.0 q ≡ (if bytes_eq k q then some e else entry_at hash t q)
      pub existed : r.1 ≡ is_some (entry_at hash t k)
      pub entries : r.0.entries ≡ t.entries + (if r.1 then 0 else 1)

    -- `FindOrCreate` and a write of the entry.
    create_then_write :
        (k : Bytes) (f : ℕ → ℕ) (g : V → V) (t : Table V)
        → IsValid hash t
        → let r = find_or_create hash default k true t in
          Upserts k
            (edit f g (or_fresh hash default k (entry_at hash t k)))
            t
            (write_entry hash k f g r.0, r.1)
    create_then_write k f g t v =
        let r = find_or_create hash default k true t in
        let c = find_or_create-Creates hash default k t v in
        let (w, size) = write_entry-Writes k f g r.0 c.valid in
        record {
          valid = w.valid;
          reads = λ q. ground (arith, w.reads q, c.reads q, c.reads k, bytes_eq_refl k);
          existed = c.existed;
          entries = rw (size, c.existed) c.entries;
        }

    -- `Upsert` stores the value under the key, whether it was there or not, and keeps its access time.
    pub upsert-Upserts :
        (k : Bytes) (x : V) (t : Table V)
        → IsValid hash t
        → Upserts k
            (edit (λ a. a) (λ _. x) (or_fresh hash default k (entry_at hash t k)))
            t
            (upsert hash default k x t)
    unfolding upsert
    upsert-Upserts k x t v = create_then_write k (λ a. a) (λ _. x) t v

    pub upsert_shared-Upserts :
        (key : HashTableKey) (x : V) (t : Table V)
        → IsValid hash t
        → Upserts key.data_
            (edit
              (λ a. if (find_or_create hash default key.data_ true t).1 then a else key.lru)
              (λ _. x)
              (or_fresh hash default key.data_ (entry_at hash t key.data_)))
            t
            (upsert_shared hash default key x t)
    unfolding upsert_shared
    upsert_shared-Upserts key x t v =
        create_then_write key.data_
          (λ a. if (find_or_create hash default key.data_ true t).1 then a else key.lru) (λ _. x) t
          v
