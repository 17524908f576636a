-- ===== src/HashTable/Entries.antt =====
-- Lookups, counts and lengths of one bucket after an erase or a write.
use mathlib.Core.Option
use rdss.Base.{
  ℕ, ◌+◌, ◌≤◌, ◌≡◌, refl, none, some, [], ◌∷◌, arith, Bytes, bytes_eq, bytes_eq_iff, if◌then◌else◌,
  length, is_some,
}
use rdss.HashTable.Buckets.{
  Entry, Chain, edit, find_entry_in_bucket, erase_entry_in_bucket, modify, count,
}

-- `bytes_eq` tells the same of two keys that are equal to it.
pub bytes_eq_symm : (a b : Bytes) → bytes_eq a b ≡ bytes_eq b a
bytes_eq_symm a b = ground (arith, bytes_eq_iff a b, bytes_eq_iff b a)

module _ {V : Type 0} where
  pub find-eq-none : (k : Bytes) (c : Chain V) → count k c ≡ 0 → find_entry_in_bucket k c ≡ none
  unfolding count find_entry_in_bucket
  find-eq-none k [] h = refl
  find-eq-none k (e ∷ c) h = ground (arith, find-eq-none k c)

  pub count-eq-zero : (k : Bytes) (c : Chain V) → find_entry_in_bucket k c ≡ none → count k c ≡ 0
  unfolding count find_entry_in_bucket
  count-eq-zero k [] h = refl
  count-eq-zero k (e ∷ c) h = ground (arith, count-eq-zero k c)

  pub find-key :
      (k : Bytes) (c : Chain V) (e : Entry V) → find_entry_in_bucket k c ≡ some e → e.key.data_ ≡ k
  unfolding find_entry_in_bucket
  find-key k [] e h = ground arith
  find-key k (d ∷ c) e h = ground (arith, find-key k c e, bytes_eq_iff d.key.data_ k)

  module _ (k q : Bytes) where
    pub find-erase :
        (c : Chain V)
        → count q c ≤ 1
        → find_entry_in_bucket q (erase_entry_in_bucket k c).0
          ≡ (if bytes_eq k q then none else find_entry_in_bucket q c)
    unfolding count find_entry_in_bucket erase_entry_in_bucket
    find-erase [] h = ground arith
    find-erase (e ∷ c) h = ground (
      arith,
      find-erase c,
      find-eq-none q c,
      bytes_eq_iff e.key.data_ k,
      bytes_eq_iff e.key.data_ q,
      bytes_eq_iff k q,
    )

    pub count-erase-le : (c : Chain V) → count q (erase_entry_in_bucket k c).0 ≤ count q c
    unfolding count erase_entry_in_bucket
    count-erase-le [] = ground arith
    count-erase-le (e ∷ c) = ground (arith, count-erase-le c)

    pub find-modify :
        (f : ℕ → ℕ) (g : V → V) (c : Chain V)
        → find_entry_in_bucket q (modify k f g c) ≡ (
            if bytes_eq k q
            then Option.map (edit f g) (find_entry_in_bucket q c)
            else find_entry_in_bucket q c)
    unfolding find_entry_in_bucket modify
    find-modify f g [] = ground arith
    find-modify f g (e ∷ c) = ground (
      arith,
      find-modify f g c,
      bytes_eq_iff e.key.data_ k,
      bytes_eq_iff e.key.data_ q,
      bytes_eq_iff k q,
    )

    pub count-modify : (f : ℕ → ℕ) (g : V → V) (c : Chain V) → count q (modify k f g c) ≡ count q c
    unfolding count modify
    count-modify f g [] = refl
    count-modify f g (e ∷ c) = ground (arith, count-modify f g c)

  pub erased-is_some :
      (k : Bytes) (c : Chain V) → (erase_entry_in_bucket k c).1 ≡ is_some (find_entry_in_bucket k c)
  unfolding find_entry_in_bucket erase_entry_in_bucket
  erased-is_some k [] = refl
  erased-is_some k (e ∷ c) = ground (arith, erased-is_some k c)

  pub length-erase :
      (k : Bytes) (c : Chain V)
      → length (erase_entry_in_bucket k c).0 + (if (erase_entry_in_bucket k c).1 then 1 else 0)
        ≡ length c
  unfolding erase_entry_in_bucket
  length-erase k [] = omega arith
  length-erase k (e ∷ c) = ground (arith, length-erase k c)

  pub length-modify :
      (k : Bytes) (f : ℕ → ℕ) (g : V → V) (c : Chain V) → length (modify k f g c) ≡ length c
  unfolding modify
  length-modify k f g [] = refl
  length-modify k f g (e ∷ c) = ground (arith, length-modify k f g c)
