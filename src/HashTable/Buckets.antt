-- ===== src/HashTable/Buckets.antt =====
-- One bucket of src/data_structure/hash_table.h: the list of entries behind an `EntryPointer`, the
-- head first. A pointer to an entry is the key under which the entry stands; a write through it is
-- `modify`, which leaves the key's bytes alone, since `HashTableKey::data_` is const.
use rdss.Base.{
  ℕ, ◌+◌, Bool, true, false, Option, none, some, List, [], ◌∷◌, Bytes, bytes_eq, if◌then◌else◌,
}

-- `HashTableKey`: `data_` and the access time `lru_`, zero in a new key.
pub record HashTableKey : Type 0 where
  pub data_ : Bytes
  pub lru : ℕ

-- `HashTableEntry`; `next` is the rest of the list.
pub record Entry (V : Type 0) : Type 0 where
  pub key : HashTableKey
  pub value : V

abbrev pub Chain : Type 0 → Type 0
Chain V = List (Entry V)

-- The entry after a write of its key's access time and of its value.
abbrev pub edit : {V : Type 0} → (ℕ → ℕ) → (V → V) → Entry V → Entry V
edit f g e = record { key = record { data_ = e.key.data_; lru = f e.key.lru }; value = g e.value }

module _ {V : Type 0} where
  unfoldable pub find_entry_in_bucket : Bytes → Chain V → Option (Entry V)
  find_entry_in_bucket k [] = none
  find_entry_in_bucket k (e ∷ c) =
      if bytes_eq e.key.data_ k then some e else find_entry_in_bucket k c

  unfoldable pub erase_entry_in_bucket : Bytes → Chain V → Chain V × Bool
  erase_entry_in_bucket k [] = ([], false)
  erase_entry_in_bucket k (e ∷ c) =
      let (rest, erased) = erase_entry_in_bucket k c in
      if bytes_eq e.key.data_ k then (c, true) else (e ∷ rest, erased)

  unfoldable pub modify : Bytes → (ℕ → ℕ) → (V → V) → Chain V → Chain V
  modify k f g [] = []
  modify k f g (e ∷ c) = if bytes_eq e.key.data_ k then edit f g e ∷ c else e ∷ modify k f g c

  -- how many entries of the bucket have the key
  unfoldable pub count : Bytes → Chain V → ℕ
  count k [] = 0
  count k (e ∷ c) = (if bytes_eq e.key.data_ k then 1 else 0) + count k c
