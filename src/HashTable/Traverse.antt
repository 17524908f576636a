-- ===== src/HashTable/Traverse.antt =====
-- data_structure/hash_table.h: `rev`, `NextIndex` and `TraverseBucket`. A size_t has 64 bits.
use Prim.Native.Nat.{bit_and, bit_or, bit_xor}
use rdss.Base.{
  ℕ, zero, suc, ◌+◌, ◌-◌, ◌*◌, ◌/◌, ◌%◌, ◌^◌, ◌<◌, ◌≡◌, refl, Bool, true, false, ◌&&◌, Option, none,
  some, List, [], ◌∷◌, Bytes, if◌then◌else◌, ◌==◌, length, get_or, get_elem?, arith, set, replicate,
  Bool-cases, inl, inr,
}
use rdss.HashTable.Buckets.{Entry, Chain}
use rdss.HashTable.Valid.{IsValid, ValidAt}
use rdss.HashTable.Rehash.{table}
use rdss.HashTable.Random.{count-get_elem, find-get_elem}
use rdss.HashTable.{Table, is_rehashing, entry_at, bucket_of, in_second}

abbrev pub word_max : ℕ
word_max = 2 ^ 64 - 1

-- `v << s`
abbrev pub shift_left : ℕ → ℕ → ℕ
shift_left v s = v * 2 ^ s % 2 ^ 64

-- the loop of `rev`: `s` halves until it is 0, which takes seven rounds from 64
unfoldable pub rev_loop : ℕ → ℕ → ℕ → ℕ → ℕ
rev_loop zero s mask v = v
rev_loop (suc rounds) s mask v =
    let s' = s / 2 in
    let mask' = bit_xor mask (shift_left mask s') in
    let v' = bit_or (bit_and (v / 2 ^ s') mask') (bit_and (shift_left v s') (word_max - mask')) in
    elim (s' == 0) [ true ↦ v | false ↦ rev_loop rounds s' mask' v' ]

unfoldable pub rev : ℕ → ℕ
rev v = rev_loop 7 64 word_max v

-- the loop of `NextIndex`: the highest bit below the `i`th that is set
unfoldable pub highest_bit : ℕ → ℕ → ℕ
highest_bit zero size = 0
highest_bit (suc i) size = elim (size / 2 ^ i % 2 == 1) [ true ↦ i | false ↦ highest_bit i size ]

unfoldable pub next_index : ℕ → ℕ → ℕ
next_index index size =
    let mask = 2 ^ highest_bit 32 size - 1 in
    rev ((rev (bit_or index (word_max - mask)) + 1) % 2 ^ 64)

-- the entries that `TraverseBucket` hands to its function, and the index that it returns
unfoldable pub traverse_bucket : {V : Type 0} → ℕ → Table V → ℕ × Chain V
traverse_bucket bucket_index t =
    if is_rehashing t
    then (0, [])
    else (next_index bucket_index (length t.buckets0), get_or t.buckets0 bucket_index [])

-- the buckets that `rounds` steps of a traversal visit, and the last index
unfoldable pub visited : ℕ → ℕ → ℕ → List Bool → List Bool × ℕ
visited zero index size seen = (seen, index)
visited (suc rounds) index size seen =
    visited rounds (next_index index size) size (set seen index true)

-- whether a traversal of `size` steps from bucket 0 visits every bucket and comes back
abbrev pub all_true : List Bool → Bool
all_true [] = true
all_true (b ∷ bs) = b && all_true bs

unfoldable pub is_full_cycle : ℕ → Bool
is_full_cycle size =
    let (seen, index) = visited size 0 size (replicate size false) in all_true seen && index == 0

-- the tables of 2 ^ k buckets, for every k below n
unfoldable pub all_cycle : ℕ → Bool
all_cycle zero = true
all_cycle (suc n) = is_full_cycle (2 ^ n) && all_cycle n

all_cycle_table : all_cycle 9 ≡ true
unfolding all_cycle is_full_cycle visited next_index highest_bit rev rev_loop
all_cycle_table = refl

all_cycle_sound : (n k : ℕ) → all_cycle n ≡ true → k < n → is_full_cycle (2 ^ k) ≡ true
unfolding all_cycle
all_cycle_sound zero k h lt = ground arith
all_cycle_sound (suc n) k h lt = elim (Bool-cases (k == n)) [
  | inl same ↦ let e : k ≡ n = ground arith in rw e (ground arith)
  | inr other ↦ all_cycle_sound n k (ground arith) (ground arith)
]

-- In a table of 2 ^ k buckets, k at most 8, as many calls of `TraverseBucket` as there are buckets visit
-- every bucket, starting with the first, and the index that comes back is that of the first again.
pub next_index-is_full_cycle : (k : ℕ) → k < 9 → is_full_cycle (2 ^ k) ≡ true
next_index-is_full_cycle k h = all_cycle_sound 9 k all_cycle_table h

module _ {V : Type 0} (hash : Bytes → ℕ) where
  traverse_reads :
      (b0 b1 : List (Chain V)) (n : ℕ) (r : Option ℕ) (i j : ℕ) (e : Entry V)
      → ValidAt hash b0 b1 r
      → get_elem? (traverse_bucket i (table b0 b1 n r)).1 j ≡ some e
      → entry_at hash (table b0 b1 n r) e.key.data_ ≡ some e
  unfolding traverse_bucket entry_at bucket_of in_second
  traverse_reads b0 b1 n none i j e (_, placed) h =
      let c = get_or b0 i [] in
      let here = count-get_elem c j e h in
      let p = placed e.key.data_ i in
      let found = find-get_elem c j e h p.0 in
      let same : hash e.key.data_ % length b0 ≡ i = ground (arith, here, p) in rw same found
  traverse_reads b0 b1 n (some k) i j e v h = ground (arith, h)

  -- What a traversal is handed is stored: lookups of its key find that entry.
  pub traverse_stored :
      (i j : ℕ) (t : Table V) (e : Entry V)
      → IsValid hash t
      → get_elem? (traverse_bucket i t).1 j ≡ some e
      → entry_at hash t e.key.data_ ≡ some e
  traverse_stored i j t e v h =
      traverse_reads t.buckets0 t.buckets1 t.entries t.rehash_index i j e v.shape h
