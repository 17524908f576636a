-- ===== src/Service/Eviction/Pool.antt =====
-- The eviction pool stays sorted by the access time, with no time twice.
use rdss.Base.{ℕ, zero, suc, ◌≤◌, ◌<◌, [], ◌∷◌, Bytes, length, take, arith}
use rdss.Service.Eviction.{Pool, emplace}

-- every time in the pool is later
abbrev pub AllAbove : ℕ → Pool → Type 0
AllAbove l [] = Unit
AllAbove l ((m, k) ∷ pool) = (l < m) × AllAbove l pool

abbrev pub IsSorted : Pool → Type 0
IsSorted [] = Unit
IsSorted ((l, k) ∷ pool) = AllAbove l pool × IsSorted pool

AllAbove-trans : (l m : ℕ) (pool : Pool) → l < m → AllAbove m pool → AllAbove l pool
AllAbove-trans l m [] h a = tt
AllAbove-trans l m ((n, k) ∷ pool) h a = (omega (arith, a.0), AllAbove-trans l m pool h a.1)

AllAbove-emplace :
    (l lru : ℕ) (k : Bytes) (pool : Pool)
    → l < lru
    → AllAbove l pool
    → AllAbove l (emplace lru k pool)
unfolding emplace
AllAbove-emplace l lru k [] h a = (h, tt)
AllAbove-emplace l lru k ((m, q) ∷ pool) h a = ground (arith, AllAbove-emplace l lru k pool)

pub emplace-IsSorted :
    (lru : ℕ) (k : Bytes) (pool : Pool) → IsSorted pool → IsSorted (emplace lru k pool)
unfolding emplace
emplace-IsSorted lru k [] s = (tt, tt)
emplace-IsSorted lru k ((m, q) ∷ pool) s =
    ground
      (arith, emplace-IsSorted lru k pool, AllAbove-emplace m lru k pool, AllAbove-trans lru m pool)

AllAbove-take : (n l : ℕ) (pool : Pool) → AllAbove l pool → AllAbove l (take n pool)
AllAbove-take zero l pool a = tt
AllAbove-take (suc n) l [] a = tt
AllAbove-take (suc n) l ((m, k) ∷ pool) a = (a.0, AllAbove-take n l pool a.1)

pub take-IsSorted : (n : ℕ) (pool : Pool) → IsSorted pool → IsSorted (take n pool)
take-IsSorted zero pool s = tt
take-IsSorted (suc n) [] s = tt
take-IsSorted (suc n) ((m, k) ∷ pool) s = (AllAbove-take n m pool s.0, take-IsSorted n pool s.1)

pub length-emplace :
    (lru : ℕ) (k : Bytes) (pool : Pool)
    → (0 < length (emplace lru k pool)) × (length pool ≤ length (emplace lru k pool))
unfolding emplace
length-emplace lru k [] = ground arith
length-emplace lru k ((m, q) ∷ pool) = ground (arith, length-emplace lru k pool)
