-- ===== src/MemoryTracker/Exact.antt =====
-- The tracker counts exactly, as long as no more is freed than was allocated.
use rdss.Base.{
  ℕ, ◌+◌, ◌-◌, ◌^◌, ◌≤◌, ◌<◌, ◌≡◌, arith, max, Bool, true, ◌&&◌, List, [], ◌∷◌, ltb, leb,
}
use rdss.MemoryTracker.{
  Category, mallocator, query_buffer, Tracker, get_all_allocated, raise_peak, allocate, deallocate,
}

-- a call of the tracker
pub data Call : Type 0 where
  allocating freeing : Category → ℕ → Call

unfoldable pub track : List Call → Tracker → Tracker
track [] t = t
track (allocating c n ∷ calls) t = track calls (allocate c n t)
track (freeing c n ∷ calls) t = track calls (deallocate c n t)

-- the bytes of each category and the highest sum, as numbers without a bound
pub record Held : Type 0 where
  pub tables : ℕ
  pub buffers : ℕ
  pub highest : ℕ

abbrev pub gain : Category → ℕ → Held → Held
gain mallocator n b = record {
  tables = b.tables + n;
  buffers = b.buffers;
  highest = max b.highest (b.tables + n + b.buffers);
}
gain query_buffer n b = record {
  tables = b.tables;
  buffers = b.buffers + n;
  highest = max b.highest (b.tables + (b.buffers + n));
}

abbrev pub lose : Category → ℕ → Held → Held
lose mallocator n b = record b { tables = b.tables - n }
lose query_buffer n b = record b { buffers = b.buffers - n }

abbrev pub held : Category → Held → ℕ
held mallocator b = b.tables
held query_buffer b = b.buffers

unfoldable pub bytes_after : List Call → Held → Held
bytes_after [] b = b
bytes_after (allocating c n ∷ calls) b = bytes_after calls (gain c n b)
bytes_after (freeing c n ∷ calls) b = bytes_after calls (lose c n b)

-- No call frees more than is held, and the sum stays below 2 ^ 64.
unfoldable pub balanced : List Call → Held → Bool
balanced [] b = true
balanced (allocating c n ∷ calls) b =
    ltb (b.tables + b.buffers + n) (2 ^ 64) && balanced calls (gain c n b)
balanced (freeing c n ∷ calls) b = leb n (held c b) && balanced calls (lose c n b)

-- the tracker holds these numbers
pub record IsExact (t : Tracker) (b : Held) : Type 0 where
  pub tables : t.counter0 ≡ b.tables
  pub buffers : t.counter1 ≡ b.buffers
  pub peak : t.peak ≡ b.highest
  pub small : b.tables + b.buffers < 2 ^ 64
  pub sum : b.tables + b.buffers ≤ b.highest

allocate-IsExact :
    (c : Category) (n : ℕ) (t : Tracker) (b : Held)
    → IsExact t b
    → b.tables + b.buffers + n < 2 ^ 64
    → IsExact (allocate c n t) (gain c n b)
unfolding allocate raise_peak get_all_allocated
allocate-IsExact mallocator n t b e h = record {
  tables = ground (arith, e.tables, e.buffers, e.peak);
  buffers = ground (arith, e.tables, e.buffers, e.peak);
  peak = ground (arith, e.tables, e.buffers, e.peak);
  small = omega arith;
  sum = omega arith;
}
allocate-IsExact query_buffer n t b e h = record {
  tables = ground (arith, e.tables, e.buffers, e.peak);
  buffers = ground (arith, e.tables, e.buffers, e.peak);
  peak = ground (arith, e.tables, e.buffers, e.peak);
  small = omega arith;
  sum = omega arith;
}

deallocate-IsExact :
    (c : Category) (n : ℕ) (t : Tracker) (b : Held)
    → IsExact t b
    → n ≤ held c b
    → IsExact (deallocate c n t) (lose c n b)
unfolding deallocate
deallocate-IsExact mallocator n t b e h = record {
  tables = omega (arith, e.tables, e.small);
  buffers = e.buffers;
  peak = e.peak;
  small = omega (arith, e.small);
  sum = omega (arith, e.sum);
}
deallocate-IsExact query_buffer n t b e h = record {
  tables = e.tables;
  buffers = omega (arith, e.buffers, e.small);
  peak = e.peak;
  small = omega (arith, e.small);
  sum = omega (arith, e.sum);
}

-- From a tracker that is exact, after any sequence of calls of which none frees more of its category than is
-- held and whose sum stays below 2 ^ 64, the counters are the bytes that are held and the peak is the highest sum that there was.
pub track-IsExact :
    (calls : List Call) (t : Tracker) (b : Held)
    → IsExact t b
    → balanced calls b ≡ true
    → IsExact (track calls t) (bytes_after calls b)
unfolding track bytes_after balanced
track-IsExact [] t b e h = e
track-IsExact (allocating c n ∷ calls) t b e h =
    track-IsExact calls (allocate c n t) (gain c n b)
      (allocate-IsExact c n t b e (ground (arith, h))) (ground (arith, h))
track-IsExact (freeing c n ∷ calls) t b e h =
    track-IsExact calls (deallocate c n t) (lose c n b)
      (deallocate-IsExact c n t b e (ground (arith, h))) (ground (arith, h))
