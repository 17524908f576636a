-- ===== src/MemoryTracker.antt =====
-- base/memory.h: the counters of allocated bytes, by category, and the highest sum seen. The calls come
-- one after another; a size_t has 64 bits.
pub mod Exact
use rdss.Base.{ℕ, ◌+◌, ◌-◌, ◌%◌, ◌^◌, Bool, true, false, List, [], ◌∷◌, if◌then◌else◌, ltb}

-- `MemTrackingCategory` of an allocation
pub data Category : Type 0 where
  mallocator query_buffer : Category

-- `counter_` and `peak_`
pub record Tracker : Type 0 where
  pub counter0 : ℕ
  pub counter1 : ℕ
  pub peak : ℕ

abbrev pub new_tracker : Tracker
new_tracker = record { counter0 = 0; counter1 = 0; peak = 0 }

-- `fetch_add` and `fetch_sub`
abbrev pub fetch_add : ℕ → ℕ → ℕ
fetch_add counter n = (counter + n) % 2 ^ 64

abbrev pub fetch_sub : ℕ → ℕ → ℕ
fetch_sub counter n = (counter + (2 ^ 64 - n)) % 2 ^ 64

abbrev pub with_counter : Category → (ℕ → ℕ) → Tracker → Tracker
with_counter mallocator f t = record t { counter0 = f t.counter0 }
with_counter query_buffer f t = record t { counter1 = f t.counter1 }

-- `GetAllocated` of a category, and of all
abbrev pub get_allocated : Category → Tracker → ℕ
get_allocated mallocator t = t.counter0
get_allocated query_buffer t = t.counter1

unfoldable pub get_all_allocated : Tracker → ℕ
get_all_allocated t = (t.counter0 + t.counter1) % 2 ^ 64

-- the loop that raises `peak_`
unfoldable pub raise_peak : Tracker → Tracker
raise_peak t =
    let sum = get_all_allocated t in if ltb t.peak sum then record t { peak = sum } else t

-- `Allocate`
unfoldable pub allocate : Category → ℕ → Tracker → Tracker
allocate c n t = raise_peak (with_counter c (λ counter. fetch_add counter n) t)

-- `Deallocate`
unfoldable pub deallocate : Category → ℕ → Tracker → Tracker
deallocate c n t = with_counter c (λ counter. fetch_sub counter n) t
