-- ===== src/Buffer.antt =====
-- base/buffer.h, base/buffer.cc: the query buffer and the output buffer. The memory that `resize` adds
-- is zero. The tracker that counts the bytes is left out.
pub mod Contents
use rdss.Base.{
  ℕ, ◌+◌, ◌-◌, ◌*◌, Bool, true, false, List, [], ◌++◌, Bytes, if◌then◌else◌, ltb, leb, ◌==◌, length,
  take, drop, replicate,
}

pub record Buffer : Type 0 where
  pub virtual_view : Bool
  pub data_ : Bytes
  pub read_index : ℕ
  pub write_index : ℕ
  pub view : Bytes

-- the constructor
abbrev pub new_buffer : ℕ → Buffer
new_buffer capacity = record {
  virtual_view = capacity == 0;
  data_ = replicate capacity 0;
  read_index = 0;
  write_index = 0;
  view = [];
}

unfoldable pub make_room_for : ℕ → Bool → ℕ
make_room_for expected_size greedy =
    if greedy
    then (if ltb expected_size (1024 * 1024)
        then expected_size * 2
        else expected_size + 1024 * 1024)
    else expected_size

abbrev pub available : Buffer → ℕ
available b = length b.data_ - b.write_index

-- `EnsureAvailable`; the Boolean is whether the data moved
unfoldable pub ensure_available : ℕ → Bool → Buffer → Buffer × Bool
ensure_available n greedy b =
    let needed_size = n + b.write_index in
    let new_size = make_room_for needed_size greedy in
    if leb needed_size (length b.data_)
    then (b, false)
    else (record b { data_ = b.data_ ++ replicate (new_size - length b.data_) 0 }, true)

-- bytes written to the start of `Sink()`
unfoldable pub write_sink : Bytes → Buffer → Buffer
write_sink v b = record b {
  data_ = take b.write_index b.data_ ++ (v ++ drop (b.write_index + length v) b.data_);
}

-- `Produce(size_t)`
unfoldable pub produce : ℕ → Buffer → Buffer
produce n b = record b { write_index = b.write_index + n }

-- `Produce(string_view)`
unfoldable pub produce_view : Bytes → Buffer → Buffer
produce_view v b = record b { view = v; write_index = length v }

unfoldable pub source : Buffer → Bytes
source b =
    if b.write_index == b.read_index
    then []
    else if b.virtual_view
    then drop b.read_index b.view
    else take (b.write_index - b.read_index) (drop b.read_index b.data_)

unfoldable pub consume : ℕ → Buffer → Buffer
consume n b = record b { read_index = b.read_index + n }

-- `Buffer::Reset`
unfoldable pub reset_buffer : Buffer → Buffer
reset_buffer b = record b {
  read_index = 0;
  write_index = 0;
  view = if b.virtual_view then [] else b.view;
}
