-- ===== src/Service.antt =====
-- service/data_structure_service.cc: the data table, the expiry table, and the operations that keep
-- them together. A time is a number of milliseconds since 1970, which the clock never precedes.
pub mod View
pub mod Effects
pub mod Invariant
pub mod Eviction
pub mod Expiry
use rdss.Base.{ℕ, Bool, Option, none, some, Bytes, if◌then◌else◌, ltb, leb}
use rdss.HashTable.{Entry}
use rdss.KeyTable.{KeyTable}
use rdss.Resp.Result.{MtsPtr}

pub data SetMode : Type 0 where
  regular nx xx : SetMode

pub data SetStatus : Type 0 where
  no_op inserted updated : SetStatus

-- `entry->value` of the entry, where there is one
abbrev pub pointee : Option (Entry MtsPtr) → MtsPtr
pointee none = none
pointee (some e) = e.value

module _ (d : KeyTable MtsPtr none) (x : KeyTable ℕ 0) where
  -- `now` is `command_time_snapshot_`, and `lru_clock` is the evictor's `lru_clock_`.
  pub record Service : Type 0 where
    pub data_ht : d.Store
    pub expire_ht : x.Store
    pub now : ℕ
    pub lru_clock : ℕ

  unfoldable pub find_or_expire : Bytes → Service → Service × Option (Entry MtsPtr)
  find_or_expire key s =
      let (data_ht, found) = d.find key s.data_ht in
      let (expire_ht, expire_entry) = x.find key s.expire_ht in
      let kept : Service = record s { data_ht = data_ht; expire_ht = expire_ht } in
      let expired : Service = record s {
        data_ht = (d.erase key data_ht).0;
        expire_ht = (x.erase key expire_ht).0;
      } in
      elim found [
        | none ↦ (record s { data_ht = data_ht }, none)
        | some e ↦ elim expire_entry [
          | none ↦ (kept, some e)
          | some t ↦ if ltb s.now t.value then (kept, some e) else (expired, none)
        ]
      ]

  unfoldable pub erase_key : Bytes → Service → Service
  erase_key key s =
      let (data_ht, erased) = d.erase key s.data_ht in
      if erased
      then record s { data_ht = data_ht; expire_ht = (x.erase key s.expire_ht).0 }
      else record s { data_ht = data_ht }

  -- what `SetData` returns; its entry is that of the key, unless the status is `no_op`
  pub record SetOutcome : Type 0 where
    pub service : Service
    pub status : SetStatus
    pub old_value : MtsPtr

  -- `set_entry->GetKey()->SetLRU(GetLRUClock())`
  unfoldable pub touch : Bytes → Service → Service
  touch key s = record s { data_ht = d.write_entry key (λ _. s.lru_clock) (λ v. v) s.data_ht }

  -- a write of the value of the key's entry
  unfoldable pub assign : Bytes → MtsPtr → Service → Service
  assign key v s = record s { data_ht = d.write_entry key (λ a. a) (λ _. v) s.data_ht }

  -- `kRegular` without `get`
  unfoldable pub set_regular : Bytes → Bytes → Service → SetOutcome
  set_regular key value s =
      let (data_ht, exists) = d.upsert key (some value) s.data_ht in
      record {
        service = touch key (record s { data_ht = data_ht });
        status = if exists then updated else inserted;
        old_value = none;
      }

  -- `kRegular` with `get`. The inner `exists` hides the one that the status is taken from, which is
  -- still false.
  unfoldable pub set_regular_get : Bytes → Bytes → Service → SetOutcome
  set_regular_get key value s =
      let (data_ht, exists) = d.find_or_create key s.data_ht in
      let (expire_ht, expire_entry) = x.find key s.expire_ht in
      let old = pointee (d.entry_at data_ht key) in
      let found : Service = record s { data_ht = data_ht; expire_ht = expire_ht } in
      let created : Service = record s { data_ht = data_ht } in
      record {
        service = touch key (assign key (some value) (if exists then found else created));
        status = inserted;
        old_value =
            if exists
            then (elim expire_entry [
              | none ↦ old
              | some t ↦ if ltb s.now t.value then old else none
            ])
            else none;
      }

  unfoldable pub set_nx : Bytes → Bytes → Service → SetOutcome
  set_nx key value s =
      let (data_ht, data_entry) = d.find key s.data_ht in
      let (expire_ht, expire_entry) = x.find key s.expire_ht in
      let found : Service = record s { data_ht = data_ht; expire_ht = expire_ht } in
      let replaced : Service =
        assign key (some value) (record found { expire_ht = (x.erase key expire_ht).0 }) in
      let added : Service = record s { data_ht = (d.insert key (some value) data_ht).0 } in
      let refused : SetOutcome = record { service = found; status = no_op; old_value = none } in
      elim data_entry [
        | none ↦ record { service = touch key added; status = inserted; old_value = none }
        | some e ↦ elim expire_entry [
          | none ↦ refused
          | some t ↦
              if leb t.value s.now
              then record { service = touch key replaced; status = inserted; old_value = none }
              else refused
        ]
      ]

  unfoldable pub set_xx : Bytes → Bytes → Bool → Service → SetOutcome
  set_xx key value get s =
      let (data_ht, data_entry) = d.find key s.data_ht in
      let (expire_ht, expire_entry) = x.find key s.expire_ht in
      let found : Service = record s { data_ht = data_ht; expire_ht = expire_ht } in
      let expired : Service = record s {
        data_ht = (d.erase key data_ht).0;
        expire_ht = (x.erase key expire_ht).0;
      } in
      let done : SetOutcome = record {
        service = touch key (assign key (some value) found);
        status = updated;
        old_value = if get then pointee data_entry else none;
      } in
      elim data_entry [
        | none ↦ record {
          service = record s { data_ht = data_ht };
          status = no_op;
          old_value = none;
        }
        | some e ↦ elim expire_entry [
          | none ↦ done
          | some t ↦
              if leb t.value s.now
              then record { service = expired; status = no_op; old_value = none }
              else done
        ]
      ]

  unfoldable pub set_data : Bytes → Bytes → SetMode → Bool → Service → SetOutcome
  set_data key value regular get s =
      if get then set_regular_get key value s else set_regular key value s
  set_data key value nx get s = set_nx key value s
  set_data key value xx get s = set_xx key value get s
