-- ===== src/Dispatch/Cron.antt =====
-- service/data_structure_service.cc: the periodic work of `Cron`, and the server as the sequence of the
-- requests and the ticks that it meets.
use rdss.Base.{
  ℕ, ◌+◌, ◌/◌, Bool, not, Option, none, some, List, [], ◌∷◌, Bytes, if◌then◌else◌, ltb, ◌==◌,
}
use rdss.KeyTable.{KeyTable}
use rdss.Resp.Result.{MtsPtr, Result}
use rdss.Service.{Service}
use rdss.Service.Expiry.{active_expire}
use rdss.Service.Eviction.{Draws}
use rdss.Dispatch.{DataStructureService, Outside, invoke}
use rdss.Dispatch.Registry.{register_commands}

-- What a tick reads from the clocks: the time for commands, the access clock, what `ActiveExpire` reads
-- and how far it gets, and the readings of the two calls of `rehash`.
pub record Readings : Type 0 where
  pub command_time : ℕ
  pub access_time : ℕ
  pub expire_time : ℕ
  pub elapsed : ℕ → ℕ
  pub rounds : ℕ
  pub buckets : ℕ
  pub data_times : List Bool
  pub expire_times : List Bool

module _ (d : KeyTable MtsPtr none) (x : KeyTable ℕ 0) (draws : Draws d) where
  -- the service with other tables or clocks
  abbrev pub put_service :
      Service d x → DataStructureService d x draws → DataStructureService d x draws
  put_service t s = record s { evicting = record s.evicting { service = t } }

  -- `UpdateCommandTime`
  unfoldable pub update_command_time : ℕ → Service d x → Service d x
  update_command_time time t = record t { now = time }

  -- `RefreshLRUClock`
  unfoldable pub refresh_lru_clock : ℕ → Service d x → Service d x
  refresh_lru_clock time t = record t { lru_clock = time }

  -- `IncrementalRehashing`, of both tables
  unfoldable pub rehash_tables : List Bool → List Bool → Service d x → Service d x
  rehash_tables data_times expire_times t = record t {
    data_ht = d.incremental_rehashing data_times t.data_ht;
    expire_ht = x.incremental_rehashing expire_times t.expire_ht;
  }

  -- The work of a tick once in `1000 / hz`. `none` is an `ActiveExpire` that has not ended within the
  -- rounds and buckets that it was given.
  unfoldable pub periodic :
      Readings → DataStructureService d x draws → Option (DataStructureService d x draws)
  periodic r s =
      let t = refresh_lru_clock r.access_time s.evicting.service in
      let out =
        active_expire d x r.rounds r.buckets r.expire_time r.elapsed
          s.config.active_expire_cycle_time_percent s.config.hz s.expirer t in
      let s' = record (put_service out.1 s) { expirer = out.0 } in
      if out.2
      then some (put_service (rehash_tables r.data_times r.expire_times out.1) s')
      else none

  -- the service and the variable `cnt` of `Cron`
  pub record Running : Type 0 where
    pub service : DataStructureService d x draws
    pub cnt : ℕ

  -- A round of the loop of `Cron`. `interval_in_millisecond` is computed before the loop, from a setting
  -- that does not change; `none` is its division by zero, or a round that does not end.
  unfoldable pub cron : Readings → Running → Option Running
  cron r w =
      let s =
        put_service (update_command_time r.command_time w.service.evicting.service) w.service in
      if w.service.config.hz == 0
      then none
      else if not w.service.active
      then some w
      else if ltb (w.cnt + 1) (1000 / w.service.config.hz)
      then some (record { service = s; cnt = w.cnt + 1 })
      else elim (periodic r s) [ none ↦ none | some s' ↦ some (record { service = s'; cnt = 0 }) ]

  -- what the server meets: a request, with the result that its client holds, or a tick
  pub data Event : Type 0 where
    request : Outside d x draws → Bytes → List Bytes → Result → Event
    tick : Readings → Event

  unfoldable pub step : Event → Running → Option Running
  step (request o name args r) w =
      elim (invoke d x draws o (register_commands d x draws) (name ∷ args) w.service r) [
        | none ↦ none
        | some p ↦ some (record w { service = p.0 })
      ]
  step (tick r) w = cron r w

  unfoldable pub run : List Event → Running → Option Running
  run [] w = some w
  run (e ∷ events) w = elim (step e w) [ none ↦ none | some w' ↦ run events w' ]
