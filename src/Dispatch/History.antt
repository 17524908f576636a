-- ===== src/Dispatch/History.antt =====
-- The states that requests and ticks lead to, in whatever order they come: the tables are well formed,
-- and the next request is answered.
use rdss.Base.{
  ℕ, ◌+◌, ◌/◌, ◌≡◌, ◌∙◌, arith, Bool, false, not, none, some, List, [], ◌∷◌, Bytes, bytes, ltb,
  either, ◌==◌, subst, Option,
}
use rdss.KeyTable.{KeyTable}
use rdss.Resp.Result.{MtsPtr, Result}
use rdss.Service.{Service}
use rdss.Service.View.{IsValid}
use rdss.Service.Expiry.{active_expire}
use rdss.Service.Expiry.View.{active_expire-Expires}
use rdss.Service.Eviction.{Draws}
use rdss.Service.Eviction.Sampling.{Hits}
use rdss.Dispatch.{DataStructureService, Outside, invoke}
use rdss.Dispatch.Registry.{register_commands}
use rdss.Dispatch.Names.{is_name_of}
use rdss.Dispatch.Calls.{IsAnswerable, IsReady}
use rdss.Dispatch.Invocation.{invoke-Returns, invoke-IsReady}
use rdss.Dispatch.Cron.{
  Readings, put_service, update_command_time, refresh_lru_clock, rehash_tables, periodic, Running,
  cron, Event, request, tick, step, run,
}

module _ (d : KeyTable MtsPtr none) (x : KeyTable ℕ 0) (draws : Draws d) where
  -- the server is ready and was not shut down
  pub record IsOpen (s : DataStructureService d x draws) : Type 0 where
    pub ready : IsReady s
    pub running : s.shutdown_promise ≡ false

  put_service-IsOpen :
      (t : Service d x) (s : DataStructureService d x draws)
      → IsOpen s
      → IsValid t
      → IsOpen (put_service d x draws t s)
  put_service-IsOpen t s h v = record {
    ready = record { valid = v; samples = h.ready.samples };
    running = h.running;
  }

  rehash_tables-IsValid :
      (data_times expire_times : List Bool) (t : Service d x)
      → IsValid t
      → IsValid (rehash_tables d x draws data_times expire_times t)
  unfolding rehash_tables
  rehash_tables-IsValid data_times expire_times t v = record {
    bounded = λ q h. ground (
      arith,
      d.rehashing_reads data_times q t.data_ht,
      x.rehashing_reads expire_times q t.expire_ht,
      v.bounded q,
      h,
    );
    non_null = λ q h. ground (arith, d.rehashing_reads data_times q t.data_ht, v.non_null q, h);
  }

  refresh_lru_clock-IsValid :
      (time : ℕ) (t : Service d x) → IsValid t → IsValid (refresh_lru_clock d x draws time t)
  unfolding refresh_lru_clock
  refresh_lru_clock-IsValid time t v = record { bounded = v.bounded; non_null = v.non_null }

  update_command_time-IsValid :
      (time : ℕ) (t : Service d x) → IsValid t → IsValid (update_command_time d x draws time t)
  unfolding update_command_time
  update_command_time-IsValid time t v = record { bounded = v.bounded; non_null = v.non_null }

  -- what holds of the service, or of the server, that a step leaves, if it leaves one
  OpensTo : Option (DataStructureService d x draws) → Type 0
  OpensTo none = Unit
  OpensTo (some s) = IsOpen s

  RunsTo : Option (Running d x draws) → Type 0
  RunsTo none = Unit
  RunsTo (some w) = IsOpen w.service

  periodic-OpensTo :
      (r : Readings) (s : DataStructureService d x draws)
      → IsOpen s
      → OpensTo (periodic d x draws r s)
  unfolding periodic OpensTo
  periodic-OpensTo r s h =
      let t = refresh_lru_clock d x draws r.access_time s.evicting.service in
      let out =
        active_expire d x r.rounds r.buckets r.expire_time r.elapsed
          s.config.active_expire_cycle_time_percent s.config.hz s.expirer t in
      let (v, _, _) =
        active_expire-Expires r.rounds r.buckets r.expire_time r.elapsed
          s.config.active_expire_cycle_time_percent s.config.hz s.expirer t
          (refresh_lru_clock-IsValid r.access_time s.evicting.service h.ready.valid) in
      either OpensTo out.2
        (record {
          ready = record {
            valid = rehash_tables-IsValid r.data_times r.expire_times out.1 v;
            samples = h.ready.samples;
          };
          running = h.running;
        })
        tt

  cron_ended :
      (o : Option (DataStructureService d x draws))
      → OpensTo o
      → RunsTo (elim o [ none ↦ none | some s ↦ some (record { service = s; cnt = 0 }) ])
  unfolding OpensTo RunsTo
  cron_ended none h = tt
  cron_ended (some s) h = h

  cron-RunsTo :
      (r : Readings) (w : Running d x draws) → IsOpen w.service → RunsTo (cron d x draws r w)
  unfolding cron RunsTo
  cron-RunsTo r w h =
      let updated =
        put_service-IsOpen (update_command_time d x draws r.command_time w.service.evicting.service)
          w.service h
          (update_command_time-IsValid r.command_time w.service.evicting.service h.ready.valid) in
      either RunsTo (w.service.config.hz == 0) tt (
        either RunsTo (not w.service.active) h (
          either RunsTo (ltb (w.cnt + 1) (1000 / w.service.config.hz)) updated
            (cron_ended _ (periodic-OpensTo r _ updated))))

  -- The requests are not SHUTDOWN, have a key where they are TTL, and one that stays readable where they are GETDEL.
  abbrev pub AreServable : List (Event d x draws) → Type 0
  AreServable [] = Unit
  AreServable (request o name args r ∷ events) =
      (IsAnswerable o name args × (is_name_of (bytes "SHUTDOWN") name ≡ false)) × AreServable events
  AreServable (tick r ∷ events) = AreServable events

  run_on :
      (events : List (Event d x draws)) (o : Option (Running d x draws))
      → RunsTo o
      → ((w : Running d x draws) → IsOpen w.service → RunsTo (run d x draws events w))
      → RunsTo (elim o [ none ↦ none | some w ↦ run d x draws events w ])
  unfolding RunsTo
  run_on events none h later = tt
  run_on events (some w) h later = later w h

  run-RunsTo :
      (events : List (Event d x draws)) (w : Running d x draws)
      → Hits d draws
      → IsOpen w.service
      → AreServable events
      → RunsTo (run d x draws events w)
  unfolding run step RunsTo
  run-RunsTo [] w hits h servable = h
  run-RunsTo (request o name args r ∷ events) w hits h servable =
      let (p, done, a) =
        invoke-Returns d x draws o name args w.service r hits h.ready h.running servable.0.0 in
      rw (run, step, done)
        (run-RunsTo events (record w { service = p.0 }) hits
          (record { ready = a.ready; running = a.running servable.0.1 ∙ h.running }) servable.1)
  run-RunsTo (tick r ∷ events) w hits h servable =
      run_on events (cron d x draws r w) (cron-RunsTo r w h)
        (λ w1 h1. run-RunsTo events w1 hits h1 servable)

  -- In every state that requests and ticks of `Cron`, in any order, lead to from a server that is well formed and has not been shut
  -- down, the tables are well formed, and any further request is answered and leaves them so, whether
  -- memory is full or not. None of the requests before is SHUTDOWN, and none of them all is TTL without a key or a
  -- GETDEL whose key does not stay readable; every call of `GetRandomEntry` on a table that is not empty
  -- returns, and the number of samples is not 0. It is not stated that a tick returns: a tick whose
  -- `ActiveExpire` does not end, or whose `hz` is 0, leads to no state.
  pub run-IsOpen :
      (events : List (Event d x draws)) (w w' : Running d x draws) (o : Outside d x draws)
      (name : Bytes) (args : List Bytes) (r : Result)
      → Hits d draws
      → IsOpen w.service
      → AreServable events
      → run d x draws events w ≡ some w'
      → IsAnswerable o name args
      → IsOpen w'.service
        × (p : DataStructureService d x draws × Result) × (invoke d x draws o
              (register_commands d x draws)
              (name ∷ args)
              w'.service
              r
            ≡ some p)
        × IsReady p.0
  unfolding RunsTo
  run-IsOpen events w w' o name args r hits h servable done answerable =
      let reached : IsOpen w'.service = subst RunsTo done (run-RunsTo events w hits h servable) in
      let (p, invoked, ready) =
        invoke-IsReady d x draws o name args w'.service r hits reached.ready reached.running
          answerable in
      (reached, p, invoked, ready)
