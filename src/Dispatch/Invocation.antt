-- ===== src/Dispatch/Invocation.antt =====
-- `Invoke` with the commands that the server registers.
use rdss.Base.{
  ℕ, ◌+◌, ◌≡◌, refl, ◌∙◌, arith, Bool, true, false, ◌&&◌, not, ◌==◌, Option, none, some, List, ◌∷◌,
  Bytes, if◌then◌else◌, Bool-cases, Option-cases, inl, inr, ◌%◌, ◌^◌,
}
use rdss.KeyTable.{KeyTable}
use rdss.Resp.Result.{MtsPtr, Result, set_error, oom, unknown_command}
use rdss.Service.Eviction.{Draws, maxmemory_exceeded}
use rdss.Service.Eviction.Sampling.{Hits}
use rdss.Service.Eviction.Effects.{Drops-IsValid}
use rdss.Service.Eviction.Progress.{evict_returns}
use rdss.Dispatch.{
  DataStructureService, Outside, Command, make_room, run_command, invoke, lookup, to_lower,
  to_upper,
}
use rdss.Dispatch.Names.{is_name_of}
use rdss.Dispatch.Registry.{register_commands}
use rdss.Dispatch.Calls.{IsAnswerable, IsReady, Returns, Fits}
use rdss.Dispatch.Registered.{registered-AllFit, registered-IgnoresCase}

module _ (d : KeyTable MtsPtr none) (x : KeyTable ℕ 0) (draws : Draws d) where
  make_room-IsReady :
      (o : Outside d x draws) (is_write : Bool) (s : DataStructureService d x draws)
      → Hits d draws
      → IsReady s
      → (room : DataStructureService d x draws × Bool) × (make_room d x draws o is_write s
          ≡ some room)
        × IsReady room.0
        × (room.0.shutdown_promise ≡ s.shutdown_promise)
  unfolding make_room
  make_room-IsReady o is_write s hits ready =
      let bytes_to_free = maxmemory_exceeded o.allocated s.evicting.evictor in
      elim (Bool-cases (is_write && not (bytes_to_free == 0))) [
        | inr room ↦ ((s, true), rw room refl, ready, refl)
        | inl full ↦
            let (w, done, drops, samples) =
              evict_returns d x draws o.usage bytes_to_free s.evicting hits ready.samples in
            (
              (record s { evicting = w.0 }, w.1),
              rw (full, done) refl,
              record {
                valid = Drops-IsValid drops ready.valid;
                samples = omega (arith, samples, ready.samples);
              },
              refl,
            )
      ]

  run_command-Returns :
      (o : Outside d x draws) (c : Command d x draws) (n : Bytes) (args : List Bytes)
      (s : DataStructureService d x draws) (r : Result)
      → Returns n s (c.handler o s (n ∷ args) r)
      → Returns n s (run_command d x draws o c (n ∷ args) s r)
  unfolding run_command
  run_command-Returns o c n args s r (p, done, a) = (
    (record p.0 { commands_processed = (p.0.commands_processed + 1) % 2 ^ 64 }, p.1),
    rw (run_command, done) refl,
    record {
      ready = record { valid = a.ready.valid; samples = a.ready.samples };
      running = a.running;
    },
  )

  -- what `Invoke` does once the memory is settled
  after_room :
      Outside d x draws
      → Command d x draws
      → List Bytes
      → Result
      → DataStructureService d x draws × Bool
      → Option (DataStructureService d x draws × Result)
  after_room o c args r room =
      if room.1 then run_command d x draws o c args room.0 r else some (room.0, set_error r oom)

  after_room-Returns :
      (o : Outside d x draws) (c : Command d x draws) (n : Bytes) (args : List Bytes) (r : Result)
      (room : DataStructureService d x draws × Bool)
      → Fits c
      → is_name_of c.name_ n ≡ true
      → IsAnswerable o n args
      → IsReady room.0
      → room.0.shutdown_promise ≡ false
      → Returns n room.0 (after_room o c (n ∷ args) r room)
  unfolding after_room
  after_room-Returns o c n args r (s, true) fit named answerable ready running =
      run_command-Returns o c n args s r (fit.returns o s n args r ready running named answerable)
  after_room-Returns o c n args r (s, false) fit named answerable ready running =
      ((s, set_error r oom), refl, record { ready = ready; running = λ h. refl })

  -- Any request is answered, and leaves the service ready, and running unless it is SHUTDOWN.
  pub invoke-Returns :
      (o : Outside d x draws) (name : Bytes) (args : List Bytes)
      (s : DataStructureService d x draws) (r : Result)
      → Hits d draws
      → IsReady s
      → s.shutdown_promise ≡ false
      → IsAnswerable o name args
      → Returns name s (invoke d x draws o (register_commands d x draws) (name ∷ args) s r)
  unfolding invoke after_room
  invoke-Returns o name args s r hits ready running answerable =
      elim (Option-cases (lookup (register_commands d x draws) name)) [
        | inl unknown ↦ (
          (s, set_error r unknown_command),
          rw (invoke, unknown) refl,
          record { ready = ready; running = λ h. refl },
        )
        | inr (c, found) ↦
            let (fit, named) = registered-AllFit d x draws name c found in
            let (room, made, ready', same) = make_room-IsReady o c.is_write_command s hits ready in
            let (p, done, a) =
              after_room-Returns o c name args r room fit named answerable ready'
                (same ∙ running) in
            (
              p,
              rw (invoke, found, made) done,
              record { ready = a.ready; running = λ h. a.running h ∙ same },
            )
      ]

  -- Any request that is sent to the server, with a key where it is TTL, and with one that stays readable while it is erased where it is GETDEL, is answered as long as the server has not been
  -- shut down, and leaves the tables well formed, whether the memory is full or not: if every call of
  -- `GetRandomEntry` on a table that is not empty returns, and the number of samples is not 0.
  pub invoke-IsReady :
      (o : Outside d x draws) (name : Bytes) (args : List Bytes)
      (s : DataStructureService d x draws) (r : Result)
      → Hits d draws
      → IsReady s
      → s.shutdown_promise ≡ false
      → IsAnswerable o name args
      → (p : DataStructureService d x draws × Result) × (invoke d x draws o
            (register_commands d x draws)
            (name ∷ args)
            s
            r
          ≡ some p)
        × IsReady p.0
  invoke-IsReady o name args s r hits ready running answerable =
      let (p, done, a) = invoke-Returns o name args s r hits ready running answerable in
      (p, done, a.ready)

  -- A command answers and does the same whether its name is sent in upper case or in lower case.
  pub invoke-to_upper :
      (o : Outside d x draws) (name : Bytes) (args : List Bytes)
      (s : DataStructureService d x draws) (r : Result)
      → invoke d x draws o (register_commands d x draws) (to_upper name ∷ args) s r
        ≡ invoke d x draws o (register_commands d x draws) (to_lower name ∷ args) s r
  unfolding invoke run_command
  invoke-to_upper o name args s r =
      elim (Option-cases (lookup (register_commands d x draws) (to_lower name))) [
        | inl unknown ↦ rw (invoke, registered-IgnoresCase d x draws name, unknown) refl
        | inr (c, found) ↦
            let (fit, _) = registered-AllFit d x draws (to_lower name) c found in
            elim (Option-cases (make_room d x draws o c.is_write_command s)) [
              | inl stuck ↦ rw (invoke, registered-IgnoresCase d x draws name, found, stuck) refl
              | inr (room, made) ↦
                  rw
                    (
                      invoke,
                      run_command,
                      registered-IgnoresCase d x draws name,
                      found,
                      made,
                      fit.nameless o room.0 (to_upper name) (to_lower name) args r,
                    )
                    refl
            ]
      ]
