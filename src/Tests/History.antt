-- ===== src/Tests/History.antt =====
-- The theorems on sequences of requests, of allocations and of connections, at concrete ones.
use rdss.Base.{
  bytes_eq, ◌≡◌, refl, arith, true, false, Option, none, some, is_some, List, [], ◌∷◌, bytes,
}
use rdss.Resp.Result.{Result, new_result}
use rdss.Config.{all_keys_lru}
use rdss.HashTable.{
  find, find_or_create, find_or_create_in, upsert, write_entry, erase, entry_at, in_second,
  bucket_of, set_bucket, find_entry_in_bucket, erase_entry_in_bucket, modify, create_entry, advance,
  rehash_some, rehash_loop, rehash_bucket, rehash_entries, finish_rehashing, needs_to_expand,
  start_rehashing, expand, refind,
}
use rdss.HashTable.Incremental.{incremental_rehashing, rehash_until}
use rdss.HashTable.Implementation.{key_table}
use rdss.Service.{find_or_expire, erase_key, touch, set_data, set_regular}
use rdss.Service.Expiry.{active_expire, expire_loop}
use rdss.Commands.Reads.{get_function, get_function_base, get_del_function}
use rdss.Dispatch.{
  DataStructureService, invoke, register_command, emplace_command, lookup, make_room, run_command,
}
use rdss.Dispatch.Registry.{register_commands, register_all}
use rdss.Dispatch.Calls.{IsReady}
use rdss.Dispatch.Cron.{
  Readings, Running, Event, request, tick, run, step, cron, update_command_time, periodic,
  refresh_lru_clock, rehash_tables,
}
use rdss.Dispatch.History.{IsOpen, run-IsOpen}
use rdss.MemoryTracker.{mallocator, query_buffer, new_tracker}
use rdss.MemoryTracker.Exact.{
  Call, allocating, freeing, balanced, track, Held, bytes_after, IsExact, track-IsExact,
}
use rdss.ClientManager.{ClientManager}
use rdss.ClientManager.Slots.{
  Change, opening, closing, are_in_turn, occupied, change_all, open_after, Holds, change_all-Holds,
}
use rdss.Tests.Data.{data_table, expire_table, one, two}
use rdss.Tests.Serving.{draws, draws-Hits, outside, server, server-IsReady}

abbrev readings : Readings
readings = record {
  command_time = 8;
  access_time = 2;
  expire_time = 8;
  elapsed = λ n. n;
  rounds = 3;
  buckets = 8;
  data_times = [];
  expire_times = true ∷ [];
}

abbrev events : List (Event data_table expire_table draws)
events =
    request (outside 10) (bytes "get") (one ∷ []) new_result
    ∷ tick readings
    ∷ request (outside 10) (bytes "GETDEL") (one ∷ []) new_result
    ∷ []

abbrev running : Running data_table expire_table draws
running = record { service = server all_keys_lru; cnt = 99 }

-- where they lead
abbrev reached : Running data_table expire_table draws
reached = elim (run data_table expire_table draws events running) [ none ↦ running | some w ↦ w ]

is_some-reached :
    (o : Option (Running data_table expire_table draws))
    → is_some o ≡ true
    → o ≡ some (elim o [ none ↦ running | some w ↦ w ])
is_some-reached none h = ground (arith, h)
is_some-reached (some w) h = refl

run-events : is_some (run data_table expire_table draws events running) ≡ true
unfolding run step invoke register_commands register_all register_command emplace_command lookup
    bytes_eq make_room run_command get_function get_function_base get_del_function find_or_expire
    erase_key touch cron update_command_time periodic refresh_lru_clock rehash_tables active_expire
    expire_loop set_data set_regular key_table find find_or_create find_or_create_in upsert
    write_entry erase entry_at in_second bucket_of set_bucket find_entry_in_bucket
    erase_entry_in_bucket modify create_entry advance rehash_some rehash_loop rehash_bucket
    rehash_entries finish_rehashing needs_to_expand start_rehashing expand refind
    incremental_rehashing rehash_until
run-events = refl

run-IsOpen_example :
    IsOpen data_table expire_table draws reached.service
    × (p : DataStructureService data_table expire_table draws × Result) × (invoke data_table
          expire_table draws
          (outside 100)
          (register_commands data_table expire_table draws)
          (bytes "SET" ∷ two ∷ one ∷ [])
          reached.service
          new_result
        ≡ some p)
    × IsReady p.0
run-IsOpen_example =
    run-IsOpen data_table expire_table draws events running reached (outside 100) (bytes "SET")
      (two ∷ one ∷ []) new_result draws-Hits
      (record { ready = server-IsReady all_keys_lru; running = refl })
      (
        ((λ h. omega arith, λ h. refl), unfold bytes_eq in refl),
        (((λ h. omega arith, λ h. refl), unfold bytes_eq in refl), tt),
      )
      (is_some-reached (run data_table expire_table draws events running) run-events)
      (λ h. omega arith, λ h. refl)

abbrev calls : List Call
calls = allocating mallocator 10 ∷ allocating query_buffer 5 ∷ freeing mallocator 4 ∷ []

abbrev nothing : Held
nothing = record { tables = 0; buffers = 0; highest = 0 }

track-IsExact_example : IsExact (track calls new_tracker) (bytes_after calls nothing)
track-IsExact_example =
    track-IsExact calls new_tracker nothing
      (record {
        tables = refl;
        buffers = refl;
        peak = refl;
        small = omega arith;
        sum = omega arith;
      })
      (unfold balanced in refl)

abbrev changes : List Change
changes = opening 5 ∷ opening 8 ∷ closing 5 ∷ []

abbrev new_manager : ClientManager
new_manager = record { clients = []; active_clients = 0 }

change_all-Holds_example :
    (m' : ClientManager) × (change_all changes new_manager ≡ some m')
    × Holds m' (open_after changes (λ fd. false))
change_all-Holds_example =
    change_all-Holds changes new_manager (λ fd. false)
      (record { slots = λ q h1 h2. refl; counted = unfold occupied in refl })
      (unfold are_in_turn in refl)
