-- ===== src/Tests/Serving.antt =====
-- The theorems on eviction, expiry, dispatch and whole requests, at a service with one key.
use rdss.Base.{
  bytes_eq, ℕ, ◌*◌, ◌^◌, ◌<◌, ◌≢◌, ◌⊎◌, ◌≡◌, refl, arith, Bool, true, false, none, some, [], ◌∷◌,
  Bytes, bytes,
}
use rdss.HashTable.Hitting.{hitting, hitting_lem}
use rdss.HashTable.Implementation.{key_table}
use rdss.HashTable.Traverse.{is_full_cycle, next_index-is_full_cycle}
use rdss.Resp.Result.{Result, new_result, set_error, oom}
use rdss.Resp.Requests.{request}
use rdss.Resp.Replier.{ok_str, str_to_iovecs, concat}
use rdss.Config.{
  MaxmemoryPolicy, no_eviction, all_keys_random, all_keys_lru, default_config, Config, Ini,
  maxmemory_policy_enum_to_str, read_from_file,
}
use rdss.Config.Loading.{policy_text, read_from_file_lem}
use rdss.Service.View.{IsValid, stored}
use rdss.Commands.RangeLaws.{appended}
use rdss.Service.Eviction.{
  Draws, Usage, Evictor, Evicting, OldEntry, evict, get_some_old_entry, maxmemory_exceeded,
}
use rdss.Service.Eviction.Sampling.{Hits}
use rdss.Service.Eviction.OldKeys.{IsOld, get_some_old_entry-IsOld}
use rdss.Service.Eviction.Progress.{Evicts, evict-Evicts}
use rdss.Service.Expiry.{Expirer, active_expire}
use rdss.Service.Expiry.View.{Expires, live_at, active_expire-Expires}
use rdss.Resp.Parser.{fresh_parser}
use rdss.Dispatch.{DataStructureService, Outside, Environment, invoke}
use rdss.Dispatch.Registry.{register_commands}
use rdss.Dispatch.Misc.{info_function}
use rdss.Dispatch.Calls.{IsReady}
use rdss.Dispatch.Invocation.{invoke-IsReady, invoke-to_upper}
use rdss.Dispatch.Limits.{names_one_of, invoke-no_eviction, info_function-sections}
use rdss.Client.Process.{Session, Processed, process_query}
use rdss.Client.Serving.{IsIdle, IsServed, process_query-IsServed}
use rdss.Client.RoundTrip.{process_query-get-set}
use rdss.Tests.Data.{
  hash, data_table, expire_table, one, two, one_key, one_key-IsValid, one_key-count, late,
  late-IsValid,
}

abbrev pub draws : Draws data_table
unfolding key_table
draws n t = hitting hash t.0

pub draws-Hits : Hits data_table draws
unfolding key_table
draws-Hits n t h = hitting_lem hash t.0 t.1 h

abbrev usage : Usage data_table expire_table
usage s pool = 100 * data_table.count s.data_ht

abbrev evictor : MaxmemoryPolicy → Evictor
evictor policy = record {
  maxmemory_policy = policy;
  maxmemory = 50;
  maxmemory_samples = 5;
  eviction_pool = [];
  evicted_keys = 0;
}

abbrev evicting : MaxmemoryPolicy → Evicting data_table expire_table draws
evicting policy = record { service = one_key; evictor = evictor policy; calls = 0 }

evict-Evicts_example :
    (r : Evicting data_table expire_table draws × Bool) × (evict data_table expire_table draws usage
        50
        (evicting all_keys_lru)
      ≡ some r)
    × Evicts data_table expire_table draws (evicting all_keys_lru) r
evict-Evicts_example =
    evict-Evicts data_table expire_table draws usage 50 (evicting all_keys_lru) draws-Hits
      (λ h. ground (arith, h)) (omega arith)

get_some_old_entry-IsOld_example :
    (r : OldEntry data_table) × (get_some_old_entry data_table draws 2 5 0 one_key.data_ht []
      ≡ some r)
    × IsOld data_table one_key.data_ht [] r
get_some_old_entry-IsOld_example =
    get_some_old_entry-IsOld data_table draws 5 0 one_key.data_ht [] draws-Hits (omega arith)
      (omega (arith, one_key-count))

abbrev expirer : Expirer
expirer = record {
  bucket_index = 0;
  threshold_percentage = 10;
  keys_per_loop = 20;
  stats = record {
    active_expired_keys = 0;
    expired_stale_perc = 0;
    expired_time_cap_reached_count = 0;
    elapsed_time = 0;
  };
}

active_expire-Expires_example :
    let s' = (active_expire data_table expire_table 3 8 9 (λ n. n) 25 10 expirer late).1 in
    IsValid s' × Expires 9 late s' × ((q : Bytes) → live_at 9 s' q ≡ live_at 9 late q)
active_expire-Expires_example = active_expire-Expires 3 8 9 (λ n. n) 25 10 expirer late late-IsValid

next_index-is_full_cycle_example : is_full_cycle 8 ≡ true
next_index-is_full_cycle_example = next_index-is_full_cycle 3 (omega arith)

abbrev environment : Environment
environment = record {
  process_id = 1;
  server_time_usec = 9000;
  uptime_in_seconds = 4;
  uptime_in_days = 0;
  active_clients = 1;
  max_input_buffer = 1024;
  max_output_buffer = 1024;
  used_memory_peak = 100;
  used_memory_rss = some 4096;
  total_system_memory = none;
  connections_received = 1;
  net_input_bytes = 30;
  net_output_bytes = 5;
  rejected_connections = 0;
  show_percentage = λ n. bytes "0";
}

abbrev pub outside : ℕ → Outside data_table expire_table draws
outside allocated = record {
  allocated = allocated;
  usage = usage;
  shared = false;
  key_readable = true;
  environment = environment;
}

abbrev pub server : MaxmemoryPolicy → DataStructureService data_table expire_table draws
server policy = record {
  config = default_config;
  evicting = evicting policy;
  expirer = expirer;
  active = true;
  shutdown_promise = false;
  commands_processed = 0;
}

pub server-IsReady : (policy : MaxmemoryPolicy) → IsReady (server policy)
server-IsReady policy = record { valid = one_key-IsValid; samples = omega arith }

invoke-IsReady_example :
    (p : DataStructureService data_table expire_table draws × Result) × (invoke data_table
        expire_table draws
        (outside 100)
        (register_commands data_table expire_table draws)
        (bytes "SET" ∷ two ∷ one ∷ [])
        (server all_keys_random)
        new_result
      ≡ some p)
    × IsReady p.0
invoke-IsReady_example =
    invoke-IsReady data_table expire_table draws (outside 100) (bytes "SET") (two ∷ one ∷ [])
      (server all_keys_random) new_result draws-Hits (server-IsReady all_keys_random) refl
      (λ h. omega arith, λ h. refl)

invoke-to_upper_example :
    invoke data_table expire_table draws
      (outside 10)
      (register_commands data_table expire_table draws)
      (bytes "GET" ∷ one ∷ [])
      (server no_eviction)
      new_result
    ≡ invoke data_table expire_table draws
        (outside 10)
        (register_commands data_table expire_table draws)
        (bytes "get" ∷ one ∷ [])
        (server no_eviction)
        new_result
invoke-to_upper_example =
    invoke-to_upper data_table expire_table draws (outside 10) (bytes "Get") (one ∷ [])
      (server no_eviction) new_result

invoke-no_eviction_example :
    (invoke data_table expire_table draws
        (outside 100)
        (register_commands data_table expire_table draws)
        (bytes "setex" ∷ one ∷ two ∷ one ∷ [])
        (server no_eviction)
        new_result
      ≡ some (server no_eviction, set_error new_result oom))
    × (p : DataStructureService data_table expire_table draws × Result) × (invoke data_table
          expire_table draws
          (outside 100)
          (register_commands data_table expire_table draws)
          (bytes "APPEND" ∷ one ∷ two ∷ [])
          (server no_eviction)
          new_result
        ≡ some p)
    × (stored p.0.evicting.service one ≡ some (some (appended (stored one_key one) two)))
invoke-no_eviction_example =
    invoke-no_eviction data_table expire_table draws (outside 100) (bytes "setex")
      (one ∷ two ∷ one ∷ []) one two (server no_eviction) new_result
      (unfold names_one_of bytes_eq in refl) refl (omega arith) (omega arith)

info_function-sections_example :
    info_function data_table expire_table draws
      (outside 10)
      (server no_eviction)
      (bytes "INFO" ∷ [])
      new_result
    ≡ info_function data_table expire_table draws
        (outside 10)
        (server no_eviction)
        (bytes "INFO"
          ∷ bytes "SERVER"
          ∷ bytes "clients"
          ∷ bytes "MEMORY"
          ∷ bytes "stats"
          ∷ bytes "KEYSPACE"
          ∷ [])
        new_result
info_function-sections_example =
    info_function-sections data_table expire_table draws (outside 10) (server no_eviction)
      (bytes "INFO") new_result true false true false true

abbrev session : Session
session = record { mbulk_parser = none; arguments = []; query_result = new_result }

session-IsIdle : IsIdle session.mbulk_parser
session-IsIdle = record { idle = refl; fresh = unfold fresh_parser in refl }

process_query-IsServed_example :
    (p : Processed data_table expire_table draws) × (process_query data_table expire_table draws
        (outside 10)
        (register_commands data_table expire_table draws)
        (request (bytes "TTL" ∷ one ∷ []) [])
        session
        (server no_eviction)
      ≡ some p)
    × IsServed data_table expire_table draws
        (outside 10)
        (bytes "TTL" ∷ one ∷ [])
        session
        (server no_eviction)
        p
process_query-IsServed_example =
    process_query-IsServed data_table expire_table draws (outside 10) (bytes "TTL") (one ∷ []) []
      session (server no_eviction) session-IsIdle (omega arith) refl draws-Hits
      (server-IsReady no_eviction) refl (λ h. omega arith, λ h. refl)

process_query-get-set_example :
    (p1 p2 : Processed data_table expire_table draws) × (process_query data_table expire_table draws
        (outside 10)
        (register_commands data_table expire_table draws)
        (request (bytes "SET" ∷ two ∷ one ∷ []) [])
        session
        (server all_keys_lru)
      ≡ some p1)
    × (p1.sent ≡ some ok_str)
    × (process_query data_table expire_table draws
          (outside 100)
          (register_commands data_table expire_table draws)
          (request (bytes "GET" ∷ two ∷ []) [])
          session
          p1.service
        ≡ some p2)
    × (p2.sent ≡ some (concat (str_to_iovecs (some one))))
process_query-get-set_example =
    process_query-get-set data_table expire_table draws (outside 10) (outside 100) two one [] []
      session session (server all_keys_lru) session-IsIdle session-IsIdle refl draws-Hits
      (server-IsReady all_keys_lru) refl (unfold maxmemory_exceeded in refl)

-- a file that sets its policy and nothing else
abbrev lru_ini : Ini
lru_ini = record {
  number = λ section key fallback. fallback;
  boolean = λ section key fallback. fallback;
  string = λ section key fallback. bytes "allkeys-lru";
}

read_from_file_lem_example :
    ((read_from_file lru_ini default_config ≡ none)
      × ((p : MaxmemoryPolicy) → policy_text lru_ini ≢ maxmemory_policy_enum_to_str p))
    ⊎ ((c' : Config) × (read_from_file lru_ini default_config ≡ some c')
        × (policy_text lru_ini ≡ maxmemory_policy_enum_to_str c'.maxmemory_policy)
        × (c'.port < 2 ^ 16)
        × (0 < c'.maxclients)
        × (c'.maxmemory
            ≡ lru_ini.number (bytes "redis") (bytes "maxmemory") default_config.maxmemory))
read_from_file_lem_example = read_from_file_lem lru_ini default_config
