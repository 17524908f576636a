-- ===== src/Dispatch/Misc.antt =====
-- service/commands/misc_commands.cc, service/commands/client_commands.cc: the commands about the server.
use rdss.Base.{
  ℕ, ◌&&◌, ◌||◌, Option, none, some, List, [], ◌∷◌, ◌++◌, Bytes, bytes, bytes_eq, if◌then◌else◌,
  ltb, ◌==◌, ◌/◌, ◌^◌, length, to_digits, drop,
}
use rdss.KeyTable.{KeyTable}
use rdss.Resp.Result.{
  MtsPtr, protocol, wrong_arg_num, set_error, set_int, set_nil, set_ok, set_string,
}
use rdss.Resp.Replier.{to_int32}
use rdss.Service.Eviction.{Draws}
use rdss.Commands.Reads.{arg}
use rdss.Dispatch.{DataStructureService, Outside, CommandHandler, shutdown}

-- `stream << label << n << end`
abbrev line : Bytes → ℕ → Bytes → Bytes
line label n end = label ++ (to_digits n ++ end)

-- `'\n'`, and the empty line after a section
abbrev nl : Bytes
nl = 10 ∷ []

abbrev blank : Bytes
blank = 10 ∷ 10 ∷ []

-- the line of a value that the system gave
abbrev if_read : Bytes → Option ℕ → Bytes
if_read label none = []
if_read label (some n) = line label n nl

module _ (d : KeyTable MtsPtr none) (x : KeyTable ℕ 0) (draws : Draws d) where
  -- what a section of INFO writes to the stream
  abbrev pub Section : Type 0
  Section = Outside d x draws → DataStructureService d x draws → Bytes

  unfoldable pub collect_server_info : Section
  collect_server_info o s =
      let env = o.environment in
      bytes "# Server\n"
      ++ (bytes "multiplexing_api:io_uring\n"
          ++ (line (bytes "process_id:") env.process_id nl
              ++ (line (bytes "tcp_port:") s.config.port nl
                  ++ (line (bytes "server_time_usec:") env.server_time_usec nl
                      ++ (line (bytes "uptime_in_seconds:") env.uptime_in_seconds nl
                          ++ (line (bytes "uptime_in_days:") env.uptime_in_days nl
                              ++ (line (bytes "hz:") s.config.hz nl
                                  ++ line (bytes "configured_hz:") s.config.hz blank)))))))

  unfoldable pub collect_clients_info : Section
  collect_clients_info o s =
      let env = o.environment in
      bytes "# Clients\n"
      ++ (line (bytes "connected_clients:") env.active_clients nl
          ++ (line (bytes "maxclients:") s.config.maxclients nl
              ++ (line (bytes "client_recent_max_input_buffer:") env.max_input_buffer nl
                  ++ line (bytes "client_recent_max_output_buffer:") env.max_output_buffer blank)))

  unfoldable pub collect_memory_info : Section
  collect_memory_info o s =
      let env = o.environment in
      bytes "# Memory\n"
      ++ (line (bytes "used_memory:") o.allocated nl
          ++ (if_read (bytes "used_memory_rss:") env.used_memory_rss
              ++ (line (bytes "used_memory_peak:") env.used_memory_peak nl
                  ++ (if_read (bytes "total_system_memory:") env.total_system_memory ++ nl))))

  unfoldable pub collect_stats_info : Section
  collect_stats_info o s =
      let env = o.environment in
      let expire_stats = s.expirer.stats in
      bytes "# Stats\n"
      ++ (line (bytes "total_connections_received:") env.connections_received nl
          ++ (line (bytes "total_commands_processed:") s.commands_processed nl
              ++ (line (bytes "total_net_input_bytes:") env.net_input_bytes nl
                  ++ (line (bytes "total_net_output_bytes:") env.net_output_bytes nl
                      ++ (line (bytes "rejected_connections:") env.rejected_connections nl
                          ++ (line (bytes "expired_keys:") expire_stats.active_expired_keys nl
                              ++ (bytes "expired_stale_perc:"
                                  ++ (env.show_percentage expire_stats.expired_stale_perc
                                      ++ (nl
                                          ++ (line (bytes "expired_time_cap_reached_count:")
                                                expire_stats.expired_time_cap_reached_count nl
                                              ++ (line (bytes "expire_cycle_cpu_milliseconds:")
                                                    (expire_stats.elapsed_time / 10 ^ 6) nl
                                                  ++ (line (bytes "evicted_keys:")
                                                        s.evicting.evictor.evicted_keys nl
                                                      ++ nl))))))))))))

  unfoldable pub collect_keyspace_info : Section
  collect_keyspace_info o s =
      bytes "# Keyspace\n"
      ++ (line (bytes "db0: keys=") (d.count s.evicting.service.data_ht) (bytes ",expires=")
          ++ (to_digits (x.count s.evicting.service.expire_ht) ++ blank))

  -- the section that an argument of INFO names; another argument names none
  unfoldable pub info_section : Bytes → Section
  info_section a o s =
      if bytes_eq a (bytes "SERVER") || bytes_eq a (bytes "server")
      then collect_server_info o s
      else if bytes_eq a (bytes "CLIENTS") || bytes_eq a (bytes "clients")
      then collect_clients_info o s
      else if bytes_eq a (bytes "MEMORY") || bytes_eq a (bytes "memory")
      then collect_memory_info o s
      else if bytes_eq a (bytes "STATS") || bytes_eq a (bytes "stats")
      then collect_stats_info o s
      else if bytes_eq a (bytes "KEYSPACE") || bytes_eq a (bytes "keyspace")
      then collect_keyspace_info o s
      else []

  -- the loop of `InfoFunction`
  unfoldable pub info_loop : List Bytes → Section
  info_loop [] o s = []
  info_loop (a ∷ args) o s = info_section a o s ++ info_loop args o s

  unfoldable pub info_function : CommandHandler d x draws
  info_function o s args r =
      let all =
        collect_server_info o s
        ++ (collect_clients_info o s
            ++ (collect_memory_info o s
                ++ (collect_stats_info o s ++ collect_keyspace_info o s))) in
      let stream = if length args == 1 then all else info_loop (drop 1 args) o s in
      some (s, set_string r (some stream))

  -- A size_t that is cast to an int keeps its last 32 bits.
  unfoldable pub db_size_function : CommandHandler d x draws
  db_size_function o s args r = some (s, set_int r (to_int32 (d.count s.evicting.service.data_ht)))

  unfoldable pub command_function : CommandHandler d x draws
  command_function o s args r = some (s, set_string r (some (bytes " ")))

  unfoldable pub shutdown_function : CommandHandler d x draws
  shutdown_function o s args r =
      if ltb 1 (length args)
      then some (s, set_error r wrong_arg_num)
      else elim (shutdown d x draws s) [ none ↦ none | some s' ↦ some (s', set_nil r) ]

  unfoldable pub hello_function : CommandHandler d x draws
  hello_function o s args r =
      if length args == 2 && bytes_eq (arg args 1) (bytes "3")
      then some (s, set_ok r)
      else some (s, set_error r protocol)
