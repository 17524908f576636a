-- ===== src/Config.antt =====
-- base/config.h, base/config.cc: the settings, how they are read, checked and shown.
pub mod Loading
use rdss.Base.{
  ℕ, ◌%◌, ◌^◌, Bool, true, false, ◌||◌, Option, none, some, List, [], ◌∷◌, ◌++◌, Bytes, bytes,
  bytes_eq, if◌then◌else◌, ltb, ◌==◌, to_digits,
}

pub data MaxmemoryPolicy : Type 0 where
  no_eviction all_keys_random all_keys_lru : MaxmemoryPolicy

-- `MaxmemoryPolicyStrToEnum`; `none` is the fatal error
unfoldable pub maxmemory_policy_str_to_enum : Bytes → Option MaxmemoryPolicy
maxmemory_policy_str_to_enum str =
    if bytes_eq str (bytes "noeviction")
    then some no_eviction
    else if bytes_eq str (bytes "allkeys-random")
    then some all_keys_random
    else if bytes_eq str (bytes "allkeys-lru")
    then some all_keys_lru
    else none

unfoldable pub maxmemory_policy_enum_to_str : MaxmemoryPolicy → Bytes
maxmemory_policy_enum_to_str no_eviction = bytes "noeviction"
maxmemory_policy_enum_to_str all_keys_random = bytes "allkeys-random"
maxmemory_policy_enum_to_str all_keys_lru = bytes "allkeys-lru"

pub record Config : Type 0 where
  pub port : ℕ
  pub hz : ℕ
  pub maxclients : ℕ
  pub maxmemory : ℕ
  pub maxmemory_policy : MaxmemoryPolicy
  pub maxmemory_samples : ℕ
  pub active_expire_cycle_time_percent : ℕ
  pub active_expire_acceptable_stale_percent : ℕ
  pub active_expire_keys_per_loop : ℕ
  pub client_executors : ℕ
  pub sqpoll : Bool
  pub max_direct_fds_per_exr : ℕ
  pub use_ring_buffer : Bool
  pub submit_batch_size : ℕ
  pub wait_batch_size : ℕ

-- the values that a new `Config` has
abbrev pub default_config : Config
default_config = record {
  port = 6379;
  hz = 10;
  maxclients = 10000;
  maxmemory = 0;
  maxmemory_policy = no_eviction;
  maxmemory_samples = 5;
  active_expire_cycle_time_percent = 25;
  active_expire_acceptable_stale_percent = 10;
  active_expire_keys_per_loop = 20;
  client_executors = 2;
  sqpoll = false;
  max_direct_fds_per_exr = 4096;
  use_ring_buffer = true;
  submit_batch_size = 32;
  wait_batch_size = 1;
}

-- A file as the parser of the tortellini library has read it: `section[key] | fallback`, of an unsigned
-- number, a Boolean or a string.
pub record Ini : Type 0 where
  pub number : Bytes → Bytes → ℕ → ℕ
  pub boolean : Bytes → Bytes → Bool → Bool
  pub string : Bytes → Bytes → Bytes → Bytes

-- the settings that `ReadFromFile` leaves once it has the policy, of the file and of the values before
abbrev pub settings : Ini → Config → MaxmemoryPolicy → Config
settings ini c policy =
    let redis = bytes "redis" in
    let rdss = bytes "rdss" in
    let maxclients = ini.number redis (bytes "maxclients") 10000 in
    record {
      port = ini.number redis (bytes "port") 6379 % 2 ^ 16;
      hz = ini.number redis (bytes "hz") 10;
      maxclients = if maxclients == 0 then 10000 else maxclients;
      maxmemory = ini.number redis (bytes "maxmemory") c.maxmemory;
      maxmemory_policy = policy;
      maxmemory_samples = ini.number redis (bytes "maxmemory-samples") 5;
      active_expire_cycle_time_percent =
          ini.number redis (bytes "active_expire_cycle_time_percent") 25;
      active_expire_acceptable_stale_percent =
          ini.number redis (bytes "active_expire_acceptable_stale_percent") 10;
      active_expire_keys_per_loop = ini.number redis (bytes "active_expire_keys_per_loop") 20;
      client_executors = ini.number rdss (bytes "client_executors") 2;
      sqpoll = ini.boolean rdss (bytes "sqpoll") false;
      max_direct_fds_per_exr = ini.number rdss (bytes "max_direct_fds_per_exr") 4096;
      use_ring_buffer = ini.boolean rdss (bytes "use_ring_buffer") true;
      submit_batch_size = ini.number rdss (bytes "submit_batch_size") 32;
      wait_batch_size = ini.number rdss (bytes "wait_batch_size") 1;
    }

-- `ReadFromFile`; `none` is the fatal error of an unknown policy
unfoldable pub read_from_file : Ini → Config → Option Config
read_from_file ini c =
    elim (maxmemory_policy_str_to_enum
      (ini.string (bytes "redis") (bytes "maxmemory-policy") (bytes "noeviction"))) [
        | none ↦ none
        | some policy ↦ some (settings ini c policy)
      ]

-- `SanityCheck`; false is the fatal error
unfoldable pub sanity_check : Config → Bool
sanity_check c =
    if c.active_expire_cycle_time_percent == 0 || ltb 40 c.active_expire_cycle_time_percent
    then false
    else if ltb 100 c.active_expire_acceptable_stale_percent
    then false
    else true

-- `DisableSqpoll`
unfoldable pub disable_sqpoll : Config → Config
disable_sqpoll c = record c { sqpoll = false }

-- a Boolean, as a stream prints it
abbrev pub show_bool : Bool → Bytes
show_bool true = bytes "1"
show_bool false = bytes "0"

-- one setting of `ToString`
abbrev pub setting : Bytes → Bytes → Bytes → Bytes
setting label value end = label ++ (value ++ end)

-- `ToString`
unfoldable pub config_to_string : Config → Bytes
config_to_string c =
    let comma = bytes ", " in
    bytes "Configs: ["
    ++ (setting (bytes "port:") (to_digits c.port) comma
        ++ (setting (bytes "hz:") (to_digits c.hz) comma
            ++ (setting (bytes "maxclients:") (to_digits c.maxclients) comma
                ++ (setting (bytes "maxmemory:") (to_digits c.maxmemory) comma
                    ++ (setting (bytes "maxmemory-policy:")
                          (maxmemory_policy_enum_to_str c.maxmemory_policy) comma
                        ++ (setting (bytes "maxmemory-samples:") (to_digits c.maxmemory_samples)
                              comma
                            ++ (setting (bytes "active_expire_cycle_time_percent:")
                                  (to_digits c.active_expire_cycle_time_percent) comma
                                ++ (setting (bytes "active_expire_acceptable_stale_percent:")
                                      (to_digits c.active_expire_acceptable_stale_percent) comma
                                    ++ (setting (bytes "active_expire_keys_per_loop:")
                                          (to_digits c.active_expire_keys_per_loop) (bytes ",")
                                        ++ (setting (bytes "client_executors:")
                                              (to_digits c.client_executors) comma
                                            ++ (setting (bytes "sqpoll:") (show_bool c.sqpoll) comma
                                                ++ (setting (bytes "max_direct_fds_per_exr:")
                                                      (to_digits c.max_direct_fds_per_exr) comma
                                                    ++ (setting (bytes "use_ring_buffer:")
                                                          (show_bool c.use_ring_buffer) comma
                                                        ++ (setting (bytes "submit_batch_size:")
                                                            (to_digits c.submit_batch_size) comma
                                                            ++ setting (bytes "wait_batch_size:")
                                                            (to_digits c.wait_batch_size)
                                                            (bytes "].")))))))))))))))
