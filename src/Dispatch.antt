-- ===== src/Dispatch.antt =====
-- service/data_structure_service.h, service/data_structure_service.cc, service/command.h,
-- service/command_dictionary.h: the dictionary of commands, and how a command is called.
pub mod Misc
pub mod Registry
pub mod Names
pub mod Calls
pub mod Dictionary
pub mod Registered
pub mod Invocation
pub mod Limits
pub mod Cron
pub mod History
use rdss.Base.{
  ℕ, ◌+◌, ◌-◌, ◌%◌, ◌^◌, Bool, true, false, ◌&&◌, not, Option, none, some, List, [], ◌∷◌, map,
  Bytes, bytes_eq, if◌then◌else◌, leb, ◌==◌,
}
use rdss.KeyTable.{KeyTable}
use rdss.Resp.Result.{MtsPtr, Result, unknown_command, oom, set_error}
use rdss.Config.{Config}
use rdss.Service.{Service}
use rdss.Service.Expiry.{Expirer}
use rdss.Service.Eviction.{Evictor, Draws, Usage, Evicting, evict, maxmemory_exceeded}
use rdss.Commands.Reads.{Handler, arg}

-- What INFO reads outside the service. A call of the operating system that fails is `none`, and
-- `show_percentage n` is how a stream prints the double `n / 100.0`.
pub record Environment : Type 0 where
  pub process_id : ℕ
  pub server_time_usec : ℕ
  pub uptime_in_seconds : ℕ
  pub uptime_in_days : ℕ
  pub active_clients : ℕ
  pub max_input_buffer : ℕ
  pub max_output_buffer : ℕ
  pub used_memory_peak : ℕ
  pub used_memory_rss : Option ℕ
  pub total_system_memory : Option ℕ
  pub connections_received : ℕ
  pub net_input_bytes : ℕ
  pub net_output_bytes : ℕ
  pub rejected_connections : ℕ
  pub show_percentage : ℕ → Bytes

-- `std::tolower` and `std::toupper` of an ASCII character
abbrev pub lower_char : ℕ → ℕ
lower_char c = if leb 65 c && leb c 90 then c + 32 else c

abbrev pub upper_char : ℕ → ℕ
upper_char c = if leb 97 c && leb c 122 then c - 32 else c

abbrev pub to_lower : Bytes → Bytes
to_lower = map lower_char

abbrev pub to_upper : Bytes → Bytes
to_upper = map upper_char

-- `commands_.find` and `commands_.emplace`, which does nothing where the name is there
unfoldable pub lookup : {A : Type 0} → List (Bytes × A) → Bytes → Option A
lookup [] name = none
lookup ((k, c) ∷ commands) name = if bytes_eq k name then some c else lookup commands name

unfoldable pub emplace_command : {A : Type 0} → Bytes → A → List (Bytes × A) → List (Bytes × A)
emplace_command name c [] = (name, c) ∷ []
emplace_command name c ((k, b) ∷ commands) =
    if bytes_eq k name then (k, b) ∷ commands else (k, b) ∷ emplace_command name c commands

-- `RegisterCommand`
unfoldable pub register_command : {A : Type 0} → Bytes → A → List (Bytes × A) → List (Bytes × A)
register_command name c commands =
    emplace_command (to_upper (to_lower name)) c (emplace_command (to_lower name) c commands)

module _ (d : KeyTable MtsPtr none) (x : KeyTable ℕ 0) (draws : Draws d) where
  -- `DataStructureService`: `shutdown_promise` is whether the promise has been kept.
  pub record DataStructureService : Type 0 where
    pub config : Config
    pub evicting : Evicting d x draws
    pub expirer : Expirer
    pub active : Bool
    pub shutdown_promise : Bool
    pub commands_processed : ℕ

  -- What a call finds outside the service: the bytes that the tracker counts, now and later, whether
  -- someone else holds the value that SETRANGE changes, whether the key that GETDEL erases is still
  -- readable once its entry is destroyed, and what INFO reads.
  pub record Outside : Type 0 where
    pub allocated : ℕ
    pub usage : Usage d x
    pub shared : Bool
    pub key_readable : Bool
    pub environment : Environment

  -- `Command::HandlerType`; `none` is a call that does not return, or whose behaviour is undefined
  abbrev pub CommandHandler : Type 0
  CommandHandler =
      Outside → DataStructureService → List Bytes → Result → Option (DataStructureService × Result)

  pub record Command : Type 0 where
    pub name_ : Bytes
    pub is_write_command : Bool
    pub handler : CommandHandler

  abbrev pub CommandDictionary : Type 0
  CommandDictionary = List (Bytes × Command)

  -- a handler of the tables, as a handler of the service
  abbrev pub with_service :
      Service d x × Result → DataStructureService → DataStructureService × Result
  with_service p s = (record s { evicting = record s.evicting { service = p.0 } }, p.1)

  abbrev pub on_tables : Handler d x → CommandHandler
  on_tables h o s args r = some (with_service (h s.evicting.service args r) s)

  -- `Invoke` before the call of a command that writes; the Boolean is whether the call may go on
  unfoldable pub make_room :
      Outside → Bool → DataStructureService → Option (DataStructureService × Bool)
  make_room o is_write s =
      let bytes_to_free = maxmemory_exceeded o.allocated s.evicting.evictor in
      if is_write && not (bytes_to_free == 0)
      then (elim (evict d x draws o.usage bytes_to_free s.evicting) [
        | none ↦ none
        | some w ↦ some (record s { evicting = w.0 }, w.1)
      ])
      else some (s, true)

  -- the call of the handler, and its count
  unfoldable pub run_command :
      Outside
      → Command
      → List Bytes
      → DataStructureService
      → Result
      → Option (DataStructureService × Result)
  run_command o c args s r = elim (c.handler o s args r) [
    | none ↦ none
    | some p ↦ some (record p.0 { commands_processed = (p.0.commands_processed + 1) % 2 ^ 64 }, p.1)
  ]

  -- `Invoke`
  unfoldable pub invoke :
      Outside
      → CommandDictionary
      → List Bytes
      → DataStructureService
      → Result
      → Option (DataStructureService × Result)
  invoke o commands args s r = elim (lookup commands (arg args 0)) [
    | none ↦ some (s, set_error r unknown_command)
    | some c ↦ elim (make_room o c.is_write_command s) [
      | none ↦ none
      | some room ↦ if room.1 then run_command o c args room.0 r else some (room.0, set_error r oom)
    ]
  ]

  -- `Shutdown`; a promise is kept once, and a second time throws
  unfoldable pub shutdown : DataStructureService → Option DataStructureService
  shutdown s =
      if s.shutdown_promise
      then none
      else some (record s { active = false; shutdown_promise = true })
