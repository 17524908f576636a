-- ===== src/Dispatch/Registry.antt =====
-- service/command_registry.cc and the registrations of service/commands: the dictionary of the commands.
use rdss.Base.{ℕ, true, false, none, some, List, [], ◌∷◌, Bytes, bytes}
use rdss.KeyTable.{KeyTable}
use rdss.Resp.Result.{MtsPtr}
use rdss.Service.Eviction.{Draws}
use rdss.Commands.Reads.{
  get_function, get_del_function, get_ex_function, m_get_function, strlen_function,
  get_range_function, exists_function,
}
use rdss.Commands.Writes.{
  set_function, m_set_function, m_set_nx_function, set_ex_function, p_set_ex_function,
  set_nx_function, get_set_function, append_function, set_range_function, del_function,
  ttl_function,
}
use rdss.Dispatch.{
  Command, CommandDictionary, CommandHandler, on_tables, with_service, register_command,
}
use rdss.Dispatch.Misc.{
  info_function, db_size_function, command_function, shutdown_function, hello_function,
}

module _ (d : KeyTable MtsPtr none) (x : KeyTable ℕ 0) (draws : Draws d) where
  unfoldable pub register_all :
      List (Command d x draws) → CommandDictionary d x draws → CommandDictionary d x draws
  register_all [] commands = commands
  register_all (c ∷ cs) commands = register_all cs (register_command c.name_ c commands)

  -- a command whose handler was set, without and with `SetIsWriteCommand`
  abbrev pub read_command : Bytes → CommandHandler d x draws → Command d x draws
  read_command name h = record { name_ = name; is_write_command = false; handler = h }

  abbrev pub write_command : Bytes → CommandHandler d x draws → Command d x draws
  write_command name h = record { name_ = name; is_write_command = true; handler = h }

  -- SETRANGE finds the value shared or not.
  abbrev pub set_range_handler : CommandHandler d x draws
  set_range_handler o s args r =
      some (with_service d x draws (set_range_function d x o.shared s.evicting.service args r) s)

  abbrev pub ttl_handler : CommandHandler d x draws
  ttl_handler o s args r = elim (ttl_function d x s.evicting.service args r) [
    | none ↦ none
    | some p ↦ some (with_service d x draws p s)
  ]

  -- GETDEL finds its key readable or not.
  abbrev pub get_del_handler : CommandHandler d x draws
  get_del_handler o s args r =
      elim (get_del_function d x o.key_readable s.evicting.service args r) [
        | none ↦ none
        | some p ↦ some (with_service d x draws p s)
      ]

  abbrev pub client_commands : List (Command d x draws)
  client_commands = read_command (bytes "HELLO") (hello_function d x draws) ∷ []

  abbrev pub key_commands : List (Command d x draws)
  key_commands =
      read_command (bytes "TTL") ttl_handler
      ∷ write_command (bytes "DEL") (on_tables d x draws (del_function d x))
      ∷ []

  abbrev pub misc_commands : List (Command d x draws)
  misc_commands =
      read_command (bytes "DBSIZE") (db_size_function d x draws)
      ∷ read_command (bytes "INFO") (info_function d x draws)
      ∷ read_command (bytes "COMMAND") (command_function d x draws)
      ∷ read_command (bytes "SHUTDOWN") (shutdown_function d x draws)
      ∷ []

  abbrev pub string_commands : List (Command d x draws)
  string_commands =
      write_command (bytes "SET") (on_tables d x draws (set_function d x))
      ∷ write_command (bytes "SETEX") (on_tables d x draws (set_ex_function d x))
      ∷ write_command (bytes "PSETEX") (on_tables d x draws (p_set_ex_function d x))
      ∷ write_command (bytes "SETNX") (on_tables d x draws (set_nx_function d x))
      ∷ write_command (bytes "SETRANGE") set_range_handler
      ∷ write_command (bytes "MSET") (on_tables d x draws (m_set_function d x))
      ∷ write_command (bytes "MSETNX") (on_tables d x draws (m_set_nx_function d x))
      ∷ read_command (bytes "GET") (on_tables d x draws (get_function d x))
      ∷ read_command (bytes "MGET") (on_tables d x draws (m_get_function d x))
      ∷ read_command (bytes "GETDEL") get_del_handler
      ∷ read_command (bytes "GETEX") (on_tables d x draws (get_ex_function d x))
      ∷ read_command (bytes "GETSET") (on_tables d x draws (get_set_function d x))
      ∷ read_command (bytes "GETRANGE") (on_tables d x draws (get_range_function d x))
      ∷ read_command (bytes "SUBSTR") (on_tables d x draws (get_range_function d x))
      ∷ read_command (bytes "APPEND") (on_tables d x draws (append_function d x))
      ∷ read_command (bytes "EXISTS") (on_tables d x draws (exists_function d x))
      ∷ read_command (bytes "STRLEN") (on_tables d x draws (strlen_function d x))
      ∷ []

  -- `RegisterCommands`, on the dictionary of a new service
  unfoldable pub register_commands : CommandDictionary d x draws
  register_commands =
      register_all string_commands
        (register_all misc_commands (register_all key_commands (register_all client_commands [])))
