-- ===== src/Dispatch/Limits.antt =====
-- What a request is answered while the memory is over its limit, and the sections of INFO.
use mathlib.Core.List.{append-nil}
use rdss.Base.{
  ℕ, ◌<◌, ◌≡◌, refl, arith, Bool, true, false, ◌==◌, none, some, List, [], ◌∷◌, Bytes, bytes,
  bytes_eq, bytes_eq_iff, bytes_eq_refl, if◌then◌else◌, Bool-cases, Option-cases, inl, inr, subst,
  ◌&&◌, ◌||◌, ◌∙◌,
}
use rdss.KeyTable.{KeyTable}
use rdss.Resp.Result.{MtsPtr, Result, set_error, oom}
use rdss.Config.{no_eviction}
use rdss.Service.Eviction.{Draws, evict, maxmemory_exceeded}
use rdss.Service.Eviction.Progress.{evict-no_eviction}
use rdss.Dispatch.{
  DataStructureService, Outside, CommandDictionary, lookup, make_room, run_command, invoke,
  to_lower, to_upper, emplace_command, register_command,
}
use rdss.Dispatch.Names.{is_name_of}
use rdss.Dispatch.Registry.{register_commands, register_all}
use rdss.Service.View.{stored}
use rdss.Commands.RangeLaws.{appended, append_function_lem}
use rdss.Dispatch.Misc.{
  collect_server_info, collect_clients_info, collect_memory_info, collect_stats_info,
  collect_keyspace_info, info_section, info_loop, info_function,
}

-- the commands that should not run while the memory is full
abbrev pub writers : List Bytes
writers =
    bytes "SET"
    ∷ bytes "SETEX"
    ∷ bytes "PSETEX"
    ∷ bytes "SETNX"
    ∷ bytes "SETRANGE"
    ∷ bytes "MSET"
    ∷ bytes "MSETNX"
    ∷ bytes "DEL"
    ∷ []

-- whether the name is one of the list's, in upper or in lower case
unfoldable pub names_one_of : List Bytes → Bytes → Bool
names_one_of [] name = false
names_one_of (n ∷ names) name = is_name_of n name || names_one_of names name

module _ (d : KeyTable MtsPtr none) (x : KeyTable ℕ 0) (draws : Draws d) where
  -- whether the name is that of a command which is registered as one that writes
  is_write : CommandDictionary d x draws → Bytes → Bool
  is_write commands name = elim (lookup commands name) [
    | none ↦ false
    | some c ↦ c.is_write_command
  ]

  all_write : List Bytes → CommandDictionary d x draws → Bool
  all_write [] commands = true
  all_write (n ∷ names) commands =
      is_write commands (to_lower n) && is_write commands (to_upper n) && all_write names commands

  all_write_sound :
      (names : List Bytes) (name : Bytes) (commands : CommandDictionary d x draws)
      → all_write names commands ≡ true
      → names_one_of names name ≡ true
      → is_write commands name ≡ true
  unfolding all_write names_one_of
  all_write_sound [] name commands h named = ground (arith, named)
  all_write_sound (n ∷ names) name commands h named =
      let rest = all_write_sound names name commands in
      elim (Bool-cases (names_one_of names name)) [
        | inl later ↦ rest (ground (arith, h)) later
        | inr here ↦ elim (Bool-cases (bytes_eq (to_lower n) name)) [
          | inl lower ↦
              subst (λ q. is_write commands q ≡ true) ((bytes_eq_iff (to_lower n) name).0 lower)
                (ground (arith, h))
          | inr upper ↦
              subst (λ q. is_write commands q ≡ true)
                ((bytes_eq_iff (to_upper n) name).0 (ground (arith, named, here, upper)))
                (ground (arith, h))
        ]
      ]

  registered_writers : all_write writers (register_commands d x draws) ≡ true
  unfolding all_write is_write register_commands register_all register_command emplace_command
      lookup bytes_eq
  registered_writers = refl

  refused :
      (o : Outside d x draws) (name : Bytes) (args : List Bytes)
      (s : DataStructureService d x draws) (r : Result)
      → names_one_of writers name ≡ true
      → s.evicting.evictor.maxmemory_policy ≡ no_eviction
      → 0 < s.evicting.evictor.maxmemory
      → s.evicting.evictor.maxmemory < o.allocated
      → invoke d x draws o (register_commands d x draws) (name ∷ args) s r
        ≡ some (s, set_error r oom)
  unfolding is_write invoke make_room
  refused o name args s r named policy limit over =
      let exceeded : (maxmemory_exceeded o.allocated s.evicting.evictor == 0) ≡ false =
        unfold maxmemory_exceeded in ground arith in
      let kept : evict d x draws o.usage (maxmemory_exceeded o.allocated s.evicting.evictor)
            s.evicting
          ≡ some (s.evicting, false) =
        evict-no_eviction d x draws o.usage (maxmemory_exceeded o.allocated s.evicting.evictor)
          s.evicting policy in
      let writes =
        all_write_sound writers name (register_commands d x draws) registered_writers named in
      elim (Option-cases (lookup (register_commands d x draws) name)) [
        | inl missing ↦ ground (arith, writes, missing)
        | inr (c, found) ↦
            let own : c.is_write_command ≡ true = ground (arith, writes, found) in
            rw (invoke, found, make_room, own, exceeded, kept) refl
      ]

  -- While more bytes are allocated than the limit admits and nothing may be evicted, SET, SETEX, PSETEX, SETNX,
  -- SETRANGE, MSET, MSETNX and DEL, in upper or in lower case and whatever their arguments are, are refused and change nothing; but
  -- APPEND of a key and bytes is not: it stores the value of the key with the bytes added, stale or not.
  pub invoke-no_eviction :
      (o : Outside d x draws) (name : Bytes) (args : List Bytes) (k v : Bytes)
      (s : DataStructureService d x draws) (r : Result)
      → names_one_of writers name ≡ true
      → s.evicting.evictor.maxmemory_policy ≡ no_eviction
      → 0 < s.evicting.evictor.maxmemory
      → s.evicting.evictor.maxmemory < o.allocated
      → (invoke d x draws o (register_commands d x draws) (name ∷ args) s r
          ≡ some (s, set_error r oom))
        × (p : DataStructureService d x draws × Result) × (invoke d x draws o
              (register_commands d x draws)
              (bytes "APPEND" ∷ k ∷ v ∷ [])
              s
              r
            ≡ some p)
        × (stored p.0.evicting.service k ≡ some (some (appended (stored s.evicting.service k) v)))
  unfolding invoke make_room run_command register_commands register_all register_command
      emplace_command lookup bytes_eq
  invoke-no_eviction o name args k v s r named policy limit over =
      let (_, b) = append_function_lem s.evicting.service (bytes "APPEND") k v r in
      (
        refused o name args s r named policy limit over,
        _,
        refl,
        b.values k ∙ rw (bytes_eq_refl k) refl,
      )

  -- a section's name, in upper or in lower case
  abbrev pub word : Bool → Bytes → Bytes → Bytes
  word b upper lower = if b then upper else lower

  server_section :
      (o : Outside d x draws) (s : DataStructureService d x draws) (w : Bool)
      → info_section d x draws (word w (bytes "SERVER") (bytes "server")) o s
        ≡ collect_server_info d x draws o s
  unfolding info_section bytes_eq
  server_section o s true = refl
  server_section o s false = refl

  clients_section :
      (o : Outside d x draws) (s : DataStructureService d x draws) (w : Bool)
      → info_section d x draws (word w (bytes "CLIENTS") (bytes "clients")) o s
        ≡ collect_clients_info d x draws o s
  unfolding info_section bytes_eq
  clients_section o s true = refl
  clients_section o s false = refl

  memory_section :
      (o : Outside d x draws) (s : DataStructureService d x draws) (w : Bool)
      → info_section d x draws (word w (bytes "MEMORY") (bytes "memory")) o s
        ≡ collect_memory_info d x draws o s
  unfolding info_section bytes_eq
  memory_section o s true = refl
  memory_section o s false = refl

  stats_section :
      (o : Outside d x draws) (s : DataStructureService d x draws) (w : Bool)
      → info_section d x draws (word w (bytes "STATS") (bytes "stats")) o s
        ≡ collect_stats_info d x draws o s
  unfolding info_section bytes_eq
  stats_section o s true = refl
  stats_section o s false = refl

  keyspace_section :
      (o : Outside d x draws) (s : DataStructureService d x draws) (w : Bool)
      → info_section d x draws (word w (bytes "KEYSPACE") (bytes "keyspace")) o s
        ≡ collect_keyspace_info d x draws o s
  unfolding info_section bytes_eq
  keyspace_section o s true = refl
  keyspace_section o s false = refl

  -- INFO alone answers what INFO with the names of the five sections in order answers, each in upper or in lower case.
  pub info_function-sections :
      (o : Outside d x draws) (s : DataStructureService d x draws) (name : Bytes) (r : Result)
      (a b c e f : Bool)
      → info_function d x draws o s (name ∷ []) r
        ≡ info_function d x draws o s
            (name
              ∷ word a (bytes "SERVER") (bytes "server")
              ∷ word b (bytes "CLIENTS") (bytes "clients")
              ∷ word c (bytes "MEMORY") (bytes "memory")
              ∷ word e (bytes "STATS") (bytes "stats")
              ∷ word f (bytes "KEYSPACE") (bytes "keyspace")
              ∷ [])
            r
  unfolding info_function info_loop
  info_function-sections o s name r a b c e f =
      rw
        (
          server_section o s a,
          clients_section o s b,
          memory_section o s c,
          stats_section o s e,
          keyspace_section o s f,
          append-nil (collect_keyspace_info d x draws o s),
        )
        refl
