-- ===== src/Client/RoundTrip.antt =====
-- A value that one client sets and another gets, from the bytes of the requests to those of the replies.
use rdss.Base.{
  ℕ, ◌+◌, ◌≡◌, refl, sym, ap, ◌∙◌, arith, true, false, Option, none, some, List, [], ◌∷◌, Bytes,
  bytes, subst, bytes_eq, bytes_eq_refl, ◌%◌, ◌^◌,
}
use rdss.KeyTable.{KeyTable}
use rdss.Resp.Result.{MtsPtr, Result, set_ok, set_string}
use rdss.Resp.Requests.{request, all_fit}
use rdss.Resp.Replier.{
  reply, needs_gather, result_to_string_view, result_to_iovecs, str_to_iovecs, concat, ok_str,
}
use rdss.Service.{Service}
use rdss.Service.View.{live, IsValid}
use rdss.Service.Eviction.{Draws, maxmemory_exceeded}
use rdss.Service.Eviction.Sampling.{Hits}
use rdss.Commands.Options.{no_options, extract_set_options}
use rdss.Commands.Reads.{get_function}
use rdss.Commands.Writes.{set_function, set_with}
use rdss.Commands.ReadLaws.{get_function_lem}
use rdss.Commands.SetLaws.{set_with_admitted}
use rdss.Dispatch.{
  DataStructureService, Outside, invoke, make_room, run_command, with_service, on_tables, lookup,
  emplace_command, register_command,
}
use rdss.Dispatch.Names.{is_name_of}
use rdss.Dispatch.Registry.{register_commands, register_all, write_command}
use rdss.Dispatch.Calls.{IsReady}
use rdss.Client.Process.{Session, Processed, process_query}
use rdss.Client.Serving.{IsIdle, IsServed, process_query-IsServed}

module _ (d : KeyTable MtsPtr none) (x : KeyTable ℕ 0) (draws : Draws d) where
  -- the service and the result that a handler of the tables left, once the command is counted
  abbrev counted :
      Service d x × Result
      → DataStructureService d x draws
      → DataStructureService d x draws × Result
  counted p s =
      let t = (with_service d x draws p s).0 in
      (record t { commands_processed = (t.commands_processed + 1) % 2 ^ 64 }, p.1)

  invoke-get :
      (o : Outside d x draws) (k : Bytes) (s : DataStructureService d x draws) (r : Result)
      → invoke d x draws o (register_commands d x draws) (bytes "GET" ∷ k ∷ []) s r
        ≡ some (counted (get_function d x s.evicting.service (bytes "GET" ∷ k ∷ []) r) s)
  unfolding invoke make_room run_command register_commands register_all register_command
      emplace_command lookup bytes_eq
  invoke-get o k s r = refl

  -- the command that SET names
  pub lookup-set :
      lookup (register_commands d x draws) (bytes "SET")
      ≡ some (write_command d x draws (bytes "SET") (on_tables d x draws (set_function d x)))
  unfolding register_commands register_all register_command emplace_command lookup bytes_eq
  lookup-set = refl

  invoke-set :
      (o : Outside d x draws) (k v : Bytes) (s : DataStructureService d x draws) (r : Result)
      → maxmemory_exceeded o.allocated s.evicting.evictor ≡ 0
      → invoke d x draws o (register_commands d x draws) (bytes "SET" ∷ k ∷ v ∷ []) s r
        ≡ some (counted (set_with d x k v no_options s.evicting.service r) s)
  unfolding invoke make_room run_command set_function extract_set_options
  invoke-set o k v s r room = rw (invoke, lookup-set, make_room, room, run_command) refl

  not_get_del :
      (o : Outside d x draws)
      → is_name_of (bytes "GETDEL") (bytes "SET") ≡ true
      → o.key_readable ≡ true
  unfolding bytes_eq
  not_get_del o h = ground (arith, h)

  not_get_del_either :
      (o : Outside d x draws)
      → is_name_of (bytes "GETDEL") (bytes "GET") ≡ true
      → o.key_readable ≡ true
  unfolding bytes_eq
  not_get_del_either o h = ground (arith, h)

  -- a served client is sent what the call is known to answer
  known :
      (o : Outside d x draws) (vs : List Bytes) (c : Session) (s : DataStructureService d x draws)
      (p : Processed d x draws) (a : DataStructureService d x draws × Result)
      → IsServed d x draws o vs c s p
      → invoke d x draws o (register_commands d x draws) vs s c.query_result ≡ some a
      → (p.service ≡ a.0) × (p.sent ≡ reply a.1)
  known o vs c s p a served h =
      let same : (p.service, served.answer) ≡ a =
        ap
          (λ (b : Option (DataStructureService d x draws × Result)). elim b [
            | none ↦ a
            | some e ↦ e
          ])
          (sym served.invoked ∙ h) in
      (
        ap (λ (b : DataStructureService d x draws × Result). b.0) same,
        served.replied ∙ ap (λ (b : DataStructureService d x draws × Result). reply b.1) same,
      )

  -- what GET answers after SET
  get-set :
      (k v : Bytes) (s : Service d x) (r r' : Result)
      → IsValid s
      → let t = (set_with d x k v no_options s r).0 in
        IsValid t → (get_function d x t (bytes "GET" ∷ k ∷ []) r').1 ≡ set_string r' (some v)
  get-set k v s r r' valid valid' =
      let t = (set_with d x k v no_options s r).0 in
      let (_, set) = set_with_admitted s k v no_options r valid refl refl in
      let (_, answer) = get_function_lem t (bytes "GET") k r' valid' in
      let alive : live t k ≡ some (some v) =
        ground (arith, set.values k, set.deadlines k, bytes_eq_refl k) in
      answer ∙ rw alive refl

  reply-set_ok : (r : Result) → reply (set_ok r) ≡ some ok_str
  unfolding reply needs_gather result_to_string_view
  reply-set_ok r = refl

  reply-set_string :
      (r : Result) (v : Bytes)
      → reply (set_string r (some v)) ≡ some (concat (str_to_iovecs (some v)))
  unfolding reply needs_gather result_to_iovecs
  reply-set_string r v = refl

  -- A client that is ready sends SET of a key and a value, while the memory is not exceeded, and is sent OK; any client that is
  -- ready then sends GET of the key, at the same time, and is sent the value, after its length: if no count or length in the requests is above
  -- 2 ^ 31 - 1, the tables are well formed, the server has not been shut down, every call of `GetRandomEntry` on a table that is not empty returns, and the number of samples is not 0.
  pub process_query-get-set :
      (o1 o2 : Outside d x draws) (k v rest1 rest2 : Bytes) (c1 c2 : Session)
      (s : DataStructureService d x draws)
      → IsIdle c1.mbulk_parser
      → IsIdle c2.mbulk_parser
      → all_fit (k ∷ v ∷ []) ≡ true
      → Hits d draws
      → IsReady s
      → s.shutdown_promise ≡ false
      → maxmemory_exceeded o1.allocated s.evicting.evictor ≡ 0
      → (p1 p2 : Processed d x draws) × (process_query d x draws o1
            (register_commands d x draws)
            (request (bytes "SET" ∷ k ∷ v ∷ []) rest1)
            c1
            s
          ≡ some p1)
        × (p1.sent ≡ some ok_str)
        × (process_query d x draws o2
              (register_commands d x draws)
              (request (bytes "GET" ∷ k ∷ []) rest2)
              c2
              p1.service
            ≡ some p2)
        × (p2.sent ≡ some (concat (str_to_iovecs (some v))))
  process_query-get-set o1 o2 k v rest1 rest2 c1 c2 s i1 i2 fit hits ready running room =
      let (p1, done1, served1) =
        process_query-IsServed d x draws o1 (bytes "SET") (k ∷ v ∷ []) rest1 c1 s i1 (omega arith)
          (ground arith) hits ready running (λ h. omega arith, not_get_del o1) in
      let t = (set_with d x k v no_options s.evicting.service c1.query_result).0 in
      let (state1, sent1) =
        known o1 (bytes "SET" ∷ k ∷ v ∷ []) c1 s p1 _ served1
          (invoke-set o1 k v s c1.query_result room) in
      let (stored_it, _) =
        set_with_admitted s.evicting.service k v no_options c1.query_result ready.valid refl refl in
      let (p2, done2, served2) =
        process_query-IsServed d x draws o2 (bytes "GET") (k ∷ []) rest2 c2 p1.service i2
          (omega arith) (ground arith) hits served1.ready
          (ap (λ (w : DataStructureService d x draws). w.shutdown_promise) state1 ∙ running)
          (λ h. omega arith, not_get_del_either o2) in
      let (_, sent2) =
        known o2 (bytes "GET" ∷ k ∷ []) c2 p1.service p2 _ served2
          (invoke-get o2 k p1.service c2.query_result) in
      let same : p1.service.evicting.service ≡ t =
        ap (λ (w : DataStructureService d x draws). w.evicting.service) state1 in
      let got =
        get-set k v s.evicting.service c1.query_result c2.query_result ready.valid
          (subst (λ (u : Service d x). IsValid u) same served1.ready.valid) in
      (
        p1,
        p2,
        done1,
        sent1 ∙ ap reply stored_it ∙ reply-set_ok c1.query_result,
        done2,
        sent2
            ∙ ap
                (λ (u : Service d x).
                  reply (get_function d x u (bytes "GET" ∷ k ∷ []) c2.query_result).1)
                same
            ∙ ap reply got
            ∙ reply-set_string c2.query_result v,
      )
