-- ===== src/Client/Serving.antt =====
-- A request from the bytes that arrive to the bytes that are sent back.
use rdss.Base.{
  ℕ, ◌≤◌, ◌≡◌, refl, sym, true, false, Option, none, some, List, ◌∷◌, Bytes, length, is_some,
}
use rdss.KeyTable.{KeyTable}
use rdss.Resp.Result.{MtsPtr, Result, ok, error, nil, int, string, strings, reset}
use rdss.Resp.Parser.{MultiBulkParser, new_parser, int_max, fresh_parser, done}
use rdss.Resp.Requests.{request, all_fit, parse-request}
use rdss.Resp.Replier.{reply, needs_gather, result_to_string_view}
use rdss.Service.Eviction.{Draws}
use rdss.Service.Eviction.Sampling.{Hits}
use rdss.Dispatch.{DataStructureService, Outside, invoke}
use rdss.Dispatch.Registry.{register_commands}
use rdss.Dispatch.Calls.{IsAnswerable, IsReady}
use rdss.Dispatch.Invocation.{invoke-IsReady}
use rdss.Client.{in_progress, parser_of, bulk_query, parse_query}
use rdss.Client.Process.{Session, Processed, strings_of, send_result, process_query}

-- The parser is missing, new, done or has failed.
pub record IsIdle (p : Option MultiBulkParser) : Type 0 where
  pub idle : in_progress p ≡ false
  pub fresh : fresh_parser (parser_of p) ≡ new_parser

-- a parser that is done
done-IsIdle : (p : MultiBulkParser) → p.state ≡ done → IsIdle (some p)
unfolding fresh_parser
done-IsIdle p h = record { idle = rw h refl; fresh = rw (fresh_parser, h) refl }

request_query :
    (vs : List Bytes) (rest : Bytes) (p : Option MultiBulkParser) (arguments : List Bytes)
    → IsIdle p
    → length vs ≤ int_max
    → all_fit vs ≡ true
    → let q = bulk_query (parser_of p) (request vs rest) arguments in
      (parse_query p (request vs rest) arguments ≡ some q)
      × (q.state ≡ done)
      × (strings_of q ≡ vs)
      × IsIdle q.mbulk_parser
unfolding parse_query bulk_query
request_query vs rest p arguments i small fit =
    let (state, args, views, consumed) =
      parse-request vs rest (parser_of p) arguments i.fresh small fit in
    (rw (parse_query, i.idle) refl, state, rw (state, args) views, done-IsIdle _ state)

-- Every result is printed.
reply_total : (r : Result) → (sent : Bytes) × (reply r ≡ some sent)
unfolding reply needs_gather result_to_string_view
reply_total r = elim r.kind as (λ k. (sent : Bytes) × (reply (record r { kind = k }) ≡ some sent)) [
  | ok ↦ (_, refl)
  | error ↦ (_, refl)
  | nil ↦ (_, refl)
  | int ↦ (_, refl)
  | string ↦ (_, refl)
  | strings ↦ (_, refl)
]

module _ (d : KeyTable MtsPtr none) (x : KeyTable ℕ 0) (draws : Draws d) where
  -- The client was sent the reply to what `Invoke` answered, and is ready for the next request.
  pub record IsServed (o : Outside d x draws) (vs : List Bytes) (c : Session)
      (s : DataStructureService d x draws) (p : Processed d x draws) : Type 0 where
    pub answer : Result
    pub invoked :
        invoke d x draws o (register_commands d x draws) vs s c.query_result
        ≡ some (p.service, answer)
    pub replied : p.sent ≡ reply answer
    pub answered : is_some p.sent ≡ true
    pub idle : IsIdle p.session.mbulk_parser
    pub cleared : p.session.query_result ≡ reset answer
    pub ready : IsReady p.service

  -- A request that arrives whole at a client which is not in the middle of another is answered by what the
  -- command answers, and leaves the client ready for the next one and the tables well formed: if it has at most 2 ^ 31 - 1 arguments
  -- of at most that length, with a key where it is TTL, and one that stays readable while it is erased where it is GETDEL, the server has not been shut down, every call of `GetRandomEntry` on a table that is not
  -- empty returns, and the number of samples is not 0.
  pub process_query-IsServed :
      (o : Outside d x draws) (name : Bytes) (args : List Bytes) (rest : Bytes) (c : Session)
      (s : DataStructureService d x draws)
      → IsIdle c.mbulk_parser
      → length (name ∷ args) ≤ int_max
      → all_fit (name ∷ args) ≡ true
      → Hits d draws
      → IsReady s
      → s.shutdown_promise ≡ false
      → IsAnswerable o name args
      → (p : Processed d x draws) × (process_query d x draws o
            (register_commands d x draws)
            (request (name ∷ args) rest)
            c
            s
          ≡ some p)
        × IsServed o (name ∷ args) c s p
  unfolding process_query send_result
  process_query-IsServed o name args rest c s i small fit hits ready running answerable =
      let vs : List Bytes = name ∷ args in
      let (parsed, state, views, idle) =
        request_query vs rest c.mbulk_parser c.arguments i small fit in
      let q = bulk_query (parser_of c.mbulk_parser) (request vs rest) c.arguments in
      let ((s', r'), invoked, ready') =
        invoke-IsReady d x draws o name args s c.query_result hits ready running answerable in
      let (sent, printed) = reply_total r' in
      (
        record {
          session = record {
            mbulk_parser = q.mbulk_parser;
            arguments = q.arguments;
            query_result = reset r';
          };
          service = s';
          sent = some sent;
        },
        rw (process_query, parsed, state, views, invoked, send_result, printed) refl,
        record {
          answer = r';
          invoked = invoked;
          replied = sym printed;
          answered = refl;
          idle = idle;
          cleared = refl;
          ready = ready';
        },
      )
