-- ===== src/Client/Process.antt =====
-- client.cc: a round of the loop of `Process`, from the bytes in the query buffer to the bytes that are
-- sent, and the reset after it.
use rdss.Base.{ℕ, Option, none, some, List, [], Bytes, take}
use rdss.KeyTable.{KeyTable}
use rdss.Resp.Result.{MtsPtr, Result, protocol, set_error, reset}
use rdss.Resp.Parser.{init, parsing, error, done, MultiBulkParser}
use rdss.Resp.Replier.{reply}
use rdss.Service.Eviction.{Draws}
use rdss.Dispatch.{DataStructureService, Outside, CommandDictionary, invoke}
use rdss.Client.{Query, parse_query}

-- what a `Client` keeps between two rounds, apart from its buffers
pub record Session : Type 0 where
  pub mbulk_parser : Option MultiBulkParser
  pub arguments : List Bytes
  pub query_result : Result

-- `arguments_` up to `num_strings`
abbrev pub strings_of : Query → List Bytes
strings_of q = elim q.num_strings [ none ↦ [] | some n ↦ take n q.arguments ]

module _ (d : KeyTable MtsPtr none) (x : KeyTable ℕ 0) (draws : Draws d) where
  -- What a round leaves. `sent` is what the client was sent: nothing while a request is incomplete.
  pub record Processed : Type 0 where
    pub session : Session
    pub service : DataStructureService d x draws
    pub sent : Option Bytes

  -- the reply to a result, and `ResetState`
  unfoldable pub send_result : Query → DataStructureService d x draws → Result → Option Processed
  send_result q s r = elim (reply r) [
    | none ↦ none
    | some bytes ↦ some (record {
      session = record {
        mbulk_parser = q.mbulk_parser;
        arguments = q.arguments;
        query_result = reset r;
      };
      service = s;
      sent = some bytes;
    })
  ]

  -- A round, with `source` in the query buffer. `none` is undefined behaviour, or a call that does not
  -- return.
  unfoldable pub process_query :
      Outside d x draws
      → CommandDictionary d x draws
      → Bytes
      → Session
      → DataStructureService d x draws
      → Option Processed
  process_query o commands source c s = elim (parse_query c.mbulk_parser source c.arguments) [
    | none ↦ none
    | some q ↦
        let waiting : Processed = record {
          session = record {
            mbulk_parser = q.mbulk_parser;
            arguments = q.arguments;
            query_result = c.query_result;
          };
          service = s;
          sent = none;
        } in
        elim q.state [
          | init ↦ some waiting
          | parsing ↦ some waiting
          | error ↦ send_result q s (set_error c.query_result protocol)
          | done ↦ elim (invoke d x draws o commands (strings_of q) s c.query_result) [
            | none ↦ none
            | some p ↦ send_result q p.0 p.1
          ]
        ]
  ]
