-- ===== src/Client.antt =====
-- client.cc: the choice between the two parsers, and the reset between two queries.
pub mod Queries
pub mod Process
pub mod Serving
pub mod RoundTrip
use rdss.Base.{ℕ, Bool, true, false, Option, none, some, List, [], ◌∷◌, Bytes, if◌then◌else◌, ◌==◌}
use rdss.Resp.Parser.{ParserState, parsing, done, MultiBulkParser, new_parser, parse, parse_inline}

-- what `Parse` returns and leaves; the number of strings is set where it is done
pub record Query : Type 0 where
  pub state : ParserState
  pub mbulk_parser : Option MultiBulkParser
  pub consumed : ℕ
  pub arguments : List Bytes
  pub num_strings : Option ℕ

abbrev pub in_progress : Option MultiBulkParser → Bool
in_progress none = false
in_progress (some p) = elim p.state [ parsing ↦ true | _ ↦ false ]

-- the parser, made where there is none
abbrev pub parser_of : Option MultiBulkParser → MultiBulkParser
parser_of none = new_parser
parser_of (some p) = p

unfoldable pub bulk_query : MultiBulkParser → Bytes → List Bytes → Query
bulk_query p src arguments =
    let r = parse p src arguments in
    record {
      state = r.parser.state;
      mbulk_parser = some r.parser;
      consumed = r.consumed;
      arguments = r.result;
      num_strings = elim r.parser.state [ done ↦ some r.parser.args | _ ↦ none ];
    }

unfoldable pub inline_query : Option MultiBulkParser → Bytes → List Bytes → Query
inline_query p src arguments =
    let r = parse_inline src arguments in
    record {
      state = r.state;
      mbulk_parser = p;
      consumed = r.consumed;
      arguments = r.result;
      num_strings = r.result_size;
    }

-- `at(0)` of an empty source throws: `none`.
unfoldable pub parse_query : Option MultiBulkParser → Bytes → List Bytes → Option Query
parse_query p [] arguments =
    if in_progress p then some (bulk_query (parser_of p) [] arguments) else none
parse_query p (c ∷ cs) arguments =
    if in_progress p
    then some (bulk_query (parser_of p) (c ∷ cs) arguments)
    else if c == b'*'
    then some (bulk_query (parser_of p) (c ∷ cs) arguments)
    else some (inline_query p (c ∷ cs) arguments)
