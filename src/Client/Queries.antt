-- ===== src/Client/Queries.antt =====
-- A client reads a request with either parser state that is left by the query before.
use rdss.Base.{◌+◌, ◌≤◌, ◌≡◌, refl, true, false, Option, some, List, Bytes, length, take}
use rdss.Resp.Parser.{done, MultiBulkParser, new_parser, int_max, fresh_parser}
use rdss.Resp.Requests.{request, all_fit, parse-request}
use rdss.Client.{Query, in_progress, parser_of, bulk_query, parse_query}

-- A client whose parser is missing, new, done or has failed reads a request as the multi-bulk parser
-- does: it is done, knows the number of strings and has them as its first arguments, if their number
-- and the length of each are at most 2 ^ 31 - 1.
pub parse_query-request :
    (vs : List Bytes) (rest : Bytes) (p : Option MultiBulkParser) (arguments : List Bytes)
    → in_progress p ≡ false
    → fresh_parser (parser_of p) ≡ new_parser
    → length vs ≤ int_max
    → all_fit vs ≡ true
    → (q : Query) × (parse_query p (request vs rest) arguments ≡ some q)
      × (q.state ≡ done)
      × (q.num_strings ≡ some (length vs))
      × (take (length vs) q.arguments ≡ vs)
      × (q.consumed + length rest ≡ length (request vs rest))
unfolding parse_query bulk_query
parse_query-request vs rest p arguments idle fresh small fit =
    let (state, args, views, consumed) =
      parse-request vs rest (parser_of p) arguments fresh small fit in
    (
      bulk_query (parser_of p) (request vs rest) arguments,
      rw (parse_query, idle) refl,
      state,
      rw (bulk_query, state, args) refl,
      views,
      consumed,
    )
