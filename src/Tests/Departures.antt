-- ===== src/Tests/Departures.antt =====
-- The theorems on the commands that depart from their documentation, and those on times, options and
-- ranges, at the services of Tests/Data.
use rdss.Base.{
  ◌+◌, ◌*◌, ◌≡◌, refl, List, [], ◌∷◌, ◌++◌, Bytes, bytes, bytes_eq, false, none, some, arith,
  if◌then◌else◌, length, pos, from_chars, is_some, ◌&&◌, not, ◌^◌, ◌-◌,
}
use rdss.Resp.Result.{new_result, set_nil, set_int, set_string}
use rdss.Service.{Service, nx}
use rdss.Service.View.{live, stored, deadline, stale, put, join}
use rdss.Service.Effects.{Becomes}
use rdss.Commands.Times.{time_max, parse_int, parse_unsigned, expire_kind, rep_to_tp}
use rdss.Commands.Options.{
  SetOptions, no_options, extract_set_options, options, option_step, extract_expire_options,
  expire_at,
}
use rdss.Commands.OptionLaws.{Agree, extract_set_options-Agree}
use rdss.Commands.Reads.{get_range, text}
use rdss.Commands.Writes.{
  m_set_nx_function, get_set_function, ttl_function, set_ex_function, append_function,
  set_range_function,
}
use rdss.Commands.WriteLaws.{m_set_nx_function_partial, get_set_function_lem}
use rdss.Commands.TimeLaws.{ttl_reply, ttl_function_lem, set_ex_function_lem}
use rdss.Commands.RangeLaws.{
  get_range_past_end, get_range_single, appended, append_function_lem, before_range,
  set_range_function_lem,
}
use rdss.Tests.Data.{
  data_table, expire_table, name, one, two, new_service, one_key, one_key-IsValid, one_key-live,
  one_key-absent, late, new_service-now,
}

abbrev both : List Bytes
both = name ∷ one ∷ bytes "2" ∷ two ∷ bytes "3" ∷ []

m_set_nx_function_partial_example :
    ((m_set_nx_function data_table expire_table one_key both new_result).1
      ≡ set_int new_result (pos 1))
    × (live (m_set_nx_function data_table expire_table one_key both new_result).0 two
        ≡ some (some (bytes "3")))
    × (live (m_set_nx_function data_table expire_table one_key both new_result).0 one
        ≡ live one_key one)
m_set_nx_function_partial_example =
    m_set_nx_function_partial one_key name one (bytes "2") two (bytes "3") new_result
      one_key-IsValid one_key-live one_key-absent

get_set_function_lem_example :
    ((get_set_function data_table expire_table late (name ∷ one ∷ two ∷ []) new_result).1
      ≡ (elim (join (live late one)) [
        | none ↦ set_nil new_result
        | some w ↦ set_string new_result (some w)
      ]))
    × ((q : Bytes)
        → live
            (get_set_function data_table expire_table late (name ∷ one ∷ two ∷ []) new_result).0
            q
          ≡ (if bytes_eq one q
              then (if stale late one then none else some (some two))
              else live late q))
get_set_function_lem_example = get_set_function_lem late name one two new_result

ttl_function_lem_example :
    (s' : Service data_table expire_table) × (ttl_function data_table expire_table one_key
        (name ∷ one ∷ [])
        new_result
      ≡ some (
        s',
        set_int new_result (ttl_reply (live one_key one) (deadline one_key one) one_key.now),
      ))
    × ((q : Bytes) → live s' q ≡ live one_key q)
ttl_function_lem_example = ttl_function_lem one_key name one new_result

ten_seconds : parse_int time_max (bytes "10") ≡ some (pos 10)
unfolding parse_int from_chars
ten_seconds = refl

set_ex_function_lem_example :
    ((set_ex_function data_table expire_table new_service
        (name ∷ one ∷ bytes "10" ∷ two ∷ [])
        new_result).1
      ≡ new_result)
    × Becomes new_service
        (set_ex_function data_table expire_table new_service
          (name ∷ one ∷ bytes "10" ∷ two ∷ [])
          new_result).0
        (put one (some (some two)) (stored new_service))
        (put one (some (new_service.now + 10 * 1000)) (deadline new_service))
set_ex_function_lem_example =
    set_ex_function_lem new_service name one (bytes "10") two 10 new_result ten_seconds
      (omega arith) (omega (arith, new_service-now))

abbrev ten_seconds_options : SetOptions
ten_seconds_options = record no_options { set_mode = nx; expire_time = some 10005 }

ten_seconds_accepted :
    extract_set_options (bytes "NX" ∷ bytes "EX" ∷ bytes "10" ∷ []) 5 no_options
    ≡ options ten_seconds_options
unfolding extract_set_options option_step bytes_eq extract_expire_options expire_kind parse_int
    expire_at rep_to_tp
ten_seconds_accepted = refl

extract_set_options-Agree_example : Agree ten_seconds_options
extract_set_options-Agree_example =
    extract_set_options-Agree (bytes "NX" ∷ bytes "EX" ∷ bytes "10" ∷ []) 5 ten_seconds_options
      (omega arith) ten_seconds_accepted

get_range_past_end_example : get_range (bytes "hello") (pos 1) (pos 9) ≡ bytes "ello" ++ 0 ∷ []
get_range_past_end_example = get_range_past_end (bytes "hello") 1 9 (omega arith) (omega arith)

get_range_single_example : get_range (bytes "hello") (pos 1) (pos 1) ≡ []
get_range_single_example = get_range_single (bytes "hello") 1

three_read : parse_unsigned (2 ^ 32 - 1) (bytes "3") ≡ some 3
unfolding parse_unsigned
three_read = refl

set_range_function_lem_example :
    let keep = is_some (stored one_key one) && not (stale one_key one) && not false in
    let value = before_range keep (text (join (stored one_key one))) 3 ++ bytes "hello" in
    let p =
      set_range_function data_table expire_table false one_key
        (name ∷ one ∷ bytes "3" ∷ bytes "hello" ∷ [])
        new_result in
    (p.1 ≡ set_int new_result (pos (length value)))
    × Becomes one_key p.0 (put one (some (some value)) (stored one_key)) (
        if is_some (stored one_key one) && stale one_key one
        then put one none (deadline one_key)
        else deadline one_key)
set_range_function_lem_example =
    set_range_function_lem false one_key name one (bytes "3") (bytes "hello") 3 new_result
      three_read (omega arith)

append_function_lem_example :
    ((append_function data_table expire_table one_key (name ∷ one ∷ two ∷ []) new_result).1
      ≡ set_int new_result (pos (length (appended (stored one_key one) two))))
    × Becomes one_key
        (append_function data_table expire_table one_key (name ∷ one ∷ two ∷ []) new_result).0
        (put one (some (some (appended (stored one_key one) two))) (stored one_key))
        (deadline one_key)
append_function_lem_example = append_function_lem one_key name one two new_result
