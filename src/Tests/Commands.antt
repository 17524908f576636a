-- ===== src/Tests/Commands.antt =====
-- The theorems on the service and its commands, at the services of Tests/Data.
use rdss.Base.{◌≡◌, refl, [], ◌∷◌, bytes, true, false, none, some, if◌then◌else◌, map}
use rdss.Resp.Result.{new_result, strings, set_ok, set_nil, set_string}
use rdss.Service.{regular, xx}
use rdss.Service.View.{live, stored, deadline, put, join}
use rdss.Service.Effects.{Becomes}
use rdss.Commands.Options.{SetOptions}
use rdss.Commands.Reads.{get_function, m_get_function}
use rdss.Commands.ReadLaws.{SameView, get_reply, get_function_lem, m_get_function_lem}
use rdss.Commands.Writes.{set_with, del_function, m_set_function}
use rdss.Commands.SetLaws.{set_with_admitted, set_get_keeps_deadline, set_get_lost}
use rdss.Commands.WriteLaws.{among, last_value, is_named, del_function_lem, m_set_function_lem}
use rdss.Tests.Data.{
  data_table, expire_table, name, one, two, one_key, one_key-IsValid, one_key-live, late,
  late-stale,
}

get_function_lem_example :
    SameView one_key (get_function data_table expire_table one_key (name ∷ one ∷ []) new_result).0
    × ((get_function data_table expire_table one_key (name ∷ one ∷ []) new_result).1
        ≡ get_reply (live one_key one) new_result)
get_function_lem_example = get_function_lem one_key name one new_result one_key-IsValid

m_get_function_lem_example :
    SameView one_key
      (m_get_function data_table expire_table one_key (name ∷ one ∷ two ∷ []) new_result).0
    × ((m_get_function data_table expire_table one_key (name ∷ one ∷ two ∷ []) new_result).1
        ≡ record new_result {
          kind = strings;
          strings_list = map (λ q. join (live one_key q)) (one ∷ two ∷ []);
        })
m_get_function_lem_example =
    m_get_function_lem one_key name one (two ∷ []) new_result one_key-IsValid refl

abbrev in_ten : SetOptions
in_ten = record { set_mode = xx; expire_time = some 15; keep_ttl = false; get = false }

set_with_admitted_example :
    ((set_with data_table expire_table one (bytes "2") in_ten one_key new_result).1
      ≡ set_ok new_result)
    × Becomes one_key
        (set_with data_table expire_table one (bytes "2") in_ten one_key new_result).0
        (put one (some (some (bytes "2"))) (stored one_key))
        (put one (some 15) (deadline one_key))
set_with_admitted_example =
    set_with_admitted one_key one (bytes "2") in_ten new_result one_key-IsValid refl one_key-live

abbrev getting : SetOptions
getting = record { set_mode = regular; expire_time = none; keep_ttl = false; get = true }

set_get_keeps_deadline_example :
    ((set_with data_table expire_table one (bytes "2") getting one_key new_result).1
      ≡ (elim (join (live one_key one)) [
        | none ↦ set_nil new_result
        | some w ↦ set_string new_result (some w)
      ]))
    × Becomes one_key
        (set_with data_table expire_table one (bytes "2") getting one_key new_result).0
        (put one (some (some (bytes "2"))) (stored one_key))
        (deadline one_key)
set_get_keeps_deadline_example = set_get_keeps_deadline one_key one (bytes "2") false new_result

set_get_lost_example :
    live (set_with data_table expire_table one (bytes "2") getting late new_result).0 one ≡ none
set_get_lost_example = set_get_lost late one (bytes "2") false new_result late-stale

del_function_lem_example :
    live (del_function data_table expire_table one_key (name ∷ one ∷ two ∷ []) new_result).0 one
    ≡ (if among one (one ∷ two ∷ []) then none else live one_key one)
del_function_lem_example =
    del_function_lem one_key name one (two ∷ []) new_result one_key-IsValid one

m_set_function_lem_example :
    let s' =
      (m_set_function data_table expire_table late
        (name ∷ one ∷ bytes "2" ∷ one ∷ bytes "3" ∷ [])
        new_result).0 in
    (live s' one ≡ last_value (one ∷ bytes "2" ∷ one ∷ bytes "3" ∷ []) one (live late one))
    × (deadline s' one ≡ (
        if is_named (one ∷ bytes "2" ∷ one ∷ bytes "3" ∷ []) one then none else deadline late one))
m_set_function_lem_example =
    m_set_function_lem late name one (bytes "2") (one ∷ bytes "3" ∷ []) new_result refl one
