-- ===== src/Commands/Writes.antt =====
-- string_commands.cc and key_commands.cc: the handlers that write.
use rdss.Base.{
  ℕ, ◌+◌, ◌-◌, ◌/◌, Bool, true, false, Option, none, some, List, [], ◌∷◌, ◌++◌, ◌||◌, ◌&&◌, not,
  Bytes, if◌then◌else◌, ltb, leb, is_some, pos, negsuc, length, get_elem?, take, drop, replicate,
  ◌==◌, ◌^◌, ◌%◌,
}
use rdss.HashTable.{HashTableKey, Entry}
use rdss.KeyTable.{KeyTable}
use rdss.Resp.Result.{
  MtsPtr, Result, not_an_int, wrong_arg_num, set_error, set_nil, set_string, set_int, set_ok,
}
use rdss.Service.{
  pointee, Service, SetStatus, regular, nx, no_op, inserted, updated, find_or_expire, erase_key,
  touch, assign, set_data,
}
use rdss.Commands.Times.{time_max, parse_int, parse_unsigned, int_to_time_point}
use rdss.Commands.Options.{SetOptions, no_options, extract_set_options, options, refused}
use rdss.Commands.Reads.{arg, text, Handler}

abbrev pub is_no_op : SetStatus → Bool
is_no_op no_op = true
is_no_op inserted = false
is_no_op updated = false

abbrev pub is_updated : SetStatus → Bool
is_updated no_op = false
is_updated inserted = false
is_updated updated = true

abbrev pub is_inserted : SetStatus → Bool
is_inserted no_op = false
is_inserted inserted = true
is_inserted updated = false

-- the entry that a pointer refers to, where there is one
abbrev pub key_or : Bytes → Option (Entry MtsPtr) → HashTableKey
key_or k none = record { data_ = k; lru = 0 }
key_or k (some e) = e.key

-- the answer of `SetFunction`
unfoldable pub set_reply : SetOptions → MtsPtr → Result → Result
set_reply o old_value r =
    if o.get
    then (elim old_value [ none ↦ set_nil r | some v ↦ set_string r (some v) ])
    else set_ok r

-- the value that `SetRangeFunction` stores; `keep` is the branch that changes the old value in place
unfoldable pub range_value : Bool → Bytes → ℕ → Bytes → Bytes
range_value keep old start_index value =
    if not keep
    then (if start_index == 0 then value else replicate ((start_index + 1) % 2 ^ 32) 0 ++ value)
    else if ltb (length old) start_index
    then (old ++ replicate (start_index - length old) 0) ++ value
    else take start_index old ++ value

module _ (d : KeyTable MtsPtr none) (x : KeyTable ℕ 0) where
  -- `expire_ht->Upsert(entry->CopyKey(), time)`
  unfoldable pub set_expire : Bytes → ℕ → Service d x → Service d x
  set_expire key t s = record s {
    expire_ht = (x.upsert_shared (key_or key (d.entry_at s.data_ht key)) t s.expire_ht).0;
  }

  unfoldable pub clear_expire : Bytes → Service d x → Service d x
  clear_expire key s = record s { expire_ht = (x.erase key s.expire_ht).0 }

  -- the change of the expiry table at the end of `SetFunction`
  unfoldable pub settle_deadline : Bytes → SetOptions → SetStatus → Service d x → Service d x
  settle_deadline key o status s = elim o.expire_time [
    | some t ↦ set_expire key t s
    | none ↦ if is_updated status && not o.keep_ttl then clear_expire key s else s
  ]

  -- `SetFunction` after the options
  unfoldable pub set_with : Bytes → Bytes → SetOptions → Service d x → Result → Service d x × Result
  set_with key value o s r =
      let out = set_data d x key value o.set_mode o.get s in
      if is_no_op out.status
      then (out.service, set_nil r)
      else (settle_deadline key o out.status out.service, set_reply o out.old_value r)

  unfoldable pub set_function : Handler d x
  set_function s args r =
      if ltb (length args) 3
      then (s, set_error r wrong_arg_num)
      else elim (extract_set_options (drop 3 args) s.now no_options) [
        | refused e ↦ (s, set_error r e)
        | options o ↦ set_with (arg args 1) (arg args 2) o s r
      ]

  -- the loop of `MSetFunction`, over the arguments after the name
  unfoldable pub mset_loop : List Bytes → Service d x → Service d x
  mset_loop (key ∷ value ∷ args) s =
      mset_loop args (clear_expire key (set_data d x key value regular false s).service)
  mset_loop (key ∷ []) s = s
  mset_loop [] s = s

  unfoldable pub m_set_function : Handler d x
  m_set_function s args r =
      if ltb (length args) 3 || length args % 2 == 0
      then (s, set_error r wrong_arg_num)
      else (mset_loop (drop 1 args) s, r)

  -- the loop of `MSetNXFunction`
  unfoldable pub msetnx_loop : List Bytes → Service d x → Bool → Service d x × Bool
  msetnx_loop (key ∷ value ∷ args) s succeeded =
      let out = set_data d x key value nx false s in
      msetnx_loop args out.service (succeeded || is_inserted out.status)
  msetnx_loop (key ∷ []) s succeeded = (s, succeeded)
  msetnx_loop [] s succeeded = (s, succeeded)

  unfoldable pub m_set_nx_function : Handler d x
  m_set_nx_function s args r =
      let (s', succeeded) = msetnx_loop (drop 1 args) s false in
      if ltb (length args) 3 || length args % 2 == 0
      then (s, set_error r wrong_arg_num)
      else (s', set_int r (pos (if succeeded then 1 else 0)))

  -- `SetEXFunctionBase`, with `unit` milliseconds to the duration
  unfoldable pub set_ex_function_base : ℕ → Handler d x
  set_ex_function_base unit s args r =
      let key = arg args 1 in
      let stored : Service d x = record s {
        data_ht = (d.upsert key (some (arg args 3)) s.data_ht).0;
      } in
      if length args == 4
      then (elim (parse_int time_max (arg args 2)) [
        | none ↦ (s, set_error r not_an_int)
        | some ll ↦ elim (int_to_time_point unit s.now ll) [
          | none ↦ (s, set_error r not_an_int)
          | some t ↦ (touch d x key (set_expire key t stored), r)
        ]
      ])
      else (s, set_error r wrong_arg_num)

  unfoldable pub set_ex_function : Handler d x
  set_ex_function = set_ex_function_base 1000

  unfoldable pub p_set_ex_function : Handler d x
  p_set_ex_function = set_ex_function_base 1

  unfoldable pub set_nx_function : Handler d x
  set_nx_function s args r =
      let out = set_data d x (arg args 1) (arg args 2) nx false s in
      if length args == 3
      then (out.service, set_int r (pos (if is_inserted out.status then 1 else 0)))
      else (s, set_error r wrong_arg_num)

  unfoldable pub get_set_function : Handler d x
  get_set_function s args r =
      let out = set_data d x (arg args 1) (arg args 2) regular true s in
      if length args == 3
      then (elim out.old_value [
        | none ↦ (out.service, set_nil r)
        | some v ↦ (clear_expire (arg args 1) out.service, set_string r (some v))
      ])
      else (s, set_error r wrong_arg_num)

  -- A value that a reply still holds is copied before it is changed, so its sharing does not show.
  unfoldable pub append_function : Handler d x
  append_function s args r =
      let key = arg args 1 in
      let value = arg args 2 in
      let (data_ht, exists) = d.find_or_create key s.data_ht in
      let old = text (pointee (d.entry_at data_ht key)) in
      let new_value = if exists then old ++ value else value in
      let s' = assign d x key (some new_value) (record s { data_ht = data_ht }) in
      if length args == 3
      then (touch d x key s', set_int r (pos (length new_value)))
      else (s, set_error r wrong_arg_num)

  -- `shared` is whether someone else holds the value, such as a reply that is still being sent:
  -- `use_count() != 1`.
  unfoldable pub set_range_function : Bool → Handler d x
  set_range_function shared s args r =
      let key = arg args 1 in
      let (data_ht, exists) = d.find_or_create key s.data_ht in
      let (expire_ht, expire_entry) = x.find key s.expire_ht in
      let stale : Bool = elim expire_entry [ none ↦ false | some t ↦ leb t.value s.now ] in
      let expire_ht' =
        if exists then (if stale then (x.erase key expire_ht).0 else expire_ht) else s.expire_ht in
      let old = text (pointee (d.entry_at data_ht key)) in
      let s' : Service d x = record s { data_ht = data_ht; expire_ht = expire_ht' } in
      if length args == 4
      then (elim (parse_unsigned (2 ^ 32 - 1) (arg args 2)) [
        | none ↦ (s, set_error r not_an_int)
        | some start_index ↦
            let v = range_value (exists && not stale && not shared) old start_index (arg args 3) in
            (touch d x key (assign d x key (some v) s'), set_int r (pos (length v)))
      ])
      else (s, set_error r wrong_arg_num)

  -- the loop of `DelFunction`
  unfoldable pub del_loop : List Bytes → Service d x → ℕ → Service d x × ℕ
  del_loop [] s deleted = (s, deleted)
  del_loop (key ∷ keys) s deleted =
      let (s', found) = find_or_expire d x key s in
      del_loop keys (if is_some found then erase_key d x key s' else s')
        (if is_some found then deleted + 1 else deleted)

  unfoldable pub del_function : Handler d x
  del_function s args r =
      let (s', deleted) = del_loop (drop 1 args) s 0 in
      if ltb (length args) 2 then (s, set_error r wrong_arg_num) else (s', set_int r (pos deleted))

  -- `TtlFunction` of a key
  unfoldable pub ttl_of : Bytes → Service d x → Result → Service d x × Result
  ttl_of key s r =
      let (data_ht, data_entry) = d.find key s.data_ht in
      let (expire_ht, expire_entry) = x.find key s.expire_ht in
      let s' : Service d x = record s { data_ht = data_ht; expire_ht = expire_ht } in
      let expired : Service d x = record s {
        data_ht = (d.erase key data_ht).0;
        expire_ht = (x.erase key expire_ht).0;
      } in
      elim data_entry [
        | none ↦ (record s { data_ht = data_ht }, set_int r (negsuc 1))
        | some e ↦ elim expire_entry [
          | none ↦ (s', set_int r (negsuc 0))
          | some t ↦
              if leb t.value s.now
              then (expired, set_int r (negsuc 1))
              else (s', set_int r (pos ((t.value - s.now) / 1000)))
        ]
      ]

  -- `none` is the read of `args[1]` past the end, which the guard does not exclude.
  unfoldable pub ttl_function : Service d x → List Bytes → Result → Option (Service d x × Result)
  ttl_function s args r =
      if ltb 2 (length args)
      then some (s, set_error r wrong_arg_num)
      else elim (get_elem? args 1) [ none ↦ none | some key ↦ some (ttl_of key s r) ]
