-- ===== src/Service/View.antt =====
-- What a client can see of the service, and the well-formedness of its two tables.
use rdss.Base.{
  ℕ, ◌≡◌, ◌≢◌, Bool, true, false, Option, none, some, Bytes, bytes_eq, if◌then◌else◌, leb, is_some,
}
use rdss.HashTable.{Entry}
use rdss.KeyTable.{KeyTable}
use rdss.Resp.Result.{MtsPtr}
use rdss.Service.{Service}

abbrev pub value_of : {V : Type 0} → Option (Entry V) → Option V
value_of none = none
value_of (some e) = some e.value

-- what a write under a key makes of a function of keys
abbrev pub put : {A : Type 0} → Bytes → A → (Bytes → A) → Bytes → A
put k a f q = if bytes_eq k q then a else f q

abbrev pub join : Option MtsPtr → MtsPtr
join none = none
join (some v) = v

-- whether the time, if there is one, has come
abbrev pub past : Option ℕ → ℕ → Bool
past none now = false
past (some t) now = leb t now

module _ {d : KeyTable MtsPtr none} {x : KeyTable ℕ 0} where
  -- the value stored under the key, stale or not
  abbrev pub stored : Service d x → Bytes → Option MtsPtr
  stored s k = value_of (d.entry_at s.data_ht k)

  -- the time at which the key expires
  abbrev pub deadline : Service d x → Bytes → Option ℕ
  deadline s k = value_of (x.entry_at s.expire_ht k)

  abbrev pub stale : Service d x → Bytes → Bool
  stale s k = past (deadline s k) s.now

  -- the value that the key has for a client
  abbrev pub live : Service d x → Bytes → Option MtsPtr
  live s k = if stale s k then none else stored s k

  -- Every key that may expire is stored, and no stored value is null.
  pub record IsValid (s : Service d x) : Type 0 where
    pub bounded : (k : Bytes) → is_some (deadline s k) ≡ true → is_some (stored s k) ≡ true
    pub non_null : (k : Bytes) → stored s k ≢ some none
