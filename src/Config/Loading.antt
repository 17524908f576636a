-- ===== src/Config/Loading.antt =====
-- What the settings can be once a file is read.
use rdss.Base.{
  ◌^◌, ◌<◌, ◌≡◌, ◌≢◌, ◌⊎◌, refl, none, some, Bytes, bytes, arith, bytes_eq, bytes_eq_iff,
  Option-cases, inl, inr,
}
use rdss.Config.{
  MaxmemoryPolicy, no_eviction, all_keys_random, all_keys_lru, maxmemory_policy_str_to_enum,
  maxmemory_policy_enum_to_str, Config, Ini, settings, read_from_file,
}

enum_to_str-str_to_enum :
    (str : Bytes) (p : MaxmemoryPolicy)
    → maxmemory_policy_str_to_enum str ≡ some p
    → str ≡ maxmemory_policy_enum_to_str p
unfolding maxmemory_policy_str_to_enum maxmemory_policy_enum_to_str
enum_to_str-str_to_enum str no_eviction h = ground (arith, h, bytes_eq_iff str (bytes "noeviction"))
enum_to_str-str_to_enum str all_keys_random h =
    ground (arith, h, bytes_eq_iff str (bytes "allkeys-random"))
enum_to_str-str_to_enum str all_keys_lru h =
    ground (arith, h, bytes_eq_iff str (bytes "allkeys-lru"))

str_to_enum_named :
    (p : MaxmemoryPolicy) → maxmemory_policy_str_to_enum (maxmemory_policy_enum_to_str p) ≡ some p
unfolding maxmemory_policy_str_to_enum maxmemory_policy_enum_to_str bytes_eq
str_to_enum_named no_eviction = refl
str_to_enum_named all_keys_random = refl
str_to_enum_named all_keys_lru = refl

-- the text that a file has for the policy
abbrev pub policy_text : Ini → Bytes
policy_text ini = ini.string (bytes "redis") (bytes "maxmemory-policy") (bytes "noeviction")

-- Reading a file stops only where its policy has none of the three names. Else the policy is the one that
-- is named, the port fits 16 bits, some clients are admitted, and the limit of the memory is the file's, or the one before where the file has none.
pub read_from_file_lem :
    (ini : Ini) (c : Config)
    → ((read_from_file ini c ≡ none)
        × ((p : MaxmemoryPolicy) → policy_text ini ≢ maxmemory_policy_enum_to_str p))
      ⊎ ((c' : Config) × (read_from_file ini c ≡ some c')
          × (policy_text ini ≡ maxmemory_policy_enum_to_str c'.maxmemory_policy)
          × (c'.port < 2 ^ 16)
          × (0 < c'.maxclients)
          × (c'.maxmemory ≡ ini.number (bytes "redis") (bytes "maxmemory") c.maxmemory))
unfolding read_from_file
read_from_file_lem ini c = elim (Option-cases (maxmemory_policy_str_to_enum (policy_text ini))) [
  | inl unknown ↦
      inl
        (rw (read_from_file, unknown) refl, λ p h. ground (arith, str_to_enum_named p, unknown, h))
  | inr (p, named) ↦ inr (
    settings ini c p,
    rw (read_from_file, named) refl,
    enum_to_str-str_to_enum (policy_text ini) p named,
    ground arith,
    ground arith,
    refl,
  )
]
