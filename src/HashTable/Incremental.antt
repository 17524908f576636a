-- ===== src/HashTable/Incremental.antt =====
-- service/data_structure_service.cc: `IncrementalRehashing`, which goes on with a rehashing until it is
-- over or the time is up. The readings of the clock are a parameter: one Boolean for each, whether time is
-- left.
use rdss.Base.{ℕ, ◌≡◌, Bool, true, List, [], ◌∷◌, Bytes, if◌then◌else◌, arith, Bool-cases, inl, inr}
use rdss.HashTable.Valid.{IsValid}
use rdss.HashTable.Rehash.{Keeps, Keeps-refl, Keeps-trans, rehash_some_done}
use rdss.HashTable.{Table, is_rehashing, rehash_some}

module _ {V : Type 0} (hash : Bytes → ℕ) where
  -- the loop
  unfoldable pub rehash_until : List Bool → Table V → Table V
  rehash_until [] t = (rehash_some hash 100 t).0
  rehash_until (time_left ∷ times) t =
      let (t', finished) = rehash_some hash 100 t in
      let rest = rehash_until times t' in if finished then t' else if time_left then rest else t'

  unfoldable pub incremental_rehashing : List Bool → Table V → Table V
  incremental_rehashing times t = if is_rehashing t then rehash_until times t else t

  rehash_until-Keeps :
      (times : List Bool) (t : Table V)
      → IsValid hash t
      → is_rehashing t ≡ true
      → Keeps hash t (rehash_until times t)
  unfolding rehash_until
  rehash_until-Keeps [] t v on = (rehash_some_done hash t 100 v on).kept
  rehash_until-Keeps (time_left ∷ times) t v on =
      let r = rehash_some_done hash t 100 v on in
      elim (Bool-cases (rehash_some hash 100 t).1) [
        | inl over ↦ rw (rehash_until, over) r.kept
        | inr more ↦ elim (Bool-cases time_left) [
          | inl left ↦
              rw (rehash_until, more, left)
                (Keeps-trans hash r.kept (
                  rehash_until-Keeps times (rehash_some hash 100 t).0 r.kept.valid
                    (ground (arith, r.finished))))
          | inr up ↦ rw (rehash_until, more, up) r.kept
        ]
      ]

  -- `IncrementalRehashing`, whatever the time it has, keeps a well-formed table well-formed, its lookups and its
  -- count.
  pub incremental_rehashing-Keeps :
      (times : List Bool) (t : Table V)
      → IsValid hash t
      → Keeps hash t (incremental_rehashing times t)
  unfolding incremental_rehashing
  incremental_rehashing-Keeps times t v = elim (Bool-cases (is_rehashing t)) [
    | inl on ↦ rw (incremental_rehashing, on) (rehash_until-Keeps times t v on)
    | inr off ↦ rw (incremental_rehashing, off) (Keeps-refl hash t v)
  ]
