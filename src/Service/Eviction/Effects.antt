-- ===== src/Service/Eviction/Effects.antt =====
-- What an eviction may do to the service: it drops keys, in both tables together.
use rdss.Base.{ℕ, ◌≡◌, ◌⊎◌, inl, inr, refl, ◌∙◌, sym, arith, none, Bytes, bytes_eq, Bool-cases}
use rdss.KeyTable.{KeyTable}
use rdss.Resp.Result.{MtsPtr}
use rdss.Service.{Service}
use rdss.Service.View.{stored, deadline, IsValid}
use rdss.Service.Eviction.{Evicting, evict_key, Draws}

module _ {d : KeyTable MtsPtr none} {x : KeyTable ℕ 0} where
  -- Every key is as it was, or has neither a value nor a deadline any more.
  pub record Drops (s s' : Service d x) : Type 0 where
    pub clock : s'.now ≡ s.now
    pub kept_or_gone :
        (q : Bytes)
        → ((stored s' q ≡ stored s q) × (deadline s' q ≡ deadline s q))
          ⊎ ((stored s' q ≡ none) × (deadline s' q ≡ none))

  pub Drops-refl : (s : Service d x) → Drops s s
  Drops-refl s = record { clock = refl; kept_or_gone = λ q. inl (refl, refl) }

  pub Drops-trans : {s t u : Service d x} → Drops s t → Drops t u → Drops s u
  Drops-trans a b = record {
    clock = b.clock ∙ a.clock;
    kept_or_gone = λ q. elim (b.kept_or_gone q) [
      | inr gone ↦ inr gone
      | inl (v, t) ↦ elim (a.kept_or_gone q) [
        | inl (v', t') ↦ inl (v ∙ v', t ∙ t')
        | inr (v', t') ↦ inr (v ∙ v', t ∙ t')
      ]
    ];
  }

  pub Drops-IsValid : {s s' : Service d x} → Drops s s' → IsValid s → IsValid s'
  Drops-IsValid a v = record {
    bounded = λ q h. elim (a.kept_or_gone q) [
      | inl (value, time) ↦ ground (arith, value, time, v.bounded q, h)
      | inr (value, time) ↦ ground (arith, time, h)
    ];
    non_null = λ q h. elim (a.kept_or_gone q) [
      | inl (value, time) ↦ v.non_null q (sym value ∙ h)
      | inr (value, time) ↦ ground (arith, value, h)
    ];
  }

  pub evict_key-Drops :
      (draws : Draws d) (k : Bytes) (w : Evicting d x draws)
      → Drops w.service (evict_key d x draws k w).service
  unfolding evict_key
  evict_key-Drops draws k w = record {
    clock = refl;
    kept_or_gone = λ q. elim (Bool-cases (bytes_eq k q)) [
      | inl same ↦ inr (
        ground (arith, d.erase_reads k q w.service.data_ht),
        ground (arith, x.erase_reads k q w.service.expire_ht),
      )
      | inr other ↦ inl (
        ground (arith, d.erase_reads k q w.service.data_ht),
        ground (arith, x.erase_reads k q w.service.expire_ht),
      )
    ];
  }
