-- ===== src/Dispatch/Calls.antt =====
-- What every registered command does when it is called: it returns, keeps the service well formed, and
-- does not look at the name under which it was called.
use rdss.Base.{
  ℕ, suc, ◌<◌, ◌≡◌, refl, sym, ap, ◌∙◌, arith, Bool, true, false, ◌&&◌, ◌==◌, Option, none, some,
  List, [], ◌∷◌, Bytes, bytes, bytes_eq, get_or, length, Bool-cases, inl, inr, ltb,
}
use rdss.KeyTable.{KeyTable}
use rdss.Resp.Result.{MtsPtr, Result, set_nil, set_ok, set_error, protocol, wrong_arg_num}
use rdss.Service.{Service}
use rdss.Service.View.{IsValid}
use rdss.Service.Eviction.{Draws}
use rdss.Commands.Reads.{Handler, get_del_function}
use rdss.Commands.Writes.{set_range_function, ttl_function, ttl_of}
use rdss.Commands.Validity.{Preserves, get_del_function_returns}
use rdss.Commands.WriteValidity.{set_range_function-Preserves, ttl_of-IsValid}
use rdss.Dispatch.{
  DataStructureService, Outside, Command, CommandHandler, on_tables, with_service, shutdown,
}
use rdss.Dispatch.Misc.{info_function, shutdown_function, hello_function}
use rdss.Dispatch.Names.{is_name_of}
use rdss.Dispatch.Registry.{
  set_range_handler, ttl_handler, get_del_handler, read_command, write_command,
}

module _ {d : KeyTable MtsPtr none} {x : KeyTable ℕ 0} where
  -- the handler does not read the name
  abbrev Nameless : Handler d x → Type 0
  Nameless h =
      (s : Service d x) (n m : Bytes) (args : List Bytes) (r : Result)
      → h s (n ∷ args) r ≡ h s (m ∷ args) r

module _ {d : KeyTable MtsPtr none} {x : KeyTable ℕ 0} {draws : Draws d} where
  -- Apart from its name, TTL is given a key; the key of GETDEL stays readable while it is erased.
  abbrev pub IsAnswerable : Outside d x draws → Bytes → List Bytes → Type 0
  IsAnswerable o name args =
      (is_name_of (bytes "TTL") name ≡ true → 0 < length args)
      × (is_name_of (bytes "GETDEL") name ≡ true → o.key_readable ≡ true)

  -- The tables are well formed, and the evictor is to take samples.
  pub record IsReady (s : DataStructureService d x draws) : Type 0 where
    pub valid : IsValid s.evicting.service
    pub samples : 0 < s.evicting.evictor.maxmemory_samples

  -- A call under the name `n` leaves the service ready, and running unless it is SHUTDOWN.
  pub record Answered (n : Bytes) (s s' : DataStructureService d x draws) : Type 0 where
    pub ready : IsReady s'
    pub running : is_name_of (bytes "SHUTDOWN") n ≡ false → s'.shutdown_promise ≡ s.shutdown_promise

  abbrev pub Returns :
      Bytes
      → DataStructureService d x draws
      → Option (DataStructureService d x draws × Result)
      → Type 0
  Returns n s o = (p : DataStructureService d x draws × Result) × (o ≡ some p) × Answered n s p.0

  pub record Fits (c : Command d x draws) : Type 0 where
    pub nameless :
        (o : Outside d x draws) (s : DataStructureService d x draws) (n m : Bytes)
        (args : List Bytes) (r : Result)
        → c.handler o s (n ∷ args) r ≡ c.handler o s (m ∷ args) r
    pub returns :
        (o : Outside d x draws) (s : DataStructureService d x draws) (n : Bytes) (args : List Bytes)
        (r : Result)
        → IsReady s
        → s.shutdown_promise ≡ false
        → is_name_of c.name_ n ≡ true
        → IsAnswerable o n args
        → Returns n s (c.handler o s (n ∷ args) r)

  pub on_tables-Fits :
      (name : Bytes) (w : Bool) (h : Handler d x)
      → Preserves h
      → Nameless h
      → Fits (record { name_ = name; is_write_command = w; handler = on_tables d x draws h })
  on_tables-Fits name w h keeps skips = record {
    nameless = λ o s n m args r.
        ap (λ p. some (with_service d x draws p s)) (skips s.evicting.service n m args r);
    returns = λ o s n args r ready running named answerable. (
      with_service d x draws (h s.evicting.service (n ∷ args) r) s,
      refl,
      record {
        ready = record {
          valid = keeps s.evicting.service (n ∷ args) r ready.valid;
          samples = ready.samples;
        };
        running = λ h. refl;
      },
    );
  }

  pub set_range-Fits :
      Fits (write_command d x draws (bytes "SETRANGE") (set_range_handler d x draws))
  unfolding set_range_function
  set_range-Fits = record {
    nameless = λ o s n m args r. refl;
    returns = λ o s n args r ready running named answerable.
        (on_tables-Fits (bytes "SETRANGE") true (set_range_function d x o.shared)
            (set_range_function-Preserves o.shared) (λ t n' m args' r'. refl)).returns
          o s n args r ready running named answerable;
  }

  ttl_returns :
      (s : DataStructureService d x draws) (n : Bytes) (args : List Bytes) (r : Result)
      → IsReady s
      → 0 < length args
      → (p : Service d x × Result) × (ttl_function d x s.evicting.service (n ∷ args) r ≡ some p)
        × IsValid p.0
  unfolding ttl_function
  ttl_returns s n [] r ready h = elim h [ ]
  ttl_returns s n (k ∷ []) r ready h =
      (ttl_of d x k s.evicting.service r, refl, ttl_of-IsValid k s.evicting.service r ready.valid)
  ttl_returns s n (k ∷ a ∷ args) r ready h =
      ((s.evicting.service, set_error r wrong_arg_num), rw (many (length args)) refl, ready.valid)
    where
      many : (m : ℕ) → ltb 2 (suc (suc (suc m))) ≡ true
      many m = ground arith

  pub ttl-Fits : Fits (read_command d x draws (bytes "TTL") (ttl_handler d x draws))
  ttl-Fits = record {
    nameless = λ o s n m args r. unfold ttl_function in refl;
    returns = λ o s n args r ready running named answerable.
        let (p, found, valid) = ttl_returns s n args r ready (answerable.0 named) in
        (
          with_service d x draws p s,
          rw (ttl_handler, found) refl,
          record { ready = record { valid = valid; samples = ready.samples }; running = λ h. refl },
        );
  }

  pub get_del-Fits : Fits (read_command d x draws (bytes "GETDEL") (get_del_handler d x draws))
  get_del-Fits = record {
    nameless = λ o s n m args r. unfold get_del_function in refl;
    returns = λ o s n args r ready running named answerable.
        let (p, found, valid) =
          get_del_function_returns s.evicting.service (n ∷ args) r ready.valid in
        (
          with_service d x draws p s,
          rw (get_del_handler, answerable.1 named, found) refl,
          record { ready = record { valid = valid; samples = ready.samples }; running = λ h. refl },
        );
  }

  -- a handler that leaves the service as it was
  pub unchanged-Fits :
      (name : Bytes) (h : CommandHandler d x draws)
      → ((o : Outside d x draws) (s : DataStructureService d x draws) (n m : Bytes)
            (args : List Bytes) (r : Result)
          → (r' : Result) × (h o s (n ∷ args) r ≡ some (s, r'))
            × (h o s (m ∷ args) r ≡ some (s, r')))
      → Fits (read_command d x draws name h)
  unchanged-Fits name h keeps = record {
    nameless = λ o s n m args r. let (r', here, there) = keeps o s n m args r in here ∙ sym there;
    returns = λ o s n args r ready running named answerable.
        let (r', here, _) = keeps o s n n args r in
        ((s, r'), here, record { ready = ready; running = λ h. refl });
  }

  pub info-Fits : Fits (read_command d x draws (bytes "INFO") (info_function d x draws))
  unfolding info_function
  info-Fits =
      unchanged-Fits (bytes "INFO") (info_function d x draws) (λ o s n m args r. (_, refl, refl))

  pub hello-Fits : Fits (read_command d x draws (bytes "HELLO") (hello_function d x draws))
  unfolding hello_function
  hello-Fits = unchanged-Fits (bytes "HELLO") (hello_function d x draws) (λ o s n m args r.
      elim (Bool-cases (length (n ∷ args) == 2 && bytes_eq (get_or args 0 []) (bytes "3"))) [
        | inl three ↦ (set_ok r, rw three refl, rw three refl)
        | inr other ↦ (set_error r protocol, rw other refl, rw other refl)
      ])

  pub shutdown-Fits : Fits (read_command d x draws (bytes "SHUTDOWN") (shutdown_function d x draws))
  unfolding shutdown_function shutdown
  shutdown-Fits = record {
    nameless = λ o s n m args r. refl;
    returns = λ o s n args r ready running named answerable.
        elim (Bool-cases (ltb 1 (length (n ∷ args)))) [
          | inl many ↦ (
            (s, set_error r wrong_arg_num),
            rw many refl,
            record { ready = ready; running = λ h. refl },
          )
          | inr alone ↦ (
            (record s { active = false; shutdown_promise = true }, set_nil r),
            rw (alone, running) refl,
            record {
              ready = record { valid = ready.valid; samples = ready.samples };
              running = λ h. ground (arith, h, named);
            },
          )
        ];
  }
