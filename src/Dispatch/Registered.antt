-- ===== src/Dispatch/Registered.antt =====
-- Every command that the server registers returns and keeps the tables well formed, under two names.
use rdss.Base.{ℕ, refl, arith, true, false, none, [], bytes}
use rdss.KeyTable.{KeyTable}
use rdss.Resp.Result.{MtsPtr}
use rdss.Service.Eviction.{Draws}
use rdss.Commands.Reads.{
  get_function, get_ex_function, m_get_function, strlen_function, get_range_function,
  exists_function,
}
use rdss.Commands.Writes.{
  set_function, m_set_function, m_set_nx_function, set_ex_function_base, set_ex_function,
  p_set_ex_function, set_nx_function, get_set_function, append_function, del_function,
}
use rdss.Commands.Validity.{
  get_function-Preserves, get_ex_function-Preserves, m_get_function-Preserves,
  strlen_function-Preserves, get_range_function-Preserves, exists_function-Preserves,
}
use rdss.Commands.WriteValidity.{
  set_function-Preserves, m_set_function-Preserves, m_set_nx_function-Preserves,
  set_ex_function_base-Preserves, set_nx_function-Preserves, get_set_function-Preserves,
  append_function-Preserves, del_function-Preserves,
}
use rdss.Dispatch.{lookup}
use rdss.Dispatch.Misc.{db_size_function, command_function}
use rdss.Dispatch.Names.{IgnoresCase}
use rdss.Dispatch.Registry.{
  register_commands, client_commands, key_commands, misc_commands, string_commands,
}
use rdss.Dispatch.Calls.{
  on_tables-Fits, unchanged-Fits, set_range-Fits, get_del-Fits, ttl-Fits, info-Fits, hello-Fits,
  shutdown-Fits,
}
use rdss.Dispatch.Dictionary.{AllFit, Each, register_all-AllFit, register_all-IgnoresCase}

module _ (d : KeyTable MtsPtr none) (x : KeyTable ℕ 0) (draws : Draws d) where
  client_commands-Each : Each (client_commands d x draws)
  client_commands-Each = (hello-Fits, tt)

  key_commands-Each : Each (key_commands d x draws)
  unfolding del_function
  key_commands-Each = (
    ttl-Fits,
    (
      on_tables-Fits (bytes "DEL") true (del_function d x) del_function-Preserves
          (λ s n m args r. refl),
      tt,
    ),
  )

  misc_commands-Each : Each (misc_commands d x draws)
  unfolding db_size_function command_function
  misc_commands-Each = (
    unchanged-Fits (bytes "DBSIZE") (db_size_function d x draws)
        (λ o s n m args r. (_, refl, refl)),
    (
      info-Fits,
      (
        unchanged-Fits (bytes "COMMAND") (command_function d x draws)
            (λ o s n m args r. (_, refl, refl)),
        (shutdown-Fits, tt),
      ),
    ),
  )

  string_commands-Each : Each (string_commands d x draws)
  unfolding set_function m_set_function m_set_nx_function set_ex_function p_set_ex_function
      set_ex_function_base set_nx_function get_function m_get_function get_ex_function
      get_set_function get_range_function append_function exists_function strlen_function
  string_commands-Each = (
    on_tables-Fits (bytes "SET") true (set_function d x) set_function-Preserves
        (λ s n m args r. refl),
    (
      on_tables-Fits (bytes "SETEX") true (set_ex_function d x)
          (set_ex_function_base-Preserves 1000) (λ s n m args r. refl),
      (
        on_tables-Fits (bytes "PSETEX") true (p_set_ex_function d x)
            (set_ex_function_base-Preserves 1) (λ s n m args r. refl),
        (
          on_tables-Fits (bytes "SETNX") true (set_nx_function d x) set_nx_function-Preserves
              (λ s n m args r. refl),
          (
            set_range-Fits,
            (
              on_tables-Fits (bytes "MSET") true (m_set_function d x) m_set_function-Preserves
                  (λ s n m args r. refl),
              (
                on_tables-Fits (bytes "MSETNX") true (m_set_nx_function d x)
                    m_set_nx_function-Preserves (λ s n m args r. refl),
                (
                  on_tables-Fits (bytes "GET") false (get_function d x) get_function-Preserves
                      (λ s n m args r. refl),
                  (
                    on_tables-Fits (bytes "MGET") false (m_get_function d x)
                        m_get_function-Preserves (λ s n m args r. refl),
                    (
                      get_del-Fits,
                      (
                        on_tables-Fits (bytes "GETEX") false (get_ex_function d x)
                            get_ex_function-Preserves (λ s n m args r. refl),
                        (
                          on_tables-Fits (bytes "GETSET") false (get_set_function d x)
                              get_set_function-Preserves (λ s n m args r. refl),
                          (
                            on_tables-Fits (bytes "GETRANGE") false (get_range_function d x)
                                get_range_function-Preserves (λ s n m args r. refl),
                            (
                              on_tables-Fits (bytes "SUBSTR") false (get_range_function d x)
                                  get_range_function-Preserves (λ s n m args r. refl),
                              (
                                on_tables-Fits (bytes "APPEND") false (append_function d x)
                                    append_function-Preserves (λ s n m args r. refl),
                                (
                                  on_tables-Fits (bytes "EXISTS") false (exists_function d x)
                                      exists_function-Preserves (λ s n m args r. refl),
                                  (
                                    on_tables-Fits (bytes "STRLEN") false (strlen_function d x)
                                        strlen_function-Preserves (λ s n m args r. refl),
                                    tt,
                                  ),
                                ),
                              ),
                            ),
                          ),
                        ),
                      ),
                    ),
                  ),
                ),
              ),
            ),
          ),
        ),
      ),
    ),
  )

  -- what is registered
  pub registered-AllFit : AllFit (register_commands d x draws)
  unfolding register_commands lookup
  registered-AllFit = register_all-AllFit (string_commands d x draws) _ string_commands-Each (
      register_all-AllFit (misc_commands d x draws) _ misc_commands-Each (
        register_all-AllFit (key_commands d x draws) _ key_commands-Each (
          register_all-AllFit (client_commands d x draws) [] client_commands-Each
            (λ q c h. ground (arith, h)))))

  pub registered-IgnoresCase : IgnoresCase (register_commands d x draws)
  unfolding register_commands lookup
  registered-IgnoresCase = register_all-IgnoresCase (string_commands d x draws) _ (
      register_all-IgnoresCase (misc_commands d x draws) _ (
        register_all-IgnoresCase (key_commands d x draws) _
          (register_all-IgnoresCase (client_commands d x draws) [] (λ q. refl))))
