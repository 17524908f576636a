-- ===== src/ClientManager.antt =====
-- client_manager.h, client_manager.cc: the clients by the descriptors of their connections. A slot is
-- whether its pointer is not null; an access out of range is `none`.
pub mod Slots
use rdss.Base.{
  ℕ, ◌+◌, ◌-◌, ◌*◌, ◌%◌, ◌^◌, Bool, true, false, not, ◌&&◌, Option, none, some, List, [], ◌∷◌, ◌++◌,
  if◌then◌else◌, ltb, leb, length, get_or, set, replicate,
}

pub record ClientManager : Type 0 where
  pub clients : List Bool
  pub active_clients : ℕ

-- `ConnectionToIndex`
unfoldable pub connection_to_index : ℕ → ℕ
connection_to_index fd = (fd + (2 ^ 64 - 1)) % 2 ^ 64

-- `resize` to `n` slots, which are null where they are new; it is called with no fewer than there are
abbrev pub resize : ℕ → List Bool → List Bool
resize n clients = clients ++ replicate (n - length clients) false

-- `AddClient`
unfoldable pub add_client : ℕ → ClientManager → Option ClientManager
add_client fd m =
    let index = connection_to_index fd in
    let clients =
      if leb (length m.clients) index then resize (2 * index % 2 ^ 64) m.clients else m.clients in
    if ltb index (length clients)
    then some (record { clients = set clients index true; active_clients = m.active_clients + 1 })
    else none

-- `RemoveClient`
unfoldable pub remove_client : ℕ → ClientManager → Option ClientManager
remove_client fd m =
    let index = connection_to_index fd in
    if ltb index (length m.clients)
    then some
        (record { clients = set m.clients index false; active_clients = m.active_clients - 1 })
    else none

-- the loops of `ClientStats::UpdateInputBufferSize` and `UpdateOutputBufferSize`
unfoldable pub update_buffer_size : ℕ → ℕ → ℕ
update_buffer_size s current = if ltb current s then s else current
