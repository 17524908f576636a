-- ===== src/ClientManager/Slots.antt =====
-- The manager holds the clients of the open connections, and counts them.
use rdss.Base.{
  ℕ, zero, suc, ◌+◌, ◌-◌, ◌*◌, ◌%◌, ◌^◌, ◌<◌, ◌≡◌, refl, ◌∙◌, arith, Bool, true, false, not, ◌&&◌,
  ◌==◌, Option, none, some, List, [], ◌∷◌, ◌++◌, if◌then◌else◌, ltb, leb, length, get_or, set,
  replicate, length-append, length-replicate, get_or-set, get_or-replicate, Bool-cases, inl, inr,
}
use rdss.ClientManager.{ClientManager, connection_to_index, resize, add_client, remove_client}

-- the number of clients
unfoldable pub occupied : List Bool → ℕ
occupied [] = 0
occupied (b ∷ slots) = (if b then 1 else 0) + occupied slots

occupied-set :
    (slots : List Bool) (i : ℕ) (v : Bool)
    → i < length slots
    → occupied (set slots i v) + (if get_or slots i false then 1 else 0)
      ≡ occupied slots + (if v then 1 else 0)
unfolding occupied
occupied-set [] i v h = elim h [ ]
occupied-set (b ∷ slots) zero v h = omega arith
occupied-set (b ∷ slots) (suc i) v h = omega (arith, occupied-set slots i v (omega arith))

occupied-padded :
    (k : ℕ) (slots : List Bool) → occupied (slots ++ replicate k false) ≡ occupied slots
unfolding occupied
occupied-padded zero [] = refl
occupied-padded (suc k) [] = omega (arith, occupied-padded k [])
occupied-padded k (b ∷ slots) = omega (arith, occupied-padded k slots)

get_or-padded :
    (k j : ℕ) (slots : List Bool)
    → get_or (slots ++ replicate k false) j false ≡ get_or slots j false
get_or-padded k j [] = get_or-replicate k j false
get_or-padded k zero (b ∷ slots) = refl
get_or-padded k (suc j) (b ∷ slots) = get_or-padded k j slots

-- The slots hold the clients of the descriptors that `open_fds` says, from 1 to 2 ^ 31 - 1, and are counted.
pub record Holds (m : ClientManager) (open_fds : ℕ → Bool) : Type 0 where
  pub slots : (q : ℕ) → 0 < q → q < 2 ^ 31 → get_or m.clients (q - 1) false ≡ open_fds q
  pub counted : m.active_clients ≡ occupied m.clients

-- the function with another value at `fd`
abbrev pub now_open : ℕ → Bool → (ℕ → Bool) → ℕ → Bool
now_open fd b open_fds q = if fd == q then b else open_fds q

connection_to_index_lem : (fd : ℕ) → 0 < fd → fd < 2 ^ 31 → connection_to_index fd ≡ fd - 1
unfolding connection_to_index
connection_to_index_lem fd h small = omega arith

-- the slots that `AddClient` writes to
abbrev grown : ℕ → List Bool → List Bool
grown index clients =
    if leb (length clients) index then resize (2 * index % 2 ^ 64) clients else clients

grown_lem :
    (index : ℕ) (clients : List Bool)
    → 0 < index
    → index < 2 ^ 31
    → (index < length (grown index clients))
      × (occupied (grown index clients) ≡ occupied clients)
      × ((j : ℕ) → get_or (grown index clients) j false ≡ get_or clients j false)
grown_lem index clients h small = elim (Bool-cases (leb (length clients) index)) [
  | inl short ↦
      let k = 2 * index % 2 ^ 64 - length clients in
      rw short (
        ground (arith, length-append clients (replicate k false), length-replicate k false, h),
        occupied-padded k clients,
        λ j. get_or-padded k j clients,
      )
  | inr long ↦ rw long (ground (arith, long), refl, λ j. refl)
]

set_slots :
    (fd q : ℕ) (b : Bool) (slots : List Bool) (open_fds : ℕ → Bool)
    → 0 < fd
    → fd - 1 < length slots
    → 0 < q
    → get_or slots (q - 1) false ≡ open_fds q
    → get_or (set slots (fd - 1) b) (q - 1) false ≡ now_open fd b open_fds q
set_slots fd q b slots open_fds h within h' same =
    ground (arith, get_or-set slots (fd - 1) (q - 1) b false within, same)

in_range : (slots : List Bool) (i : ℕ) → get_or slots i false ≡ true → i < length slots
in_range [] i h = ground (arith, h)
in_range (b ∷ slots) zero h = omega arith
in_range (b ∷ slots) (suc i) h = omega (arith, in_range slots i h)

add_client-Holds :
    (fd : ℕ) (m : ClientManager) (open_fds : ℕ → Bool)
    → Holds m open_fds
    → 1 < fd
    → fd < 2 ^ 31
    → open_fds fd ≡ false
    → (m' : ClientManager) × (add_client fd m ≡ some m') × Holds m' (now_open fd true open_fds)
unfolding add_client
add_client-Holds fd m open_fds a h small free =
    let at = connection_to_index_lem fd (omega arith) small in
    let (within, same, reads) = grown_lem (fd - 1) m.clients (omega arith) (omega arith) in
    let slots = grown (fd - 1) m.clients in
    let inside : ltb (fd - 1) (length slots) ≡ true = ground arith in
    let was : get_or slots (fd - 1) false ≡ false =
      reads (fd - 1) ∙ a.slots fd (omega arith) small ∙ free in
    (
      record { clients = set slots (fd - 1) true; active_clients = m.active_clients + 1 },
      rw (add_client, at, inside) refl,
      record {
        slots = λ q h1 h2.
            set_slots fd q true slots open_fds (omega arith) within h1
              (reads (q - 1) ∙ a.slots q h1 h2);
        counted = ground (arith, occupied-set slots (fd - 1) true within, was, same, a.counted);
      },
    )

remove_client-Holds :
    (fd : ℕ) (m : ClientManager) (open_fds : ℕ → Bool)
    → Holds m open_fds
    → 1 < fd
    → fd < 2 ^ 31
    → open_fds fd ≡ true
    → (m' : ClientManager) × (remove_client fd m ≡ some m') × Holds m' (now_open fd false open_fds)
unfolding remove_client
remove_client-Holds fd m open_fds a h small taken =
    let at = connection_to_index_lem fd (omega arith) small in
    let was : get_or m.clients (fd - 1) false ≡ true = a.slots fd (omega arith) small ∙ taken in
    let within : fd - 1 < length m.clients = in_range m.clients (fd - 1) was in
    let inside : ltb (fd - 1) (length m.clients) ≡ true = ground arith in
    (
      record { clients = set m.clients (fd - 1) false; active_clients = m.active_clients - 1 },
      rw (remove_client, at, inside) refl,
      record {
        slots = λ q h1 h2.
            set_slots fd q false m.clients open_fds (omega arith) within h1 (a.slots q h1 h2);
        counted = ground (arith, occupied-set m.clients (fd - 1) false within, was, a.counted);
      },
    )

-- a connection that is accepted or closed
pub data Change : Type 0 where
  opening closing : ℕ → Change

unfoldable pub change : Change → ClientManager → Option ClientManager
change (opening fd) m = add_client fd m
change (closing fd) m = remove_client fd m

unfoldable pub change_all : List Change → ClientManager → Option ClientManager
change_all [] m = some m
change_all (c ∷ changes) m = elim (change c m) [ none ↦ none | some m' ↦ change_all changes m' ]

-- the descriptors that are open after the changes
unfoldable pub open_after : List Change → (ℕ → Bool) → ℕ → Bool
open_after [] open_fds = open_fds
open_after (opening fd ∷ changes) open_fds = open_after changes (now_open fd true open_fds)
open_after (closing fd ∷ changes) open_fds = open_after changes (now_open fd false open_fds)

-- A descriptor from 2 to 2 ^ 31 - 1 is opened while it is closed, and closed while it is open.
unfoldable pub are_in_turn : List Change → (ℕ → Bool) → Bool
are_in_turn [] open_fds = true
are_in_turn (opening fd ∷ changes) open_fds =
    ltb 1 fd
    && (ltb fd (2 ^ 31) && (not (open_fds fd) && are_in_turn changes (now_open fd true open_fds)))
are_in_turn (closing fd ∷ changes) open_fds =
    ltb 1 fd
    && (ltb fd (2 ^ 31) && (open_fds fd && are_in_turn changes (now_open fd false open_fds)))

-- From a manager that holds the clients of the open connections and counts them, any sequence of connections that are accepted and
-- closed in turn, with descriptors from 2 to 2 ^ 31 - 1, goes through without an access out of range, and the manager holds and counts the
-- clients of those that are open then.
pub change_all-Holds :
    (changes : List Change) (m : ClientManager) (open_fds : ℕ → Bool)
    → Holds m open_fds
    → are_in_turn changes open_fds ≡ true
    → (m' : ClientManager) × (change_all changes m ≡ some m')
      × Holds m' (open_after changes open_fds)
unfolding change_all change open_after are_in_turn
change_all-Holds [] m open_fds a h = (m, refl, a)
change_all-Holds (opening fd ∷ changes) m open_fds a h =
    let (m1, done, a1) =
      add_client-Holds fd m open_fds a (ground (arith, h)) (ground (arith, h))
        (ground (arith, h)) in
    let (m', ran, a') =
      change_all-Holds changes m1 (now_open fd true open_fds) a1 (ground (arith, h)) in
    (m', rw (change_all, change, done) ran, a')
change_all-Holds (closing fd ∷ changes) m open_fds a h =
    let (m1, done, a1) =
      remove_client-Holds fd m open_fds a (ground (arith, h)) (ground (arith, h))
        (ground (arith, h)) in
    let (m', ran, a') =
      change_all-Holds changes m1 (now_open fd false open_fds) a1 (ground (arith, h)) in
    (m', rw (change_all, change, done) ran, a')
