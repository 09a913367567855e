-- ===== src/Locking.antt =====
-- services/client_store.go between its locks: goroutines that call the functions of the store at the
-- same time. `clientsMutex` is a sync.RWMutex of Go's library: `Lock` waits until nobody holds it, and
-- `RLock` until nobody holds it for writing. What the functions do in Redis is left out here.
pub mod Exclusive
pub mod Invariant
pub mod Kept
pub mod Race
pub mod Gone
pub mod Sequential
use r2_notify_server.Prelude.{
  ℕ, ◌≡◌, ◌≢◌, Bool, true, false, ◌||◌, Option, none, some, List, [], ◌∷◌, ◌++◌, eqb, if◌then◌else◌,
}
use r2_notify_server.Models.{UserId, Conn}
use r2_notify_server.World.{Clients, conns_of, put, remove}
use r2_notify_server.ClientStore.{without}

-- Where a goroutine stands, with the local variables that are live there.
pub data Pc : Type 0 where
  idle : Pc
  -- StoreClient, DeleteClient and RemoveConnection behind `Lock`.
  appending : UserId → Conn → Pc
  deleting : UserId → Pc
  filtering : UserId → Conn → Pc
  -- Before `Unlock`.
  written : Pc
  -- sendToUser behind `RLock`.
  looking : UserId → Pc
  -- In its loop: the connections that are left, and the active ones.
  sending : UserId → List Conn → List Conn → Pc
  -- Before it writes the map.
  storing : UserId → List Conn → Pc
  -- Before `RUnlock`.
  sent : Pc

-- Behind `Lock`, and behind `RLock`.
abbrev pub holds_write : Pc → Bool
holds_write (appending user conn) = true
holds_write (deleting user) = true
holds_write (filtering user conn) = true
holds_write written = true
holds_write _ = false

abbrev pub holds_read : Pc → Bool
holds_read (looking user) = true
holds_read (sending user rest active) = true
holds_read (storing user active) = true
holds_read sent = true
holds_read _ = false

-- Right behind `Lock`.
abbrev pub begins_write : Pc → Bool
begins_write (appending user conn) = true
begins_write (deleting user) = true
begins_write (filtering user conn) = true
begins_write _ = false

abbrev pub holds : Pc → Bool
holds p = holds_write p || holds_read p

-- The map after RemoveConnection.
abbrev pub kept_under : UserId → List Conn → Clients → Clients
kept_under user [] m = remove user m
kept_under user (c ∷ cs) m = put user (c ∷ cs) m

abbrev pub filtered : UserId → Conn → Option (List Conn) → Clients → Clients
filtered user conn none m = m
filtered user conn (some conns) m = kept_under user (without conn conns) m

-- A step of a goroutine that holds the lock, on the map.
pub data Move (m : Clients) : Pc → Clients → Pc → Type 0 where
  append :
      (user : UserId) (conn : Conn)
      → Move m (appending user conn) (put user (conns_of m user ++ conn ∷ []) m) written
  delete : (user : UserId) → Move m (deleting user) (remove user m) written
  filter :
      (user : UserId) (conn : Conn)
      → Move m (filtering user conn) (filtered user conn (m user) m) written
  -- A user without a key, without information, or without notifications, or no payload.
  refuse : (user : UserId) → Move m (looking user) m sent
  look :
      (user : UserId) (conns : List Conn)
      → m user ≡ some conns
      → Move m (looking user) m (sending user conns [])
  takes :
      (user : UserId) (conn : Conn) (rest active : List Conn)
      → Move m (sending user (conn ∷ rest) active) m (sending user rest (active ++ conn ∷ []))
  fails :
      (user : UserId) (conn : Conn) (rest active : List Conn)
      → Move m (sending user (conn ∷ rest) active) m (sending user rest active)
  ends :
      (user : UserId) (active : List Conn) → Move m (sending user [] active) m (storing user active)
  store :
      (user : UserId) (active : List Conn) → Move m (storing user active) (put user active m) sent

pub record Threads : Type 0 where
  pub clients : Clients
  pub pc : ℕ → Pc

abbrev pub update : (ℕ → Pc) → ℕ → Pc → ℕ → Pc
update pc i p j = if eqb i j then p else pc j

abbrev pub at_pc : Threads → ℕ → Pc → Threads
at_pc s i p = record s { pc = update s.pc i p }

pub data Step (s : Threads) : Threads → Type 0 where
  locks :
      (i : ℕ) (p : Pc)
      → s.pc i ≡ idle
      → begins_write p ≡ true
      → ((j : ℕ) → holds (s.pc j) ≡ false)
      → Step s (at_pc s i p)
  rlocks :
      (i : ℕ) (user : UserId)
      → s.pc i ≡ idle
      → ((j : ℕ) → holds_write (s.pc j) ≡ false)
      → Step s (at_pc s i (looking user))
  moves :
      (i : ℕ) {p : Pc} {m : Clients} {q : Pc}
      → s.pc i ≡ p
      → Move s.clients p m q
      → Step s (record { clients = m; pc = update s.pc i q })
  unlocks : (i : ℕ) → s.pc i ≡ written → Step s (at_pc s i idle)
  runlocks : (i : ℕ) → s.pc i ≡ sent → Step s (at_pc s i idle)

pub data Reach (s : Threads) : Threads → Type 0 where
  start : Reach s s
  later : {t u : Threads} → Reach s t → Step t u → Reach s u
