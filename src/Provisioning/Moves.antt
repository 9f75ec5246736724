-- ===== src/Provisioning/Moves.antt =====
-- How the table of bootstrap sessions may change, as a relation: what every request does to it is a
-- chain of these moves, and what the relation keeps is proved here once.
use mathlib.Core.Option
use secure_io_t_device_platf.Base.{
  ℕ, ◌≤◌, String, ◌≡◌, arith, none, some, List, [], ◌∷◌, map, All, All-map, not, ◌&&◌, ◌==◌, eq_iff,
  if◌then◌else◌,
}
use secure_io_t_device_platf.Table
use secure_io_t_device_platf.Models.{BootstrapSession, session_key, is_some}
use secure_io_t_device_platf.Provisioning.Challenge.{supersede}

-- `b` is a later state of the session `old`: its identity stays, an attempt may be counted.
pub record Continues (old b : BootstrapSession) : Type 0 where
  pub same_id : b.session_id ≡ old.session_id
  pub same_device : b.device_id ≡ old.device_id
  pub same_nonce : b.nonce_b64 ≡ old.nonce_b64
  pub same_expiry : b.expires_at ≡ old.expires_at
  pub counted : old.attempts ≤ b.attempts
  pub bounded : old.attempts ≤ 5 → b.attempts ≤ 5

pub data Moves (rows : List BootstrapSession) : List BootstrapSession → Type 0 where
  stay : Moves rows rows
  touch :
      {mid : List BootstrapSession}
      → Moves rows mid
      → (old b : BootstrapSession) → Table.find session_key b.session_id mid ≡ some old
      → old.consumed_at ≡ none
      → Continues old b
      → Moves rows (Table.save session_key b mid)
  opens :
      {mid : List BootstrapSession}
      → Moves rows mid
      → (b : BootstrapSession) (now : ℕ) → Table.find session_key b.session_id mid ≡ none
      → b.attempts ≡ 0
      → b.consumed_at ≡ none
      → Moves rows (Table.save session_key b (map (supersede b.device_id now) mid))

supersede_id :
    (id : String) (now : ℕ) (b : BootstrapSession) → (supersede id now b).session_id ≡ b.session_id
unfolding supersede
supersede_id id now b = ground arith

supersede_consumed :
    (id : String) (now : ℕ) (b : BootstrapSession) {t : ℕ}
    → b.consumed_at ≡ some t
    → supersede id now b ≡ b
unfolding supersede
supersede_consumed id now b h = ground arith

-- The row of a key once the older sessions of a device are closed.
pub find-supersede :
    (id : String) (now : ℕ) (k : String) (rows : List BootstrapSession)
    → Table.find session_key k (map (supersede id now) rows)
      ≡ Option.map (supersede id now) (Table.find session_key k rows)
find-supersede id now k rows =
    Table.find-map session_key (supersede id now) (supersede_id id now) k rows

-- A closed session is never written again.
pub Moves-consumed :
    {rows rows' : List BootstrapSession} (m : Moves rows rows') (b : BootstrapSession) {t : ℕ}
    → Table.find session_key b.session_id rows ≡ some b
    → b.consumed_at ≡ some t
    → Table.find session_key b.session_id rows' ≡ some b
Moves-consumed stay b h k = h
Moves-consumed (touch {mid} m old r found open_ c) b h k = ground (
  arith,
  Moves-consumed m b h k,
  Table.find-save session_key r b.session_id mid,
  eq_iff r.session_id b.session_id,
)
Moves-consumed (opens {mid} m r now found zero_ open_) b h k = ground (
  arith,
  Moves-consumed m b h k,
  find-supersede r.device_id now b.session_id mid,
  supersede_consumed r.device_id now b k,
  Table.find-save session_key r b.session_id (map (supersede r.device_id now) mid),
  eq_iff r.session_id b.session_id,
)

supersede_attempts :
    (id : String) (now : ℕ) (b : BootstrapSession)
    → b.attempts ≤ 5
    → (supersede id now b).attempts ≤ 5
unfolding supersede
supersede_attempts id now b h = ground arith

-- No session counts more than five attempts.
pub Moves-attempts :
    {rows rows' : List BootstrapSession}
    → Moves rows rows'
    → All (λ b. b.attempts ≤ 5) rows
    → All (λ b. b.attempts ≤ 5) rows'
Moves-attempts stay h = h
Moves-attempts (touch {mid} m old r found open_ c) h =
    Table.All-save session_key (λ b. b.attempts ≤ 5) r mid
      (c.bounded (
        Table.All-find session_key (λ b. b.attempts ≤ 5) r.session_id mid old (Moves-attempts m h)
          found))
      (Moves-attempts m h)
Moves-attempts (opens {mid} m r now found zero_ open_) h =
    Table.All-save session_key (λ b. b.attempts ≤ 5) r (map (supersede r.device_id now) mid)
      (omega arith)
      (All-map (λ b. b.attempts ≤ 5) (supersede r.device_id now) mid
        (supersede_attempts r.device_id now) (Moves-attempts m h))

-- 1 for an open session of the device, 0 for any other.
abbrev pub open_of : String → BootstrapSession → ℕ
open_of device_id b = if b.device_id == device_id && not (is_some b.consumed_at) then 1 else 0

abbrev pub OneOpen : List BootstrapSession → Type 0
OneOpen rows = (device_id : String) → Table.total session_key (open_of device_id) rows ≤ 1

pub total-supersede :
    (id device_id : String) (now : ℕ) (rows : List BootstrapSession)
    → Table.total session_key (open_of device_id) (map (supersede id now) rows)
      ≡ (if id == device_id then 0 else Table.total session_key (open_of device_id) rows)
unfolding Table.total supersede
total-supersede id device_id now [] = ground arith
total-supersede id device_id now (b ∷ rows) = ground (
  arith,
  total-supersede id device_id now rows,
  eq_iff id device_id,
  eq_iff b.device_id id,
  eq_iff b.device_id device_id,
)

-- A device has at most one open session.
pub Moves-OneOpen :
    {rows rows' : List BootstrapSession} → Moves rows rows' → OneOpen rows → OneOpen rows'
Moves-OneOpen stay h d = h d
Moves-OneOpen (touch {mid} m old r found open_ c) h d =
    ground
      (arith, Moves-OneOpen m h d, Table.total-save session_key (open_of d) r mid, c.same_device)
Moves-OneOpen (opens {mid} m r now found zero_ open_) h d = ground (
  arith,
  Moves-OneOpen m h d,
  eq_iff r.device_id d,
  Table.total-save session_key (open_of d) r (map (supersede r.device_id now) mid),
  total-supersede r.device_id d now mid,
  find-supersede r.device_id now r.session_id mid,
)
