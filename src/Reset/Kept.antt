-- ===== src/Reset/Kept.antt =====
-- What the clean-ups keep: every certificate stays blocked, and physical devices stay.
use secure_io_t_device_platf.Base.{
  ℕ, String, ◌≡◌, refl, ◌∙◌, ap, sym, arith, Bool, true, false, not, some, none, List, [], ◌∷◌,
  Option, All, eq_iff, if◌then◌else◌, Bool-cases, inl, inr, ◌==◌,
}
use secure_io_t_device_platf.Table
use secure_io_t_device_platf.Table.{select}
use secure_io_t_device_platf.Env.{Context}
use secure_io_t_device_platf.Models.{
  Server, Device, MqttEvent, Command, BootstrapSession, simulated, device_key, find_device, is_some,
  present, RevokedCertificate,
}
use secure_io_t_device_platf.Registry.{record_revocation}
use secure_io_t_device_platf.Registry.Frame.{
  Keeps, Keeps-refl, Keeps-trans, record_revocation-Keeps, rebuild-Keeps, devices-rebuild,
  revoked-rebuild, devices-record_revocation,
}
use secure_io_t_device_platf.Registry.Revocation.{
  is_listed, Grows, record_revocation-Grows, record_revocation-is_listed,
}
use secure_io_t_device_platf.Reset.{
  revoke_certificates, rebuild_cleared, delete_all, clear_runtime_database, simulated_devices,
  among, delete_of, clear_of, clear_simulated_devices,
}

-- The serial of a device, if it has one, stands in the table.
abbrev pub Blocked : List RevokedCertificate → Device → Type 0
Blocked rows d =
    (serial : String)
    → present d.certificate_serial ≡ some serial
    → is_listed rows (some serial) ≡ true

Blocked-eq :
    (rows rows' : List RevokedCertificate) (ds : List Device)
    → rows' ≡ rows
    → All (Blocked rows) ds
    → All (Blocked rows') ds
Blocked-eq rows rows' ds e h = rw e h

module _ (clock : String → ℕ) where
  revoke_certificates-Grows :
      (ds : List Device) (s : Server)
      → Grows s.revoked_certificates (revoke_certificates clock ds s).1.revoked_certificates
  unfolding revoke_certificates
  revoke_certificates-Grows [] s k h = h
  revoke_certificates-Grows (d ∷ ds) s k h =
      let t =
        record_revocation (present d.certificate_serial) d.device_id (clock d.device_id)
          "cessation_of_operation" s in
      revoke_certificates-Grows ds t k (
        record_revocation-Grows (present d.certificate_serial) d.device_id (clock d.device_id)
          "cessation_of_operation" s k h)

  revoke_certificates-Blocked :
      (ds : List Device) (s : Server)
      → All (Blocked (revoke_certificates clock ds s).1.revoked_certificates) ds
  unfolding revoke_certificates
  revoke_certificates-Blocked [] s = tt
  revoke_certificates-Blocked (d ∷ ds) s =
      let t =
        record_revocation (present d.certificate_serial) d.device_id (clock d.device_id)
          "cessation_of_operation" s in
      (
        (λ serial held. revoke_certificates-Grows ds t serial (
            ap (is_listed t.revoked_certificates) (sym held)
            ∙ record_revocation-is_listed (present d.certificate_serial) d.device_id
                (clock d.device_id) "cessation_of_operation" s (ap is_some held))),
        revoke_certificates-Blocked ds t,
      )

module _ (c : Context) (clock : String → ℕ) (s : Server) where
  -- After the project is cleared, whether or not the CRL could be rebuilt, no device, session, event or
  -- command is left, every serial that was revoked still is, and so is the serial of every device that
  -- was registered.
  pub clear_runtime_database-Blocked :
      let t = (clear_runtime_database c clock s).1 in
      (t.devices ≡ [])
      × (t.sessions ≡ [])
      × (t.events ≡ [])
      × (t.commands ≡ [])
      × Grows s.revoked_certificates t.revoked_certificates
      × All (Blocked t.revoked_certificates) s.devices
  unfolding clear_runtime_database rebuild_cleared delete_all
  clear_runtime_database-Blocked =
      let cleared = delete_all (revoke_certificates clock s.devices s).1 in
      let kept = rebuild-Keeps c cleared in
      (
        devices-rebuild c cleared,
        kept.sessions,
        kept.events,
        kept.commands,
        rw (revoked-rebuild c cleared) (revoke_certificates-Grows clock s.devices s),
        rw (revoked-rebuild c cleared) (revoke_certificates-Blocked clock s.devices s),
      )

-- Rows are kept or dropped by their key alone.
find-select :
    {A : Type 0} (key : A → String) (p : String → Bool) (k : String) (rows : List A)
    → Table.find key k (select (λ r. p (key r)) rows)
      ≡ (if p k then Table.find key k rows else none)
unfolding Table.find select
find-select key p k [] = ground arith
find-select key p k (r ∷ rows) = ground (arith, eq_iff (key r) k, find-select key p k rows)

devices-revoke_certificates :
    (c : Context) (clock : String → ℕ) (ds : List Device) (s : Server)
    → (revoke_certificates clock ds s).1.devices ≡ s.devices
unfolding revoke_certificates
devices-revoke_certificates c clock [] s = refl
devices-revoke_certificates c clock (d ∷ ds) s =
    let t =
      record_revocation (present d.certificate_serial) d.device_id (clock d.device_id)
        "cessation_of_operation" s in
    devices-revoke_certificates c clock ds t
    ∙ devices-record_revocation c (present d.certificate_serial) d.device_id (clock d.device_id)
        "cessation_of_operation" s

flip_if :
    {A : Type 0} (o : Option A) (b : Bool) → (if not b then o else none) ≡ (if b then none else o)
flip_if o true = refl
flip_if o false = refl

-- The rows of one device, in a table with the ids of devices.
abbrev pub rows_of : {A : Type 0} → (A → String) → String → List A → List A
rows_of owner j rows = select (λ r. owner r == j) rows

-- Whether one of the devices has that id.
abbrev pub has_id : List Device → String → Bool
has_id devices j = is_some (Table.find device_key j devices)

among-has_id : (devices : List Device) (j : String) → among devices j ≡ has_id devices j
unfolding among Table.find
among-has_id [] j = refl
among-has_id (d ∷ devices) j = ground (arith, among-has_id devices j)

rows_of-select :
    {A : Type 0} (owner : A → String) (p : String → Bool) (j : String) (rows : List A)
    → rows_of owner j (select (λ r. p (owner r)) rows) ≡ (if p j then rows_of owner j rows else [])
unfolding select
rows_of-select owner p j [] = ground arith
rows_of-select owner p j (r ∷ rows) = elim (Bool-cases (owner r == j)) [
  | inl e ↦
      let same : p (owner r) ≡ p j = ap p ((eq_iff (owner r) j).0 e) in
      ground (arith, same, rows_of-select owner p j rows)
  | inr e ↦ ground (arith, rows_of-select owner p j rows)
]

flip_rows :
    {A : Type 0} (rows : List A) (b : Bool)
    → (if not b then rows else []) ≡ (if b then [] else rows)
flip_rows rows true = refl
flip_rows rows false = refl

-- The rows of every device are as they were, but for the devices `gone`, of which none is left.
abbrev pub Kept : {A : Type 0} → (A → String) → List Device → List A → List A → Type 0
Kept owner gone before after =
    (j : String) → rows_of owner j after ≡ (if has_id gone j then [] else rows_of owner j before)

Kept-select :
    {A : Type 0} (owner : A → String) (gone : List Device) (rows after : List A)
    → after ≡ select (λ r. not (among gone (owner r))) rows
    → Kept owner gone rows after
Kept-select owner gone rows after e j =
    ap (rows_of owner j) e
    ∙ rows_of-select owner (λ k. not (among gone k)) j rows
    ∙ flip_rows (rows_of owner j rows) (among gone j)
    ∙ ap (λ b. if b then [] else rows_of owner j rows) (among-has_id gone j)

abbrev event_owner : MqttEvent → String
event_owner e = e.device_id

abbrev command_owner : Command → String
command_owner q = q.device_id

abbrev session_owner : BootstrapSession → String
session_owner b = b.device_id

revoke_certificates-Keeps :
    (c : Context) (clock : String → ℕ) (ds : List Device) (s : Server)
    → Keeps s (revoke_certificates clock ds s).1
unfolding revoke_certificates
revoke_certificates-Keeps c clock [] s = Keeps-refl s
revoke_certificates-Keeps c clock (d ∷ ds) s =
    Keeps-trans
      (record_revocation-Keeps c (present d.certificate_serial) d.device_id (clock d.device_id)
        "cessation_of_operation" s)
      (revoke_certificates-Keeps c clock ds _)

-- The state after the devices `gone` are cleared.
pub record Purged (gone : List Device) (s t : Server) : Type 0 where
  pub devices : (j : String) → find_device t j ≡ (if has_id gone j then none else find_device s j)
  pub events : Kept event_owner gone s.events t.events
  pub commands : Kept command_owner gone s.commands t.commands
  pub sessions : Kept session_owner gone s.sessions t.sessions
  pub revoked : Grows s.revoked_certificates t.revoked_certificates
  pub blocked : All (Blocked t.revoked_certificates) gone

clear_of-Purged :
    (c : Context) (clock : String → ℕ) (gone : List Device) (s : Server)
    → Purged gone s (clear_of c clock gone s).1
unfolding clear_of rebuild_cleared delete_of
clear_of-Purged c clock [] s =
    let kept = rebuild-Keeps c s in
    record {
      devices = λ j. unfold Table.find in ap (Table.find device_key j) (devices-rebuild c s);
      events = λ j. unfold Table.find in ap (rows_of event_owner j) kept.events;
      commands = λ j. unfold Table.find in ap (rows_of command_owner j) kept.commands;
      sessions = λ j. unfold Table.find in ap (rows_of session_owner j) kept.sessions;
      revoked = rw (revoked-rebuild c s) (λ k h. h);
      blocked = tt;
    }
clear_of-Purged c clock (d ∷ gone) s =
    let all = d ∷ gone in
    let r = (revoke_certificates clock all s).1 in
    let t = delete_of all r in
    let before = revoke_certificates-Keeps c clock all s in
    let after = rebuild-Keeps c t in
    record {
      devices = λ j.
          ap (Table.find device_key j) (devices-rebuild c t)
          ∙ ap (λ ds. Table.find device_key j (select (λ x. not (among all x.device_id)) ds))
              (devices-revoke_certificates c clock all s)
          ∙ find-select device_key (λ k. not (among all k)) j s.devices
          ∙ flip_if (find_device s j) (among all j)
          ∙ ap (λ b. if b then none else find_device s j) (among-has_id all j);
      events =
          Kept-select event_owner all s.events _
            (after.events ∙ ap (select (λ e. not (among all e.device_id))) before.events);
      commands =
          Kept-select command_owner all s.commands _
            (after.commands ∙ ap (select (λ q. not (among all q.device_id))) before.commands);
      sessions =
          Kept-select session_owner all s.sessions _
            (after.sessions ∙ ap (select (λ b. not (among all b.device_id))) before.sessions);
      revoked = rw (revoked-rebuild c t) (revoke_certificates-Grows clock all s);
      blocked = Blocked-eq _ _ all (revoked-rebuild c t) (revoke_certificates-Blocked clock all s);
    }

simulated-has_id :
    (devices : List Device) (j : String) (d : Device)
    → Table.find device_key j devices ≡ some d
    → d.deployment_type ≡ simulated
    → has_id (simulated_devices devices) j ≡ true
unfolding simulated_devices select Table.find
simulated-has_id [] j d h k = absurd (ground arith)
simulated-has_id (x ∷ devices) j d h k = ground (arith, simulated-has_id devices j d, k)

-- After the simulated devices are cleared, whether or not the CRL could be rebuilt, no simulated device
-- is left, nor an event, a command or a session of one; every other device keeps its row and all its
-- events, commands and sessions; every serial that was revoked still is, and so is the serial of every
-- simulated device.
pub clear_simulated_devices-Purged :
    (c : Context) (clock : String → ℕ) (s : Server)
    → Purged (simulated_devices s.devices) s (clear_simulated_devices c clock s).1
      × ((j : String) (d : Device)
          → find_device s j ≡ some d
          → d.deployment_type ≡ simulated
          → find_device (clear_simulated_devices c clock s).1 j ≡ none)
unfolding clear_simulated_devices
clear_simulated_devices-Purged c clock s =
    let purged = clear_of-Purged c clock (simulated_devices s.devices) s in
    (
      purged,
      λ j d h k.
          purged.devices j
          ∙ ap (λ b. if b then none else find_device s j) (simulated-has_id s.devices j d h k),
    )
