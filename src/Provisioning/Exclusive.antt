-- ===== src/Provisioning/Exclusive.antt =====
-- What a challenge leaves behind.
use secure_io_t_device_platf.Base.{
  String, ◌≡◌, arith, Option, Bool, true, false, none, some, inl, inr, Option-cases, map, eq_refl,
}
use secure_io_t_device_platf.Table
use secure_io_t_device_platf.Env.{Context, Reply, response}
use secure_io_t_device_platf.Models.{
  Server, Device, BootstrapSession, session_key, device_key, find_device, find_session,
  save_session,
}
use secure_io_t_device_platf.Provisioning.Challenge.{
  Challenge, create_challenge, open_session, new_session, supersede, is_authorized, is_locked,
}
use secure_io_t_device_platf.Provisioning.Moves.{open_of, total-supersede, find-supersede}

abbrev pub is_response {ℓ} : {A : Type ℓ} → Reply A → Bool
is_response (response a) = true
is_response _ = false

module _ (c : Context) (device_id session_id nonce : String) (ip : Option String) (s : Server) where
  -- A challenge that is refused, for whatever reason, changes nothing.
  pub create_challenge_refused :
      is_response (create_challenge c device_id session_id nonce ip s).0 ≡ false
      → (create_challenge c device_id session_id nonce ip s).1 ≡ s
  unfolding create_challenge open_session
  create_challenge_refused h = ground arith

  challenge-response :
      (ch : Challenge) (t : Server)
      → create_challenge c device_id session_id nonce ip s ≡ (response ch, t)
      → (d : Device) × (find_device s device_id ≡ some d)
        × (is_authorized d ≡ true)
        × (is_locked c.settings d ≡ false)
        × (find_session s session_id ≡ none)
        × (t.sessions
            ≡ Table.save session_key
                (new_session session_id d.device_id nonce ip c.now c.settings.challenge_ttl_seconds)
                (map (supersede d.device_id c.now) s.sessions))
        × (t.devices ≡ s.devices)
  unfolding create_challenge open_session save_session
  challenge-response ch t h = elim (Option-cases (find_device s device_id)) [
    | inl e ↦ absurd (ground arith)
    | inr (d, e) ↦ elim (Option-cases (find_session s session_id)) [
      | inl e' ↦ (d, e, ground arith, ground arith, e', ground arith, ground arith)
      | inr (b, e') ↦ absurd (ground arith)
    ]
  ]

  granted : BootstrapSession
  granted = new_session session_id device_id nonce ip c.now c.settings.challenge_ttl_seconds

  stored_session :
      (d : Device) (t : Server)
      → d.device_id ≡ device_id
      → t.sessions
        ≡ Table.save session_key
            (new_session session_id d.device_id nonce ip c.now c.settings.challenge_ttl_seconds)
            (map (supersede d.device_id c.now) s.sessions)
      → t.sessions ≡ Table.save session_key granted (map (supersede device_id c.now) s.sessions)
  unfolding granted
  stored_session d t same h = cc

  session_found :
      (t : Server)
      → t.sessions ≡ Table.save session_key granted (map (supersede device_id c.now) s.sessions)
      → find_session t session_id ≡ some granted
  unfolding granted new_session
  session_found t h =
      rw h (Table.find-save_self session_key granted (map (supersede device_id c.now) s.sessions))

  one_open :
      (t : Server)
      → find_session s session_id ≡ none
      → t.sessions ≡ Table.save session_key granted (map (supersede device_id c.now) s.sessions)
      → Table.total session_key (open_of device_id) t.sessions ≡ 1
  unfolding granted new_session
  one_open t fresh h = rw h (
      ground (
        arith,
        Table.total-save session_key (open_of device_id) granted
            (map (supersede device_id c.now) s.sessions),
        total-supersede device_id device_id c.now s.sessions,
        find-supersede device_id c.now session_id s.sessions,
        eq_refl device_id,
      ))

  -- A challenge that is granted goes to a registered device that is enabled, not revoked and not
  -- locked by its certificate; its session is stored, and it is the only open one of the device.
  pub create_challenge_exclusive :
      (ch : Challenge) (t : Server)
      → create_challenge c device_id session_id nonce ip s ≡ (response ch, t)
      → (d : Device) × (find_device s device_id ≡ some d)
        × (is_authorized d ≡ true)
        × (is_locked c.settings d ≡ false)
        × (find_session t session_id
            ≡ some
                (new_session session_id device_id nonce ip c.now c.settings.challenge_ttl_seconds))
        × (Table.total session_key (open_of device_id) t.sessions ≡ 1)
  unfolding granted
  create_challenge_exclusive ch t h =
      let (d, found, authorized, unlocked, fresh, sessions, devices) = challenge-response ch t h in
      let same = Table.find_key device_key device_id s.devices d found in
      let sessions' = stored_session d t same sessions in
      (d, found, authorized, unlocked, session_found t sessions', one_open t fresh sessions')
