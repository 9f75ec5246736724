-- ===== src/Mqtt/Isolation.antt =====
-- A message writes the rows of its sender only.
use secure_io_t_device_platf.Base.{
  ℕ, String, ◌≡◌, refl, ◌∙◌, arith, Option, true, false, some, inl, inr, Option-cases, Bool-cases,
  not, ◌||◌, ap, eq_iff, eq_refl, sym, ◌==◌, if◌then◌else◌,
}
use secure_io_t_device_platf.Table
use secure_io_t_device_platf.Json.{Json, text, dict, JsonLib, get}
use secure_io_t_device_platf.Models.{
  Server, Device, device_key, save_device, save_command, add_event, find_device, find_command,
  command_key, Command, is_revoked,
}
use secure_io_t_device_platf.Mqtt.{
  store_event, store_for, accepted, answered, completed, event_of, complete_command,
}
use secure_io_t_device_platf.Mqtt.Frame.{complete-OnlyCommands}
use secure_io_t_device_platf.Mqtt.Accepted.{SameCredentials, accepted-SameCredentials}

-- A response completes a row of its sender, found under its own id.
answered_own :
    (id : String) (o : Option Json) (t : Server) (c : Command)
    → answered id o t ≡ some c
    → (find_command t c.command_id ≡ some c) × ((c.device_id == id) ≡ true)
unfolding answered
answered_own id (some (text k)) t c h = elim (Option-cases (find_command t k)) [
  | inl e ↦ absurd (ground arith)
  | inr (c', e) ↦
      let same : c' ≡ c = ground arith in
      (
        rw (← same) (ap (find_command t) (Table.find_key command_key k t.commands c' e) ∙ e),
        ground arith,
      )
]
answered_own id _ t c h = absurd (ground arith)

find_command-save :
    (c command : Command) (k : String) (t : Server)
    → find_command t c.command_id ≡ some c
    → find_command t k ≡ some command
    → (c.device_id == command.device_id) ≡ false
    → (d : Command) → d.command_id ≡ c.command_id
    → find_command (save_command d t) k ≡ some command
unfolding save_command
find_command-save c command k t e h ne d same = elim (Bool-cases (d.command_id == k)) [
  | inl hit ↦
      let same_key : c.command_id ≡ k = sym same ∙ (eq_iff d.command_id k).0 hit in
      let same_row : some c ≡ some command = sym e ∙ ap (find_command t) same_key ∙ h in
      absurd (ground (arith, eq_iff c.device_id command.device_id))
  | inr miss ↦ rw (Table.find-save command_key d k t.commands, miss) h
]

find_command-complete_command :
    (lib : JsonLib) (id kind : String) (payload : Json) (payload_text : String) (now : ℕ)
    (t : Server) (k : String) (command : Command)
    → find_command t k ≡ some command
    → (command.device_id == id) ≡ false
    → find_command (complete_command lib id kind payload payload_text now t) k ≡ some command
unfolding complete_command
find_command-complete_command lib id kind (dict fields) payload_text now t k command h ne =
    elim (Bool-cases (kind == "response")) [
      | inl e ↦ elim (Option-cases (answered id (get "command_id" fields) t)) [
        | inl e' ↦ rw (e, e', complete_command) h
        | inr (c, e') ↦
            let (found, own) = answered_own id (get "command_id" fields) t c e' in
            rw (e, e', complete_command)
              (find_command-save c command k t found h
                (ground (
                  arith,
                  eq_iff c.device_id id,
                  eq_iff c.device_id command.device_id,
                  eq_iff command.device_id id,
                ))
                (completed lib fields payload_text now c) (unfold completed in refl))
      ]
      | inr e ↦ rw e h
    ]
find_command-complete_command lib id kind _ payload_text now t k command h ne = h

-- The row that a message writes for its sender.
abbrev stored_device : JsonLib → String → Json → ℕ → Device → Device
stored_device lib kind payload now d =
    if is_revoked d.lifecycle_status || not d.enabled
    then record d { online = false }
    else accepted lib kind payload now d

module _ (lib : JsonLib) (id kind topic payload_text : String) (payload : Json) (now : ℕ)
    (s : Server) where
  devices-store_for :
      (d : Device)
      → (store_for lib d id kind topic payload_text payload now s).devices
        ≡ Table.save device_key (stored_device lib kind payload now d) s.devices
  unfolding store_for save_device add_event
  devices-store_for d = elim (Bool-cases (is_revoked d.lifecycle_status || not d.enabled)) [
    | inl e ↦ rw e
    | inr e ↦
        rw e
          (complete-OnlyCommands lib id kind payload payload_text now (
            add_event (event_of id kind topic payload_text now)
              (save_device (accepted lib kind payload now d) s))).devices
  ]

  stored_device-SameCredentials :
      (d : Device) → SameCredentials d (stored_device lib kind payload now d)
  stored_device-SameCredentials d = ground (arith, accepted-SameCredentials lib kind payload now d)

  -- A stored message leaves the row of every other device as it was.
  pub find_device-store_event :
      (j : String)
      → (id == j) ≡ false
      → find_device (store_event lib id kind topic payload_text payload now s) j ≡ find_device s j
  unfolding store_event
  find_device-store_event j ne = elim (Option-cases (find_device s id)) [
    | inl e ↦ rw (e, store_event)
    | inr (d, e) ↦
        rw (e, store_event)
          (rw (
            devices-store_for d,
            Table.find-save device_key (stored_device lib kind payload now d) j s.devices,
            (stored_device-SameCredentials d).device_id,
            Table.find_key device_key id s.devices d e,
            ne,
          ))
  ]

  -- The row of a known sender keeps its status and its certificate, and a sender that is revoked or
  -- disabled is offline afterwards, whatever its message says.
  pub store_event-sender :
      (d : Device)
      → find_device s id ≡ some d
      → (d' : Device) × (find_device (store_event lib id kind topic payload_text payload now s) id
          ≡ some d')
        × SameCredentials d d'
        × ((is_revoked d.lifecycle_status || not d.enabled) ≡ true → d'.online ≡ false)
  unfolding store_event
  store_event-sender d e = (
    stored_device lib kind payload now d,
    rw (
      e,
      store_event,
      devices-store_for d,
      Table.find-save device_key (stored_device lib kind payload now d) id s.devices,
      (stored_device-SameCredentials d).device_id,
      Table.find_key device_key id s.devices d e,
      eq_refl id,
    ),
    stored_device-SameCredentials d,
    λ h. rw h,
  )

  -- The commands of other devices keep their rows.
  pub find_command-store_event :
      (k : String) (command : Command)
      → find_command s k ≡ some command
      → (command.device_id == id) ≡ false
      → find_command (store_event lib id kind topic payload_text payload now s) k ≡ some command
  unfolding store_event
  find_command-store_event k command h ne = elim (Option-cases (find_device s id)) [
    | inl e ↦ rw (e, store_event) h
    | inr (d, e) ↦
        rw (e, store_event)
          (unfold store_for save_device add_event in
            elim (Bool-cases (is_revoked d.lifecycle_status || not d.enabled)) [
              | inl e' ↦ rw e' h
              | inr e' ↦ rw e' (
                  find_command-complete_command lib id kind payload payload_text now
                    (add_event (event_of id kind topic payload_text now)
                      (save_device (accepted lib kind payload now d) s))
                    k command h ne)
            ])
  ]
