-- ===== src/Simulator/Steps.antt =====
-- One step of a simulated device: what it does to the memory and to the levels.
use secure_io_t_device_platf.Base.{
  ℕ, suc, ◌≡◌, ◌⊎◌, inl, inr, refl, ◌∙◌, arith, String, List, [], ◌∷◌, ◌==◌, Bool-cases,
  Option-cases,
}
use secure_io_t_device_platf.Json.{
  Json, null, int, float, list, JsonLib, bool, text, dict, Fields, get, or_default,
}
use secure_io_t_device_platf.Simulator.Levels.{Round}
use secure_io_t_device_platf.Simulator.Profiles.{Profile, lighting, as7341, handle_command}
use secure_io_t_device_platf.Simulator.Recent.{Recent, remember_command}
use secure_io_t_device_platf.Simulator.Device.{
  Simulated, telemetry_values, current_state, publish_telemetry, restart, apply_command, execute,
  follow_up, on_command, on_payload, on_value, on_message, tick, parameters_of,
}
use secure_io_t_device_platf.Simulator.Bounds.{
  Handled-cases, BoundedProfile, handle_command-Bounded,
}

-- A message or a round of the loop, with its time.
pub data DeviceEvent : Type 0 where
  receives : String → ℕ → DeviceEvent
  rounds : ℕ → ℕ → DeviceEvent

module _ (lib : JsonLib) (round : Round) (spectrum : ℕ → List ℕ) where
  unfoldable pub device_step : DeviceEvent → Simulated → Simulated
  device_step (receives payload now) d = (on_message lib round spectrum now payload d).1
  device_step (rounds every now) d = (tick lib round spectrum now every d).1

  unfoldable pub device_run : List DeviceEvent → Simulated → Simulated
  device_run [] d = d
  device_run (e ∷ es) d = device_run es (device_step e d)

  -- The recent commands are the same, or one more is remembered.
  abbrev pub Remembers : Recent → Recent → Type 0
  Remembers r r' = (r' ≡ r) ⊎ ((id : String) × (r' ≡ (remember_command id r).1))

  -- What executing a command leaves alone, and what it keeps.
  pub record Kept (d d' : Simulated) : Type 0 where
    pub same : d'.recent ≡ d.recent
    pub within : BoundedProfile d.profile → BoundedProfile d'.profile

  Kept-trans : (a b c : Simulated) → Kept a b → Kept b c → Kept a c
  Kept-trans a b c h k = record { same = k.same ∙ h.same; within = λ x. k.within (h.within x) }

  -- A step of the device.
  pub record Stepped (d d' : Simulated) : Type 0 where
    pub remembers : Remembers d.recent d'.recent
    pub within : BoundedProfile d.profile → BoundedProfile d'.profile

  still : (d : Simulated) → Stepped d d
  still d = record { remembers = inl refl; within = λ h. h }

  module _ (now : ℕ) where
    telemetry-Bounded :
        (sequence : ℕ) (p : Profile)
        → BoundedProfile p
        → BoundedProfile (telemetry_values lib round spectrum now sequence p).1
    unfolding telemetry_values
    telemetry-Bounded sequence (lighting light levels) h = h
    telemetry-Bounded sequence (as7341 last) h = tt

    current-Kept : (d : Simulated) → Kept d (current_state lib round spectrum now d).1
    unfolding current_state
    current-Kept d = record { same = refl; within = telemetry-Bounded d.sequence d.profile }

    apply-Kept :
        (command : String) (fields : Fields) (d : Simulated)
        → Kept d (apply_command lib round spectrum now command fields d).1
    unfolding apply_command
    apply-Kept command fields d =
        let kept : Kept d
            (record d { profile = (handle_command round d.profile command fields).1 }) =
          record { same = refl; within = handle_command-Bounded round d.profile command fields } in
        elim (Handled-cases (handle_command round d.profile command fields).0) [
          | inl (result, e) ↦ rw (e, apply_command) kept
          | inr (inl (m, e)) ↦ elim (Bool-cases (m == "unsupported")) [
            | inl k ↦ rw (e, apply_command, k) kept
            | inr k ↦ rw (e, apply_command, k) kept
          ]
          | inr (inr e) ↦ rw (e, apply_command) kept
        ]

    restart-Kept : (d : Simulated) → Kept d (restart lib round spectrum now d)
    unfolding restart
    restart-Kept d = record { same = refl; within = λ h. h }

    stay-Kept : (d : Simulated) → Kept d d
    stay-Kept d = record { same = refl; within = λ h. h }

    execute-Kept :
        (command : String) (fields : Fields) (d : Simulated)
        → Kept d (execute lib round spectrum now command fields d).1
    unfolding execute
    execute-Kept command fields d =
        ground (arith, stay-Kept d, current-Kept d, restart-Kept d, apply-Kept command fields d)

    follow_up-Kept :
        (command outcome : String) (d : Simulated)
        → Kept d (follow_up lib round spectrum now command outcome d).1
    unfolding follow_up publish_telemetry
    follow_up-Kept command outcome d = ground (arith, stay-Kept d, current-Kept d)

    pub on_command-Kept :
        (id command : String) (fields : Fields) (d : Simulated)
        → Kept d (on_command lib round spectrum now id command fields d).1
    unfolding on_command
    on_command-Kept id command fields d =
        let done = execute lib round spectrum now command fields d in
        let kept = execute-Kept command fields d in
        elim (Option-cases done.0) [
          | inl e ↦ rw (e, on_command) kept
          | inr (o, e) ↦
              rw (e, on_command)
                (Kept-trans d done.1 _ kept (follow_up-Kept command o.status done.1))
        ]

    tick-Kept : (every : ℕ) (d : Simulated) → Kept d (tick lib round spectrum now every d).1
    unfolding tick publish_telemetry
    tick-Kept every d =
        let kept = current-Kept (record d { sequence = suc d.sequence }) in
        record { same = kept.same; within = kept.within }

    payload-Stepped :
        (fields : Fields) (d : Simulated) → Stepped d (on_payload lib round spectrum now fields d).1
    unfolding on_payload
    payload-Stepped fields d =
        let id = lib.str (or_default (get "command_id" fields) (text "unknown")) in
        let command = lib.str (or_default (get "command" fields) (text "")) in
        let noted = record d { recent = (remember_command id d.recent).1 } in
        let kept = on_command-Kept id command (parameters_of (get "parameters" fields)) noted in
        elim (Bool-cases (remember_command id d.recent).0) [
          | inl e ↦
              rw (e, on_payload) (record { remembers = inr (id, kept.same); within = kept.within })
          | inr e ↦ rw (e, on_payload) (record { remembers = inr (id, refl); within = λ h. h })
        ]

    value-Stepped :
        (value : Json) (d : Simulated) → Stepped d (on_value lib round spectrum now value d).1
    unfolding on_value
    value-Stepped (dict fields) d = payload-Stepped fields d
    value-Stepped null d = still d
    value-Stepped (bool b) d = still d
    value-Stepped (int negative n) d = still d
    value-Stepped (float bits) d = still d
    value-Stepped (text s) d = still d
    value-Stepped (list items) d = still d

    message-Stepped :
        (payload : String) (d : Simulated)
        → Stepped d (on_message lib round spectrum now payload d).1
    unfolding on_message
    message-Stepped payload d = elim (Option-cases (lib.loads payload)) [
      | inl e ↦ rw (e, on_message) (still d)
      | inr (value, e) ↦ rw (e, on_message) (value-Stepped value d)
    ]

  pub step-Stepped : (e : DeviceEvent) (d : Simulated) → Stepped d (device_step e d)
  unfolding device_step
  step-Stepped (receives payload now) d = message-Stepped now payload d
  step-Stepped (rounds every now) d =
      let kept = tick-Kept now every d in record { remembers = inl kept.same; within = kept.within }
