-- ===== src/Simulator/Device.antt =====
-- simulators/simulated_device.py: the running device. Publications are listed in order; telemetry keeps
-- of its message the sequence number, the uptime and the levels or the spectrum. The spectrum of a
-- sequence number, made of sines, is an argument. Times are microseconds of the monotonic clock.
use secure_io_t_device_platf.Base.{
  ℕ, suc, ◌-◌, ◌/◌, ◌%◌, max, String, true, ◌||◌, Option, none, some, List, [], ◌∷◌, ◌++◌, eqb,
  ◌==◌, if◌then◌else◌,
}
use secure_io_t_device_platf.Json.{
  Json, JsonLib, bool, text, dict, Fields, end, field, get, or_default,
}
use secure_io_t_device_platf.Simulator.Levels.{done, value_error, other_error, Round}
use secure_io_t_device_platf.Simulator.Profiles.{Profile, lighting, as7341, handle_command}
use secure_io_t_device_platf.Simulator.Recent.{Recent, remember_command}

pub record Simulated : Type 0 where
  pub profile : Profile
  pub sequence : ℕ
  pub started_monotonic : ℕ
  pub recent : Recent

-- What a telemetry message shows.
pub record Reading : Type 0 where
  pub sequence : ℕ
  pub uptime_s : ℕ
  pub values : List ℕ

pub data Result : Type 0 where
  object : Json → Result
  reading : Reading → Result

pub data Publication : Type 0 where
  response : String → String → Result → Publication
  telemetry : Reading → Publication
  status : String → ℕ → Publication

-- The status of a response, and its result.
pub record Outcome : Type 0 where
  pub status : String
  pub result : Result

-- A payload without an object of parameters has none.
abbrev pub parameters_of : Option Json → Fields
parameters_of (some (dict fields)) = fields
parameters_of _ = end

module _ (lib : JsonLib) (round : Round) (spectrum : ℕ → List ℕ) (now : ℕ) where
  unfoldable pub uptime_s : Simulated → ℕ
  uptime_s d = (now - d.started_monotonic) / 1000000

  -- A light shows its levels; a sensor measures.
  unfoldable pub telemetry_values : ℕ → Profile → List ℕ × Profile
  telemetry_values sequence (lighting light levels) = (levels, lighting light levels)
  telemetry_values sequence (as7341 last) = (spectrum sequence, as7341 (spectrum sequence))

  unfoldable pub current_state : Simulated → Reading × Simulated
  current_state d =
      let (values, profile) = telemetry_values d.sequence d.profile in
      (
        record { sequence = d.sequence; uptime_s = uptime_s d; values = values },
        record d { profile = profile },
      )

  unfoldable pub publish_telemetry : Simulated → List Publication × Simulated
  publish_telemetry d = let (shown, measured) = current_state d in (telemetry shown ∷ [], measured)

  -- A restart clears the clock and the sequence; the profiles keep their state.
  unfoldable pub restart : Simulated → Simulated
  restart d = record d { started_monotonic = now; sequence = 0 }

  -- The `else` branch; none is an exception that is no ValueError.
  unfoldable pub apply_command : String → Fields → Simulated → Option Outcome × Simulated
  apply_command command parameters d =
      let (handled, profile) = handle_command round d.profile command parameters in
      let applied = record d { profile = profile } in
      elim handled [
        | done result ↦ (some (record { status = "completed"; result = object result }), applied)
        | value_error e ↦
            if e == "unsupported"
            then (
              some (record {
                status = "unsupported";
                result = object (dict (field "command" (text command) end));
              }),
              applied,
            )
            else (
              some (record {
                status = "rejected";
                result = object (dict (field "error" (text e) end));
              }),
              applied,
            )
        | other_error ↦ (none, applied)
      ]

  unfoldable pub execute : String → Fields → Simulated → Option Outcome × Simulated
  execute command parameters d =
      let (shown, measured) = current_state d in
      if command == "ping"
      then (
        some (record {
          status = "completed";
          result = object (dict (field "pong" (bool true) end));
        }),
        d,
      )
      else if command == "get_status"
      then (some (record { status = "completed"; result = reading shown }), measured)
      else if command == "restart"
      then (
        some (record {
          status = "accepted";
          result = object (dict (field "action" (text "simulated-restart") end));
        }),
        restart d,
      )
      else apply_command command parameters d

  -- Telemetry after a command that was carried out, and the status after two of them.
  unfoldable pub follow_up : String → String → Simulated → List Publication × Simulated
  follow_up command outcome d =
      let (sent, measured) = publish_telemetry d in
      if outcome == "completed" || outcome == "accepted"
      then (
        sent
            ++ (if command == "get_status" || command == "restart"
                then status "command" (uptime_s measured) ∷ []
                else []),
        measured,
      )
      else ([], d)

  unfoldable pub on_command : String → String → Fields → Simulated → List Publication × Simulated
  on_command command_id command parameters d =
      let (outcome, executed) = execute command parameters d in
      elim outcome [
        | none ↦ ([], executed)
        | some o ↦
            let (sent, after) = follow_up command o.status executed in
            (response command_id o.status o.result ∷ sent, after)
      ]

  unfoldable pub on_payload : Fields → Simulated → List Publication × Simulated
  on_payload payload d =
      let command_id = lib.str (or_default (get "command_id" payload) (text "unknown")) in
      let command = lib.str (or_default (get "command" payload) (text "")) in
      let (fresh, recent) = remember_command command_id d.recent in
      let noted = record d { recent = recent } in
      if fresh
      then on_command command_id command (parameters_of (get "parameters" payload)) noted
      else (
        response command_id "duplicate" (object (dict (field "ignored" (bool true) end))) ∷ [],
        noted,
      )

  -- A payload that is no JSON object raises an exception that is logged.
  unfoldable pub on_value : Json → Simulated → List Publication × Simulated
  on_value (dict fields) d = on_payload fields d
  on_value _ d = ([], d)

  unfoldable pub on_message : String → Simulated → List Publication × Simulated
  on_message payload d = elim (lib.loads payload) [ none ↦ ([], d) | some value ↦ on_value value d ]

  -- One round of the loop of `run`; the status comes every `rounds` rounds, int(30 / interval).
  unfoldable pub tick : ℕ → Simulated → List Publication × Simulated
  tick rounds d =
      let (sent, after) = publish_telemetry (record d { sequence = suc d.sequence }) in
      (
        sent
            ++ (if eqb (after.sequence % max 1 rounds) 0
                then status "periodic" (uptime_s after) ∷ []
                else []),
        after,
      )
