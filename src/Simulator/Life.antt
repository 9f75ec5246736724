-- ===== src/Simulator/Life.antt =====
-- A simulated device through any messages and rounds.
use mathlib.Core.Path.{subst}
use secure_io_t_device_platf.Base.{
  ℕ, suc, ◌+◌, ◌≤◌, ◌<◌, ◌≡◌, inl, inr, refl, sym, ◌∙◌, ap, arith, String, true, false, some, List,
  [], ◌∷◌, length,
}
use secure_io_t_device_platf.Json.{JsonLib, bool, text, dict, Fields, end, field, get, or_default}
use secure_io_t_device_platf.Simulator.Levels.{Round}
use secure_io_t_device_platf.Simulator.Recent.{Recent, remember_command, has}
use secure_io_t_device_platf.Simulator.Device.{
  Simulated, object, Publication, response, on_payload, on_value, on_message, parameters_of,
}
use secure_io_t_device_platf.Simulator.Bounds.{BoundedProfile}
use secure_io_t_device_platf.Simulator.Once.{
  Tidy, remember-Tidy, Recently, remember-Recently, accepted-Recently, remember_again, further,
}
use secure_io_t_device_platf.Simulator.Steps.{
  DeviceEvent, receives, device_step, device_run, Remembers, step-Stepped, on_command-Kept,
}

module _ (lib : JsonLib) (round : Round) (spectrum : ℕ → List ℕ) where
  -- The memory is tidy and the levels are in bounds.
  pub record Steady (d : Simulated) : Type 0 where
    pub tidy : Tidy d.recent
    pub levels : BoundedProfile d.profile

  Remembers-Tidy : (r r' : Recent) → Remembers lib round spectrum r r' → Tidy r → Tidy r'
  Remembers-Tidy r r' (inl e) t = subst Tidy (sym e) t
  Remembers-Tidy r r' (inr (id, e)) t = subst Tidy (sym e) (remember-Tidy id r t)

  step-Steady :
      (e : DeviceEvent) (d : Simulated) → Steady d → Steady (device_step lib round spectrum e d)
  step-Steady e d h =
      let s = step-Stepped lib round spectrum e d in
      record {
        tidy =
            Remembers-Tidy d.recent (device_step lib round spectrum e d).recent s.remembers h.tidy;
        levels = s.within h.levels;
      }

  -- Through any messages and rounds a simulated device keeps one level from 0 to 100 for each channel,
  -- and remembers at most 128 commands, each once.
  pub device_run-Steady :
      (es : List DeviceEvent) (d : Simulated)
      → Steady d
      → Steady (device_run lib round spectrum es d)
  unfolding device_run
  device_run-Steady [] d h = h
  device_run-Steady (e ∷ es) d h =
      device_run-Steady es (device_step lib round spectrum e d) (step-Steady e d h)

  Remembers-Recently :
      (k : ℕ) (id : String) (r r' : Recent)
      → k < 127
      → Remembers lib round spectrum r r'
      → Recently k id r.command_ids
      → Recently (suc k) id r'.command_ids
  Remembers-Recently k id r r' room (inl e) h =
      subst (λ q. Recently (suc k) id q.command_ids) (sym e) (further k id r.command_ids h)
  Remembers-Recently k id r r' room (inr (a, e)) h =
      subst (λ q. Recently (suc k) id q.command_ids) (sym e) (remember-Recently k id a r room h)

  run-Recently :
      (k : ℕ) (id : String) (es : List DeviceEvent) (d : Simulated)
      → k + length es ≤ 127
      → Recently k id d.recent.command_ids
      → Recently (k + length es) id (device_run lib round spectrum es d).recent.command_ids
  unfolding device_run
  run-Recently k id [] d room h = subst (λ n. Recently n id d.recent.command_ids) (omega arith) h
  run-Recently k id (e ∷ es) d room h =
      let next =
        Remembers-Recently k id d.recent (device_step lib round spectrum e d).recent
          (omega (arith, room)) (step-Stepped lib round spectrum e d).remembers h in
      subst
        (λ n.
          Recently n id
            (device_run lib round spectrum es
              (device_step lib round spectrum e d)).recent.command_ids)
        (omega arith)
        (run-Recently (suc k) id es (device_step lib round spectrum e d) (omega (arith, room)) next)

  abbrev pub command_id : Fields → String
  command_id fields = lib.str (or_default (get "command_id" fields) (text "unknown"))

  abbrev pub duplicate : String → Publication
  duplicate id = response id "duplicate" (object (dict (field "ignored" (bool true) end)))

  first-Recently :
      (fields : Fields) (now : ℕ) (d : Simulated)
      → has d.recent.command_set (command_id fields) ≡ false
      → Recently 0
          (command_id fields)
          (on_payload lib round spectrum now fields d).1.recent.command_ids
  unfolding on_payload
  first-Recently fields now d fresh =
      let id = command_id fields in
      let command = lib.str (or_default (get "command" fields) (text "")) in
      let noted = record d { recent = (remember_command id d.recent).1 } in
      let (accepted, last) = accepted-Recently id d.recent fresh in
      let kept =
        on_command-Kept lib round spectrum now id command (parameters_of (get "parameters" fields))
          noted in
      rw (accepted, on_payload) (subst (λ r. Recently 0 id r.command_ids) (sym kept.same) last)

  again-duplicate :
      (k : ℕ) (fields : Fields) (now : ℕ) (d : Simulated)
      → Tidy d.recent
      → Recently k (command_id fields) d.recent.command_ids
      → on_payload lib round spectrum now fields d ≡ (duplicate (command_id fields) ∷ [], d)
  unfolding on_payload
  again-duplicate k fields now d t h =
      rw (remember_again k (command_id fields) d.recent t h, on_payload) refl

  read_message :
      (payload : String) (fields : Fields) (now : ℕ) (d : Simulated)
      → lib.loads payload ≡ some (dict fields)
      → on_message lib round spectrum now payload d ≡ on_payload lib round spectrum now fields d
  unfolding on_message on_value
  read_message payload fields now d read = rw (read, on_message) refl

  step-Recently :
      (payload : String) (fields : Fields) (now : ℕ) (d : Simulated)
      → lib.loads payload ≡ some (dict fields)
      → has d.recent.command_set (command_id fields) ≡ false
      → Recently 0
          (command_id fields)
          (device_step lib round spectrum (receives payload now) d).recent.command_ids
  unfolding device_step
  step-Recently payload fields now d read fresh =
      rw (read_message payload fields now d read, device_step) (first-Recently fields now d fresh)

  -- A command that is not remembered is not carried out again: whatever 127 messages and rounds follow
  -- it, a message with its id is answered as a duplicate and changes nothing.
  pub command_once :
      (payload payload' : String) (fields fields' : Fields) (now now' : ℕ) (es : List DeviceEvent)
      (d : Simulated)
      → Steady d
      → lib.loads payload ≡ some (dict fields)
      → lib.loads payload' ≡ some (dict fields')
      → command_id fields' ≡ command_id fields
      → has d.recent.command_set (command_id fields) ≡ false
      → length es ≤ 127
      → on_message lib round spectrum now' payload'
          (device_run lib round spectrum (receives payload now ∷ es) d)
        ≡ (
          duplicate (command_id fields) ∷ [],
          device_run lib round spectrum (receives payload now ∷ es) d,
        )
  unfolding device_run device_step
  command_once payload payload' fields fields' now now' es d h read read' same fresh few =
      let id = command_id fields in
      let first = device_step lib round spectrum (receives payload now) d in
      let last = device_run lib round spectrum es first in
      let steady = device_run-Steady es first (step-Steady (receives payload now) d h) in
      let recent =
        run-Recently 0 id es first (omega (arith, few))
          (step-Recently payload fields now d read fresh) in
      read_message payload' fields' now' last read'
      ∙ again-duplicate (0 + length es) fields' now' last steady.tidy
          (subst (λ i. Recently (0 + length es) i last.recent.command_ids) (sym same) recent)
      ∙ ap (λ i. (duplicate i ∷ [], last)) same
