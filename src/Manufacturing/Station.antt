-- ===== src/Manufacturing/Station.antt =====
-- The station over the life of its agent.
use Prim.Native.String.{◌++◌ as text_append}
use secure_io_t_device_platf.Base.{
  ℕ, zero, suc, ◌-◌, ◌≤◌, ◌≡◌, refl, arith, String, Bool, true, false, Option, none, some, List, [],
  ◌∷◌, ◌++◌, length, ◌==◌, eq_iff, if◌then◌else◌, Bool-cases, Option-cases, inl, inr,
}
use secure_io_t_device_platf.Base.Text.{codes}
use secure_io_t_device_platf.Manufacturing.Products.{allowed_profile}
use secure_io_t_device_platf.Manufacturing.Output.{sanitize_output, stage_progress}
use secure_io_t_device_platf.Manufacturing.Agent.{
  Agent, Job, JobState, running, Ending, exits, raises, drop_first, append_line, advance, note_line,
  append_clean, append_job_output, finished_job, finish_job, fail_job, end_job, new_job, port_known,
  start_program_job, rstrip_newlines,
}

-- What one thread does, and the requests, as events. A thread acts under the id of its job.
pub data StationEvent : Type 0 where
  requests : List String → String → String → String → Bool → Option String → ℕ → StationEvent
  outputs : List ℕ → ℕ → StationEvent
  ends : Ending → ℕ → StationEvent

-- The thread exists while the lock is held.
abbrev pub thread_id : Agent → Option String
thread_id agent = elim agent.job [
  | none ↦ none
  | some job ↦ if agent.locked then some job.id else none
]

unfoldable pub station_step : StationEvent → Agent → Agent
station_step (requests ports job_id profile port reset display now) agent =
    (start_program_job ports job_id profile port reset display now agent).1
station_step (outputs line now) agent = elim (thread_id agent) [
  | none ↦ agent
  | some id ↦ append_job_output id line now agent
]
station_step (ends ending now) agent = elim (thread_id agent) [
  | none ↦ agent
  | some id ↦ end_job id ending now agent
]

unfoldable pub station_run : List StationEvent → Agent → Agent
station_run [] agent = agent
station_run (e ∷ es) agent = station_run es (station_step e agent)

abbrev pub is_running : JobState → Bool
is_running running = true
is_running _ = false

-- What holds of a job.
pub record Sane (locked : Bool) (job : Job) : Type 0 where
  pub held : locked ≡ is_running job.state
  pub shown : job.progress ≡ stage_progress job.stage
  pub bounded : length job.lines ≤ 1200
  pub over : is_running job.state ≡ false → (job.progress ≡ 100)

abbrev pub SaneOption : Bool → Option Job → Type 0
SaneOption locked none = locked ≡ false
SaneOption locked (some job) = Sane locked job

abbrev pub SaneAgent : Agent → Type 0
SaneAgent agent = SaneOption agent.locked agent.job

length-drop_first : (n : ℕ) (ls : List (List ℕ)) → length (drop_first n ls) ≡ length ls - n
unfolding drop_first
length-drop_first zero ls = omega arith
length-drop_first (suc n) [] = omega arith
length-drop_first (suc n) (l ∷ ls) = omega (arith, length-drop_first n ls)

length-append_line : (ls : List (List ℕ)) (l : List ℕ) → length (append_line ls l) ≤ 1200
unfolding append_line
length-append_line ls l =
    let output = ls ++ l ∷ [] in ground (arith, length-drop_first (length output - 1200) output)

note_line-Sane :
    (locked : Bool) (l : List ℕ) (now : ℕ) (job : Job)
    → locked ≡ true
    → Sane locked job
    → Sane locked (note_line l now job)
unfolding note_line advance
note_line-Sane locked l now job e h = record {
  held = ground (arith, h.held);
  shown = ground (arith, h.shown);
  bounded = length-append_line job.lines l;
  over = λ k. absurd (ground (arith, h.held));
}

abbrev station : Bool → Option Job → Agent
station locked o = record { locked = locked; job = o }

append_clean-Sane :
    (id : String) (l : List ℕ) (now : ℕ) (o : Option Job)
    → SaneOption true o
    → SaneAgent (append_clean id l now (station true o))
      × ((append_clean id l now (station true o)).locked ≡ true)
unfolding append_clean
append_clean-Sane id [] now o h = (h, refl)
append_clean-Sane id (c ∷ cs) now none h = (h, refl)
append_clean-Sane id (c ∷ cs) now (some job) h = elim (Bool-cases (job.id == id)) [
  | inl e ↦ rw e (note_line-Sane true (c ∷ cs) now job refl h, refl)
  | inr e ↦ rw e (h, refl)
]

append-Sane :
    (id : String) (l : List ℕ) (now : ℕ) (locked : Bool) (o : Option Job)
    → locked ≡ true
    → SaneOption locked o
    → SaneAgent (append_job_output id l now (station locked o))
      × ((append_job_output id l now (station locked o)).locked ≡ true)
unfolding append_job_output
append-Sane id l now true o e h = append_clean-Sane id (sanitize_output (rstrip_newlines l)) now o h
append-Sane id l now false o e h = absurd (ground arith)

finished-Sane :
    (code now : ℕ) (job : Job) → length job.lines ≤ 1200 → Sane false (finished_job code now job)
unfolding finished_job stage_progress
finished-Sane code now job h = record {
  held = ground arith;
  shown = ground arith;
  bounded = h;
  over = λ k. ground arith;
}

-- The job that the station holds, if any, has the id of its thread.
abbrev pub Owns : String → Option Job → Type 0
Owns id none = Unit
Owns id (some job) = job.id ≡ id

finish-Sane :
    (id : String) (code now : ℕ) (locked : Bool) (o : Option Job)
    → Owns id o
    → SaneOption locked o
    → SaneAgent (finish_job id code now (station locked o))
unfolding finish_job
finish-Sane id code now locked none own h = refl
finish-Sane id code now locked (some job) own h =
    let same = (eq_iff job.id id).1 own in rw same (finished-Sane code now job h.bounded)

append_clean-Owns :
    (id : String) (l : List ℕ) (now : ℕ) (locked : Bool) (o : Option Job)
    → Owns id o
    → Owns id (append_clean id l now (station locked o)).job
unfolding append_clean note_line advance
append_clean-Owns id [] now locked o h = h
append_clean-Owns id (c ∷ cs) now locked none h = h
append_clean-Owns id (c ∷ cs) now locked (some job) h = elim (Bool-cases (job.id == id)) [
  | inl e ↦ rw e (ground arith)
  | inr e ↦ rw e h
]

fail-Sane :
    (id error : String) (now : ℕ) (locked : Bool) (o : Option Job)
    → Owns id o
    → locked ≡ true
    → SaneOption locked o
    → SaneAgent (fail_job id error now (station locked o))
unfolding fail_job append_job_output
fail-Sane id error now locked o own e h =
    let line = codes (text_append "ERROR: " error) in
    let logged = append_job_output id line now (station locked o) in
    finish-Sane id 2 now logged.locked logged.job
      (append_clean-Owns id (sanitize_output (rstrip_newlines line)) now locked o own)
      (append-Sane id line now locked o e h).0

end-Sane :
    (id : String) (ending : Ending) (now : ℕ) (locked : Bool) (o : Option Job)
    → Owns id o
    → locked ≡ true
    → SaneOption locked o
    → SaneAgent (end_job id ending now (station locked o))
unfolding end_job
end-Sane id (exits code) now locked o own e h = finish-Sane id code now locked o own h
end-Sane id (raises error) now locked o own e h = fail-Sane id error now locked o own e h

start-Sane :
    (ports : List String) (job_id profile port : String) (reset : Bool) (display : Option String)
    (now : ℕ) (locked : Bool) (o : Option Job)
    → SaneOption locked o
    → SaneAgent (start_program_job ports job_id profile port reset display now (station locked o)).1
unfolding start_program_job
start-Sane ports job_id profile port reset display now locked o h =
    elim (Option-cases (allowed_profile profile)) [
      | inl e ↦ rw (e, start_program_job) h
      | inr (product, e) ↦ elim (Bool-cases (port_known ports port)) [
        | inr k ↦ rw (e, start_program_job, k) h
        | inl k ↦ elim (Bool-cases locked) [
          | inl b ↦ rw (e, start_program_job, k, b) (rw b at h)
          | inr b ↦ rw (e, start_program_job, k, b) (unfold new_job in ground arith)
        ]
      ]
    ]

station_step-Sane :
    (e : StationEvent) (locked : Bool) (o : Option Job)
    → SaneOption locked o
    → SaneAgent (station_step e (station locked o))
unfolding station_step
station_step-Sane (requests ports job_id profile port reset display now) locked o h =
    start-Sane ports job_id profile port reset display now locked o h
station_step-Sane (outputs line now) locked none h = h
station_step-Sane (outputs line now) true (some job) h =
    (append-Sane job.id line now true (some job) refl h).0
station_step-Sane (outputs line now) false (some job) h = h
station_step-Sane (ends ending now) locked none h = h
station_step-Sane (ends ending now) true (some job) h =
    end-Sane job.id ending now true (some job) refl refl h
station_step-Sane (ends ending now) false (some job) h = h

-- Through any requests, output and endings the station stays sane: its lock is held exactly while its
-- job runs, the progress is that of the job's stage, a job that is over shows 100, and the log keeps at
-- most 1200 lines.
pub station_run-Sane :
    (es : List StationEvent) (agent : Agent) → SaneAgent agent → SaneAgent (station_run es agent)
unfolding station_run
station_run-Sane [] agent h = h
station_run-Sane (e ∷ es) agent h =
    station_run-Sane es (station_step e agent) (station_step-Sane e agent.locked agent.job h)
