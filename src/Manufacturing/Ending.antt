-- ===== src/Manufacturing/Ending.antt =====
-- The end of a programming job.
use mathlib.Core.Path.{subst}
use secure_io_t_device_platf.Base.{
  ℕ, ◌≡◌, refl, ◌∙◌, arith, String, Bool, true, false, not, ◌&&◌, Option, none, some, List, [], ◌∷◌,
  eqb, ◌==◌, eq_iff, if◌then◌else◌, Bool-cases, Option-cases, inl, inr,
}
use secure_io_t_device_platf.Manufacturing.Products.{Product, allowed_profile}
use secure_io_t_device_platf.Manufacturing.Output.{sanitize_output, stage_progress}
use secure_io_t_device_platf.Manufacturing.Agent.{
  Agent, Job, JobState, success, unsuccessful, Ending, exits, raises, OutputLine, Program,
  programming, advance, note_line, append_clean, append_job_output, finished_job, finish_job,
  fail_job, read_output, timed_out, end_job, run_program_job, new_job, port_known,
  start_program_job, rstrip_newlines,
}

-- The station holds a job with that id.
abbrev pub Holds : String → Option Job → Type 0
Holds id none = ⊥
Holds id (some job) = job.id ≡ id

append_clean-Holds :
    (id : String) (line : List ℕ) (now : ℕ) (locked : Bool) (o : Option Job)
    → Holds id o
    → Holds id (append_clean id line now (record { locked = locked; job = o })).job
unfolding append_clean note_line advance
append_clean-Holds id [] now locked o h = h
append_clean-Holds id (c ∷ cs) now locked none h = h
append_clean-Holds id (c ∷ cs) now locked (some job) h = elim (Bool-cases (job.id == id)) [
  | inl e ↦ rw e (ground arith)
  | inr e ↦ rw e h
]

append-Holds :
    (id : String) (line : List ℕ) (now : ℕ) (agent : Agent)
    → Holds id agent.job
    → Holds id (append_job_output id line now agent).job
unfolding append_job_output
append-Holds id line now agent h =
    append_clean-Holds id (sanitize_output (rstrip_newlines line)) now agent.locked agent.job h

read-Holds :
    (id : String) (lines : List OutputLine) (agent : Agent)
    → Holds id agent.job
    → Holds id (read_output id lines agent).job
unfolding read_output
read-Holds id [] agent h = h
read-Holds id (line ∷ lines) agent h =
    let logged = append_job_output id line.text line.now agent in
    let held = append-Holds id line.text line.now agent h in
    elim (Bool-cases line.is_late) [
      | inl e ↦ rw e (append-Holds id _ line.now logged held)
      | inr e ↦ rw e (read-Holds id lines logged held)
    ]

abbrev pub outcome : Ending → JobState
outcome (exits returncode) = if eqb returncode 0 then success else unsuccessful
outcome (raises error) = unsuccessful

abbrev pub Done : String → JobState → Option Job → Type 0
Done id state none = ⊥
Done id state (some job) = (job.id ≡ id) × (job.state ≡ state) × (job.progress ≡ 100)

-- The lock is free, and the job is over in that state.
pub record Over (id : String) (state : JobState) (agent : Agent) : Type 0 where
  pub released : agent.locked ≡ false
  pub done : Done id state agent.job

finish-Over :
    (id : String) (code now : ℕ) (locked : Bool) (o : Option Job)
    → Holds id o
    → Over id
        (if eqb code 0 then success else unsuccessful)
        (finish_job id code now (record { locked = locked; job = o }))
unfolding finish_job finished_job stage_progress
finish-Over id code now locked none h = absurd h
finish-Over id code now locked (some job) h =
    let same = (eq_iff job.id id).1 h in
    rw same (record { released = refl; done = (h, refl, ground arith) })

end-Over :
    (id : String) (ending : Ending) (now : ℕ) (agent : Agent)
    → Holds id agent.job
    → Over id (outcome ending) (end_job id ending now agent)
unfolding end_job fail_job
end-Over id (exits code) now agent h = finish-Over id code now agent.locked agent.job h
end-Over id (raises error) now agent h = finish-Over id 2 now _ _ (append-Holds id _ now agent h)

locked-append_clean :
    (id : String) (clean : List ℕ) (now : ℕ) (agent : Agent)
    → (append_clean id clean now agent).locked ≡ agent.locked
unfolding append_clean
locked-append_clean id [] now agent = refl
locked-append_clean id (c ∷ cs) now agent = elim (Option-cases agent.job) [
  | inl e ↦ rw (e, append_clean) refl
  | inr (job, e) ↦ elim (Bool-cases (job.id == id)) [
    | inl k ↦ rw (e, append_clean, k) refl
    | inr k ↦ rw (e, append_clean, k) refl
  ]
]

locked-append :
    (id : String) (line : List ℕ) (now : ℕ) (agent : Agent)
    → (append_job_output id line now agent).locked ≡ agent.locked
unfolding append_job_output
locked-append id line now agent =
    locked-append_clean id (sanitize_output (rstrip_newlines line)) now agent

locked-read :
    (id : String) (lines : List OutputLine) (agent : Agent)
    → (read_output id lines agent).locked ≡ agent.locked
unfolding read_output
locked-read id [] agent = refl
locked-read id (line ∷ lines) agent =
    let logged = append_job_output id line.text line.now agent in
    let first = locked-append id line.text line.now agent in
    elim (Bool-cases line.is_late) [
      | inl e ↦ rw e (locked-append id _ line.now logged ∙ first)
      | inr e ↦ rw e (locked-read id lines logged ∙ first)
    ]

-- The station is still locked for the job.
pub record Stuck (id : String) (agent : Agent) : Type 0 where
  pub locked : agent.locked ≡ true
  pub holds : Holds id agent.job

-- The child falls silent before any line of it comes after the deadline, and so holds the thread.
abbrev pub hangs : Bool → List OutputLine → Bool
hangs is_silent [] = is_silent
hangs is_silent (line ∷ lines) = not line.is_late && hangs is_silent lines

hangs-timed_out :
    (is_silent : Bool) (output : List OutputLine)
    → (is_silent && not (timed_out output)) ≡ hangs is_silent output
unfolding timed_out
hangs-timed_out is_silent [] = ground arith
hangs-timed_out is_silent (line ∷ lines) = ground (arith, hangs-timed_out is_silent lines)

abbrev pub Fate : Bool → String → JobState → Agent → Type 0
Fate true id state agent = Stuck id agent
Fate false id state agent = Over id state agent

run_program_job-Fate :
    (id : String) (product : Product) (output : List OutputLine) (is_silent : Bool)
    (ending : Ending) (began now : ℕ) (agent : Agent)
    → agent.locked ≡ true
    → Holds id agent.job
    → Fate
        (hangs is_silent output)
        id
        (outcome ending)
        (run_program_job id product output is_silent ending began now agent)
unfolding run_program_job
run_program_job-Fate id product output is_silent ending began now agent l h =
    let first = append_job_output id _ began agent in
    let checking = append_job_output id _ began first in
    let logged = read_output id output checking in
    let held : Holds id logged.job =
      read-Holds id output checking
        (append-Holds id _ began first (append-Holds id _ began agent h)) in
    let same = hangs-timed_out is_silent output in
    elim (Bool-cases (hangs is_silent output)) [
      | inl e ↦
          rw (same, e)
            (record {
              locked =
                  locked-read id output checking
                  ∙ locked-append id _ began first
                  ∙ locked-append id _ began agent
                  ∙ l;
              holds = held;
            })
      | inr e ↦ rw (same, e) (end-Over id ending now logged held)
    ]

abbrev Kept : String → Program × Agent → Type 0
Kept id (programming job, agent) = (agent.locked ≡ true) × Holds id agent.job
Kept id (_, agent) = Unit

start-Kept :
    (ports : List String) (id profile port : String) (reset : Bool) (display : Option String)
    (now : ℕ) (agent : Agent)
    → Kept id (start_program_job ports id profile port reset display now agent)
unfolding start_program_job new_job
start-Kept ports id profile port reset display now agent =
    elim (Option-cases (allowed_profile profile)) [
      | inl e ↦ rw (e, start_program_job) tt
      | inr (product, e) ↦ elim (Bool-cases (port_known ports port)) [
        | inr k ↦ rw (e, start_program_job, k) tt
        | inl k ↦ elim (Bool-cases agent.locked) [
          | inl b ↦ rw (e, start_program_job, k, b) tt
          | inr b ↦ rw (e, start_program_job, k, b) (refl, refl)
        ]
      ]
    ]

-- A job that has started ends: whatever its child prints, and whether it exits or the thread raises an
-- exception, the station is free again and the job is over, successful exactly on the return code 0, at
-- 100 percent. The one exception is a child that falls silent with its output open, before a line of it
-- comes after the deadline: then the station stays locked for this job.
pub started_job-Fate :
    (ports : List String) (id profile port : String) (reset : Bool) (display : Option String)
    (output : List OutputLine) (is_silent : Bool) (ending : Ending) (began now : ℕ)
    (agent agent' : Agent) (job : Job)
    → start_program_job ports id profile port reset display began agent ≡ (programming job, agent')
    → Fate
        (hangs is_silent output)
        id
        (outcome ending)
        (run_program_job id job.product output is_silent ending began now agent')
started_job-Fate ports id profile port reset display output is_silent ending began now agent agent'
      job e =
    let (locked, held) =
      subst (Kept id) e (start-Kept ports id profile port reset display began agent) in
    run_program_job-Fate id job.product output is_silent ending began now agent' locked held
