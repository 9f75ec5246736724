-- ===== src/Manufacturing/Agent.antt =====
-- scripts/manufacturing_agent.py: the station's state, the start of a job, and its thread. The
-- state is PROGRAM_LOCK and CURRENT_JOB; `PROGRAM_LOCK.release()` of a thread comes with its last change
-- to the job. What the serial bus and the child process say is an argument.
use Prim.Native.String.{◌++◌ as text_append}
use secure_io_t_device_platf.Base.{
  ℕ, zero, suc, ◌-◌, String, Bool, true, false, not, ◌||◌, ◌&&◌, Option, none, some, List, [], ◌∷◌,
  ◌++◌, length, eqb, leb, ltb, ◌==◌, if◌then◌else◌,
}
use secure_io_t_device_platf.Base.Text.{codes}
use secure_io_t_device_platf.Manufacturing.Products.{Product, allowed_profile, source_project}
use secure_io_t_device_platf.Manufacturing.Output.{
  sanitize_output, Stage, queued, complete, failed, stage_progress, stage_from_line,
}

pub data JobState : Type 0 where
  running success unsuccessful : JobState

-- CURRENT_JOB; `stage_label` is that of the stage
pub record Job : Type 0 where
  pub id : String
  pub state : JobState
  pub stage : Stage
  pub progress : ℕ
  pub product : Product
  pub port : String
  pub display_name : Option String
  pub reset_existing : Bool
  pub started_at : ℕ
  pub updated_at : ℕ
  pub finished_at : Option ℕ
  pub returncode : Option ℕ
  pub is_ok : Option Bool
  pub lines : List (List ℕ)

pub record Agent : Type 0 where
  pub locked : Bool
  pub job : Option Job

abbrev pub max_log_lines : ℕ
max_log_lines = 1200

abbrev pub max_body_bytes : ℕ
max_body_bytes = 8192

-- lines without the first n
unfoldable pub drop_first : ℕ → List (List ℕ) → List (List ℕ)
drop_first zero lines = lines
drop_first (suc n) [] = []
drop_first (suc n) (l ∷ lines) = drop_first n lines

abbrev pub is_newline : ℕ → Bool
is_newline c = eqb c 13 || eqb c 10

-- line.rstrip("\r\n")
unfoldable pub rstrip_newlines : List ℕ → List ℕ
rstrip_newlines [] = []
rstrip_newlines (c ∷ cs) = elim (rstrip_newlines cs) [
  | [] ↦ if is_newline c then [] else c ∷ []
  | d ∷ rest ↦ c ∷ d ∷ rest
]

-- del output[: len(output) - MAX_LOG_LINES], on the list with the new line
unfoldable pub append_line : List (List ℕ) → List ℕ → List (List ℕ)
append_line lines line =
    let output = lines ++ line ∷ [] in
    if ltb max_log_lines (length output)
    then drop_first (length output - max_log_lines) output
    else output

-- The stage only moves on.
unfoldable pub advance : Job → List ℕ → Job
advance job line =
    let stage = stage_from_line line job.stage in
    if leb (stage_progress job.stage) (stage_progress stage)
    then record job { stage = stage; progress = stage_progress stage }
    else job

unfoldable pub note_line : List ℕ → ℕ → Job → Job
note_line clean now job = record (advance job clean) {
  lines = append_line job.lines clean;
  updated_at = now;
}

unfoldable pub append_clean : String → List ℕ → ℕ → Agent → Agent
append_clean job_id [] now agent = agent
append_clean job_id (c ∷ cs) now agent = elim agent.job [
  | none ↦ agent
  | some job ↦
      if job.id == job_id then record agent { job = some (note_line (c ∷ cs) now job) } else agent
]

unfoldable pub append_job_output : String → List ℕ → ℕ → Agent → Agent
append_job_output job_id line now agent =
    append_clean job_id (sanitize_output (rstrip_newlines line)) now agent

unfoldable pub finished_job : ℕ → ℕ → Job → Job
finished_job returncode now job = record job {
  returncode = some returncode;
  is_ok = some (eqb returncode 0);
  state = if eqb returncode 0 then success else unsuccessful;
  stage = if eqb returncode 0 then complete else failed;
  progress = stage_progress (if eqb returncode 0 then complete else failed);
  finished_at = some now;
  updated_at = now;
}

-- The last block of `_run_program_job`, on a return code, and the `finally`.
unfoldable pub finish_job : String → ℕ → ℕ → Agent → Agent
finish_job job_id returncode now agent = elim agent.job [
  | none ↦ record agent { locked = false }
  | some job ↦
      if job.id == job_id
      then record { locked = false; job = some (finished_job returncode now job) }
      else record agent { locked = false }
]

-- The `except` block: an error line, the return code 2, and the `finally`.
unfoldable pub fail_job : String → String → ℕ → Agent → Agent
fail_job job_id error now agent =
    finish_job job_id 2 now
      (append_job_output job_id (codes (text_append "ERROR: " error)) now agent)

-- One line of the child with the clock, and whether the deadline has passed when it is read.
pub record OutputLine : Type 0 where
  pub text : List ℕ
  pub now : ℕ
  pub is_late : Bool

unfoldable pub read_output : String → List OutputLine → Agent → Agent
read_output job_id [] agent = agent
read_output job_id (line ∷ lines) agent =
    let logged = append_job_output job_id line.text line.now agent in
    let rest = read_output job_id lines logged in
    if line.is_late
    then append_job_output job_id (codes "ERROR: Manufacturing operation timed out") line.now logged
    else rest

-- How the child ends: with a return code, or with an exception in the thread. A signal's negative
-- code counts as its absolute value here; only its being 0 is read.
pub data Ending : Type 0 where
  exits : ℕ → Ending
  raises : String → Ending

unfoldable pub end_job : String → Ending → ℕ → Agent → Agent
end_job job_id (exits returncode) now agent = finish_job job_id returncode now agent
end_job job_id (raises error) now agent = fail_job job_id error now agent

-- Whether the thread has read a line after the deadline, and killed the child.
unfoldable pub timed_out : List OutputLine → Bool
timed_out [] = false
timed_out (line ∷ lines) = line.is_late || timed_out lines

-- The deadline is looked at only after a line: a child that prints nothing more and keeps its output
-- open holds the thread in `readline`, and the job stays as it is.
unfoldable pub run_program_job :
    String → Product → List OutputLine → Bool → Ending → ℕ → ℕ → Agent → Agent
run_program_job job_id product output is_silent ending began now agent =
    let selected =
      append_job_output job_id
        (codes (text_append "[UI] Selected source project: " (source_project product))) began
        agent in
    let checking =
      append_job_output job_id
        (codes "[DEPENDENCY] Checking PlatformIO, framework, toolchain, and project libraries...")
        began selected in
    let logged = read_output job_id output checking in
    if is_silent && not (timed_out output) then logged else end_job job_id ending now logged

unfoldable pub new_job : String → Product → String → Bool → Option String → ℕ → Job
new_job job_id product port reset_existing display_name now = record {
  id = job_id;
  state = running;
  stage = queued;
  progress = stage_progress queued;
  product = product;
  port = port;
  display_name = display_name;
  reset_existing = reset_existing;
  started_at = now;
  updated_at = now;
  finished_at = none;
  returncode = none;
  is_ok = none;
  lines = [];
}

-- The ValueError, the RuntimeError, or the snapshot of the new job.
pub data Program : Type 0 where
  value_error : String → Program
  runtime_error : String → Program
  programming : Job → Program

abbrev pub port_known : List String → String → Bool
port_known [] port = false
port_known (p ∷ ports) port = p == port || port_known ports port

unfoldable pub start_program_job :
    List String → String → String → String → Bool → Option String → ℕ → Agent → Program × Agent
start_program_job ports job_id profile port reset_existing display_name now agent =
    elim (allowed_profile profile) [
      | none ↦ (value_error "Profile is not allowlisted", agent)
      | some product ↦
          let job = new_job job_id product port reset_existing display_name now in
          if not (port_known ports port)
          then (value_error "Selected serial port is not currently available", agent)
          else if agent.locked
          then (runtime_error "The manufacturing station is busy", agent)
          else (programming job, record { locked = true; job = some job })
    ]
