-- ===== src/Examples/Stations.antt =====
-- Tests: the fleet manager and the manufacturing station.
use secure_io_t_device_platf.Base.{
  ◌≡◌, refl, arith, true, false, some, none, List, [], ◌∷◌, length, All, String,
}
use secure_io_t_device_platf.Base.Text.{codes, same_codes}
use secure_io_t_device_platf.Table.{select}
use secure_io_t_device_platf.Env.{response}
use secure_io_t_device_platf.Simulation.Numbers.{
  next_numbers, idle_numbers, fill, holds, largest, add,
}
use secure_io_t_device_platf.Simulation.Allocation.{Picked, next_numbers-Picked}
use secure_io_t_device_platf.Simulation.Manager.{
  Manager, start_fleet, start_each, family_name, as7341, existing_numbers, running_numbers,
  family_prefix, match_number, four_digits,
}
use secure_io_t_device_platf.Simulation.Ids.{runs, start_fleet-idle}
use secure_io_t_device_platf.Manufacturing.Products.{allowed_profile, as7341 as product}
use secure_io_t_device_platf.Manufacturing.Agent as Station
use secure_io_t_device_platf.Manufacturing.Agent.{
  Agent, Job, Ending, programming, start_program_job, new_job, run_program_job, OutputLine,
  timed_out, success,
}
use secure_io_t_device_platf.Manufacturing.Station.{
  StationEvent, requests, outputs, ends, station_run, SaneAgent, station_run-Sane,
}
use secure_io_t_device_platf.Manufacturing.Ending.{Over, started_job-Fate}

-- The numbers 2 and 5 have directories, and 5 runs.
next_numbers-Picked_example : Picked (2 ∷ 5 ∷ []) (5 ∷ []) 3 (next_numbers (2 ∷ 5 ∷ []) (5 ∷ []) 3)
next_numbers-Picked_example = next_numbers-Picked (2 ∷ 5 ∷ []) (5 ∷ []) 3 (ground arith)

abbrev manager : Manager
manager = record {
  state_root = record { name = "AS7341-SIM-0002"; is_dir = true } ∷ [];
  instances = record { device_id = "AS7341-SIM-0002"; family = "AS7341"; running = true } ∷ [];
  enabled = true;
}

start_fleet-idle_example :
    (started : List String) × (start_fleet "password" as7341 2 manager ≡ (
      response (record { started = started; family = "AS7341" }),
      start_each "AS7341" started manager,
    ))
    × (length started ≡ 2)
    × All (λ id. runs manager.instances id ≡ false) started
unfolding family_name family_prefix next_numbers idle_numbers fill holds largest existing_numbers
    running_numbers match_number four_digits add select
start_fleet-idle_example =
    start_fleet-idle "password" as7341 2 manager refl refl (omega arith, (omega arith, tt))

abbrev free : Agent
free = record { locked = false; job = none }

abbrev printed : OutputLine
printed = record { text = codes "Compiling .pio/build"; now = 7; is_late = false }

abbrev station_events : List StationEvent
station_events =
    requests ("COM3" ∷ []) "a1" "as7341" "COM3" false none 5
    ∷ outputs printed.text 7
    ∷ requests ("COM3" ∷ []) "b2" "as7341" "COM3" true none 8
    ∷ ends (Station.exits 0) 9
    ∷ []

station_run-Sane_example : SaneAgent (station_run station_events free)
station_run-Sane_example = station_run-Sane station_events free refl

abbrev first_job : Job
first_job = new_job "a1" product "COM3" false none 5

started_job-Fate_example : Over "a1" success (
    run_program_job "a1" product
      (printed ∷ [])
      false
      (Station.exits 0)
      5
      9
      (record { locked = true; job = some first_job }))
unfolding start_program_job new_job allowed_profile same_codes timed_out
started_job-Fate_example =
    started_job-Fate ("COM3" ∷ []) "a1" "as7341" "COM3" false none (printed ∷ []) false
      (Station.exits 0) 5 9 free (record { locked = true; job = some first_job }) first_job refl
