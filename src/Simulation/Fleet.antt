-- ===== src/Simulation/Fleet.antt =====
-- The fleet over the life of its manager: nothing runs while the simulation is disabled.
use secure_io_t_device_platf.Base.{
  ℕ, ◌≡◌, refl, arith, String, false, List, [], ◌∷◌, map, All, ◌==◌, if◌then◌else◌,
}
use secure_io_t_device_platf.Simulation.Manager.{
  Manager, Instance, FleetFamily, stop_instance, stop_all_locked, purge_simulated_state,
  start_fleet, start_each, start_instance, enable_simulation, disable_simulation, reset_simulation,
  family_name, next_ids, family_prefix,
}

-- The requests to the manager, and a process that ends by itself.
pub data FleetEvent : Type 0 where
  starts : FleetFamily → ℕ → FleetEvent
  enables disables resets stops : FleetEvent
  exits : String → FleetEvent

abbrev pub exited : String → Instance → Instance
exited device_id item = if item.device_id == device_id then stop_instance item else item

-- Before the first request nothing runs, whatever the state directory holds.
abbrev pub idle_manager : Manager → Manager
idle_manager m = record m { instances = []; enabled = false }

module _ (admin_password : String) where
  unfoldable pub fleet_step : FleetEvent → Manager → Manager
  fleet_step (starts family count) m = (start_fleet admin_password family count m).1
  fleet_step enables m = (enable_simulation admin_password m).1
  fleet_step disables m = (disable_simulation m).1
  fleet_step resets m = (reset_simulation m).1
  fleet_step stops m = (stop_all_locked m).1
  fleet_step (exits device_id) m = record m { instances = map (exited device_id) m.instances }

  unfoldable pub fleet_run : List FleetEvent → Manager → Manager
  fleet_run [] m = m
  fleet_run (e ∷ es) m = fleet_run es (fleet_step e m)

abbrev pub Halted : List Instance → Type 0
Halted = All (λ i. i.running ≡ false)

abbrev pub Quiet : Manager → Type 0
Quiet m = m.enabled ≡ false → Halted m.instances

Halted-stop : (items : List Instance) → Halted (map stop_instance items)
unfolding stop_instance
Halted-stop [] = tt
Halted-stop (i ∷ items) = (refl, Halted-stop items)

Halted-exited :
    (id : String) (items : List Instance) → Halted items → Halted (map (exited id) items)
unfolding stop_instance
Halted-exited id [] h = tt
Halted-exited id (i ∷ items) h = (ground (arith, h.0), Halted-exited id items h.1)

enabled-start_each :
    (family : String) (ids : List String) (m : Manager)
    → (start_each family ids m).enabled ≡ m.enabled
unfolding start_each start_instance
enabled-start_each family [] m = refl
enabled-start_each family (id ∷ ids) m = enabled-start_each family ids (start_instance id family m)

module _ (admin_password : String) where
  start-Quiet :
      (family : FleetFamily) (count : ℕ) (m : Manager)
      → Quiet m
      → Quiet (start_fleet admin_password family count m).1
  unfolding start_fleet
  start-Quiet family count m h = ground (
    arith,
    h,
    enabled-start_each (family_name family) (next_ids (family_prefix family) count m) m,
  )

  fleet_step-Quiet :
      (e : FleetEvent) (m : Manager) → Quiet m → Quiet (fleet_step admin_password e m)
  unfolding fleet_step enable_simulation disable_simulation reset_simulation stop_all_locked
      purge_simulated_state
  fleet_step-Quiet (starts family count) m h = start-Quiet family count m h
  fleet_step-Quiet enables m h = ground (arith, h)
  fleet_step-Quiet disables m h = λ e. Halted-stop m.instances
  fleet_step-Quiet resets m h = λ e. tt
  fleet_step-Quiet stops m h = λ e. Halted-stop m.instances
  fleet_step-Quiet (exits id) m h = λ e. Halted-exited id m.instances (h e)

  -- Whatever is asked of the manager, and whichever processes end, no simulated device runs while the
  -- simulation is disabled.
  pub fleet_run-Quiet :
      (es : List FleetEvent) (m : Manager) → Quiet m → Quiet (fleet_run admin_password es m)
  unfolding fleet_run
  fleet_run-Quiet [] m h = h
  fleet_run-Quiet (e ∷ es) m h =
      fleet_run-Quiet es (fleet_step admin_password e m) (fleet_step-Quiet e m h)
