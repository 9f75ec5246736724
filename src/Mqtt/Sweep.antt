-- ===== src/Mqtt/Sweep.antt =====
-- One round of the stale monitor.
use mathlib.Core.Option
use mathlib.Core.Path.{fun_ext}
use secure_io_t_device_platf.Base.{ℕ, ◌≤◌, String, ◌≡◌, refl, arith, ◌&&◌, not}
use secure_io_t_device_platf.Table
use secure_io_t_device_platf.Env.{Settings}
use secure_io_t_device_platf.Models.{Server, Device, device_key, find_device}
use secure_io_t_device_platf.Mqtt.Stale.{
  interval, is_stale, mark_stale, mark_stale_devices, stale_cutoff,
}

-- A device is online after the round only if it was before and has been seen at the cutoff or later.
abbrev pub swept : ℕ → Device → Device
swept cutoff d = record d { online = d.online && not (is_stale cutoff d.last_seen) }

mark_stale-swept : (cutoff : ℕ) (d : Device) → mark_stale cutoff d ≡ swept cutoff d
unfolding mark_stale
mark_stale-swept cutoff d = ground arith

-- A round changes nothing but the `online` column, on every device: afterwards a device is online
-- exactly if it was online before and has been seen at the cutoff or later.
pub find_device-mark_stale_devices :
    (settings : Settings) (now : ℕ) (s : Server) (id : String)
    → find_device (mark_stale_devices settings now s) id
      ≡ Option.map (swept (stale_cutoff settings now)) (find_device s id)
unfolding mark_stale_devices
find_device-mark_stale_devices settings now s id =
    rw (fun_ext (mark_stale-swept (stale_cutoff settings now)))
      (Table.find-map device_key (swept (stale_cutoff settings now)) (λ d. refl) id s.devices)

-- The monitor waits 5 to 30 seconds between two rounds, whatever the timeout.
pub interval_bounds : (settings : Settings) → (5 ≤ interval settings) × (interval settings ≤ 30)
unfolding interval
interval_bounds settings = omega arith
