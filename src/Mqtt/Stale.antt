-- ===== src/Mqtt/Stale.antt =====
-- server/app/mqtt_service.py: one round of `_mark_stale_devices`.
use secure_io_t_device_platf.Base.{
  ℕ, ◌-◌, ◌*◌, ◌/◌, max, min, Bool, true, false, ◌&&◌, Option, none, some, map, ltb, if◌then◌else◌,
}
use secure_io_t_device_platf.Env.{Settings}
use secure_io_t_device_platf.Models.{Server, Device}

-- Seconds between two rounds.
unfoldable pub interval : Settings → ℕ
interval settings = max 5 (min 30 (settings.online_timeout_seconds / 3))

-- utcnow() - timedelta(seconds=online_timeout_seconds); a time before 1970 does not occur
unfoldable pub stale_cutoff : Settings → ℕ → ℕ
stale_cutoff settings now = now - settings.online_timeout_seconds * 1000000

unfoldable pub is_stale : ℕ → Option ℕ → Bool
is_stale cutoff none = true
is_stale cutoff (some last_seen) = ltb last_seen cutoff

unfoldable pub mark_stale : ℕ → Device → Device
mark_stale cutoff d =
    if d.online && is_stale cutoff d.last_seen then record d { online = false } else d

unfoldable pub mark_stale_devices : Settings → ℕ → Server → Server
mark_stale_devices settings now s = record s {
  devices = map (mark_stale (stale_cutoff settings now)) s.devices;
}
