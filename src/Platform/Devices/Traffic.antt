-- ===== src/Platform/Devices/Traffic.antt =====
-- Messages, commands, timer rounds and switches keep every device row consistent.
use secure_io_t_device_platf.Base.{
  ℕ, String, ◌≡◌, refl, arith, Bool, false, some, List, inl, inr, Option-cases, Bool-cases, All-map,
  not, ◌&&◌, ◌||◌,
}
use secure_io_t_device_platf.Table
use secure_io_t_device_platf.Env.{Context, Settings}
use secure_io_t_device_platf.Json.{Json, JsonLib}
use secure_io_t_device_platf.Models.{
  Server, Device, RevokedCertificate, device_key, save_device, save_command, add_event, find_device,
  is_revoked, MqttEvent,
}
use secure_io_t_device_platf.Mqtt.{
  on_message, store_event, store_for, accepted, event_of, complete_command, payload_object, routed,
}
use secure_io_t_device_platf.Mqtt.Topic.{split}
use secure_io_t_device_platf.Mqtt.Accepted.{SameCredentials, accepted-SameCredentials}
use secure_io_t_device_platf.Mqtt.Frame.{complete-OnlyCommands}
use secure_io_t_device_platf.Mqtt.Stale.{is_stale, mark_stale, mark_stale_devices, stale_cutoff}
use secure_io_t_device_platf.Mqtt.Publish.{Client, Delivery, publish_command, send_pending}
use secure_io_t_device_platf.Provisioning.Effect.{SameRegistry}
use secure_io_t_device_platf.Admin.{send_command, set_enabled}
use secure_io_t_device_platf.Admin.Frame.{send_response-snd}
use secure_io_t_device_platf.Platform.Devices.{Sound, Consistent, write-Consistent, same-Consistent}

credentials-Sound :
    (rows : List RevokedCertificate) (d d' : Device)
    → SameCredentials d d'
    → is_revoked d.lifecycle_status ≡ false
    → Sound rows d
    → Sound rows d'
credentials-Sound rows d d' e n h = ground arith

offline-Sound :
    (rows : List RevokedCertificate) (d : Device)
    → Sound rows d
    → Sound rows (record d { online = false })
offline-Sound rows d h = ground arith

enabled-Sound :
    (rows : List RevokedCertificate) (d : Device) (enabled : Bool)
    → Sound rows d
    → Sound rows (record d { enabled = enabled })
enabled-Sound rows d enabled h = ground arith

found-Sound :
    (s : Server) (id : String) (d : Device)
    → Consistent s
    → find_device s id ≡ some d
    → Sound s.revoked_certificates d
found-Sound s id d h e = Table.All-find device_key (Sound s.revoked_certificates) id s.devices d h e

module _ (lib : JsonLib) where
  answer-SameRegistry :
      (id kind : String) (payload : Json) (payload_text : String) (now : ℕ) (s : Server)
      → SameRegistry s (complete_command lib id kind payload payload_text now s)
  answer-SameRegistry id kind payload payload_text now s =
      ground (arith, complete-OnlyCommands lib id kind payload payload_text now s)

  store_for-Consistent :
      (d : Device) (id kind topic payload_text : String) (payload : Json) (now : ℕ) (s : Server)
      → Sound s.revoked_certificates d
      → Consistent s
      → Consistent (store_for lib d id kind topic payload_text payload now s)
  unfolding store_for
  store_for-Consistent d id kind topic payload_text payload now s k h =
      elim (Bool-cases (is_revoked d.lifecycle_status || not d.enabled)) [
        | inl e ↦ rw e (
            unfold save_device add_event in
            write-Consistent s (add_event event (save_device (record d { online = false }) s))
              (record d { online = false }) h refl (λ serial l. l)
              (offline-Sound s.revoked_certificates d k))
        | inr e ↦ rw e (
            same-Consistent (answer-SameRegistry id kind payload payload_text now stored) (
              unfold save_device add_event in
              write-Consistent s stored (accepted lib kind payload now d) h refl (λ serial l. l)
                (credentials-Sound s.revoked_certificates d (accepted lib kind payload now d)
                  (accepted-SameCredentials lib kind payload now d) (ground arith) k)))
      ]
    where
      event : MqttEvent
      event = event_of id kind topic payload_text now

      stored : Server
      stored = add_event event (save_device (accepted lib kind payload now d) s)

  pub on_message-Consistent :
      (topic payload_text : String) (now : ℕ) (s : Server)
      → Consistent s
      → Consistent (on_message lib topic payload_text now s)
  unfolding on_message store_event
  on_message-Consistent topic payload_text now s h = elim (Option-cases (routed (split topic))) [
    | inl e ↦ rw (e, on_message) h
    | inr ((id, kind), e) ↦ elim (Option-cases (find_device s id)) [
      | inl e' ↦ rw (e, e', on_message, store_event) h
      | inr (d, e') ↦
          rw (e, e', on_message, store_event)
            (store_for-Consistent d id kind topic payload_text (payload_object lib payload_text) now
              s (found-Sound s id d h e') h)
    ]
  ]

  pub send_command-SameRegistry :
      (c : Context) (client : Client) (delivery : Delivery) (command_id id command : String)
      (parameters : Json) (s : Server)
      → SameRegistry s (send_command lib c client delivery command_id id command parameters s).1
  unfolding send_command publish_command send_pending save_command
  send_command-SameRegistry c client delivery command_id id command parameters s =
      grind (arith, send_response-snd)

  pub send_command-Consistent :
      (c : Context) (client : Client) (delivery : Delivery) (command_id id command : String)
      (parameters : Json) (s : Server)
      → Consistent s
      → Consistent (send_command lib c client delivery command_id id command parameters s).1
  send_command-Consistent c client delivery command_id id command parameters s h =
      same-Consistent
        (send_command-SameRegistry c client delivery command_id id command parameters s) h

pub set_enabled-Consistent :
    (enabled : Bool) (id : String) (s : Server)
    → Consistent s
    → Consistent (set_enabled enabled id s).1
unfolding set_enabled
set_enabled-Consistent enabled id s h = elim (Option-cases (find_device s id)) [
  | inl e ↦ rw (e, set_enabled) h
  | inr (d, e) ↦
      rw (e, set_enabled)
        (unfold save_device in
          write-Consistent s (save_device (record d { enabled = enabled }) s)
            (record d { enabled = enabled }) h refl (λ serial l. l)
            (enabled-Sound s.revoked_certificates d enabled (found-Sound s id d h e)))
]

stale-Sound :
    (cutoff : ℕ) (rows : List RevokedCertificate) (d : Device)
    → Sound rows d
    → Sound rows (mark_stale cutoff d)
unfolding mark_stale
stale-Sound cutoff rows d h = elim (Bool-cases (d.online && is_stale cutoff d.last_seen)) [
  | inl e ↦ rw e (offline-Sound rows d h)
  | inr e ↦ rw e h
]

pub sweep-Consistent :
    (settings : Settings) (now : ℕ) (s : Server)
    → Consistent s
    → Consistent (mark_stale_devices settings now s)
unfolding mark_stale_devices
sweep-Consistent settings now s h =
    All-map (Sound s.revoked_certificates) (mark_stale (stale_cutoff settings now)) s.devices
      (stale-Sound (stale_cutoff settings now) s.revoked_certificates) h
