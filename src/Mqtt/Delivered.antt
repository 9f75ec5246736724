-- ===== src/Mqtt/Delivered.antt =====
-- What `publish_command` records, on every branch.
use secure_io_t_device_platf.Base.{
  ℕ, String, ◌≡◌, refl, ◌∙◌, arith, Bool, true, false, none, some, ◌⊎◌, ◌&&◌, eqb, ◌==◌, eq_refl,
  if◌then◌else◌,
}
use secure_io_t_device_platf.Table
use secure_io_t_device_platf.Json.{Json, JsonLib}
use secure_io_t_device_platf.Models.{
  Server, Device, Command, command_key, find_device, find_command, save_command,
}
use secure_io_t_device_platf.Mqtt.Topic.{device_topic}
use secure_io_t_device_platf.Mqtt.Publish.{
  Client, Delivery, Published, published, publish_command, send_pending, command_payload,
  new_command, mark_sent,
}

abbrev pub is_published : Published → Bool
is_published (published command topic payload) = true
is_published _ = false

-- Connected, accepted by the client with return code 0, and acknowledged.
abbrev pub delivered : Client → Delivery → Bool
delivered client delivery = client.connected && eqb delivery.rc 0 && delivery.acknowledged

abbrev pub final_status : Client → Delivery → String
final_status client delivery =
    if delivered client delivery
    then "sent"
    else if client.connected
    then "publish-error"
    else "broker-unavailable"

-- The row that `publish_command` leaves behind.
abbrev final_row : Client → Delivery → ℕ → Command → Command
final_row client delivery sent command =
    if delivered client delivery
    then mark_sent command sent
    else record command { status = final_status client delivery }

send_pending_row :
    (client : Client) (delivery : Delivery) (command : Command) (topic : String) (payload : Json)
    (sent : ℕ) (s : Server)
    → ((send_pending client delivery command topic payload sent s).1
        ≡ save_command (final_row client delivery sent command) s)
      × (is_published (send_pending client delivery command topic payload sent s).0
          ≡ delivered client delivery)
unfolding send_pending
send_pending_row client delivery command topic payload sent s = ground arith

module _ (lib : JsonLib) (client : Client) (delivery : Delivery)
    (command_id device_id name : String) (parameters : Json) (issued_at sent : ℕ) (s : Server) where
  pending_command : Command
  pending_command = new_command lib command_id device_id name parameters issued_at

  last_row : Command
  last_row = final_row client delivery sent pending_command

  last_row_fields :
      (last_row.command_id ≡ command_id)
      × (last_row.device_id ≡ device_id)
      × (last_row.status ≡ final_status client delivery)
      × (last_row.sent_at ≡ (if delivered client delivery then some sent else none))
  unfolding last_row pending_command new_command
  last_row_fields = ground arith

  pending_id : pending_command.command_id ≡ command_id
  unfolding pending_command new_command
  pending_id = refl

  stored_last :
      (k : String)
      → find_command (save_command last_row (save_command pending_command s)) k
        ≡ (if command_id == k then some last_row else find_command s k)
  unfolding save_command
  stored_last k = ground (
    arith,
    last_row_fields.0,
    Table.find-save command_key last_row k (Table.save command_key pending_command s.commands),
    Table.find-save command_key pending_command k s.commands,
    pending_id,
  )

  -- With a client object, a registered device and a fresh command id, the call leaves one row for the
  -- command: its status is "sent", with the time, exactly when the client is connected, the publish is
  -- accepted and the wait for it does not raise, and the call returns the command in that case only;
  -- otherwise the row says "publish-error" or "broker-unavailable", without a time. No other command
  -- changes.
  pub publish_command_recorded :
      (d : Device)
      → client.available ≡ true
      → find_device s device_id ≡ some d
      → find_command s command_id ≡ none
      → let result =
          publish_command lib client delivery command_id device_id name parameters issued_at sent
            s in
        (row : Command) × (find_command result.1 command_id ≡ some row)
        × (row.device_id ≡ device_id)
        × (row.status ≡ final_status client delivery)
        × (row.sent_at ≡ (if delivered client delivery then some sent else none))
        × (is_published result.0 ≡ delivered client delivery)
        × ((k : String) → (command_id == k) ≡ false → find_command result.1 k ≡ find_command s k)
  unfolding publish_command pending_command last_row
  publish_command_recorded d available known fresh =
      let (stored, answer) =
        send_pending_row client delivery pending_command (device_topic device_id "command")
          (command_payload lib command_id name parameters issued_at) sent
          (save_command pending_command s) in
      let (id_kept, device_kept, status_kept, sent_kept) = last_row_fields in
      (
        last_row,
        rw (available, known, fresh, publish_command, stored)
            (stored_last command_id ∙ rw (eq_refl command_id)),
        device_kept,
        status_kept,
        sent_kept,
        rw (available, known, fresh, publish_command) answer,
        λ k ne. rw (available, known, fresh, publish_command, stored) (stored_last k ∙ rw ne),
      )

  -- Without a client object, for an unknown device or under a command id that is taken, the call fails
  -- and writes nothing.
  pub publish_command_refused :
      ((client.available ≡ false)
        ⊎ (find_device s device_id ≡ none)
        ⊎ ((other : Command) × (find_command s command_id ≡ some other)))
      → let result =
          publish_command lib client delivery command_id device_id name parameters issued_at sent
            s in
        (result.1 ≡ s) × (is_published result.0 ≡ false)
  unfolding publish_command
  publish_command_refused h = ground arith
