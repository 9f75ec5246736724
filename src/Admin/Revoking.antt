-- ===== src/Admin/Revoking.antt =====
-- What an administrator's revocation achieves.
use secure_io_t_device_platf.Base.{
  ℕ, String, ◌≡◌, refl, ◌∙◌, arith, true, false, ◌&&◌, some, List, ◌∷◌, inl, inr, Option-cases, ap,
  sym, if◌then◌else◌,
}
use secure_io_t_device_platf.Table
use secure_io_t_device_platf.Env.{Context, Try, ok, security_error, crash, response}
use secure_io_t_device_platf.Models.{
  Server, Device, RevokedCertificate, CrlEntry, device_key, revoked_key, find_device, find_revoked,
  present, revoked,
}
use secure_io_t_device_platf.Pki.Serial.{parse_hex}
use secure_io_t_device_platf.Registry.{
  revoke_current_certificate, commit_revocation, revoked_device,
}
use secure_io_t_device_platf.Registry.Frame.{revoke-Keeps}
use secure_io_t_device_platf.Registry.Revocation.{
  is_listed, commit_revocation-is_listed, devices-revoke, revoked-revoke,
}
use secure_io_t_device_platf.Registry.Crl.{lists, ListedIn, rebuild_crl_complete}
use secure_io_t_device_platf.Mqtt.Publish.{evict_device}
use secure_io_t_device_platf.Admin.{revoke_device, revoke_response}

-- The state after a revocation that answered with success.
pub record Revoked (c : Context) (id : String) (s t : Server) : Type 0 where
  pub device : Device
  pub serial : String
  pub row : RevokedCertificate
  pub entries : List CrlEntry
  pub number : ℕ
  pub held : present device.certificate_serial ≡ some serial
  pub found : find_device s id ≡ some device
  pub row_after : Device
  pub found_after : find_device t id ≡ some row_after
  pub status : row_after.lifecycle_status ≡ revoked
  pub offline : row_after.online ≡ false
  pub time : row_after.revoked_at ≡ some c.later
  pub same_serial : row_after.certificate_serial ≡ device.certificate_serial
  pub recorded : find_revoked t serial ≡ some row
  pub published : t.crl ≡ some entries
  pub numeral : parse_hex serial ≡ some number
  pub in_list : lists number entries ≡ true
  pub evicted :
      t.restarts
      ≡ (if c.settings.mqtt_enabled && c.disk.restart_writable then id ∷ s.restarts else s.restarts)

revoke_response-ok :
    (c : Context) (id : String) (r : Try (Unit {0}) × Server) (t : Server)
    → revoke_response c id r ≡ (response tt, t)
    → (r.0 ≡ ok tt) × (t ≡ evict_device c id r.1)
unfolding revoke_response
revoke_response-ok c id (ok u, s) t h = (refl, ground arith)
revoke_response-ok c id (security_error e, s) t h = absurd (ground arith)
revoke_response-ok c id (crash, s) t h = absurd (ground arith)

is_listed-row :
    (rows : List RevokedCertificate) (serial : String)
    → is_listed rows (some serial) ≡ true
    → (r : RevokedCertificate) × (Table.find revoked_key serial rows ≡ some r)
is_listed-row rows serial h = ground arith

evict_fields :
    (c : Context) (id : String) (s t : Server)
    → t ≡ evict_device c id s
    → (t.devices ≡ s.devices)
      × (t.revoked_certificates ≡ s.revoked_certificates)
      × (t.crl ≡ s.crl)
      × (t.restarts ≡ (
          if c.settings.mqtt_enabled && c.disk.restart_writable
          then id ∷ s.restarts
          else s.restarts))
unfolding evict_device
evict_fields c id s t e = ground arith

module _ (c : Context) (id : String) (s t : Server) where
  revoke_response-Revoked :
      (d : Device) (serial : String)
      → find_device s id ≡ some d
      → present d.certificate_serial ≡ some serial
      → revoke_response c id (revoke_current_certificate c s d "key_compromise") ≡ (response tt, t)
      → Revoked c id s t
  unfolding revoke_current_certificate
  revoke_response-Revoked d serial found held h =
      let r = revoke_current_certificate c s d "key_compromise" in
      let (done, last) = revoke_response-ok c id r t h in
      let (same_devices, same_revoked, same_crl, restarts) = evict_fields c id r.1 t last in
      let (entries, crl, long, listed) =
        rebuild_crl_complete c (commit_revocation c s d "key_compromise") r.1
          (λ i. (done i, r.1)) in
      let listed_row : is_listed (commit_revocation c s d "key_compromise").revoked_certificates
            (some serial)
          ≡ true =
        rw held at (commit_revocation-is_listed c s d "key_compromise" (rw held)) in
      let (row, row_found) =
        is_listed-row (commit_revocation c s d "key_compromise").revoked_certificates serial
          listed_row in
      let (number, numeral, in_list) =
        Table.All-find revoked_key (ListedIn entries) serial
          (commit_revocation c s d "key_compromise").revoked_certificates row listed row_found in
      record {
        device = d;
        serial = serial;
        row = row;
        entries = entries;
        number = number;
        held = held;
        found = found;
        row_after = revoked_device d c.later;
        status = unfold revoked_device in refl;
        offline = unfold revoked_device in refl;
        time = unfold revoked_device in refl;
        same_serial = unfold revoked_device in refl;
        found_after =
            rw
              (
                same_devices,
                devices-revoke c s d "key_compromise",
                ← Table.find_key device_key id s.devices d found,
              )
              (unfold revoked_device in
                Table.find-save_self device_key (revoked_device d c.later) s.devices);
        recorded = rw (same_revoked, revoked-revoke c s d "key_compromise") row_found;
        published = same_crl ∙ crl;
        numeral =
            ap parse_hex (
              sym (
                Table.find_key revoked_key serial
                  (commit_revocation c s d "key_compromise").revoked_certificates row row_found))
            ∙ numeral;
        in_list = in_list;
        evicted = rw ((revoke-Keeps c s d "key_compromise").restarts) at restarts;
      }

  -- A revocation that answers with success leaves the device with the status revoked, offline, with the
  -- time of its revocation and the serial that it had, this serial in the table of revoked certificates and
  -- its number in the CRL file. One more request to restart the broker is there exactly where the MQTT
  -- client is enabled and the request can be written; the answer does not tell.
  pub revoke_device-response : revoke_device c id s ≡ (response tt, t) → Revoked c id s t
  unfolding revoke_device
  revoke_device-response h = elim (Option-cases (find_device s id)) [
    | inl e ↦ absurd (ground arith)
    | inr (d, e) ↦ elim (Option-cases (present d.certificate_serial)) [
      | inl e' ↦ absurd (ground arith)
      | inr (serial, e') ↦ revoke_response-Revoked d serial e e' (rw (e, e', revoke_device) at h)
    ]
  ]
