-- ===== src/Examples/Registrations.antt =====
-- Tests: registration, revocation, and the texts that identify a device.
use secure_io_t_device_platf.Base.{
  ◌≡◌, ◌↔◌, refl, String, true, false, some, none, List, [], ◌∷◌, length, All,
}
use secure_io_t_device_platf.Base.Text.{
  codes, strip, lstrip, rstrip, is_space, lower, lower_code, same_codes,
}
use secure_io_t_device_platf.Table.{find, save}
use secure_io_t_device_platf.Env.{Context, ok}
use secure_io_t_device_platf.Models.{
  Server, Device, RevokedCertificate, CrlEntry, physical, provisioned, save_device, save_revoked,
}
use secure_io_t_device_platf.Security.{
  validate_device_id, matches_device_id, is_id_char, all_codes, encode_ascii, from_master_key,
  encrypt, canonical_proof_message, verify_proof_hex, lines,
}
use secure_io_t_device_platf.Security.Proofs.{Accepted, verify_proof_hex-eq-true}
use secure_io_t_device_platf.Security.Messages.{canonical_proof_message-injective}
use secure_io_t_device_platf.Pki.{load_ca, rebuild_crl, crl_entries}
use secure_io_t_device_platf.Pki.Serial.{format_hex, parse_hex, parse_hex-format_hex}
use secure_io_t_device_platf.Registry.{
  register_device, register_checked, insert_device, new_device, parse_deployment, family_or_generic,
  stripped_name, rebuild_crl_from_db, order_by_time, insert_by_time, record_revocation,
  revoked_device, commit_revocation, revoke_current_certificate,
}
use secure_io_t_device_platf.Registry.Crl.{ListedIn, rebuild_crl_complete}
use secure_io_t_device_platf.Registry.Registering.{IsFernet, Enlisted, register_device-Enlisted}
use secure_io_t_device_platf.Mqtt.Publish.{evict_device}
use secure_io_t_device_platf.Admin.{revoke_device, revoke_response}
use secure_io_t_device_platf.Admin.Revoking.{Revoked, revoke_device-response}
use secure_io_t_device_platf.Examples.{context, crypto, digits, secret, sensor, server}

-- A Fernet that works for one secret.
abbrev unsealing : Context
unsealing = record context {
  crypto = record crypto {
    fernet_encrypt = λ box plaintext. "token";
    fernet_decrypt = λ box token. some secret;
  };
}

unsealing-IsFernet : IsFernet unsealing.crypto secret
unfolding all_codes
unsealing-IsFernet = record { ascii = λ box. refl; decrypts = λ box. refl }

abbrev pump : Device
pump = new_device "pump" "" none physical (encrypt unsealing.crypto (codes "key") secret) false 100

register_device-Enlisted_example :
    Enlisted unsealing "pump" secret server (save_device pump server) pump
unfolding register_device register_checked insert_device parse_deployment matches_device_id
    is_id_char all_codes validate_device_id strip lstrip rstrip is_space lower_code same_codes find
    save save_device from_master_key encode_ascii new_device family_or_generic stripped_name
register_device-Enlisted_example =
    register_device-Enlisted unsealing server server "pump" "" none "physical" false secret pump
      secret (save_device pump server) unsealing-IsFernet refl

abbrev issued_sensor : Device
issued_sensor = record sensor {
  lifecycle_status = provisioned;
  certificate_serial = some "2A";
  certificate_pem = some "sensor";
}

abbrev provisioned_server : Server
provisioned_server = record server { devices = issued_sensor ∷ [] }

abbrev revoking_server : Server
revoking_server = (revoke_device context "sensor" provisioned_server).1

revoke_device-response_example : Revoked context "sensor" provisioned_server revoking_server
unfolding revoke_device revoke_response revoke_current_certificate commit_revocation revoked_device
    rebuild_crl_from_db rebuild_crl crl_entries parse_hex order_by_time insert_by_time evict_device
    save_revoked save_device find save record_revocation load_ca same_codes
revoke_device-response_example =
    revoke_device-response context "sensor" provisioned_server revoking_server refl

abbrev old : RevokedCertificate
old = record { serial_hex = "2A"; device_id = "sensor"; revoked_at = 60; reason = "superseded" }

abbrev older : RevokedCertificate
older = record { serial_hex = "FF"; device_id = "pump"; revoked_at = 50; reason = "other" }

abbrev listing : Server
listing = record server { revoked_certificates = old ∷ older ∷ [] }

abbrev listed : Server
listed = (rebuild_crl_from_db context listing).1

rebuild_crl_complete_example :
    (entries : List CrlEntry) × (listed.crl ≡ some entries)
    × (length entries ≡ 2)
    × All (ListedIn entries) (old ∷ older ∷ [])
unfolding rebuild_crl_from_db rebuild_crl crl_entries parse_hex order_by_time insert_by_time load_ca
    same_codes
rebuild_crl_complete_example = rebuild_crl_complete context listing listed refl

verify_proof_hex-eq-true_example :
    (verify_proof_hex crypto digits secret "sensor" "first" "nonce" digits ≡ ok true)
    ↔ Accepted crypto digits secret "sensor" "first" "nonce" digits
verify_proof_hex-eq-true_example =
    verify_proof_hex-eq-true crypto digits secret "sensor" "first" "nonce" digits

abbrev sensor_id : String
sensor_id = "sensor"

abbrev first_id : String
first_id = "first"

abbrev nonce : String
nonce = "nonce"

canonical_proof_message-injective_example :
    (sensor_id ≡ sensor_id) × (first_id ≡ first_id) × (nonce ≡ nonce) × (lower "AB" ≡ lower "ab")
unfolding all_codes canonical_proof_message lower_code lines
canonical_proof_message-injective_example =
    canonical_proof_message-injective sensor_id sensor_id first_id first_id nonce nonce "AB" "ab"
      refl refl refl refl refl refl refl refl refl

parse_hex-format_hex_example : parse_hex (format_hex 1000) ≡ some 1000
parse_hex-format_hex_example = parse_hex-format_hex 1000
