-- ===== src/Simulator/Able.antt =====
-- What a bootstrap of a simulated device needs to succeed.
use secure_io_t_device_platf.Base.{
  ℕ, ◌+◌, ◌*◌, ◌≤◌, ◌<◌, ◌≡◌, String, true, false, none, some, List, [], ◌∷◌,
}
use secure_io_t_device_platf.Base.Text.{codes, is_empty}
use secure_io_t_device_platf.Env.{Crypto, Csr, ok}
use secure_io_t_device_platf.Models.{Device, find_device, find_session, present}
use secure_io_t_device_platf.Security.{
  from_master_key, decrypt, decode_bootstrap_secret, is_hex_digest,
}
use secure_io_t_device_platf.Pki.{
  IssuedCertificate, load_and_validate_csr, issue_device_certificate, read_ca_pem,
}
use secure_io_t_device_platf.Provisioning.Challenge.{is_authorized, is_locked}
use secure_io_t_device_platf.Provisioning.Finish.{serial_in_use}
use secure_io_t_device_platf.Simulator.Client.{World, Args, Attempt}
use secure_io_t_device_platf.Simulator.Http.{ParsedCertificate, ClientLib, delivered}
use secure_io_t_device_platf.Simulator.Proofs.{SameHmac}

-- What documentation says of `hexdigest`: the server's HMAC as text, in hexadecimal digits.
pub record Digests (crypto : Crypto) (lib : ClientLib) : Type 0 where
  pub same : SameHmac crypto lib
  pub hex : (k m : List ℕ) → is_hex_digest (codes (lib.hexdigest k m)) ≡ true

-- The device is known to the server, which may enroll it, and nothing is lost on the way.
pub record Able (lib : ClientLib) (args : Args) (a : Attempt) (w : World) (d : Device)
    : Type 0 where
  pub delivered_challenge : a.challenge_link ≡ delivered
  pub delivered_enroll : a.enroll_link ≡ delivered
  pub all_written : 4 ≤ a.written
  pub found : find_device w.server args.device_id ≡ some d
  pub authorized : is_authorized d ≡ true
  pub unlocked : is_locked a.challenge_context.settings d ≡ false
  pub still_unlocked : is_locked a.enroll_context.settings d ≡ false
  pub fresh : find_session w.server a.session_id ≡ none
  pub alive :
      a.enroll_context.now
      < a.challenge_context.now + a.challenge_context.settings.challenge_ttl_seconds * 1000000
  pub csr : Csr
  pub parsed : load_and_validate_csr a.enroll_context.crypto a.csr_pem args.device_id ≡ ok csr
  pub encoded : csr.der ≡ a.csr_der
  pub first : present d.certificate_serial ≡ none
  pub certificate : IssuedCertificate
  pub issued :
      issue_device_certificate a.enroll_context.crypto a.enroll_context.settings
        a.enroll_context.disk csr d.device_id a.enroll_context.later a.serial
      ≡ ok certificate
  pub free : serial_in_use d.device_id certificate.serial_hex w.server.devices ≡ false
  pub ca_pem : String
  pub ca_read : read_ca_pem a.enroll_context.crypto a.enroll_context.disk ≡ ok ca_pem
  pub loaded : ParsedCertificate
  pub loads : lib.load_certificate certificate.pem ≡ some loaded
  pub certifies : loaded.public_bytes ≡ a.key
  pub names : loaded.common_names ≡ args.device_id ∷ []

-- The secret on the device is the one that the server has sealed.
pub record Shares (a : Attempt) (secret : String) (d : Device) : Type 0 where
  pub nonempty : is_empty secret ≡ false
  pub box : List ℕ
  pub unsealed :
      from_master_key a.enroll_context.crypto a.enroll_context.settings.bootstrap_master_key
      ≡ ok box
  pub opened : decrypt a.enroll_context.crypto box d.bootstrap_secret_encrypted ≡ ok secret
  pub bits : List ℕ
  pub decoded : decode_bootstrap_secret a.enroll_context.crypto secret ≡ ok bits
