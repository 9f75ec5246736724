-- ===== src/Registry/Registering.antt =====
-- What a registration leaves behind.
use secure_io_t_device_platf.Base.{
  ℕ, String, ◌≡◌, ◌∙◌, arith, Bool, true, false, some, none, List, Option, Option-cases, inl, inr,
  ltb, ap, sym, ◌==◌,
}
use secure_io_t_device_platf.Base.Text.{codes}
use secure_io_t_device_platf.Table
use secure_io_t_device_platf.Env.{Context, Crypto, ok, Try-cases}
use secure_io_t_device_platf.Models.{
  Server, Device, Deployment, device_key, find_device, save_device, pending,
}
use secure_io_t_device_platf.Security.{
  validate_device_id, from_master_key, encrypt, decrypt, all_codes,
}
use secure_io_t_device_platf.Registry.{
  Registration, registered, register_device, register_checked, insert_device, new_device,
  parse_deployment,
}

-- What Fernet promises of a plaintext: the token is ASCII text, and decrypts to the plaintext under the
-- key that sealed it.
pub record IsFernet (crypto : Crypto) (plaintext : String) : Type 0 where
  pub ascii :
      (box : List ℕ)
      → all_codes (λ x. ltb x 128) (codes (crypto.fernet_encrypt box plaintext)) ≡ true
  pub decrypts :
      (box : List ℕ)
      → crypto.fernet_decrypt box (codes (crypto.fernet_encrypt box plaintext)) ≡ some plaintext

pub decrypt-encrypt :
    (crypto : Crypto) (box : List ℕ) (plaintext : String)
    → IsFernet crypto plaintext
    → decrypt crypto box (encrypt crypto box plaintext) ≡ ok plaintext
unfolding decrypt encrypt
decrypt-encrypt crypto box plaintext k = rw (k.ascii box, k.decrypts box)

-- The state after a registration that succeeded.
pub record Enlisted (c : Context) (given secret : String) (s t : Server) (d : Device) : Type 0 where
  pub valid : validate_device_id given ≡ ok d.device_id
  pub fresh : find_device s d.device_id ≡ none
  pub stored : find_device t d.device_id ≡ some d
  pub others : (j : String) → (d.device_id == j) ≡ false → find_device t j ≡ find_device s j
  pub is_pending : d.lifecycle_status ≡ pending
  pub is_enabled : d.enabled ≡ true
  pub no_certificate : d.certificate_serial ≡ none
  pub box : List ℕ
  pub unsealed : from_master_key c.crypto c.settings.bootstrap_master_key ≡ ok box
  pub opens : decrypt c.crypto box d.bootstrap_secret_encrypted ≡ ok secret

abbrev pub is_registered : Registration → Bool
is_registered (registered d secret) = true
is_registered _ = false

module _ (c : Context) (seen s : Server) (id family : String) (name : Option String) (kind : String)
    (allow : Bool) (secret : String) where
  -- A registration that does not succeed changes nothing, also one that loses a race for its id.
  pub register_device_refused :
      is_registered (register_device c seen s id family name kind allow secret).0 ≡ false
      → (register_device c seen s id family name kind allow secret).1 ≡ s
  unfolding register_device register_checked insert_device
  register_device_refused h = ground arith

  pub registered-fields :
      (d : Device) (returned : String) (t : Server)
      → register_device c seen s id family name kind allow secret ≡ (registered d returned, t)
      → (id' : String) × (kind' : Deployment) × (box : List ℕ) × (validate_device_id id ≡ ok id')
        × (from_master_key c.crypto c.settings.bootstrap_master_key ≡ ok box)
        × (find_device s id' ≡ none)
        × (d ≡ new_device id' family name kind' (encrypt c.crypto box secret) allow c.now)
        × (returned ≡ secret)
        × (t ≡ save_device d s)
  unfolding register_device register_checked insert_device new_device
  registered-fields d returned t h = elim (Try-cases (validate_device_id id)) [
    | inr (inl (x, e)) ↦ absurd (ground arith)
    | inr (inr e) ↦ absurd (ground arith)
    | inl (id', e) ↦ elim (Option-cases (parse_deployment kind)) [
      | inl e1 ↦ absurd (ground arith)
      | inr (kind', e1) ↦
          elim (Try-cases (from_master_key c.crypto c.settings.bootstrap_master_key)) [
            | inr (inl (x, e2)) ↦ absurd (ground arith)
            | inr (inr e2) ↦ absurd (ground arith)
            | inl (box, e2) ↦
                (id', kind', box, e, e2, ground arith, ground arith, ground arith, ground arith)
          ]
    ]
  ]

  -- A registration that succeeds stores, under the validated id, which was free, a pending and enabled
  -- device without a certificate, whose sealed secret opens to the secret that is returned. The other
  -- devices keep their rows. Fernet is taken to open, under its key,
  -- the token that it made of the secret.
  pub register_device-Enlisted :
      (d : Device) (returned : String) (t : Server)
      → IsFernet c.crypto secret
      → register_device c seen s id family name kind allow secret ≡ (registered d returned, t)
      → Enlisted c id returned s t d
  unfolding new_device save_device
  register_device-Enlisted d returned t k h =
      let (id', kind', box, valid, unsealed, fresh, row, same, written) =
        registered-fields d returned t h in
      record {
        valid = rw row valid;
        fresh = rw row fresh;
        stored = rw written (Table.find-save_self device_key d s.devices);
        others = λ j ne. rw written (rw (Table.find-save device_key d j s.devices, ne));
        is_pending = ap (λ r. r.lifecycle_status) row;
        is_enabled = ap (λ r. r.enabled) row;
        no_certificate = ap (λ r. r.certificate_serial) row;
        box = box;
        unsealed = unsealed;
        opens =
            ap (λ r. decrypt c.crypto box r.bootstrap_secret_encrypted) row
            ∙ decrypt-encrypt c.crypto box secret k
            ∙ ap ok (sym same);
      }
