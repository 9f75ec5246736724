-- ===== src/Registry/Crl.antt =====
-- The certificate revocation list names every revoked certificate.
use mathlib.Core.Path.{subst}
use secure_io_t_device_platf.Base.{
  ℕ, suc, ◌≡◌, refl, ◌∙◌, arith, Bool, true, false, some, List, [], ◌∷◌, inl, inr, length,
  Option-cases, Bool-cases, All, ap, eqb, ◌||◌, leb, sym,
}
use secure_io_t_device_platf.Env.{Context, ok, Try-cases}
use secure_io_t_device_platf.Models.{Server, RevokedCertificate, CrlEntry}
use secure_io_t_device_platf.Pki.{crl_entries, rebuild_crl, reason_flag}
use secure_io_t_device_platf.Pki.Serial.{parse_hex}
use secure_io_t_device_platf.Registry.{insert_by_time, order_by_time, rebuild_crl_from_db}

-- The list holds an entry with the serial number.
unfoldable pub lists : ℕ → List CrlEntry → Bool
lists n [] = false
lists n (e ∷ es) = eqb e.serial_number n || lists n es

-- The serial of a row is a numeral, and the list holds its number.
abbrev pub ListedIn : List CrlEntry → RevokedCertificate → Type 0
ListedIn entries r = (n : ℕ) × (parse_hex r.serial_hex ≡ some n) × (lists n entries ≡ true)

ListedIn-cons :
    (e : CrlEntry) (es : List CrlEntry) (r : RevokedCertificate)
    → ListedIn es r
    → ListedIn (e ∷ es) r
unfolding lists
ListedIn-cons e es r (n, p, h) = (n, p, ground arith)

All-ListedIn-cons :
    (e : CrlEntry) (es : List CrlEntry) (rows : List RevokedCertificate)
    → All (ListedIn es) rows
    → All (ListedIn (e ∷ es)) rows
All-ListedIn-cons e es [] h = tt
All-ListedIn-cons e es (r ∷ rows) h = (ListedIn-cons e es r h.0, All-ListedIn-cons e es rows h.1)

crl_entries-All :
    (rows : List RevokedCertificate) (entries : List CrlEntry)
    → crl_entries rows ≡ ok entries
    → All (ListedIn entries) rows × (length entries ≡ length rows)
unfolding crl_entries lists
crl_entries-All [] entries h = (tt, ground arith)
crl_entries-All (r ∷ rows) entries h = elim (Option-cases (parse_hex r.serial_hex)) [
  | inl e ↦ absurd (ground arith)
  | inr (n, e) ↦ elim (Try-cases (crl_entries rows)) [
    | inl (rest, e') ↦
        let (below, long) = crl_entries-All rows rest e' in
        let entry : CrlEntry = record {
          serial_number = n;
          revocation_date = r.revoked_at;
          reason = reason_flag r.reason;
        } in
        let same : entries ≡ entry ∷ rest = ground arith in
        subst (λ es. All (ListedIn es) (r ∷ rows) × (length es ≡ length (r ∷ rows))) (sym same)
          (((n, e, ground arith), All-ListedIn-cons entry rest rows below), omega (arith, long))
    | inr (inl (x, e')) ↦ absurd (ground arith)
    | inr (inr e') ↦ absurd (ground arith)
  ]
]

All-insert_by_time :
    (P : RevokedCertificate → Type 0) (r : RevokedCertificate) (rows : List RevokedCertificate)
    → All P (insert_by_time r rows)
    → P r × All P rows
unfolding insert_by_time
All-insert_by_time P r [] h = h
All-insert_by_time P r (q ∷ rows) h = elim (Bool-cases (leb r.revoked_at q.revoked_at)) [
  | inl e ↦ rw e at h
  | inr e ↦ let h' = rw e at h in let (p, ps) = All-insert_by_time P r rows h'.1 in (p, (h'.0, ps))
]

All-order_by_time :
    (P : RevokedCertificate → Type 0) (rows : List RevokedCertificate)
    → All P (order_by_time rows)
    → All P rows
unfolding order_by_time
All-order_by_time P [] h = tt
All-order_by_time P (r ∷ rows) h =
    let (p, ps) = All-insert_by_time P r (order_by_time rows) h in (p, All-order_by_time P rows ps)

length-insert_by_time :
    (r : RevokedCertificate) (rows : List RevokedCertificate)
    → length (insert_by_time r rows) ≡ suc (length rows)
unfolding insert_by_time
length-insert_by_time r [] = refl
length-insert_by_time r (q ∷ rows) = ground (arith, length-insert_by_time r rows)

length-order_by_time : (rows : List RevokedCertificate) → length (order_by_time rows) ≡ length rows
unfolding order_by_time
length-order_by_time [] = refl
length-order_by_time (r ∷ rows) =
    length-insert_by_time r (order_by_time rows) ∙ ap suc (length-order_by_time rows)

rebuild_crl-entries :
    (c : Context) (rows : List RevokedCertificate) (entries : List CrlEntry)
    → rebuild_crl c.crypto c.settings c.disk rows ≡ ok entries
    → crl_entries rows ≡ ok entries
unfolding rebuild_crl
rebuild_crl-entries c rows entries h = ground arith

-- When the rebuild of the CRL succeeds, the file has one entry for each row of the table of revoked
-- certificates, and the serial number of every row is in it.
pub rebuild_crl_complete :
    (c : Context) (s t : Server)
    → rebuild_crl_from_db c s ≡ (ok tt, t)
    → (entries : List CrlEntry) × (t.crl ≡ some entries)
      × (length entries ≡ length s.revoked_certificates)
      × All (ListedIn entries) s.revoked_certificates
unfolding rebuild_crl_from_db
rebuild_crl_complete c s t h =
    elim (Try-cases
      (rebuild_crl c.crypto c.settings c.disk (order_by_time s.revoked_certificates))) [
        | inl (entries, e) ↦
            let (listed, long) =
              crl_entries-All (order_by_time s.revoked_certificates) entries
                (rebuild_crl-entries c (order_by_time s.revoked_certificates) entries e) in
            (
              entries,
              ground arith,
              long ∙ length-order_by_time s.revoked_certificates,
              All-order_by_time (ListedIn entries) s.revoked_certificates listed,
            )
        | inr (inl (x, e)) ↦ absurd (ground arith)
        | inr (inr e) ↦ absurd (ground arith)
      ]
