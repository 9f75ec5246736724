-- ===== src/Admin/Recent.antt =====
-- The list of recent activity: latest first, and bounded.
use secure_io_t_device_platf.Base.{
  ℕ, ◌≤◌, ◌≡◌, arith, String, Option-cases, List, [], ◌∷◌, ◌++◌, map, length, take, leb, All,
  Bool-cases, inl, inr, length-take-le, zero, suc,
}
use secure_io_t_device_platf.Env.{response}
use secure_io_t_device_platf.Json.{JsonLib}
use secure_io_t_device_platf.Models.{Server, find_device}
use secure_io_t_device_platf.Admin.Activity.{
  Activity, insert_latest, latest_first, sent_activity, response_activity, recent_commands,
  recent_responses, recent_command_activity,
}

module _ {A : Type 0} (time : A → ℕ) where
  -- No row is later than one before it.
  abbrev pub LatestFirst : List A → Type 0
  LatestFirst [] = Unit
  LatestFirst (r ∷ rows) = All (λ q. time q ≤ time r) rows × LatestFirst rows

  All-mono :
      (n m : ℕ) (rows : List A) → n ≤ m → All (λ q. time q ≤ n) rows → All (λ q. time q ≤ m) rows
  All-mono n m [] le h = tt
  All-mono n m (q ∷ rows) le h = (omega (arith, h.0), All-mono n m rows le h.1)

  All-insert_latest :
      (P : A → Type 0) (r : A) (rows : List A)
      → P r
      → All P rows
      → All P (insert_latest time r rows)
  unfolding insert_latest
  All-insert_latest P r [] p h = (p, tt)
  All-insert_latest P r (q ∷ rows) p h = elim (Bool-cases (leb (time q) (time r))) [
    | inl e ↦ rw e (p, h)
    | inr e ↦ rw e (h.0, All-insert_latest P r rows p h.1)
  ]

  insert_latest-LatestFirst :
      (r : A) (rows : List A) → LatestFirst rows → LatestFirst (insert_latest time r rows)
  unfolding insert_latest
  insert_latest-LatestFirst r [] h = (tt, tt)
  insert_latest-LatestFirst r (q ∷ rows) h = elim (Bool-cases (leb (time q) (time r))) [
    | inl e ↦ rw e ((ground arith, All-mono (time q) (time r) rows (ground arith) h.0), h)
    | inr e ↦ rw e (
      All-insert_latest (λ x. time x ≤ time q) r rows (ground arith) h.0,
      insert_latest-LatestFirst r rows h.1,
    )
  ]

  latest_first-LatestFirst : (rows : List A) → LatestFirst (latest_first time rows)
  unfolding latest_first
  latest_first-LatestFirst [] = tt
  latest_first-LatestFirst (r ∷ rows) =
      insert_latest-LatestFirst r (latest_first time rows) (latest_first-LatestFirst rows)

  All-take : (P : A → Type 0) (n : ℕ) (rows : List A) → All P rows → All P (take n rows)
  All-take P zero rows h = tt
  All-take P (suc n) [] h = tt
  All-take P (suc n) (r ∷ rows) h = (h.0, All-take P n rows h.1)

  take-LatestFirst : (n : ℕ) (rows : List A) → LatestFirst rows → LatestFirst (take n rows)
  take-LatestFirst zero rows h = tt
  take-LatestFirst (suc n) [] h = tt
  take-LatestFirst (suc n) (r ∷ rows) h =
      (All-take (λ q. time q ≤ time r) n rows h.0, take-LatestFirst n rows h.1)

-- The recent activity of a device is at most fifty entries, and none is later than one before it.
pub recent_command_activity-LatestFirst :
    (lib : JsonLib) (device_id : String) (s : Server) (entries : List Activity)
    → recent_command_activity lib device_id s ≡ response entries
    → (length entries ≤ 50) × LatestFirst (λ a. a.timestamp) entries
unfolding recent_command_activity
recent_command_activity-LatestFirst lib device_id s entries h =
    elim (Option-cases (find_device s device_id)) [
      | inl e ↦ absurd (ground arith)
      | inr (d, e) ↦
          let commands = recent_commands device_id s in
          let all =
            latest_first (λ a. a.timestamp)
              (map sent_activity commands
                ++ map (response_activity lib s device_id commands)
                    (recent_responses device_id s)) in
          let same : entries ≡ take 50 all = ground arith in
          rw same (
            length-take-le 50 all,
            take-LatestFirst (λ a. a.timestamp) 50 all
                (latest_first-LatestFirst (λ a. a.timestamp) _),
          )
    ]
