-- ===== src/Table.antt =====
-- A table of the database: rows with a text for their primary key, in the order of insertion.
-- `find` is SQLAlchemy's `db.get`; `save` is `db.add` with the commit that writes the row.
use mathlib.Core.Option
use secure_io_t_device_platf.Base.{
  ℕ, ◌+◌, map, Bool, ◌≡◌, refl, String, Option, none, some, List, [], ◌∷◌, arith, ◌==◌, eq_iff,
  eq_refl, All, if◌then◌else◌,
}

module _ {A : Type 0} (key : A → String) where
  unfoldable pub find : String → List A → Option A
  find k [] = none
  find k (r ∷ rows) = if key r == k then some r else find k rows

  unfoldable pub save : A → List A → List A
  save r [] = r ∷ []
  save r (q ∷ rows) = if key q == key r then r ∷ rows else q ∷ save r rows

  pub find-save :
      (r : A) (j : String) (rows : List A)
      → find j (save r rows) ≡ (if key r == j then some r else find j rows)
  unfolding find save
  find-save r j [] = refl
  find-save r j (q ∷ rows) =
      ground (arith, eq_iff (key q) (key r), eq_iff (key r) j, eq_iff (key q) j, find-save r j rows)

  pub find-save_self : (r : A) (rows : List A) → find (key r) (save r rows) ≡ some r
  find-save_self r rows = simp (find-save, eq_refl)

  -- What `find` gives has the key that was asked for.
  pub find_key : (k : String) (rows : List A) (r : A) → find k rows ≡ some r → key r ≡ k
  unfolding find
  find_key k [] r h = cc
  find_key k (q ∷ rows) r h = ground (arith, eq_iff (key q) k, find_key k rows r)

  pub All-save : (P : A → Type 0) (r : A) (rows : List A) → P r → All P rows → All P (save r rows)
  unfolding save
  All-save P r [] p ps = (p, tt)
  All-save P r (q ∷ rows) p ps = ground (arith, All-save P r rows p ps.1)

  pub All-find :
      (P : A → Type 0) (k : String) (rows : List A) (r : A)
      → All P rows
      → find k rows ≡ some r
      → P r
  unfolding find
  All-find P k [] r ps h = cc
  All-find P k (q ∷ rows) r ps h = ground (arith, All-find P k rows r ps.1)

  -- The sum of a weight over the rows.
  unfoldable pub total : (A → ℕ) → List A → ℕ
  total w [] = 0
  total w (r ∷ rows) = w r + total w rows

  abbrev pub weight : (A → ℕ) → Option A → ℕ
  weight w none = 0
  weight w (some r) = w r

  -- A write trades the weight of the row that it replaces for that of the row that it writes.
  pub total-save :
      (w : A → ℕ) (r : A) (rows : List A)
      → total w (save r rows) + weight w (find (key r) rows) ≡ total w rows + w r
  unfolding total save find
  total-save w r [] = omega arith
  total-save w r (q ∷ rows) = ground (arith, total-save w r rows)

  -- A map that keeps the keys acts on each row that is found.
  pub find-map :
      (f : A → A)
      → ((r : A) → key (f r) ≡ key r)
      → (k : String) (rows : List A) → find k (map f rows) ≡ Option.map f (find k rows)
  unfolding find
  find-map f same k [] = refl
  find-map f same k (r ∷ rows) = ground (arith, same r, find-map f same k rows)

-- select(...).where(...)
unfoldable pub select : {A : Type 0} → (A → Bool) → List A → List A
select p [] = []
select p (r ∷ rows) = let rest = select p rows in if p r then r ∷ rest else rest
