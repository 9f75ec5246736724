-- ===== src/Simulation/Numbers.antt =====
-- simulators/manager.py: the numbers that `_next_ids` picks. A Python set of numbers is a list in
-- ascending order.
use secure_io_t_device_platf.Base.{
  ℕ, zero, suc, ◌+◌, max, Bool, false, not, ◌||◌, ◌&&◌, ◌-◌, length, List, [], ◌∷◌, ◌++◌, take, ltb,
  eqb, if◌then◌else◌,
}
use secure_io_t_device_platf.Table.{select}

-- number in numbers
unfoldable pub holds : List ℕ → ℕ → Bool
holds [] n = false
holds (m ∷ numbers) n = eqb m n || holds numbers n

-- numbers.add(n), in ascending order
unfoldable pub add : ℕ → List ℕ → List ℕ
add n [] = n ∷ []
add n (m ∷ numbers) =
    let rest = add n numbers in
    if ltb n m then n ∷ m ∷ numbers else if eqb n m then m ∷ numbers else m ∷ rest

-- The `while` loop, from `candidate` on: `needed` numbers that no list holds.
unfoldable pub fill : ℕ → ℕ → ℕ → List ℕ → List ℕ → List ℕ
fill zero candidate needed existing running = []
fill (suc fuel) candidate zero existing running = []
fill (suc fuel) candidate (suc needed) existing running =
    let skipped = fill fuel (suc candidate) (suc needed) existing running in
    let picked = candidate ∷ fill fuel (suc candidate) needed (candidate ∷ existing) running in
    if not (holds existing candidate) && not (holds running candidate) then picked else skipped

unfoldable pub largest : List ℕ → ℕ
largest [] = 0
largest (n ∷ numbers) = max n (largest numbers)

-- sorted(existing - running)[:count]
unfoldable pub idle_numbers : List ℕ → List ℕ → ℕ → List ℕ
idle_numbers existing running count = take count (select (λ n. not (holds running n)) existing)

-- No number above all that are held is taken, so as many rounds as that, and one for each new number,
-- are enough.
unfoldable pub next_numbers : List ℕ → List ℕ → ℕ → List ℕ
next_numbers existing running count =
    let idle = idle_numbers existing running count in
    idle
    ++ fill (suc (largest (existing ++ running)) + count) 1 (count - length idle) existing running
