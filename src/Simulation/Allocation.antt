-- ===== src/Simulation/Allocation.antt =====
-- The numbers that `_next_ids` picks: as many as asked for, none in use, none twice.
use secure_io_t_device_platf.Base.{
  ℕ, zero, suc, ◌+◌, ◌-◌, ◌≤◌, ◌<◌, max, ◌≡◌, refl, sym, ◌∙◌, ap, arith, Bool, true, false, not,
  ◌||◌, ◌&&◌, List, [], ◌∷◌, ◌++◌, length, take, length-append, length-take-le, eqb, Bool-cases,
  inl, inr, All, All-append,
}
use secure_io_t_device_platf.Table.{select}
use secure_io_t_device_platf.Simulation.Numbers.{holds, fill, largest, idle_numbers, next_numbers}

-- Every number is below the bound, or below the candidate.
abbrev Below : ℕ → ℕ → List ℕ → Type 0
Below bound candidate = All (λ n. n < max bound candidate)

Below-mono : (b c : ℕ) (numbers : List ℕ) → Below b c numbers → Below b (suc c) numbers
Below-mono b c [] h = tt
Below-mono b c (n ∷ numbers) h = (omega (arith, h.0), Below-mono b c numbers h.1)

-- A number above all that are held is free.
holds_above : (numbers : List ℕ) (b c : ℕ) → Below b c numbers → b ≤ c → holds numbers c ≡ false
unfolding holds
holds_above [] b c h le = refl
holds_above (n ∷ numbers) b c h le = ground (arith, holds_above numbers b c h.1 le)

-- Enough rounds pick as many numbers as are needed.
length-fill :
    (fuel b candidate needed : ℕ) (existing running : List ℕ)
    → Below b candidate existing
    → Below b candidate running
    → (b - candidate) + needed ≤ fuel
    → length (fill fuel candidate needed existing running) ≡ needed
unfolding fill
length-fill zero b c needed ex ru he hr f = omega (arith, f)
length-fill (suc fuel) b c zero ex ru he hr f = refl
length-fill (suc fuel) b c (suc needed) ex ru he hr f =
    elim (Bool-cases (not (holds ex c) && not (holds ru c))) [
      | inl e ↦ rw e (
          ap suc (
            length-fill fuel b (suc c) needed (c ∷ ex) ru (omega arith, Below-mono b c ex he)
              (Below-mono b c ru hr) (omega (arith, f))))
      | inr e ↦ rw e (
          length-fill fuel b (suc c) (suc needed) ex ru (Below-mono b c ex he)
            (Below-mono b c ru hr) (ground (arith, holds_above ex b c he, holds_above ru b c hr)))
    ]

-- What the loop picks is at or above the candidate, and held by neither list.
abbrev Fresh : List ℕ → List ℕ → ℕ → Type 0
Fresh existing running n = (holds existing n ≡ false) × (holds running n ≡ false)

-- Strictly ascending, from a lower bound on.
abbrev pub Ascending : ℕ → List ℕ → Type 0
Ascending low [] = Unit
Ascending low (n ∷ numbers) = (low ≤ n) × Ascending (suc n) numbers

Ascending-mono : (low low' : ℕ) (ns : List ℕ) → low ≤ low' → Ascending low' ns → Ascending low ns
Ascending-mono low low' [] le h = tt
Ascending-mono low low' (n ∷ ns) le h = (omega (arith, h.0), h.1)

fill-Ascending :
    (fuel candidate needed : ℕ) (existing running : List ℕ)
    → Ascending candidate (fill fuel candidate needed existing running)
unfolding fill
fill-Ascending zero c needed ex ru = tt
fill-Ascending (suc fuel) c zero ex ru = tt
fill-Ascending (suc fuel) c (suc needed) ex ru =
    elim (Bool-cases (not (holds ex c) && not (holds ru c))) [
      | inl e ↦ rw e (omega arith, fill-Ascending fuel (suc c) needed (c ∷ ex) ru)
      | inr e ↦ rw e (
          Ascending-mono c (suc c) (fill fuel (suc c) (suc needed) ex ru) (omega arith)
            (fill-Ascending fuel (suc c) (suc needed) ex ru))
    ]

All-Fresh-cons : (c : ℕ) (ex ru ns : List ℕ) → All (Fresh (c ∷ ex) ru) ns → All (Fresh ex ru) ns
unfolding holds
All-Fresh-cons c ex ru [] h = tt
All-Fresh-cons c ex ru (n ∷ ns) h = (ground (arith, h.0), All-Fresh-cons c ex ru ns h.1)

fill-Fresh :
    (fuel candidate needed : ℕ) (existing running : List ℕ)
    → All (Fresh existing running) (fill fuel candidate needed existing running)
unfolding fill
fill-Fresh zero c needed ex ru = tt
fill-Fresh (suc fuel) c zero ex ru = tt
fill-Fresh (suc fuel) c (suc needed) ex ru =
    elim (Bool-cases (not (holds ex c) && not (holds ru c))) [
      | inl e ↦ rw e (
        ground arith,
        All-Fresh-cons c ex ru (fill fuel (suc c) needed (c ∷ ex) ru)
            (fill-Fresh fuel (suc c) needed (c ∷ ex) ru),
      )
      | inr e ↦ rw e (fill-Fresh fuel (suc c) (suc needed) ex ru)
    ]

-- The largest of a list bounds it.
Below-largest : (b c : ℕ) (ns : List ℕ) → largest ns < b → Below b c ns
unfolding largest
Below-largest b c [] h = tt
Below-largest b c (n ∷ ns) h = (omega (arith, h), Below-largest b c ns (omega (arith, h)))

largest-append : (ns ms : List ℕ) → largest (ns ++ ms) ≡ max (largest ns) (largest ms)
unfolding largest
largest-append [] ms = omega arith
largest-append (n ∷ ns) ms = omega (arith, largest-append ns ms)

-- No number stands twice in the list.
abbrev pub Distinct : List ℕ → Type 0
Distinct [] = Unit
Distinct (n ∷ ns) = (holds ns n ≡ false) × Distinct ns

holds_below : (n low : ℕ) (ns : List ℕ) → n < low → Ascending low ns → holds ns n ≡ false
unfolding holds
holds_below n low [] lt h = refl
holds_below n low (m ∷ ns) lt h =
    ground (arith, h.0, holds_below n (suc m) ns (omega (arith, h.0)) h.1)

Ascending-Distinct : (low : ℕ) (ns : List ℕ) → Ascending low ns → Distinct ns
Ascending-Distinct low [] h = tt
Ascending-Distinct low (n ∷ ns) h =
    (holds_below n (suc n) ns (omega arith) h.1, Ascending-Distinct (suc n) ns h.1)

select-Ascending :
    (p : ℕ → Bool) (low : ℕ) (ns : List ℕ) → Ascending low ns → Ascending low (select p ns)
unfolding select
select-Ascending p low [] h = tt
select-Ascending p low (n ∷ ns) h = elim (Bool-cases (p n)) [
  | inl e ↦ rw e (h.0, select-Ascending p (suc n) ns h.1)
  | inr e ↦ rw e (
      Ascending-mono low (suc n) (select p ns) (omega (arith, h.0))
        (select-Ascending p (suc n) ns h.1))
]

take-Ascending : (k low : ℕ) (ns : List ℕ) → Ascending low ns → Ascending low (take k ns)
take-Ascending zero low ns h = tt
take-Ascending (suc k) low [] h = tt
take-Ascending (suc k) low (n ∷ ns) h = (h.0, take-Ascending k (suc n) ns h.1)

All-take-select :
    (p q : ℕ → Bool) (k : ℕ) (ns : List ℕ)
    → All (λ n. q n ≡ true) ns
    → All (λ n. (p n ≡ true) × (q n ≡ true)) (take k (select p ns))
unfolding select
All-take-select p q zero ns h = tt
All-take-select p q (suc k) [] h = tt
All-take-select p q (suc k) (n ∷ ns) h = elim (Bool-cases (p n)) [
  | inl e ↦ rw e ((e, h.0), All-take-select p q k ns h.1)
  | inr e ↦ rw e (All-take-select p q (suc k) ns h.1)
]

All-holds_cons :
    (m : ℕ) (ns ks : List ℕ)
    → All (λ n. holds ns n ≡ true) ks
    → All (λ n. holds (m ∷ ns) n ≡ true) ks
unfolding holds
All-holds_cons m ns [] h = tt
All-holds_cons m ns (k ∷ ks) h = (ground (arith, h.0), All-holds_cons m ns ks h.1)

All-holds_self : (ns : List ℕ) → All (λ n. holds ns n ≡ true) ns
unfolding holds
All-holds_self [] = tt
All-holds_self (n ∷ ns) = (ground arith, All-holds_cons n ns ns (All-holds_self ns))

-- Two lists without a common number.
holds-Fresh :
    (n : ℕ) (ex ru ns : List ℕ) → holds ex n ≡ true → All (Fresh ex ru) ns → holds ns n ≡ false
unfolding holds
holds-Fresh n ex ru [] e h = refl
holds-Fresh n ex ru (m ∷ ns) e h = elim (Bool-cases (eqb m n)) [
  | inl s ↦
      let same : m ≡ n = ground arith in
      let gone : holds ex n ≡ false = ap (holds ex) (sym same) ∙ h.0.0 in absurd (ground arith)
  | inr s ↦ rw s (holds-Fresh n ex ru ns e h.1)
]

holds-append : (n : ℕ) (ns ms : List ℕ) → holds (ns ++ ms) n ≡ (holds ns n || holds ms n)
unfolding holds
holds-append n [] ms = refl
holds-append n (m ∷ ns) ms = ground (arith, holds-append n ns ms)

Distinct-append :
    (ex ru ns ms : List ℕ)
    → Distinct ns
    → Distinct ms
    → All (λ n. (not (holds ru n) ≡ true) × (holds ex n ≡ true)) ns
    → All (Fresh ex ru) ms
    → Distinct (ns ++ ms)
Distinct-append ex ru [] ms dn dm hn hm = dm
Distinct-append ex ru (n ∷ ns) ms dn dm hn hm = (
  holds-append n ns ms ∙ ground (arith, dn.0, holds-Fresh n ex ru ms hn.0.1 hm),
  Distinct-append ex ru ns ms dn.1 dm hn.1 hm,
)

All-idle :
    (ex ru ns : List ℕ)
    → All (λ n. (not (holds ru n) ≡ true) × (holds ex n ≡ true)) ns
    → All (λ n. holds ru n ≡ false) ns
All-idle ex ru [] h = tt
All-idle ex ru (n ∷ ns) h = (ground (arith, h.0), All-idle ex ru ns h.1)

All-unheld : (ex ru ns : List ℕ) → All (Fresh ex ru) ns → All (λ n. holds ru n ≡ false) ns
All-unheld ex ru [] h = tt
All-unheld ex ru (n ∷ ns) h = (h.0.1, All-unheld ex ru ns h.1)

-- What is picked for a request of `count` numbers.
pub record Picked (existing running : List ℕ) (count : ℕ) (numbers : List ℕ) : Type 0 where
  pub enough : length numbers ≡ count
  pub idle : All (λ n. holds running n ≡ false) numbers
  pub distinct : Distinct numbers

-- For a set of existing numbers, the loop of `next_numbers` ends with as many numbers as were asked for,
-- none of them in use by a running process and none twice.
pub next_numbers-Picked :
    (existing running : List ℕ) (count : ℕ)
    → Ascending 0 existing
    → Picked existing running count (next_numbers existing running count)
unfolding next_numbers idle_numbers
next_numbers-Picked ex ru count asc =
    let first = idle_numbers ex ru count in
    let fuel = suc (largest (ex ++ ru)) + count in
    let rest = fill fuel 1 (count - length first) ex ru in
    let few : length first ≤ count = length-take-le count (select (λ n. not (holds ru n)) ex) in
    let top = largest-append ex ru in
    let b = suc (largest (ex ++ ru)) in
    let long : length rest ≡ count - length first =
      length-fill fuel b 1 (count - length first) ex ru (Below-largest b 1 ex (omega (arith, top)))
        (Below-largest b 1 ru (omega (arith, top))) (omega arith) in
    let held = All-take-select (λ n. not (holds ru n)) (holds ex) count ex (All-holds_self ex) in
    let fresh = fill-Fresh fuel 1 (count - length first) ex ru in
    record {
      enough = length-append first rest ∙ omega (arith, long, few);
      idle =
          All-append (λ n. holds ru n ≡ false) first rest (All-idle ex ru first held)
            (All-unheld ex ru rest fresh);
      distinct =
          Distinct-append ex ru first rest
            (Ascending-Distinct 0 first (
              take-Ascending count 0 (select (λ n. not (holds ru n)) ex)
                (select-Ascending (λ n. not (holds ru n)) 0 ex asc)))
            (Ascending-Distinct 1 rest (fill-Ascending fuel 1 (count - length first) ex ru)) held
            fresh;
    }
