-- ===== src/Network/Selected.antt =====
-- Which address `select_wifi_ipv4` returns.
use mathlib.Core.Path.{subst}
use secure_io_t_device_platf.Base.{
  String, ◌≡◌, refl, sym, arith, true, false, not, ◌||◌, Option, none, some, List, [], ◌∷◌, map,
  ◌==◌, eq_iff, eq_refl, All, Bool-cases, inl, inr,
}
use secure_io_t_device_platf.Json.{JsonLib}
use secure_io_t_device_platf.Network.{
  Ip, Candidate, valid_candidate, contains_text, dedupe, rank, rank_le, least, Host,
  listed_candidates, collect_wifi_ipv4_candidates, select_from, select_wifi_ipv4,
}
use secure_io_t_device_platf.Network.Order.{Below, least-All, least-least}

abbrev address_of : Candidate → String
address_of c = c.address

All-imp :
    (P Q : Candidate → Type 0) (xs : List Candidate)
    → ((c : Candidate) → P c → Q c)
    → All P xs
    → All Q xs
All-imp P Q [] f h = tt
All-imp P Q (x ∷ xs) f h = (f x h.0, All-imp P Q xs f h.1)

listed_self :
    (xs : List Candidate) → All (λ c. contains_text c.address (map address_of xs) ≡ true) xs
unfolding contains_text
listed_self [] = tt
listed_self (x ∷ xs) =
    (ground (arith, eq_refl x.address), All-imp _ _ xs (λ c h. ground (arith, h)) (listed_self xs))

contains_text-All :
    (B : String → Type 0) (s : String) (seen : List String)
    → All B seen
    → contains_text s seen ≡ true
    → B s
unfolding contains_text
contains_text-All B s [] h k = absurd (ground arith)
contains_text-All B s (t ∷ seen) h k = elim (Bool-cases (s == t)) [
  | inl e ↦ rw ((eq_iff s t).0 e) h.0
  | inr e ↦ contains_text-All B s seen h.1 (ground arith)
]

module _ (ip_address : String → Option Ip) where
  dedupe-All :
      (P : Candidate → Type 0) (seen : List String) (items : List Candidate)
      → All P items
      → All
          (λ c. P c × (valid_candidate ip_address c.address ≡ true))
          (dedupe ip_address seen items)
  unfolding dedupe
  dedupe-All P seen [] h = tt
  dedupe-All P seen (x ∷ items) h =
      elim (Bool-cases
        (contains_text x.address seen || not (valid_candidate ip_address x.address))) [
          | inl e ↦ rw e (dedupe-All P seen items h.1)
          | inr e ↦ rw e ((h.0, ground arith), dedupe-All P (x.address ∷ seen) items h.1)
        ]

  dedupe-skip :
      (seen : List String) (x : Candidate) (items : List Candidate)
      → (contains_text x.address seen || not (valid_candidate ip_address x.address)) ≡ true
      → dedupe ip_address seen (x ∷ items) ≡ dedupe ip_address seen items
  unfolding dedupe
  dedupe-skip seen x items h = rw h refl

  dedupe-keep :
      (seen : List String) (x : Candidate) (items : List Candidate)
      → (contains_text x.address seen || not (valid_candidate ip_address x.address)) ≡ false
      → dedupe ip_address seen (x ∷ items) ≡ x ∷ dedupe ip_address (x.address ∷ seen) items
  unfolding dedupe
  dedupe-keep seen x items h = rw h refl

  -- What holds of the addresses that are kept holds of all that are valid.
  dedupe_complete :
      (B : String → Type 0) (seen : List String) (items : List Candidate)
      → All B seen
      → All (λ c. B c.address) (dedupe ip_address seen items)
      → All (λ c. valid_candidate ip_address c.address ≡ true → B c.address) items
  dedupe_complete B seen [] b h = tt
  dedupe_complete B seen (x ∷ items) b h =
      let rest : (contains_text x.address seen || not (valid_candidate ip_address x.address)) ≡ true
          → All (λ c. valid_candidate ip_address c.address ≡ true → B c.address) items =
        λ e.
          dedupe_complete B seen items b
            (subst (All (λ c. B c.address)) (dedupe-skip seen x items e) h) in
      elim (Bool-cases (contains_text x.address seen)) [
        | inl e ↦ ((λ v. contains_text-All B x.address seen b e), rest (ground arith))
        | inr e ↦ elim (Bool-cases (valid_candidate ip_address x.address)) [
          | inr v ↦ ((λ v'. absurd (ground arith)), rest (ground arith))
          | inl v ↦
              let kept =
                subst (All (λ c. B c.address)) (dedupe-keep seen x items (ground arith)) h in
              ((λ v'. kept.0), dedupe_complete B (x.address ∷ seen) items (kept.0, b) kept.1)
        ]
      ]

  -- The verdict on a list of adapters: an address of the list that is valid, and no valid one ranks
  -- before it; or no address of the list is valid.
  pub Verdict : List Candidate → Option (String × List Candidate) → Type 0
  Verdict listed none = All (λ c. valid_candidate ip_address c.address ≡ false) listed
  Verdict listed (some (address, candidates)) =
      (best : Candidate) × (best.address ≡ address)
      × (contains_text address (map address_of listed) ≡ true)
      × (valid_candidate ip_address address ≡ true)
      × All (λ c. valid_candidate ip_address c.address ≡ true → rank_le ip_address best c ≡ true)
          listed

  verdict :
      (listed candidates : List Candidate)
      → dedupe ip_address [] listed ≡ candidates
      → Verdict listed (select_from ip_address candidates)
  unfolding Verdict select_from rank_le rank
  verdict listed [] e =
      All-imp _ _ listed (λ c h. ground (arith, h))
        (dedupe_complete (λ a. false ≡ true) [] listed tt
          (subst (All (λ c. false ≡ true)) (sym e) tt))
  verdict listed (c ∷ rest) e =
      let best = least ip_address c rest in
      let Fact : Candidate → Type 0 = λ d.
        (contains_text d.address (map address_of listed) ≡ true)
        × (valid_candidate ip_address d.address ≡ true) in
      let facts : All Fact (c ∷ rest) = subst (All Fact) e (
        dedupe-All (λ d. contains_text d.address (map address_of listed) ≡ true) [] listed
          (listed_self listed)) in
      let fact : Fact best = least-All ip_address Fact c rest facts.0 facts.1 in
      (
        best,
        refl,
        fact.0,
        fact.1,
        dedupe_complete
            (λ a. rank_le ip_address best (record { address = a; interface = "" }) ≡ true) [] listed
            tt (subst (λ cs. Below ip_address cs best) (sym e) (least-least ip_address c rest)),
      )

  -- The address that is selected is the valid one of least rank among all that the host lists, and none
  -- is selected only where none is valid.
  pub select_wifi_ipv4-Verdict :
      (lib : JsonLib) (host : Host)
      → Verdict (listed_candidates lib host) (select_wifi_ipv4 ip_address lib host)
  unfolding select_wifi_ipv4 collect_wifi_ipv4_candidates
  select_wifi_ipv4-Verdict lib host =
      verdict (listed_candidates lib host) (dedupe ip_address [] (listed_candidates lib host)) refl
