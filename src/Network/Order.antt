-- ===== src/Network/Order.antt =====
-- The order that the addresses are ranked by.
use mathlib.Core.Path.{subst}
use secure_io_t_device_platf.Base.{
  ℕ, String, ◌≡◌, refl, sym, arith, true, false, Option, List, [], ◌∷◌, All, Bool-cases, inl, inr,
}
use secure_io_t_device_platf.Network.{Ip, Candidate, text_le, rank, rank_le, least}

text_le_refl : (xs : List ℕ) → text_le xs xs ≡ true
unfolding text_le
text_le_refl [] = refl
text_le_refl (x ∷ xs) = ground (arith, text_le_refl xs)

text_le_total : (xs ys : List ℕ) → text_le xs ys ≡ false → text_le ys xs ≡ true
unfolding text_le
text_le_total [] ys h = absurd (ground arith)
text_le_total (x ∷ xs) [] h = refl
text_le_total (x ∷ xs) (y ∷ ys) h = ground (arith, text_le_total xs ys)

text_le_trans :
    (xs ys zs : List ℕ) → text_le xs ys ≡ true → text_le ys zs ≡ true → text_le xs zs ≡ true
unfolding text_le
text_le_trans [] ys zs h k = refl
text_le_trans (x ∷ xs) [] zs h k = absurd (ground arith)
text_le_trans (x ∷ xs) (y ∷ ys) [] h k = absurd (ground arith)
text_le_trans (x ∷ xs) (y ∷ ys) (z ∷ zs) h k = ground (arith, text_le_trans xs ys zs)

module _ (ip_address : String → Option Ip) where
  rank_le_refl : (c : Candidate) → rank_le ip_address c c ≡ true
  unfolding rank_le
  rank_le_refl c = ground (arith, text_le_refl (rank ip_address c).1)

  rank_le_total : (c d : Candidate) → rank_le ip_address c d ≡ false → rank_le ip_address d c ≡ true
  unfolding rank_le
  rank_le_total c d h = ground (arith, text_le_total (rank ip_address c).1 (rank ip_address d).1)

  rank_le_trans :
      (c d e : Candidate)
      → rank_le ip_address c d ≡ true
      → rank_le ip_address d e ≡ true
      → rank_le ip_address c e ≡ true
  unfolding rank_le
  rank_le_trans c d e h k =
      ground
        (arith, text_le_trans (rank ip_address c).1 (rank ip_address d).1 (rank ip_address e).1)

  -- What holds of every candidate holds of the least one.
  pub least-All :
      (P : Candidate → Type 0) (c : Candidate) (rest : List Candidate)
      → P c
      → All P rest
      → P (least ip_address c rest)
  unfolding least
  least-All P c [] p ps = p
  least-All P c (d ∷ rest) p ps = elim (Bool-cases (rank_le ip_address c d)) [
    | inl e ↦ rw e (least-All P c rest p ps.1)
    | inr e ↦ rw e (least-All P d rest ps.0 ps.1)
  ]

  least_below :
      (c : Candidate) (rest : List Candidate) (d : Candidate)
      → rank_le ip_address c d ≡ true
      → rank_le ip_address (least ip_address c rest) d ≡ true
  unfolding least
  least_below c [] d h = h
  least_below c (e ∷ rest) d h = elim (Bool-cases (rank_le ip_address c e)) [
    | inl k ↦ rw k (least_below c rest d h)
    | inr k ↦ rw k (least_below e rest d (rank_le_trans e c d (rank_le_total c e k) h))
  ]

  least-keep :
      (c d : Candidate) (rest : List Candidate)
      → rank_le ip_address c d ≡ true
      → least ip_address c (d ∷ rest) ≡ least ip_address c rest
  unfolding least
  least-keep c d rest h = rw h refl

  least-move :
      (c d : Candidate) (rest : List Candidate)
      → rank_le ip_address c d ≡ false
      → least ip_address c (d ∷ rest) ≡ least ip_address d rest
  unfolding least
  least-move c d rest h = rw h refl

  abbrev pub Below : List Candidate → Candidate → Type 0
  Below cs c = All (λ d. rank_le ip_address c d ≡ true) cs

  -- The least candidate ranks below every candidate.
  pub least-least :
      (c : Candidate) (rest : List Candidate) → Below (c ∷ rest) (least ip_address c rest)
  least-least c [] = unfold least in (rank_le_refl c, tt)
  least-least c (d ∷ rest) = elim (Bool-cases (rank_le ip_address c d)) [
    | inl e ↦
        let h = least-least c rest in
        subst (Below (c ∷ d ∷ rest)) (sym (least-keep c d rest e))
          (h.0, (least_below c rest d e, h.1))
    | inr e ↦
        subst (Below (c ∷ d ∷ rest)) (sym (least-move c d rest e))
          (least_below d rest c (rank_le_total c d e), least-least d rest)
  ]
