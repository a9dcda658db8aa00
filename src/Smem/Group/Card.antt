-- ===== src/Smem/Group/Card.antt =====
-- How many numbers below n have a property.
use memfabric_hybrid.Base.{
  ℕ, zero, suc, ◌+◌, ◌≤◌, ◌<◌, ◌≡◌, sym, ◌∙◌, ap, inl, inr, Bool, true, false, ◌==◌, if◌then◌else◌,
  arith, Bool-cases,
}

unfoldable pub card : ℕ → (ℕ → Bool) → ℕ
card zero p = 0
card (suc n) p = (if p n then 1 else 0) + card n p

pub card_le : (n : ℕ) (p : ℕ → Bool) → card n p ≤ n
unfolding card
card_le zero p = omega arith
card_le (suc n) p = ground (arith, card_le n p)

pub card_all : (n i : ℕ) (p : ℕ → Bool) → card n p ≡ n → i < n → p i ≡ true
unfolding card
card_all zero i p e h = absurd (omega arith)
card_all (suc n) i p e h = elim (Bool-cases (i == n)) [
  | inl q ↦ let at : i ≡ n = ground (arith, q) in rw at (ground (arith, e, card_le n p))
  | inr q ↦ card_all n i p (ground (arith, e, card_le n p)) (ground (arith, q))
]

pub card_mono : (n : ℕ) (p q : ℕ → Bool) → ((i : ℕ) → p i ≡ true → q i ≡ true) → card n p ≤ card n q
unfolding card
card_mono zero p q h = omega arith
card_mono (suc n) p q h = ground (arith, card_mono n p q h, h n)

-- One more number has the property.
pub card_more :
    (n r : ℕ) (p q : ℕ → Bool)
    → r < n
    → p r ≡ false
    → q r ≡ true
    → ((i : ℕ) → p i ≡ true → q i ≡ true)
    → card n p + 1 ≤ card n q
unfolding card
card_more zero r p q b e f h = absurd (omega arith)
card_more (suc n) r p q b e f h = elim (Bool-cases (r == n)) [
  | inl s ↦
      let at : r ≡ n = ground (arith, s) in
      let pn : p n ≡ false = ap p (sym at) ∙ e in
      let qn : q n ≡ true = ap q (sym at) ∙ f in ground (arith, card_mono n p q h, pn, qn)
  | inr s ↦ ground (arith, card_more n r p q (ground (arith, s)) e f h, h n)
]
