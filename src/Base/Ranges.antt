-- ===== src/Base/Ranges.antt =====
-- Address ranges in an ordered map: the entry at key k covers [k, k + size v).
use memfabric_hybrid.Base.Tests.{leb, ◌==◌, Bool-cases, Option-cases, ==_iff, le→leb}
use memfabric_hybrid.Base.OrdMap.{
  OrdMap, find, assign, erase, floor, first, cursor, Above, All, Rising,
}
use Prim.Native.Nat.{ℕ, ◌+◌, ◌≤◌, ◌<◌}
use mathlib.Core.Path.{◌≡◌, refl, ap, sym, ◌∙◌}
use mathlib.Core.Logic.{◌⊎◌, inl, inr}
use mathlib.Core.Bool.{true}
use mathlib.Core.Option.{none, some, some-injective, some-ne-none}
use mathlib.Core.List.{[], ◌∷◌}
use native.Mathlib.Omega.{arith}

module _ {ℓ} {V : Type ℓ} (size : V → ℕ) where
  -- Non-empty ranges in ascending order that do not meet, all within [lo, hi).
  abbrev pub Chain : ℕ → ℕ → OrdMap V → Type 0
  Chain lo hi [] = lo ≤ hi
  Chain lo hi ((j, v) ∷ m) = (lo ≤ j) × (0 < size v) × Chain (j + size v) hi m

  -- [g, g + s) meets no range of the map.
  abbrev pub Clear : ℕ → ℕ → OrdMap V → Type 0
  Clear g s = All (λ j w. (j + size w ≤ g) ⊎ (g + s ≤ j))

  pub Chain-le : (lo hi : ℕ) (m : OrdMap V) → Chain lo hi m → lo ≤ hi
  Chain-le lo hi [] c = c
  Chain-le lo hi ((j, v) ∷ m) c = omega (arith, Chain-le (j + size v) hi m c.2)

  pub Chain-mono : (l lo hi : ℕ) (m : OrdMap V) → l ≤ lo → Chain lo hi m → Chain l hi m
  Chain-mono l lo hi [] h c = omega arith
  Chain-mono l lo hi ((j, v) ∷ m) h c = (omega arith, c.1, c.2)

  pub Chain-Above : (b lo hi : ℕ) (m : OrdMap V) → b < lo → Chain lo hi m → Above b m
  Chain-Above b lo hi [] h c = tt
  Chain-Above b lo hi ((j, v) ∷ m) h c =
      (omega arith, Chain-Above j (j + size v) hi m (omega arith) c.2)

  pub Chain-Rising : (lo hi : ℕ) (m : OrdMap V) → Chain lo hi m → Rising m
  Chain-Rising lo hi [] c = tt
  Chain-Rising lo hi ((j, v) ∷ m) c = Chain-Above j (j + size v) hi m (omega arith) c.2

  pub Chain-assign :
      (lo hi g : ℕ) (v : V) (m : OrdMap V)
      → Chain lo hi m
      → lo ≤ g
      → g + size v ≤ hi
      → 0 < size v
      → Clear g (size v) m
      → Chain lo hi (assign g v m)
  unfolding assign
  Chain-assign lo hi g v [] c l h p q = (l, p, h)
  Chain-assign lo hi g v ((j, w) ∷ m) c l h p q =
      ground (arith, Chain-assign (j + size w) hi g v m c.2)

  pub Chain-erase : (lo hi k : ℕ) (m : OrdMap V) → Chain lo hi m → Chain lo hi (erase k m)
  unfolding erase
  Chain-erase lo hi k [] c = c
  Chain-erase lo hi k ((j, w) ∷ m) c =
      ground (arith, Chain-erase (j + size w) hi k m c.2, Chain-mono lo (j + size w) hi m)

  pub Chain-bounds :
      (lo hi k : ℕ) (v : V) (m : OrdMap V)
      → Chain lo hi m
      → find k m ≡ some v
      → (lo ≤ k) × (0 < size v) × (k + size v ≤ hi)
  unfolding find
  Chain-bounds lo hi k v [] c e = absurd (cc)
  Chain-bounds lo hi k v ((j, w) ∷ m) c e =
      ground (arith, Chain-bounds (j + size w) hi k v m c.2, Chain-le (j + size w) hi m c.2)

  -- The entry that `floor` returns is in the map, and starts at or below the address.
  pub floor-find :
      (lo hi a k : ℕ) (v : V) (m : OrdMap V)
      → Chain lo hi m
      → floor a m ≡ some (k, v)
      → (find k m ≡ some v) × (k ≤ a)
  unfolding floor find
  floor-find lo hi a k v [] c e = absurd (cc)
  floor-find lo hi a k v ((j, w) ∷ m) c e =
      ground (arith, floor-find (j + size w) hi a k v m c.2, Chain-bounds (j + size w) hi k v m c.2)

  floor_below : (lo hi a : ℕ) (m : OrdMap V) → Chain lo hi m → a < lo → floor a m ≡ none
  unfolding floor
  floor_below lo hi a [] c h = refl
  floor_below lo hi a ((j, w) ∷ m) c h = ground arith

  -- The range that covers an address is the one that `floor` returns.
  pub floor_covering :
      (lo hi a k : ℕ) (v : V) (m : OrdMap V)
      → Chain lo hi m
      → find k m ≡ some v
      → k ≤ a
      → a < k + size v
      → floor a m ≡ some (k, v)
  unfolding floor find
  floor_covering lo hi a k v [] c e l h = absurd (cc)
  floor_covering lo hi a k v ((j, w) ∷ m) c e l h = elim (Bool-cases (j == k)) [
    | inl here ↦
        let jk : j ≡ k = (==_iff j k).0 here in
        let wv : w ≡ v = some-injective w v (rw here at e) in
        rw
          (
            floor_below (j + size w) hi a m c.2 (omega (arith, ap size wv)),
            le→leb j a (omega arith),
          )
          (cc (jk, wv))
    | inr there ↦
        let le : leb j a ≡ true =
          le→leb j a (omega (arith, Chain-bounds (j + size w) hi k v m c.2 (rw there at e))) in
        rw (floor_covering (j + size w) hi a k v m c.2 (rw there at e) l h, le)
  ]

  pub cursor_covering :
      (lo hi a k : ℕ) (v : V) (m : OrdMap V)
      → Chain lo hi m
      → find k m ≡ some v
      → k ≤ a
      → a < k + size v
      → cursor a m ≡ some (k, v)
  unfolding cursor
  cursor_covering lo hi a k v m c e l h = rw (floor_covering lo hi a k v m c e l h)

  first-find : (k : ℕ) (v : V) (m : OrdMap V) → first m ≡ some (k, v) → find k m ≡ some v
  unfolding first find
  first-find k v [] e = absurd (some-ne-none (k, v) (sym e))
  first-find k v ((j, w) ∷ m) e = ground arith

  pub cursor-find :
      (lo hi a k : ℕ) (v : V) (m : OrdMap V)
      → Chain lo hi m
      → cursor a m ≡ some (k, v)
      → find k m ≡ some v
  unfolding cursor
  cursor-find lo hi a k v m c e = elim (Option-cases (floor a m)) [
    | inl q ↦ first-find k v m (rw q at e)
    | inr (d, q) ↦ (floor-find lo hi a k v m c (q ∙ (rw q at e))).0
  ]
