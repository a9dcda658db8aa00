-- ===== src/Base/OrdMap.antt =====
-- std::map with integer keys: an association list in ascending order of its keys.
use Prim.Native.Nat.{ℕ, ◌≤◌, ◌<◌}
use mathlib.Core.Path.{◌≡◌, refl, sym}
use mathlib.Core.Option.{Option, none, some, some-ne-none}
use mathlib.Core.List.{List, [], ◌∷◌}
use native.Mathlib.Omega.{arith}
use memfabric_hybrid.Base.Tests.{ltb, leb, ◌==◌, if◌then◌else◌}

abbrev pub OrdMap {ℓ} : Type ℓ → Type ℓ
OrdMap V = List (ℕ × V)

module _ {ℓ} {V : Type ℓ} where
  -- m.find(k)
  unfoldable pub find : ℕ → OrdMap V → Option V
  find k [] = none
  find k ((j, v) ∷ m) = if j == k then some v else find k m

  -- m[k] = v
  unfoldable pub assign : ℕ → V → OrdMap V → OrdMap V
  assign k v [] = (k, v) ∷ []
  assign k v ((j, w) ∷ m) =
      if ltb k j then (k, v) ∷ (j, w) ∷ m else if k == j then (k, v) ∷ m else (j, w) ∷ assign k v m

  -- m.erase(k)
  unfoldable pub erase : ℕ → OrdMap V → OrdMap V
  erase k [] = []
  erase k ((j, v) ∷ m) = if j == k then m else (j, v) ∷ erase k m

  abbrev or_else : Option (ℕ × V) → ℕ × V → Option (ℕ × V)
  or_else none e = some e
  or_else (some d) e = some d

  -- The entry before m.upper_bound(k): the last one whose key is at most k.
  unfoldable pub floor : ℕ → OrdMap V → Option (ℕ × V)
  floor k [] = none
  floor k ((j, v) ∷ m) = if leb j k then or_else (floor k m) (j, v) else none

  -- m.begin()
  unfoldable pub first : OrdMap V → Option (ℕ × V)
  first [] = none
  first (e ∷ m) = some e

  abbrev or_first : Option (ℕ × V) → OrdMap V → Option (ℕ × V)
  or_first none m = first m
  or_first (some e) m = some e

  -- it = m.upper_bound(k); if (it != m.begin()) --it;
  -- `none` is m.end(), which `it` is in an empty map only.
  unfoldable pub cursor : ℕ → OrdMap V → Option (ℕ × V)
  unfolding first
  cursor k m = or_first (floor k m) m

  -- The keys rise along the list, all above k.
  abbrev pub Above : ℕ → OrdMap V → Type 0
  Above k [] = Unit {0}
  Above k ((j, v) ∷ m) = (k < j) × Above j m

  abbrev pub All {κ} : (ℕ → V → Type κ) → OrdMap V → Type κ
  All P [] = Unit
  All P ((j, v) ∷ m) = P j v × All P m

  pub find-assign :
      (k j : ℕ) (v : V) (m : OrdMap V)
      → find j (assign k v m) ≡ (if k == j then some v else find j m)
  unfolding find assign
  find-assign k j v [] = refl
  find-assign k j v ((i, w) ∷ m) = ground (arith, find-assign k j v m)

  pub find-Above : (k j : ℕ) (m : OrdMap V) → Above k m → j ≤ k → find j m ≡ none
  unfolding find
  find-Above k j [] a h = refl
  find-Above k j ((i, w) ∷ m) a h = ground (arith, find-Above i j m a.1)

  pub find-erase :
      (b k j : ℕ) (m : OrdMap V)
      → Above b m
      → find j (erase k m) ≡ (if k == j then none else find j m)
  unfolding find erase
  find-erase b k j [] a = ground arith
  find-erase b k j ((i, w) ∷ m) a = ground (arith, find-erase i k j m a.1, find-Above i j m a.1)

  pub All-find {κ} :
      (P : ℕ → V → Type κ) (k : ℕ) (v : V) (m : OrdMap V) → All P m → find k m ≡ some v → P k v
  unfolding find
  All-find P k v [] h e = absurd (cc)
  All-find P k v ((j, w) ∷ m) h e = ground (arith, All-find P k v m h.1)

  pub All-assign {κ} :
      (P : ℕ → V → Type κ) (k : ℕ) (v : V) (m : OrdMap V) → P k v → All P m → All P (assign k v m)
  unfolding assign
  All-assign P k v [] p h = (p, h)
  All-assign P k v ((j, w) ∷ m) p h = ground (arith, All-assign P k v m p h.1)

  pub All-erase {κ} : (P : ℕ → V → Type κ) (k : ℕ) (m : OrdMap V) → All P m → All P (erase k m)
  unfolding erase
  All-erase P k [] h = h
  All-erase P k ((j, w) ∷ m) h = ground (arith, All-erase P k m h.1)

  pub Above-assign : (b k : ℕ) (v : V) (m : OrdMap V) → b < k → Above b m → Above b (assign k v m)
  unfolding assign
  Above-assign b k v [] h a = (h, tt)
  Above-assign b k v ((j, w) ∷ m) h a = ground (arith, Above-assign j k v m)

  pub Above-mono : (b c : ℕ) (m : OrdMap V) → b ≤ c → Above c m → Above b m
  Above-mono b c [] h a = tt
  Above-mono b c ((j, w) ∷ m) h a = (omega arith, a.1)

  pub Above-erase : (b k : ℕ) (m : OrdMap V) → Above b m → Above b (erase k m)
  unfolding erase
  Above-erase b k [] a = tt
  Above-erase b k ((j, w) ∷ m) a = ground (arith, Above-erase j k m a.1, Above-mono b j m)

  -- The keys rise along the list.
  abbrev pub Rising : OrdMap V → Type 0
  Rising [] = Unit {0}
  Rising ((j, v) ∷ m) = Above j m

  pub Rising-assign : (k : ℕ) (v : V) (m : OrdMap V) → Rising m → Rising (assign k v m)
  unfolding assign
  Rising-assign k v [] a = tt
  Rising-assign k v ((j, w) ∷ m) a = ground (arith, Above-assign j k v m)

  Rising-Above : (b : ℕ) (m : OrdMap V) → Above b m → Rising m
  Rising-Above b [] a = tt
  Rising-Above b ((j, w) ∷ m) a = a.1

  pub Rising-erase : (k : ℕ) (m : OrdMap V) → Rising m → Rising (erase k m)
  unfolding erase
  Rising-erase k [] a = tt
  Rising-erase k ((j, w) ∷ m) a = ground (arith, Above-erase j k m a, Rising-Above j m a)

  pub find-erase-Rising :
      (k j : ℕ) (m : OrdMap V) → Rising m → find j (erase k m) ≡ (if k == j then none else find j m)
  unfolding find erase
  find-erase-Rising k j [] a = ground arith
  find-erase-Rising k j ((i, w) ∷ m) a = ground (arith, find-erase i k j m a, find-Above i j m a)

  pub erase-assign-Above :
      (b k : ℕ) (v : V) (m : OrdMap V) → Above b m → find k m ≡ none → erase k (assign k v m) ≡ m
  unfolding find assign erase
  erase-assign-Above b k v [] a e = ground arith
  erase-assign-Above b k v ((j, w) ∷ m) a e = ground (arith, erase-assign-Above j k v m a.1)

  -- To erase a new key is to undo its insertion.
  pub erase-assign :
      (k : ℕ) (v : V) (m : OrdMap V) → Rising m → find k m ≡ none → erase k (assign k v m) ≡ m
  unfolding find assign erase
  erase-assign k v [] a e = ground arith
  erase-assign k v ((j, w) ∷ m) a e = ground (arith, erase-assign-Above j k v m a)

  floor-find-Above :
      (b a k : ℕ) (v : V) (m : OrdMap V)
      → Above b m
      → floor a m ≡ some (k, v)
      → (find k m ≡ some v) × (b < k)
  unfolding floor find
  floor-find-Above b a k v [] h e = absurd (some-ne-none (k, v) (sym e))
  floor-find-Above b a k v ((j, w) ∷ m) h e = ground (arith, floor-find-Above j a k v m h.1)

  -- The entry that `floor` returns is in the map.
  pub floor-find :
      (a k : ℕ) (v : V) (m : OrdMap V) → Rising m → floor a m ≡ some (k, v) → find k m ≡ some v
  unfolding floor find
  floor-find a k v [] h e = absurd (some-ne-none (k, v) (sym e))
  floor-find a k v ((j, w) ∷ m) h e = ground (arith, floor-find-Above j a k v m h)

  -- A predicate holds of all entries when it holds of each that `find` returns.
  pub All-of_find {κ} :
      (P : ℕ → V → Type κ) (m : OrdMap V)
      → Rising m
      → ((k : ℕ) (v : V) → find k m ≡ some v → P k v)
      → All P m
  unfolding find
  All-of_find P [] a h = tt
  All-of_find P ((j, w) ∷ m) a h = (
    h j w (ground arith),
    All-of_find P m (Rising-Above j m a) (λ k v e. h k v (ground (arith, find-Above j k m a))),
  )
