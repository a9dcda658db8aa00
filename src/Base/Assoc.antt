-- ===== src/Base/Assoc.antt =====
-- std::unordered_map: an association list, over a test of equality of its keys.
use Prim.Native.Nat.{ℕ}
use mathlib.Core.Path.{◌≡◌, refl, sym, ap, ◌∙◌}
use mathlib.Core.Logic.{◌↔◌, inl, inr}
use mathlib.Core.Bool.{Bool, true, false, ◌&&◌, false≢true}
use mathlib.Core.Option.{Option, none, some}
use mathlib.Core.List.{List, [], ◌∷◌}
use native.Mathlib.Omega.{arith}
use memfabric_hybrid.Base.Tests.{◌==◌, if◌then◌else◌, Bool-cases}

abbrev pub Assoc {ℓ κ} : Type ℓ → Type κ → Type (ℓ ⊔ κ)
Assoc K V = List (K × V)

module _ {ℓ κ} {K : Type ℓ} {V : Type κ} (same : K → K → Bool) where
  -- m.find(k)
  unfoldable pub lookup : K → Assoc K V → Option V
  lookup k [] = none
  lookup k ((j, v) ∷ m) = if same j k then some v else lookup k m

  -- m[k] = v
  unfoldable pub put : K → V → Assoc K V → Assoc K V
  put k v [] = (k, v) ∷ []
  put k v ((j, w) ∷ m) = if same j k then (j, v) ∷ m else (j, w) ∷ put k v m

  -- m.erase(k)
  unfoldable pub remove : K → Assoc K V → Assoc K V
  remove k [] = []
  remove k ((j, v) ∷ m) = let rest = remove k m in if same j k then rest else (j, v) ∷ rest

module _ {ℓ} {K : Type ℓ} (same : K → K → Bool)
    (same_eq : (a b : K) → (same a b ≡ true) ↔ (a ≡ b)) where
  pub same_refl : (a : K) → same a a ≡ true
  same_refl a = (same_eq a a).1 refl

  apart : (j k l : K) → same j k ≡ false → same j l ≡ true → same k l ≡ false
  apart j k l e q = elim (Bool-cases (same k l)) [
    | inr d ↦ d
    | inl d ↦
        absurd (false≢true (sym e ∙ (same_eq j k).1 ((same_eq j l).0 q ∙ sym ((same_eq k l).0 d))))
  ]

module _ {ℓ κ} {K : Type ℓ} {V : Type κ} (same : K → K → Bool)
    (same_eq : (a b : K) → (same a b ≡ true) ↔ (a ≡ b)) where
  pub lookup-put :
      (k l : K) (v : V) (m : Assoc K V)
      → lookup same l (put same k v m) ≡ (if same k l then some v else lookup same l m)
  unfolding lookup put
  lookup-put k l v [] = refl
  lookup-put k l v ((j, w) ∷ m) = elim (Bool-cases (same j k)) [
    | inl e ↦
        let here : same j l ≡ same k l = ap (λ x. same x l) ((same_eq j k).0 e) in
        elim (Bool-cases (same k l)) [
          | inl q ↦ rw (e, q) (rw (here ∙ q))
          | inr q ↦ rw (e, q) (rw (here ∙ q))
        ]
    | inr e ↦ elim (Bool-cases (same j l)) [
      | inl q ↦ rw e (rw q (rw (apart same same_eq j k l e q)))
      | inr q ↦ rw (e, q) (lookup-put k l v m)
    ]
  ]

  pub lookup-remove :
      (k l : K) (m : Assoc K V)
      → lookup same l (remove same k m) ≡ (if same k l then none else lookup same l m)
  unfolding lookup remove
  lookup-remove k l [] = elim (Bool-cases (same k l)) [ inl q ↦ rw q | inr q ↦ rw q ]
  lookup-remove k l ((j, w) ∷ m) = elim (Bool-cases (same j k)) [
    | inl e ↦
        let here : same j l ≡ same k l = ap (λ x. same x l) ((same_eq j k).0 e) in
        elim (Bool-cases (same k l)) [
          | inl q ↦ rw (e, q) (lookup-remove k l m ∙ rw q)
          | inr q ↦ rw (e, q) (rw (here ∙ q) (lookup-remove k l m ∙ rw q))
        ]
    | inr e ↦ elim (Bool-cases (same j l)) [
      | inl q ↦ rw (e) (rw q (rw (apart same same_eq j k l e q)))
      | inr q ↦ rw (e, q) (lookup-remove k l m)
    ]
  ]

-- Equality of strings, xs lists of bytes.
unfoldable pub same_bytes : List ℕ → List ℕ → Bool
same_bytes [] [] = true
same_bytes [] (b ∷ ys) = false
same_bytes (a ∷ xs) [] = false
same_bytes (a ∷ xs) (b ∷ ys) = a == b && same_bytes xs ys

pub same_bytes_eq : (a b : List ℕ) → (same_bytes a b ≡ true) ↔ (a ≡ b)
unfolding same_bytes
same_bytes_eq [] [] = (λ e. refl, λ e. refl)
same_bytes_eq [] (b ∷ ys) = (λ e. absurd (false≢true e), λ e. cc)
same_bytes_eq (a ∷ xs) [] = (λ e. absurd (false≢true e), λ e. cc)
same_bytes_eq (a ∷ xs) (b ∷ ys) =
    (λ e. ground (arith, (same_bytes_eq xs ys).0), λ e. ground (arith, (same_bytes_eq xs ys).1))
