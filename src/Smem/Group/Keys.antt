-- ===== src/Smem/Group/Keys.antt =====
-- The keys of different barriers of a group are different keys.
use memfabric_hybrid.Base.{
  ℕ, zero, suc, ◌+◌, ◌/◌, ◌%◌, ◌^◌, ◌<◌, ◌≡◌, refl, sym, ap, ◌∙◌, inl, inr, Bool, true, false, ◌&&◌,
  List, [], ◌∷◌, ◌++◌, some, ltb, ◌==◌, ==_iff, arith, Bool-cases,
}
use mathlib.Core.Option.{some-injective}
use memfabric_hybrid.Base.Assoc.{same_bytes, same_bytes_eq}
use memfabric_hybrid.Smem.Server.State.{Key, to_string, digits}
use memfabric_hybrid.Smem.Server.Adding.{read_digits}
use memfabric_hybrid.Smem.Client.Numbers.{read_digits-digits}
use memfabric_hybrid.Smem.Group.{add_key, wait_key}

digits-append : (fuel n : ℕ) (acc s : List ℕ) → digits fuel n acc ++ s ≡ digits fuel n (acc ++ s)
unfolding digits
digits-append zero n acc s = refl
digits-append (suc fuel) n acc s = elim (Bool-cases (ltb n 10)) [
  | inl e ↦ rw e refl
  | inr e ↦ rw e (digits-append fuel (n / 10) ((48 + n % 10) ∷ acc) s)
]

-- Reading a number with a suffix that begins with an underscore.
read-suffix :
    (n : ℕ) (s : List ℕ)
    → n < 10 ^ 20
    → read_digits false 0 (to_string n ++ (0x5F ∷ s)) ≡ some (n, 0x5F ∷ s)
unfolding to_string read_digits
read-suffix n s h =
    ap (read_digits false 0) (digits-append 20 n [] (0x5F ∷ s))
    ∙ read_digits-digits 20 n false (0x5F ∷ s) h (omega arith)

parts :
    (a b : ℕ) (s t : List ℕ)
    → a < 10 ^ 20
    → b < 10 ^ 20
    → to_string a ++ (0x5F ∷ s) ≡ to_string b ++ (0x5F ∷ t)
    → (a ≡ b) × (s ≡ t)
parts a b s t small_a small_b e =
    let same : ◌≡◌ {A = ℕ × List ℕ} (a, 0x5F ∷ s) (b, 0x5F ∷ t) =
      some-injective _ _
        (sym (read-suffix a s small_a) ∙ ap (read_digits false 0) e ∙ read-suffix b t small_b) in
    (ap (λ x. x.0) same, ap (λ x. tail x.1) same)
  where
    tail : List ℕ → List ℕ
    tail [] = []
    tail (x ∷ l) = l

pub same_bytes-append : (p x y : List ℕ) → same_bytes (p ++ x) (p ++ y) ≡ same_bytes x y
unfolding same_bytes
same_bytes-append [] x y = refl
same_bytes-append (c ∷ p) x y =
    let same : (c == c) ≡ true = (==_iff c c).1 refl in rw same (same_bytes-append p x y)

agree : (x y : Bool) → (x ≡ true → y ≡ true) → (y ≡ true → x ≡ true) → x ≡ y
agree true y f g = sym (f refl)
agree false true f g = g refl
agree false false f g = refl

-- Different suffixes or numbers give different keys.
same_number :
    (base : Key) (a b : ℕ) (s t : List ℕ)
    → a < 10 ^ 20
    → b < 10 ^ 20
    → same_bytes (base ++ (to_string a ++ (0x5F ∷ s))) (base ++ (to_string b ++ (0x5F ∷ t)))
      ≡ (a == b && same_bytes s t)
same_number base a b s t small_a small_b =
    same_bytes-append base (to_string a ++ (0x5F ∷ s)) (to_string b ++ (0x5F ∷ t))
    ∙ agree (same_bytes (to_string a ++ (0x5F ∷ s)) (to_string b ++ (0x5F ∷ t)))
        (a == b && same_bytes s t)
        (λ h.
          let (number, suffix) = parts a b s t small_a small_b ((same_bytes_eq _ _).0 h) in
          rw ((==_iff a b).1 number, (same_bytes_eq s t).1 suffix) refl)
        (λ h.
          let number : a ≡ b = ground (arith, h) in
          let suffix : s ≡ t = (same_bytes_eq s t).0 (ground (arith, h)) in
          (same_bytes_eq _ _).1 (λ i. to_string (number i) ++ (0x5F ∷ suffix i)))

module _ (base : Key) (a b : ℕ) (small_a : a < 10 ^ 20) (small_b : b < 10 ^ 20) where
  pub same_add_key : same_bytes (add_key base a) (add_key base b) ≡ (a == b)
  unfolding add_key same_bytes
  same_add_key =
      same_number base a b (0x42 ∷ 0x41 ∷ []) (0x42 ∷ 0x41 ∷ []) small_a small_b ∙ (ground arith)

  pub same_wait_key : same_bytes (wait_key base a) (wait_key base b) ≡ (a == b)
  unfolding wait_key same_bytes
  same_wait_key =
      same_number base a b (0x42 ∷ 0x57 ∷ []) (0x42 ∷ 0x57 ∷ []) small_a small_b ∙ (ground arith)

  pub add_key-wait_key : same_bytes (add_key base a) (wait_key base b) ≡ false
  unfolding add_key wait_key same_bytes
  add_key-wait_key =
      same_number base a b (0x42 ∷ 0x41 ∷ []) (0x42 ∷ 0x57 ∷ []) small_a small_b ∙ (ground arith)

  pub wait_key-add_key : same_bytes (wait_key base a) (add_key base b) ≡ false
  unfolding add_key wait_key same_bytes
  wait_key-add_key =
      same_number base a b (0x42 ∷ 0x57 ∷ []) (0x42 ∷ 0x41 ∷ []) small_a small_b ∙ (ground arith)
