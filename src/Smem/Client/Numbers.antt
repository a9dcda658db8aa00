-- ===== src/Smem/Client/Numbers.antt =====
-- std::to_string and String2Int: the numbers of ADD and APPEND.
use memfabric_hybrid.Base.{
  ℕ, zero, suc, ◌+◌, ◌-◌, ◌*◌, ◌/◌, ◌%◌, ◌^◌, ◌≤◌, ◌<◌, ◌≡◌, refl, sym, ap, ◌∙◌, inl, inr, Bool,
  true, false, List, [], ◌∷◌, Option, none, some, ltb, leb, ◌==◌, u64_mod, arith, Bool-cases,
}
use mathlib.Core.Option.{some-ne-none}
use native.Mathlib.Nat.{pow-suc}
use memfabric_hybrid.Smem.Server.State.{to_string, digits}
use memfabric_hybrid.Smem.Server.Adding.{
  c_string, skip_spaces, read_sign, read_digits, to_long, string_to_long, long_to_string,
  finish_long, only_spaces, long_limit,
}
use memfabric_hybrid.Smem.Client.{sets_erange, range_of}

-- Every byte is a decimal digit.
abbrev AllDigits : List ℕ → Type 0
AllDigits [] = Unit {0}
AllDigits (c ∷ l) = (48 ≤ c) × (c ≤ 57) × AllDigits l

digits-AllDigits : (fuel n : ℕ) (acc : List ℕ) → AllDigits acc → AllDigits (digits fuel n acc)
unfolding digits
digits-AllDigits zero n acc a = a
digits-AllDigits (suc fuel) n acc a =
    ground
      (arith, digits-AllDigits fuel (n / 10) ((48 + n % 10) ∷ acc) (omega arith, omega arith, a))

pow_positive : (fuel n : ℕ) → n / 10 < 10 ^ fuel → 10 ≤ n → 0 < fuel
pow_positive zero n h b = absurd (omega arith)
pow_positive (suc fuel) n h b = omega arith

read_digits-digit :
    (seen : Bool) (a d : ℕ) (acc : List ℕ)
    → d < 10
    → read_digits seen a ((48 + d) ∷ acc) ≡ read_digits true (a * 10 + d) acc
unfolding read_digits
read_digits-digit seen a d acc h =
    let low : leb 48 (48 + d) ≡ true = ground arith in
    let high : leb (48 + d) 57 ≡ true = ground arith in
    let back : 48 + d - 48 ≡ d = omega arith in rw (low, high, back)

pub read_digits-digits :
    (fuel n : ℕ) (seen : Bool) (acc : List ℕ)
    → n < 10 ^ fuel
    → 0 < fuel
    → read_digits seen 0 (digits fuel n acc) ≡ read_digits true n acc
unfolding digits
read_digits-digits zero n seen acc h p = absurd (omega arith)
read_digits-digits (suc fuel) n seen acc h p = elim (Bool-cases (ltb n 10)) [
  | inl e ↦ rw e (
      read_digits-digit seen 0 n acc (ground arith)
      ∙ ap (λ x. read_digits true x acc) (omega arith))
  | inr e ↦
      let big : 10 ≤ n = ground arith in
      let room : n / 10 < 10 ^ fuel = omega (arith, pow-suc 10 fuel) in
      let more : 0 < fuel = pow_positive fuel n room big in
      let whole : n / 10 * 10 + n % 10 ≡ n = omega arith in
      rw e (
        read_digits-digits fuel (n / 10) seen ((48 + n % 10) ∷ acc) room more
        ∙ read_digits-digit true (n / 10) (n % 10) acc (omega arith)
        ∙ ap (λ x. read_digits true x acc) whole)
]

-- A text of digits: reading it as a C string skips nothing and ends at its end.
c_string-AllDigits : (l : List ℕ) → AllDigits l → c_string l ≡ l
unfolding c_string
c_string-AllDigits [] a = refl
c_string-AllDigits (c ∷ l) a = ground (arith, c_string-AllDigits l a.2)

skip_spaces-AllDigits : (l : List ℕ) → AllDigits l → skip_spaces l ≡ l
unfolding skip_spaces
skip_spaces-AllDigits [] a = refl
skip_spaces-AllDigits (c ∷ l) a = ground arith

read_sign-AllDigits : (l : List ℕ) → AllDigits l → read_sign l ≡ (false, l)
read_sign-AllDigits [] a = refl
read_sign-AllDigits (c ∷ l) a = ground arith

module _ (n : ℕ) (small : n < 10 ^ 20) where
  to_string-AllDigits : AllDigits (to_string n)
  unfolding to_string
  to_string-AllDigits = digits-AllDigits 20 n [] tt

  read-to_string : read_digits false 0 (to_string n) ≡ some (n, [])
  unfolding to_string read_digits
  read-to_string = read_digits-digits 20 n false [] small (omega arith)

  positive_text : read_sign (skip_spaces (c_string (to_string n))) ≡ (false, to_string n)
  positive_text = rw (c_string-AllDigits (to_string n) to_string-AllDigits) (
      rw (skip_spaces-AllDigits (to_string n) to_string-AllDigits)
        (read_sign-AllDigits (to_string n) to_string-AllDigits))

  negative_text : read_sign (skip_spaces (c_string (45 ∷ to_string n))) ≡ (true, to_string n)
  unfolding skip_spaces c_string
  negative_text = rw (c_string-AllDigits (to_string n) to_string-AllDigits)

-- What String2Int makes of a sign and the digits behind it.
abbrev parsed : Bool × List ℕ → Option ℕ
parsed (negative, l) = finish_long negative (read_digits false 0 l)

abbrev reads_sign : List ℕ → Bool × List ℕ
reads_sign l = read_sign (skip_spaces (c_string l))

negative_long :
    (n : ℕ) → n < u64_mod → ltb n long_limit ≡ false → to_long true (u64_mod - n) ≡ some n
negative_long n h e =
    let far : leb (u64_mod - n) long_limit ≡ true = ground (arith, e) in
    let nonzero : (u64_mod - n == 0) ≡ false = ground arith in
    rw (far, nonzero) (ap some (omega arith))

-- String2Int reads back what std::to_string writes for any int64_t.
pub string_to_long-long_to_string :
    (n : ℕ) → n < u64_mod → string_to_long (long_to_string n) ≡ some n
unfolding string_to_long long_to_string skip_spaces
string_to_long-long_to_string n h = elim (Bool-cases (ltb n long_limit)) [
  | inl e ↦
      rw e
        (ap parsed (positive_text n (omega arith)) ∙ (rw (read-to_string n (omega arith)) (rw e)))
  | inr e ↦ rw e (
      ap parsed (negative_text (u64_mod - n) (omega arith))
      ∙ (rw (read-to_string (u64_mod - n) (omega arith)) (negative_long n h e)))
]

only_spaces-some : (l : List ℕ) (o : Option ℕ) (n : ℕ) → only_spaces l o ≡ some n → o ≡ some n
only_spaces-some [] o n h = h
only_spaces-some (c ∷ l) o n h = absurd (some-ne-none n (sym h))

range_of-finish_long :
    (negative : Bool) (o : Option (ℕ × List ℕ)) (n : ℕ)
    → finish_long negative o ≡ some n
    → range_of negative o ≡ false
range_of-finish_long negative none n h = absurd (some-ne-none n (sym h))
range_of-finish_long negative (some (m, rest)) n h =
    rw (only_spaces-some (skip_spaces rest) (to_long negative m) n h, range_of)

-- String2Int that gives a number did not set errno to ERANGE, and left it alone for no text.
pub sets_erange-some :
    (stale : Bool) (l : List ℕ) (n : ℕ) → string_to_long l ≡ some n → sets_erange stale l ≡ false
unfolding sets_erange string_to_long
sets_erange-some stale [] n h = absurd (some-ne-none n (sym (h)))
sets_erange-some stale (c ∷ l) n h =
    range_of-finish_long (reads_sign (c ∷ l)).0 (read_digits false 0 (reads_sign (c ∷ l)).1) n h
