-- ===== src/Smem/Group/GatherLaws.antt =====
-- An all-gather gives every rank the blocks in the order of the ranks, whatever the order of the appends.
use memfabric_hybrid.Base.{
  ℕ, suc, ◌+◌, ◌*◌, ◌%◌, ◌≤◌, ◌<◌, ◌≡◌, refl, sym, ap, subst, ◌∙◌, true, List, [], ◌∷◌, ◌++◌, none,
  length, take, drop, u32_mod, arith, length-append, take-append, drop-append,
}
use mathlib.Core.List.{append_assoc, append-nil}
use native.Mathlib.Nat.{lt_of_le_of_lt, mul-add, mul_comm, suc-mul, add-mul, one-mul, mod-eq_of_lt}
use memfabric_hybrid.Base.Bytes.{
  le_bytes, from_le, from_le-le_bytes, take-le_bytes, length-le_bytes,
}
use memfabric_hybrid.Base.OrdMap.{All}
use memfabric_hybrid.Base.Pairs.{sort_pairs}
use memfabric_hybrid.Base.Assoc.{same_bytes, same_bytes_eq}
use memfabric_hybrid.Smem.Server.State.{Key, Value}
use memfabric_hybrid.Smem.Server.Outcomes.{value_or_empty}
use memfabric_hybrid.Smem.Client.Calls.{View, append_call, meaning}
use memfabric_hybrid.Smem.Group.Gather.{
  gather_input, gather_offsets, sort_gather_recv, append_all, gather_prefix_size,
}
use memfabric_hybrid.Smem.Group.Sorting.{
  Distinct, AllBelow, blocks, Tags, sorted, All-sort, copy_blocks-blocks,
}

-- What the ranks appended, in their order.
unfoldable units : (ℕ → Value) → List ℕ → Value
units sent [] = []
units sent (r ∷ l) = gather_input r (sent r) ++ units sent l

drop-parts : (n : ℕ) (xs ys : List ℕ) → length xs ≡ n → drop n (xs ++ ys) ≡ ys
drop-parts n xs ys e = subst (λ k. drop k (xs ++ ys) ≡ ys) e (drop-append xs ys)

take-parts : (n : ℕ) (xs ys : List ℕ) → length xs ≡ n → take n (xs ++ ys) ≡ xs
take-parts n xs ys e = subst (λ k. take k (xs ++ ys) ≡ xs) e (take-append xs ys)

-- The places of the units of u bytes.
unit_room :
    (i m u : ℕ)
    → (i * u + u ≤ (i + suc m) * u)
      × ((i + 1 + m) * u ≡ (i + suc m) * u)
      × ((i + 1) * u ≡ i * u + u)
unit_room i m u = (
  omega (arith, add-mul i (suc m) u, suc-mul m u),
  ap (λ x. x * u) (omega arith),
  add-mul i 1 u ∙ ap (λ x. i * u + x) (one-mul u),
)

unit_below : (i m u : ℕ) → (i + suc m) * u < u32_mod → i * u + u < u32_mod
unit_below i m u h = lt_of_le_of_lt (unit_room i m u).0 h

AllBelow-le : (n m : ℕ) (l : List ℕ) → n ≤ m → AllBelow n l → AllBelow m l
AllBelow-le n m [] h a = tt
AllBelow-le n m (r ∷ l) h a = (omega (arith, a.0), AllBelow-le n m l h a.1)

few_ranks : (n pre : ℕ) → n * (pre + gather_prefix_size) < u32_mod → n ≤ u32_mod
few_ranks n pre h = omega (arith, mul-add n pre gather_prefix_size, mul_comm n gather_prefix_size)

module _ (pre : ℕ) (sent : ℕ → Value) (sizes : (r : ℕ) → length (sent r) ≡ pre) where
  length-input : (r : ℕ) → length (gather_input r (sent r)) ≡ pre + gather_prefix_size
  unfolding gather_input
  length-input r =
      omega (arith, length-append (le_bytes 4 r) (sent r), length-le_bytes 4 r, sizes r)

  -- What the first loop finds at a unit.
  unit_at :
      (r : ℕ) (p rest : List ℕ) (idx : ℕ)
      → length p ≡ idx
      → r < u32_mod
      → (from_le (take 4 (drop idx (p ++ (gather_input r (sent r) ++ rest)))) ≡ r)
        × (take pre (drop (idx + gather_prefix_size) (p ++ (gather_input r (sent r) ++ rest)))
            ≡ sent r)
  unfolding gather_input
  unit_at r p rest idx e b =
      let flat : (le_bytes 4 r ++ sent r) ++ rest ≡ le_bytes 4 r ++ (sent r ++ rest) =
        append_assoc (le_bytes 4 r) (sent r) rest in
      let front : length (p ++ le_bytes 4 r) ≡ idx + gather_prefix_size =
        omega (arith, length-append p (le_bytes 4 r), length-le_bytes 4 r, e) in
      let again : p ++ (le_bytes 4 r ++ (sent r ++ rest))
          ≡ (p ++ le_bytes 4 r) ++ (sent r ++ rest) =
        sym (append_assoc p (le_bytes 4 r) (sent r ++ rest)) in
      (
        ap (λ x. from_le (take 4 x)) (drop-parts idx p _ e ∙ flat)
            ∙ ap from_le (take-le_bytes 4 r (sent r ++ rest))
            ∙ from_le-le_bytes 4 r b,
        ap (take pre) (
              ap (drop (idx + gather_prefix_size)) (ap (λ x. p ++ x) flat ∙ again)
              ∙ drop-parts (idx + gather_prefix_size) (p ++ le_bytes 4 r) (sent r ++ rest) front)
            ∙ take-parts pre (sent r) rest (sizes r),
      )

  gathered :
      (i : ℕ) (rs : List ℕ) (p whole : List ℕ)
      → whole ≡ p ++ units sent rs
      → length p ≡ i * (pre + gather_prefix_size)
      → (i + length rs) * (pre + gather_prefix_size) < u32_mod
      → AllBelow u32_mod rs
      → Tags rs (gather_offsets pre i (length rs) whole)
        × All (λ r o. take pre (drop o whole) ≡ sent r) (gather_offsets pre i (length rs) whole)
  unfolding gather_offsets units
  gathered i [] p whole e q b k = (tt, tt)
  gathered i (r ∷ rs) p whole e q b k =
      let u : ℕ = pre + gather_prefix_size in
      let (room, shift, next) = unit_room i (length rs) u in
      let low : i * u + u < u32_mod = unit_below i (length rs) u b in
      let idx : i * u % u32_mod ≡ i * u = mod-eq_of_lt (omega (arith, low)) in
      let behind : (i * u + gather_prefix_size) % u32_mod ≡ i * u + gather_prefix_size =
        mod-eq_of_lt (omega (arith, low)) in
      let input : Value = gather_input r (sent r) in
      let (rank_there, block_there) = unit_at r p (units sent rs) (i * u) q k.0 in
      let rank_found : from_le (take 4 (drop (i * u % u32_mod) whole)) ≡ r =
        rw idx (rw e rank_there) in
      let (tags, more) =
        gathered (i + 1) rs (p ++ input) whole (e ∙ sym (append_assoc p input (units sent rs)))
          (length-append p input ∙ omega (arith, q, next, length-input r))
          (subst (λ x. x < u32_mod) (sym shift) b) k.1 in
      (
        (rank_found, tags),
        (rw (idx) (rw behind (rw e (block_there ∙ ap sent (sym rank_there)))), more),
      )

  -- The key of an all-gather after the appends holds what the ranks appended, in their order.
  append_all-units :
      (k : Key) (rs : List ℕ) (f : View)
      → value_or_empty (append_all k sent rs f k) ≡ value_or_empty (f k) ++ units sent rs
  unfolding append_all units
  append_all-units k [] f = sym (append-nil (value_or_empty (f k)))
  append_all-units k (r ∷ rs) f =
      let here : same_bytes k k ≡ true = (same_bytes_eq k k).1 refl in
      let input : Value = gather_input r (sent r) in
      append_all-units k rs (meaning (append_call k input) f).1
      ∙ (rw here (append_assoc (value_or_empty (f k)) input (units sent rs)))

-- Whatever the order in which n ranks, each once and numbered from 0, append their blocks of the same size
-- to a key that is missing, where all units together have fewer than 2 ^ 32 bytes: what SortGatherRecv
-- makes of the key's value is the blocks of the ranks 0 to n - 1, one behind the other.
pub sort_gather_recv-append_all :
    (pre : ℕ) (sent : ℕ → Value) (k : Key) (rs : List ℕ) (f : View)
    → ((r : ℕ) → length (sent r) ≡ pre)
    → f k ≡ none
    → Distinct rs
    → AllBelow (length rs) rs
    → length rs * (pre + gather_prefix_size) < u32_mod
    → sort_gather_recv pre (length rs) (value_or_empty (append_all k sent rs f k))
      ≡ blocks sent 0 (length rs)
unfolding sort_gather_recv
sort_gather_recv-append_all pre sent k rs f sizes missing distinct below room =
    let whole : List ℕ = value_or_empty (append_all k sent rs f k) in
    let stored : whole ≡ units sent rs =
      append_all-units pre sent sizes k rs f ∙ (rw missing refl) in
    let few : length rs ≤ u32_mod = few_ranks (length rs) pre room in
    let (tags, found) =
      gathered pre sent sizes 0 rs [] whole stored (omega arith)
        (subst (λ x. x * (pre + gather_prefix_size) < u32_mod) (omega arith) room)
        (AllBelow-le (length rs) u32_mod rs few below) in
    let offsets : List (ℕ × ℕ) = gather_offsets pre 0 (length rs) whole in
    let (chain, ranks, long) = sorted (length rs) rs offsets tags distinct below in
    copy_blocks-blocks pre 0 (length rs) whole sent (sort_pairs offsets) chain (omega (arith, long))
      (All-sort (λ r o. take pre (drop o whole) ≡ sent r) offsets found)
    ∙ ap (blocks sent 0) long
