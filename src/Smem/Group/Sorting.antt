-- ===== src/Smem/Group/Sorting.antt =====
-- Sorting the pairs of SortGatherRecv puts the ranks in their order.
use memfabric_hybrid.Base.{
  ℕ, zero, suc, ◌+◌, ◌≤◌, ◌<◌, ◌≡◌, refl, ap, subst, ◌∙◌, inl, inr, Bool, true, false, List, [],
  ◌∷◌, ◌++◌, length, take, drop, ◌==◌, if◌then◌else◌, arith, Bool-cases,
}
use memfabric_hybrid.Base.OrdMap.{All}
use memfabric_hybrid.Base.Pairs.{pair_le, insert_pair, sort_pairs}
use memfabric_hybrid.Base.Ranges.{Chain}
use memfabric_hybrid.Smem.Server.State.{Value}
use memfabric_hybrid.Smem.Server.Ranks.{member}
use memfabric_hybrid.Smem.Group.Gather.{copy_blocks}

abbrev pub one : ℕ → ℕ
one offset = 1

-- Each rank once, and all below n.
abbrev pub Distinct : List ℕ → Type 0
Distinct [] = Unit {0}
Distinct (r ∷ l) = (member r l ≡ false) × Distinct l

abbrev pub AllBelow : ℕ → List ℕ → Type 0
AllBelow n [] = Unit {0}
AllBelow n (r ∷ l) = (r < n) × AllBelow n l

-- The blocks of n ranks from the rank b on.
unfoldable pub blocks : (ℕ → Value) → ℕ → ℕ → Value
blocks sent b zero = []
blocks sent b (suc n) = sent b ++ blocks sent (b + 1) n

unfoldable pub has_rank : ℕ → List (ℕ × ℕ) → Bool
has_rank r [] = false
has_rank r ((a, o) ∷ l) = if a == r then true else has_rank r l

Chain-insert :
    (lo hi a o : ℕ) (l : List (ℕ × ℕ))
    → Chain one lo hi l
    → lo ≤ a
    → a < hi
    → has_rank a l ≡ false
    → Chain one lo hi (insert_pair (a, o) l)
unfolding insert_pair has_rank
Chain-insert lo hi a o [] c h k e = (h, omega arith, omega arith)
Chain-insert lo hi a o ((j, w) ∷ l) c h k e = ground (arith, Chain-insert (j + 1) hi a o l c.2)

has_rank-insert :
    (r a o : ℕ) (l : List (ℕ × ℕ))
    → has_rank r (insert_pair (a, o) l) ≡ (if a == r then true else has_rank r l)
unfolding insert_pair has_rank
has_rank-insert r a o [] = refl
has_rank-insert r a o ((j, w) ∷ l) = ground (arith, has_rank-insert r a o l)

length-insert : (a o : ℕ) (l : List (ℕ × ℕ)) → length (insert_pair (a, o) l) ≡ length l + 1
unfolding insert_pair
length-insert a o [] = refl
length-insert a o ((j, w) ∷ l) = ground (arith, length-insert a o l)

Chain-length : (lo hi : ℕ) (l : List (ℕ × ℕ)) → Chain one lo hi l → lo + length l ≤ hi
Chain-length lo hi [] c = omega (arith, c)
Chain-length lo hi ((j, w) ∷ l) c = omega (arith, c.0, Chain-length (j + 1) hi l c.2)

module _ (P : ℕ → ℕ → Type 0) where
  All-insert : (a o : ℕ) (l : List (ℕ × ℕ)) → P a o → All P l → All P (insert_pair (a, o) l)
  unfolding insert_pair
  All-insert a o [] h k = (h, tt)
  All-insert a o ((j, w) ∷ l) h k = elim (Bool-cases (pair_le (a, o) (j, w))) [
    | inl e ↦ rw e (h, k)
    | inr e ↦ rw e (k.0, All-insert a o l h k.1)
  ]

  pub All-sort : (l : List (ℕ × ℕ)) → All P l → All P (sort_pairs l)
  unfolding sort_pairs
  All-sort [] k = tt
  All-sort ((j, w) ∷ l) k = All-insert j w (sort_pairs l) k.0 (All-sort l k.1)

-- The pairs stand for the ranks, in their order.
abbrev pub Tags : List ℕ → List (ℕ × ℕ) → Type 0
Tags [] [] = Unit {0}
Tags [] (x ∷ l) = ⊥
Tags (r ∷ rs) [] = ⊥
Tags (r ∷ rs) ((a, o) ∷ l) = (a ≡ r) × Tags rs l

pub sorted :
    (n : ℕ) (rs : List ℕ) (l : List (ℕ × ℕ))
    → Tags rs l
    → Distinct rs
    → AllBelow n rs
    → Chain one 0 n (sort_pairs l)
      × ((k : ℕ) → has_rank k (sort_pairs l) ≡ member k rs)
      × (length (sort_pairs l) ≡ length rs)
unfolding sort_pairs has_rank member
sorted n [] [] t d b = (omega arith, λ k. refl, refl)
sorted n [] (x ∷ l) t d b = absurd t
sorted n (r ∷ rs) [] t d b = absurd t
sorted n (r ∷ rs) ((a, o) ∷ l) (same, t) (fresh, d) (below, b) =
    let (chain, ranks, long) = sorted n rs l t d b in
    (
      Chain-insert 0 n a o (sort_pairs l) chain (omega arith) (omega (arith, same))
          (ranks a ∙ ap (λ x. member x rs) same ∙ fresh),
      λ k. has_rank-insert k a o (sort_pairs l) ∙ (rw (ranks k) (rw same refl)),
      omega (arith, length-insert a o (sort_pairs l), long),
    )

pub copy_blocks-blocks :
    (pre b hi : ℕ) (bytes : List ℕ) (sent : ℕ → Value) (l : List (ℕ × ℕ))
    → Chain one b hi l
    → hi ≡ b + length l
    → All (λ r o. take pre (drop o bytes) ≡ sent r) l
    → copy_blocks pre bytes l ≡ blocks sent b (length l)
unfolding copy_blocks blocks
copy_blocks-blocks pre b hi bytes sent [] c e a = refl
copy_blocks-blocks pre b hi bytes sent ((j, o) ∷ l) c e a =
    let here : j ≡ b = omega (arith, c.0, Chain-length (j + 1) hi l c.2, e) in
    let rest : copy_blocks pre bytes l ≡ blocks sent (b + 1) (length l) =
      copy_blocks-blocks pre (b + 1) hi bytes sent l (subst (λ x. Chain one (x + 1) hi l) here c.2)
        (omega (arith, e)) a.1 in
    λ i. (a.0 ∙ ap sent here) i ++ rest i
