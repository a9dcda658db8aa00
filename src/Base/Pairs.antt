-- ===== src/Base/Pairs.antt =====
-- std::sort of pairs of numbers, which compares the first numbers, and the second ones where these agree.
use memfabric_hybrid.Base.Tests.{ltb, leb, ◌==◌, if◌then◌else◌}
use Prim.Native.Nat.{ℕ}
use mathlib.Core.Bool.{Bool, ◌&&◌, ◌||◌}
use mathlib.Core.List.{List, [], ◌∷◌}

-- std::sort of pairs, by insertion.
abbrev pub pair_le : ℕ × ℕ → ℕ × ℕ → Bool
pair_le (a, b) (c, d) = ltb a c || (a == c && leb b d)

unfoldable pub insert_pair : ℕ × ℕ → List (ℕ × ℕ) → List (ℕ × ℕ)
insert_pair p [] = p ∷ []
insert_pair p (q ∷ l) = if pair_le p q then p ∷ q ∷ l else q ∷ insert_pair p l

unfoldable pub sort_pairs : List (ℕ × ℕ) → List (ℕ × ℕ)
unfolding insert_pair
sort_pairs [] = []
sort_pairs (p ∷ l) = insert_pair p (sort_pairs l)
