-- ===== src/Smem/Server/RankLaws.antt =====
-- FindOrInsertRank ends, and gives out a rank that is not alive.
use memfabric_hybrid.Base.{
  ℕ, zero, suc, ◌+◌, ◌%◌, ◌≤◌, ◌<◌, ◌≡◌, ◌⊎◌, refl, sym, ap, ◌∙◌, true, false, inl, inr, List, [],
  ◌∷◌, none, some, length, leb, ◌==◌, if◌then◌else◌, arith, Bool-cases, Option-cases,
}
use mathlib.Core.Option.{some-injective, some-ne-none}
use mathlib.Core.Bool.{false≢true}
use native.Mathlib.Nat.{mod-lt, mod-eq_of_lt, mod_self}
use memfabric_hybrid.Base.Bytes.{le_bytes}
use memfabric_hybrid.Smem.Packer.{SmemMessage, pack}
use memfabric_hybrid.Smem.Server.State.{
  Key, Server, Request, Outcome, success, response, reply_bytes, backend_get,
}
use memfabric_hybrid.Smem.Server.StoreLaws.{get-put_same}
use memfabric_hybrid.Smem.Server.Waiters.{without}
use memfabric_hybrid.Smem.Server.Ranks.{
  member, scan, rank_key, ranked, insert_rank, find_or_insert_rank,
}

member-without :
    (x r : ℕ) (l : List ℕ) → member r (without x l) ≡ (if x == r then false else member r l)
unfolding member without
member-without x r [] = ground arith
member-without x r (y ∷ l) = ground (arith, member-without x r l)

length-without-le : (x : ℕ) (l : List ℕ) → length (without x l) ≤ length l
unfolding without
length-without-le x [] = omega arith
length-without-le x (y ∷ l) = ground (arith, length-without-le x l)

length-without-lt : (x : ℕ) (l : List ℕ) → member x l ≡ true → length (without x l) < length l
unfolding without member
length-without-lt x [] h = absurd (false≢true h)
length-without-lt x (y ∷ l) h = ground (arith, length-without-le x l, length-without-lt x l)

-- A list that has every rank below n has at least n entries.
members-length : (n : ℕ) (l : List ℕ) → ((r : ℕ) → r < n → member r l ≡ true) → n ≤ length l
members-length zero l h = omega arith
members-length (suc n) l h = omega (
  arith,
  length-without-lt n l (h n (omega arith)),
  members-length n (without n l) (λ r b. ground (arith, member-without n r l, h r (omega arith))),
)

-- What a scan that found nothing has seen: the ranks from `x` on, and those from 0 on after the last.
abbrev Seen : ℕ → ℕ → ℕ → List ℕ → Type 0
Seen f world x alive =
    (r : ℕ) → r < world → ((x ≤ r) × (r ≤ x + f)) ⊎ (r + world ≤ x + f) → member r alive ≡ true

step-mod :
    (x world : ℕ)
    → x < world
    → ((x + 1 < world) × ((x + 1) % world ≡ x + 1)) ⊎ ((x + 1 ≡ world) × ((x + 1) % world ≡ 0))
step-mod x world b = elim (Bool-cases (x + 1 == world)) [
  | inl e ↦
      let same : x + 1 ≡ world = ground arith in
      inr (same, ap (λ y. y % world) same ∙ mod_self world)
  | inr e ↦ let less : x + 1 < world = ground arith in inl (less, mod-eq_of_lt less)
]

scan-none :
    (f world i : ℕ) (alive : List ℕ)
    → scan (suc f) world i alive ≡ none
    → (member (i % world) alive ≡ true) × (scan f world (i % world + 1) alive ≡ none)
unfolding scan
scan-none f world i alive e = elim (Bool-cases (member (i % world) alive)) [
  | inl q ↦ (q, rw q at e)
  | inr q ↦ absurd (some-ne-none (i % world) (rw q at e))
]

-- One step of the scan from x, whose next start is y.
Seen-step :
    (f world x y : ℕ) (alive : List ℕ)
    → x < world
    → ((x + 1 < world) × (y ≡ x + 1)) ⊎ ((x + 1 ≡ world) × (y ≡ 0))
    → member x alive ≡ true
    → Seen f world y alive
    → Seen (suc f) world x alive
Seen-step f world x y alive b next here later r c h = elim (Bool-cases (x == r)) [
  | inl e ↦ let same : x ≡ r = ground arith in rw (← same) here
  | inr e ↦ later r c (ground arith)
]

scan-Seen :
    (f world i : ℕ) (alive : List ℕ)
    → 0 < world
    → scan (suc f) world i alive ≡ none
    → Seen f world (i % world) alive
scan-Seen zero world i alive p e = λ r b h.
    let same : i % world ≡ r = ground (arith, mod-lt i p) in
    rw (← same) (scan-none zero world i alive e).0
scan-Seen (suc f) world i alive p e =
    let (here, later) = scan-none (suc f) world i alive e in
    Seen-step f world (i % world) ((i % world + 1) % world) alive (mod-lt i p)
      (step-mod (i % world) world (mod-lt i p)) here
      (scan-Seen f world (i % world + 1) alive p later)

scan-free :
    (f world i r : ℕ) (alive : List ℕ)
    → 0 < world
    → scan f world i alive ≡ some r
    → (member r alive ≡ false) × (r < world)
unfolding scan
scan-free zero world i r alive p e = absurd (some-ne-none r (sym e))
scan-free (suc f) world i r alive p e = elim (Bool-cases (member (i % world) alive)) [
  | inl q ↦ scan-free f world (i % world + 1) r alive p (rw q at e)
  | inr q ↦
      let same : i % world ≡ r = some-injective (i % world) r (rw q at e) in
      (rw (← same) q, rw (← same) (mod-lt i p))
]

-- While fewer ranks are alive than the world has, the loop finds a free one in as many rounds as the
-- world has ranks.
scan-total :
    (world i : ℕ) (alive : List ℕ)
    → length alive < world
    → (r : ℕ) × (scan world world i alive ≡ some r) × (member r alive ≡ false) × (r < world)
scan-total zero i alive p = absurd (omega arith)
scan-total (suc n) i alive p = elim (Option-cases (scan (suc n) (suc n) i alive)) [
  | inr (r, e) ↦
      let (free, small) = scan-free (suc n) (suc n) i r alive (omega arith) e in (r, e, free, small)
  | inl e ↦
      let seen : Seen n (suc n) (i % suc n) alive = scan-Seen n (suc n) i alive (omega arith) e in
      absurd (
        omega (
          arith,
          members-length (suc n) alive (λ r b. seen r b (elim (Bool-cases (leb (i % suc n) r)) [
            | inl q ↦ inl (ground arith, omega arith)
            | inr q ↦ inr (ground arith)
          ])),
        ))
]

-- What FindOrInsertRank does for a link that has no rank yet while the world is not full.
pub record Ranked (req : Request) (m : SmemMessage) (k : Key) (s : Server) (r : ℕ) (o : Outcome)
    : Type 0 where
  pub answered : find_or_insert_rank req m k s ≡ some o
  pub free : member r s.alive ≡ false
  pub small : r < s.world_size
  pub replied : o.replies ≡ reply_bytes req success (pack (response m.mt (le_bytes 4 r))) ∷ []
  pub stored : backend_get (rank_key k req.link) o.state.store ≡ some (le_bytes 4 r)
  pub alive : o.state.alive ≡ r ∷ s.alive

-- FindOrInsertRank for a link without a rank, while fewer ranks are alive than the world has: its loop
-- ends within as many rounds as the world has ranks, and it replies with a rank below the world's size
-- that was not alive, which it records as alive and stores under the link's key.
pub find_or_insert_rank-Ranked :
    (req : Request) (m : SmemMessage) (k : Key) (s : Server)
    → backend_get (rank_key k req.link) s.store ≡ none
    → length s.alive < s.world_size
    → (r : ℕ) × ((o : Outcome) × Ranked req m k s r o)
unfolding find_or_insert_rank
find_or_insert_rank-Ranked req m k s e p =
    let (r, found, free, small) = scan-total s.world_size s.rank_index s.alive p in
    let room : leb s.world_size (length s.alive) ≡ false = ground arith in
    (
      r,
      (
        ranked req m k r s,
        record {
          answered = rw (e, find_or_insert_rank) (rw room (rw (found, insert_rank)));
          free = free;
          small = small;
          replied = refl;
          stored = get-put_same (rank_key k req.link) (le_bytes 4 r) s.store;
          alive = refl;
        },
      ),
    )
