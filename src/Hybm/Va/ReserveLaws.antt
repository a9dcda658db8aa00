-- ===== src/Hybm/Va/ReserveLaws.antt =====
-- Reserving and freeing address ranges keeps them disjoint and inside the reserve window.
use memfabric_hybrid.Base.{
  ℕ, ◌+◌, ◌≤◌, ◌<◌, ◌≡◌, refl, ◌⊎◌, inl, inr, sym, ap, subst, ◌∙◌, true, false, Option, none, some,
  ◌==◌, if◌then◌else◌, arith, u64_mod, Bool-cases, Option-cases, is_some,
}
use mathlib.Core.Option.{some-injective, some-ne-none}
use memfabric_hybrid.Base.OrdMap.{
  OrdMap, find, assign, All, All-assign, All-erase, All-find, find-assign, erase-assign,
}
use memfabric_hybrid.Base.Ranges.{
  Chain, Clear, Chain-assign, Chain-erase, Chain-bounds, Chain-Rising,
}
use memfabric_hybrid.Hybm.Va.Types.{MemType, ReservedGvaInfo, VaManager, empty_reserved}
use memfabric_hybrid.Hybm.Va.Reserve.{
  find_free_space, reserve_at, alloc_reserve_gva, free_reserve_gva,
}
use memfabric_hybrid.Hybm.Va.Reserve.Gaps.{
  reserved_size, find_free_space-Clear, find_free_space-lowest,
}

pub record IsReserveValid (s : VaManager) : Type 0 where
  pub positive : 0 < s.reserve_start
  pub small : s.reserve_end < u64_mod
  pub chain : Chain reserved_size s.reserve_start s.reserve_end s.reserved
  pub keyed : All (λ k r. r.start ≡ k) s.reserved

-- The range [x, x + size) lies in the window and meets no reserved range.
pub record IsFree (s : VaManager) (size x : ℕ) : Type 0 where
  pub from : s.reserve_start ≤ x
  pub to : x + size ≤ s.reserve_end
  pub clear : Clear reserved_size x size s.reserved

-- What a reservation at `r.start` promises.
pub record Reserves (s : VaManager) (rank size : ℕ) (t : MemType) (r : ReservedGvaInfo)
    (s' : VaManager) : Type 0 where
  pub size_eq : r.size ≡ size
  pub rank_eq : r.local_rank_id ≡ rank
  pub type_eq : r.mem_type ≡ t
  pub free : IsFree s size r.start
  pub lowest : (x : ℕ) → IsFree s size x → r.start ≤ x
  pub kept : (k : ℕ) → find k s'.reserved ≡ (if r.start == k then some r else find k s.reserved)
  pub undone : free_reserve_gva r.start s' ≡ s

-- What a call of AllocReserveGva does, and when.
abbrev pub ReserveOutcome : VaManager → ℕ → ℕ → MemType → Type 0
ReserveOutcome s rank size t =
    ((alloc_reserve_gva rank size t s ≡ (empty_reserved, s)) × ((x : ℕ) → ¬ IsFree s size x))
    ⊎ ((r : ReservedGvaInfo) × (s' : VaManager) × (alloc_reserve_gva rank size t s ≡ (r, s'))
        × Reserves s rank size t r s')

Clear-find :
    (a size : ℕ) (s : VaManager)
    → IsReserveValid s
    → 0 < size
    → Clear reserved_size a size s.reserved
    → find a s.reserved ≡ none
Clear-find a size s v p k = elim (Option-cases (find a s.reserved)) [
  | inl e ↦ e
  | inr (r, e) ↦ absurd (
      omega (
        arith,
        All-find _ a r s.reserved k e,
        Chain-bounds reserved_size s.reserve_start s.reserve_end a r s.reserved v.chain e,
      ))
]

free_reserve-assigned :
    (a : ℕ) (r : ReservedGvaInfo) (s : VaManager)
    → IsReserveValid s
    → 0 < a
    → find a s.reserved ≡ none
    → free_reserve_gva a (record s { reserved = assign a r s.reserved }) ≡ s
unfolding free_reserve_gva
free_reserve-assigned a r s v p e =
    let nonzero : (a == 0) ≡ false = ground arith in
    let held : is_some (find a (assign a r s.reserved)) ≡ true =
      ground (arith, find-assign a a r s.reserved) in
    rw (nonzero, held)
      (ap (λ (m : OrdMap ReservedGvaInfo). record s { reserved = m })
        (erase-assign a r s.reserved
          (Chain-Rising reserved_size s.reserve_start s.reserve_end s.reserved v.chain) e))

reserved-IsReserveValid :
    (s : VaManager) (a : ℕ) (r : ReservedGvaInfo)
    → IsReserveValid s
    → r.start ≡ a
    → 0 < r.size
    → IsFree s r.size a
    → IsReserveValid (record s { reserved = assign a r s.reserved })
reserved-IsReserveValid s a r v k p f = record {
  positive = v.positive;
  small = v.small;
  chain =
      Chain-assign reserved_size s.reserve_start s.reserve_end a r s.reserved v.chain f.from f.to p
        f.clear;
  keyed = All-assign _ a r s.reserved k v.keyed;
}

module _ (s : VaManager) (v : IsReserveValid s) (rank size : ℕ) (t : MemType) (p : 0 < size) where
  found :
      (a : ℕ)
      → find_free_space s.reserve_start s.reserve_end size s.reserved ≡ some a
      → IsFree s size a
  found a e =
      let (l, h, k) =
        find_free_space-Clear s.reserve_start s.reserve_end size s.reserved v.chain v.keyed v.small
          a e in
      record { from = l; to = h; clear = k }

  lowest :
      (a : ℕ)
      → find_free_space s.reserve_start s.reserve_end size s.reserved ≡ some a
      → (x : ℕ) → IsFree s size x
      → a ≤ x
  lowest a e x f =
      let (b, e', low) =
        find_free_space-lowest s.reserve_start s.reserve_end size s.reserved v.chain v.keyed v.small
          x p f.from f.to f.clear in
      subst (λ y. y ≤ x) (some-injective b a (sym e' ∙ e)) low

  full :
      find_free_space s.reserve_start s.reserve_end size s.reserved ≡ none
      → (x : ℕ) → ¬ IsFree s size x
  full e x f =
      let (b, e', low) =
        find_free_space-lowest s.reserve_start s.reserve_end size s.reserved v.chain v.keyed v.small
          x p f.from f.to f.clear in
      some-ne-none b (sym e' ∙ e)

  -- Where the reserved ranges are disjoint and in the window, AllocReserveGva of a non-zero size
  -- either fails, changes nothing, and no free range is large enough; or it reserves the range for
  -- the caller at the lowest free place, keeps the other reservations, and FreeReserveGva at its
  -- start restores the manager.
  pub alloc_reserve_gva_outcome : ReserveOutcome s rank size t
  unfolding alloc_reserve_gva
  alloc_reserve_gva_outcome =
      let nonzero : (size == 0) ≡ false = ground arith in
      elim (Option-cases (find_free_space s.reserve_start s.reserve_end size s.reserved)) [
        | inl e ↦ inl (rw nonzero (rw (e, reserve_at)), full e)
        | inr (a, e) ↦
            let r : ReservedGvaInfo = record {
              start = a;
              size = size;
              mem_type = t;
              local_rank_id = rank;
            } in
            let s' : VaManager = record s { reserved = assign a r s.reserved } in
            let f : IsFree s size a = found a e in
            inr (
              r,
              s',
              rw nonzero (rw (e, reserve_at)),
              record {
                size_eq = refl;
                rank_eq = refl;
                type_eq = refl;
                free = f;
                lowest = lowest a e;
                kept = λ k. find-assign a k r s.reserved;
                undone =
                    free_reserve-assigned a r s v (omega (arith, f.from, v.positive))
                      (Clear-find a size s v p f.clear);
              },
            )
      ]

-- AllocReserveGva keeps the reserved ranges disjoint and in the window, whatever it is asked.
pub alloc_reserve_gva-IsReserveValid :
    (s : VaManager) (rank size : ℕ) (t : MemType)
    → IsReserveValid s
    → IsReserveValid (alloc_reserve_gva rank size t s).1
unfolding alloc_reserve_gva
alloc_reserve_gva-IsReserveValid s rank size t v = elim (Bool-cases (size == 0)) [
  | inl e ↦ rw e v
  | inr e ↦
      rw e (
        outcome (find_free_space s.reserve_start s.reserve_end size s.reserved) refl (ground arith))
]
  where
    outcome :
        (o : Option ℕ)
        → find_free_space s.reserve_start s.reserve_end size s.reserved ≡ o
        → 0 < size
        → IsReserveValid (reserve_at rank size t o s).1
    outcome none e p = v
    outcome (some a) e p = reserved-IsReserveValid s a _ v refl p (found s v rank size t p a e)

pub free_reserve_gva-IsReserveValid :
    (s : VaManager) (addr : ℕ) → IsReserveValid s → IsReserveValid (free_reserve_gva addr s)
unfolding free_reserve_gva
free_reserve_gva-IsReserveValid s addr v = elim (Bool-cases (addr == 0)) [
  | inl e ↦ rw e v
  | inr e ↦ rw e (elim (Bool-cases (is_some (find addr s.reserved))) [
    | inl h ↦ rw h (record {
      positive = v.positive;
      small = v.small;
      chain = Chain-erase reserved_size s.reserve_start s.reserve_end addr s.reserved v.chain;
      keyed = All-erase _ addr s.reserved v.keyed;
    })
    | inr h ↦ rw h v
  ])
]
