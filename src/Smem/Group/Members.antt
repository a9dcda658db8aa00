-- ===== src/Smem/Group/Members.antt =====
-- What a rank has done of each barrier, and the invariant of the ranks of a group.
use memfabric_hybrid.Base.{
  ℕ, ◌≤◌, ◌<◌, ◌≡◌, sym, ap, ◌∙◌, inl, inr, Bool, true, false, not, ◌&&◌, ◌||◌, some, ltb, ◌==◌,
  arith, Bool-cases, u32_mod,
}
use memfabric_hybrid.Smem.Server.State.{Key}
use memfabric_hybrid.Smem.Server.AddingLaws.{number_at}
use memfabric_hybrid.Smem.Client.Calls.{View}
use memfabric_hybrid.Smem.Group.{
  Stage, outside, adding, setting, awaiting, failed, removing_add, removing_wait, Member, Group,
  set_member, add_key, wait_key, is_set,
}
use memfabric_hybrid.Smem.Group.Card.{card, card_mono}

abbrev pub is_adding : Stage → Bool
is_adding adding = true
is_adding outside = false
is_adding setting = false
is_adding awaiting = false
is_adding failed = false
is_adding (removing_add val) = false
is_adding (removing_wait val) = false

-- The rank is behind its Add of the barrier.
unfoldable pub performed : Member → ℕ → Bool
performed m sn = ltb sn m.sn || (m.sn == sn && not (is_adding m.stage))

abbrev pub Everyone : ℕ → (ℕ → Bool) → Type 0
Everyone n p = (i : ℕ) → i < n → p i ≡ true

-- What is known where a rank stands at a stage of the barrier `sn`, of the ranks `p i sn` behind their Add.
abbrev pub StageFits : ℕ → (ℕ → ℕ → Bool) → ℕ → Stage → Type 0
StageFits n p sn outside = Everyone n (λ i. p i sn)
StageFits n p sn adding = Unit {0}
StageFits n p sn (removing_add val) = val ≤ card n (λ i. p i sn)
StageFits n p sn (removing_wait val) = val ≤ card n (λ i. p i sn)
StageFits n p sn setting = Everyone n (λ i. p i sn)
StageFits n p sn awaiting = Unit {0}
StageFits n p sn failed = Unit {0}

pub StageFits-mono :
    (n : ℕ) (p q : ℕ → ℕ → Bool) (sn : ℕ) (s : Stage)
    → ((i k : ℕ) → p i k ≡ true → q i k ≡ true)
    → StageFits n p sn s
    → StageFits n q sn s
StageFits-mono n p q sn outside h f = λ i b. h i sn (f i b)
StageFits-mono n p q sn adding h f = tt
StageFits-mono n p q sn (removing_add val) h c =
    omega (arith, c, card_mono n (λ i. p i sn) (λ i. q i sn) (λ i. h i sn))
StageFits-mono n p q sn (removing_wait val) h c =
    omega (arith, c, card_mono n (λ i. p i sn) (λ i. q i sn) (λ i. h i sn))
StageFits-mono n p q sn setting h f = λ i b. h i sn (f i b)
StageFits-mono n p q sn awaiting h f = tt
StageFits-mono n p q sn failed h f = tt

abbrev pub done_by : Group → ℕ → ℕ → Bool
done_by g i sn = performed (g.members i) sn

-- The number at a key is at most `c`.
abbrev pub CountLe : ℕ → Key → View → Type 0
CountLe c k f = (x : ℕ) → number_at (f k) ≡ some x → x ≤ c

-- No barrier's count exceeds the ranks that are behind their Add of it, and no barrier's status is set before
-- all are.
pub record IsSound (base : Key) (n : ℕ) (g : Group) : Type 0 where
  pub counts :
      (sn : ℕ) → sn < u32_mod → CountLe (card n (λ i. done_by g i sn)) (add_key base sn) g.view
  pub flags :
      (sn : ℕ)
      → sn < u32_mod
      → is_set (g.view (wait_key base sn)) ≡ true
      → Everyone n (λ i. done_by g i sn)
  pub fits : (r : ℕ) → r < n → StageFits n (done_by g) (g.members r).sn (g.members r).stage
  pub bounded : (r : ℕ) → r < n → (g.members r).sn < u32_mod

-- The group with another state of the rank r, and another store.
abbrev pub moved : ℕ → Member → View → Group → Group
moved r m f g = record { members = set_member r m g.members; view = f }

pub done_by-moved :
    (r : ℕ) (m : Member) (f : View) (g : Group)
    → ((sn : ℕ) → performed (g.members r) sn ≡ true → performed m sn ≡ true)
    → (i sn : ℕ) → done_by g i sn ≡ true
    → done_by (moved r m f g) i sn ≡ true
done_by-moved r m f g h i sn e = elim (Bool-cases (i == r)) [
  | inl q ↦
      let at : i ≡ r = ground (arith, q) in
      rw q (h sn (ap (λ j. performed (g.members j) sn) (sym at) ∙ e))
  | inr q ↦ rw q e
]

-- A step of one rank keeps the invariant, where it keeps what the rank is behind, and the store's counts
-- and flags.
pub moved-IsSound :
    (base : Key) (n r : ℕ) (m : Member) (f : View) (g : Group)
    → IsSound base n g
    → ((sn : ℕ) → performed (g.members r) sn ≡ true → performed m sn ≡ true)
    → ((sn : ℕ)
        → sn < u32_mod
        → CountLe (card n (λ i. done_by (moved r m f g) i sn)) (add_key base sn) f)
    → ((sn : ℕ)
        → sn < u32_mod
        → is_set (f (wait_key base sn)) ≡ true
        → Everyone n (λ i. done_by (moved r m f g) i sn))
    → StageFits n (done_by (moved r m f g)) m.sn m.stage
    → m.sn < u32_mod
    → IsSound base n (moved r m f g)
moved-IsSound base n r m f g s h counts flags fits bound = record {
  counts = counts;
  flags = flags;
  fits = λ i b. elim (Bool-cases (i == r)) [
    | inl q ↦ rw q fits
    | inr q ↦ rw q (
        StageFits-mono n (done_by g) (done_by (moved r m f g)) (g.members i).sn (g.members i).stage
          (λ j k. done_by-moved r m f g h j k) (s.fits i b))
  ];
  bounded = λ i b. elim (Bool-cases (i == r)) [ inl q ↦ rw q bound | inr q ↦ rw q (s.bounded i b) ];
}
