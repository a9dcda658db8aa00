-- ===== src/Smem/Group/Barrier.antt =====
-- GroupBarrier lets no rank through before every rank has entered.
use memfabric_hybrid.Base.{
  ℕ, ◌+◌, ◌≤◌, ◌<◌, ◌≡◌, ◌⊎◌, refl, sym, ap, subst, ◌∙◌, inl, inr, Bool, true, false, ◌&&◌, none,
  some, ltb, ◌==◌, ==_iff, arith, Bool-cases, u32_mod, u64_mod, add64,
}
use mathlib.Core.Bool.{false≢true}
use mathlib.Core.Option.{some-injective}
use memfabric_hybrid.Base.Assoc.{same_bytes}
use memfabric_hybrid.Smem.Server.State.{Key}
use memfabric_hybrid.Smem.Server.Adding.{long_to_string}
use memfabric_hybrid.Smem.Server.AddingLaws.{number_at}
use memfabric_hybrid.Smem.Client.Calls.{View, update}
use memfabric_hybrid.Smem.Client.Decoding.{only_zero}
use memfabric_hybrid.Smem.Client.Numbers.{string_to_long-long_to_string}
use memfabric_hybrid.Smem.Group.{
  Stage, adding, Member, Group, add_key, wait_key, is_set, behind_add, to_wait, remove_interval,
}
use memfabric_hybrid.Smem.Group.Card.{card, card_le, card_all, card_mono, card_more}
use memfabric_hybrid.Smem.Group.Keys.{same_add_key, add_key-wait_key}
use memfabric_hybrid.Smem.Group.Members.{
  is_adding, performed, Everyone, StageFits, StageFits-mono, done_by, CountLe, IsSound, moved,
  done_by-moved, moved-IsSound,
}

pub performed-stage :
    (m : Member) (st : Stage) (k : ℕ)
    → is_adding st ≡ false
    → performed m k ≡ true
    → performed (record m { stage = st }) k ≡ true
unfolding performed
performed-stage m st k e h = ground (arith, e)

pub is_set-none : is_set none ≡ false
unfolding same_bytes
is_set-none = refl

-- A stage that is not at Add, with a store that lost keys at most.
pub shrunk :
    (base : Key) (n r : ℕ) (st : Stage) (f : View) (g : Group)
    → IsSound base n g
    → r < n
    → is_adding st ≡ false
    → ((k : Key) → (f k ≡ g.view k) ⊎ (f k ≡ none))
    → StageFits n (done_by g) (g.members r).sn st
    → IsSound base n (moved r (record (g.members r) { stage = st }) f g)
shrunk base n r st f g s b e less fit =
    let m : Member = record (g.members r) { stage = st } in
    let more : (i k : ℕ) → done_by g i k ≡ true → done_by (moved r m f g) i k ≡ true =
      done_by-moved r m f g (λ k. performed-stage (g.members r) st k e) in
    moved-IsSound base n r m f g s (λ k. performed-stage (g.members r) st k e)
      (λ sn h x q. elim (less (add_key base sn)) [
        | inl same ↦ omega (
          arith,
          s.counts sn h x (ap number_at (sym same) ∙ q),
          card_mono n (λ i. done_by g i sn) (λ i. done_by (moved r m f g) i sn) (λ i. more i sn),
        )
        | inr gone ↦
            let zero_count : 0 ≡ x = some-injective 0 x (ap number_at (sym gone) ∙ q) in
            omega (arith, zero_count)
      ])
      (λ sn h q i c. elim (less (wait_key base sn)) [
        | inl same ↦ more i sn (s.flags sn h (ap is_set (sym same) ∙ q) i c)
        | inr gone ↦ absurd (false≢true (sym is_set-none ∙ ap is_set (sym gone) ∙ q))
      ])
      (StageFits-mono n (done_by g) (done_by (moved r m f g)) m.sn st more fit) (s.bounded r b)

pub to_wait-fits :
    (n val sn : ℕ) (p : ℕ → ℕ → Bool)
    → val ≤ card n (λ i. p i sn)
    → StageFits n p sn (to_wait n val)
to_wait-fits n val sn p c = elim (Bool-cases (val == n)) [
  | inr e ↦ rw (e, to_wait) tt
  | inl e ↦
      let full : card n (λ i. p i sn) ≡ n = ground (arith, e, card_le n (λ i. p i sn)) in
      rw (e, to_wait) (λ i b. card_all n i (λ j. p j sn) full b)
]

pub to_wait-is_adding : (n val : ℕ) → is_adding (to_wait n val) ≡ false
to_wait-is_adding n val = ground arith

number_at-long : (n : ℕ) → n < u64_mod → number_at (some (long_to_string n)) ≡ some n
number_at-long n h = rw (string_to_long-long_to_string n h) (ground (arith, only_zero n))

behind_add-fits :
    (n val sn : ℕ) (p : ℕ → ℕ → Bool)
    → val ≤ card n (λ i. p i sn)
    → StageFits n p sn (behind_add n sn val)
behind_add-fits n val sn p c = elim (Bool-cases (val == 1 && ltb remove_interval sn)) [
  | inl e ↦ rw (e, behind_add) c
  | inr e ↦ rw (e, behind_add) (to_wait-fits n val sn p c)
]

behind_add-is_adding : (n sn val : ℕ) → is_adding (behind_add n sn val) ≡ false
behind_add-is_adding n sn val = ground arith

adding_not_performed : (m : Member) → m.stage ≡ adding → performed m m.sn ≡ false
unfolding performed
adding_not_performed m e = rw e (ground arith)

stage_performed :
    (m : Member) (st : Stage)
    → is_adding st ≡ false
    → performed (record m { stage = st }) m.sn ≡ true
unfolding performed
stage_performed m st e = ground (arith, e)

-- The Add of a rank that succeeds.
module _ (base : Key) (n r x : ℕ) (g : Group) (s : IsSound base n g) (b : r < n)
    (small : n < u32_mod) (at : (g.members r).stage ≡ adding)
    (count : number_at (g.view (add_key base (g.members r).sn)) ≡ some x) where
  abbrev sn : ℕ
  sn = (g.members r).sn

  abbrev st : Stage
  st = behind_add n sn (add64 x 1)

  abbrev f : View
  f = update (add_key base sn) (long_to_string (add64 x 1)) g.view

  abbrev m : Member
  m = record (g.members r) { stage = st }

  keeps : (k : ℕ) → performed (g.members r) k ≡ true → performed m k ≡ true
  keeps k = performed-stage (g.members r) st k (behind_add-is_adding n sn (add64 x 1))

  grown : card n (λ i. done_by g i sn) + 1 ≤ card n (λ i. done_by (moved r m f g) i sn)
  grown =
      let here : (r == r) ≡ true = (==_iff r r).1 refl in
      card_more n r (λ i. done_by g i sn) (λ i. done_by (moved r m f g) i sn) b
        (adding_not_performed (g.members r) at)
        (rw here (stage_performed (g.members r) st (behind_add-is_adding n sn (add64 x 1))))
        (λ i. done_by-moved r m f g keeps i sn)

  sum : (add64 x 1 ≡ x + 1) × (x + 1 ≤ card n (λ i. done_by (moved r m f g) i sn))
  sum =
      let low : x ≤ card n (λ i. done_by g i sn) = s.counts sn (s.bounded r b) x count in
      (omega (arith, low, card_le n (λ i. done_by g i sn)), omega (arith, low, grown))

  count_kept :
      (k : ℕ) → k < u32_mod → CountLe (card n (λ i. done_by (moved r m f g) i k)) (add_key base k) f
  count_kept k h y q = elim (Bool-cases (sn == k)) [
    | inl e ↦
        let same : sn ≡ k = ground (arith, e) in
        let key : same_bytes (add_key base sn) (add_key base k) ≡ true =
          same_add_key base sn k (omega (arith, s.bounded r b)) (omega arith) ∙ e in
        let value : add64 x 1 ≡ y =
          some-injective _ _ (sym (number_at-long (add64 x 1) (omega arith)) ∙ (rw key at q)) in
        subst (λ j. y ≤ card n (λ i. done_by (moved r m f g) i j)) same (omega (arith, value, sum))
    | inr e ↦
        let key : same_bytes (add_key base sn) (add_key base k) ≡ false =
          same_add_key base sn k (omega (arith, s.bounded r b)) (omega arith) ∙ e in
        omega (
          arith,
          s.counts k h y (rw key at q),
          card_mono n (λ i. done_by g i k) (λ i. done_by (moved r m f g) i k)
              (λ i. done_by-moved r m f g keeps i k),
        )
  ]

  flag_kept :
      (k : ℕ)
      → k < u32_mod
      → is_set (f (wait_key base k)) ≡ true
      → Everyone n (λ i. done_by (moved r m f g) i k)
  flag_kept k h q i c =
      let key : same_bytes (add_key base sn) (wait_key base k) ≡ false =
        add_key-wait_key base sn k (omega (arith, s.bounded r b)) (omega arith) in
      done_by-moved r m f g keeps i k (s.flags k h (rw key at q) i c)

  pub added-IsSound : IsSound base n (moved r m f g)
  added-IsSound =
      moved-IsSound base n r m f g s keeps count_kept flag_kept
        (behind_add-fits n (add64 x 1) sn (done_by (moved r m f g)) (omega (arith, sum)))
        (s.bounded r b)
