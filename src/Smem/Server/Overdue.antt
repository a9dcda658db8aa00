-- ===== src/Smem/Server/Overdue.antt =====
-- When a round of the timer thread, TimerThreadTask of smem_tcp_config_store_server.cpp, overlooks a deadline
-- that has passed.
use memfabric_hybrid.Base.{
  ℕ, ◌≤◌, ◌≡◌, refl, sym, ap, ◌∙◌, inl, inr, true, false, List, [], ◌∷◌, ◌++◌, none, some, In, ltb,
  leb, arith, Bool-cases, if◌then◌else◌,
}
use mathlib.Core.Bool.{false≢true}
use mathlib.Core.Option.{some-ne-none}
use memfabric_hybrid.Smem.Server.State.{Server, Waiter, Hooks}
use memfabric_hybrid.Smem.Server.Ranks.{member}
use memfabric_hybrid.Smem.Server.Links.{take_expired, timer_round}
use memfabric_hybrid.Smem.Server.WaiterLaws.{context, context-get_out_waiters}
use memfabric_hybrid.Smem.Server.Timer.{due, IsPrompt, TimesOut}

abbrev pub filed_ids : List (ℕ × List ℕ) → List ℕ
filed_ids [] = []
filed_ids ((deadline, ids) ∷ m) = ids ++ filed_ids m

-- Every deadline has a request, the requests of a deadline wait, and none is filed under two of them.
abbrev pub IsFiled : Server → List (ℕ × List ℕ) → Type 0
IsFiled s [] = Unit {0}
IsFiled s ((deadline, ids) ∷ m) =
    ((id : ℕ) × (member id ids ≡ true))
    × (((id : ℕ) → member id ids ≡ true → (w : Waiter) × (context id s ≡ some w))
        × (((id : ℕ) → member id ids ≡ true → member id (filed_ids m) ≡ false) × IsFiled s m))

member-append :
    (x : ℕ) (a b : List ℕ) → member x (a ++ b) ≡ (if member x a then true else member x b)
unfolding member
member-append x [] b = refl
member-append x (y ∷ a) b = ground (arith, member-append x a b)

due_of :
    (now d id : ℕ) (ids : List ℕ) (m : List (ℕ × List ℕ))
    → In (d, ids) m
    → d ≤ now
    → member id ids ≡ true
    → member id (due now m) ≡ true
unfolding due
due_of now d id ids [] i h k = absurd i
due_of now d id ids ((e, jds) ∷ m) (inl same) h k =
    let passed : leb e now ≡ true =
      ap (λ x. leb x now) (sym (ap (λ x. x.0) same)) ∙ (ground (arith, h)) in
    let here : member id jds ≡ true = ap (λ x. member id x.1) (sym same) ∙ k in
    rw passed (member-append id jds (due now m) ∙ (rw here refl))
due_of now d id ids ((e, jds) ∷ m) (inr i) h k =
    ground (arith, due_of now d id ids m i h k, member-append id jds (due now m))

due_filed :
    (now id : ℕ) (m : List (ℕ × List ℕ))
    → member id (due now m) ≡ true
    → member id (filed_ids m) ≡ true
unfolding due
due_filed now id [] h = h
due_filed now id ((d, ids) ∷ m) h = ground (
  arith,
  h,
  due_filed now id m,
  member-append id ids (due now m),
  member-append id ids (filed_ids m),
)

waiting_of :
    (s : Server) (d : ℕ) (ids : List ℕ) (m : List (ℕ × List ℕ))
    → IsFiled s m
    → In (d, ids) m
    → (id : ℕ) × (member id ids ≡ true)
waiting_of s d ids [] f i = absurd i
waiting_of s d ids ((e, jds) ∷ m) ((id, k), f) (inl same) = (id, ap (λ x. member id x.1) same ∙ k)
waiting_of s d ids ((e, jds) ∷ m) (first, (wait, (others, f))) (inr i) = waiting_of s d ids m f i

context_of :
    (s : Server) (id : ℕ) (m : List (ℕ × List ℕ))
    → IsFiled s m
    → member id (filed_ids m) ≡ true
    → (w : Waiter) × (context id s ≡ some w)
unfolding member
context_of s id [] f h = absurd (false≢true h)
context_of s id ((d, ids) ∷ m) (first, (wait, (others, f))) h = elim (Bool-cases (member id ids)) [
  | inl q ↦ wait id q
  | inr q ↦ context_of s id m f (sym (member-append id ids (filed_ids m) ∙ (rw q refl)) ∙ h)
]

none-IsPrompt :
    (now : ℕ) (m : List (ℕ × List ℕ))
    → ((d : ℕ) (ids : List ℕ) → In (d, ids) m → d ≤ now → ⊥)
    → IsPrompt now m
none-IsPrompt now [] h = tt
none-IsPrompt now ((d, ids) ∷ m) h = (
  λ later jds i p. absurd (h later jds (inr i) p),
  none-IsPrompt now m (λ e jds i p. h e jds (inr i) p),
)

taken-IsPrompt :
    (now : ℕ) (s : Server) (m : List (ℕ × List ℕ))
    → IsFiled s m
    → ((id : ℕ) → member id (due now m) ≡ true → member id (take_expired now m).0 ≡ true)
    → IsPrompt now m
unfolding take_expired due member
taken-IsPrompt now s [] f h = tt
taken-IsPrompt now s ((d, ids) ∷ m) (first, (wait, (others, f))) h = elim (Bool-cases (ltb now d)) [
  | inl q ↦
      let late : leb d now ≡ false = ground (arith, q) in
      let none_passed : (e : ℕ) (jds : List ℕ) → In (e, jds) m → e ≤ now → ⊥ = λ e jds i p.
        let (id, k) = waiting_of s e jds m f i in
        let own : member id (due now ((d, ids) ∷ m)) ≡ true =
          rw late (due_of now e id jds m i p k) in
        let taken : member id (take_expired now ((d, ids) ∷ m)).0 ≡ true = h id own in
        false≢true (rw q at taken) in
      (λ e jds i p. absurd (none_passed e jds i p), none-IsPrompt now m none_passed)
  | inr q ↦
      let passed : leb d now ≡ true = ground (arith, q) in
      (
        λ e jds i p. ground (arith, q),
        taken-IsPrompt now s m f (λ id k. elim (Bool-cases (member id ids)) [
          | inl c ↦ absurd (false≢true (sym (others id c) ∙ due_filed now id m k))
          | inr c ↦
              let own : member id (due now ((d, ids) ∷ m)) ≡ true =
                rw passed (member-append id ids (due now m) ∙ (rw c k)) in
              let taken : member id (ids ++ (take_expired now m).0) ≡ true = rw q at h id own in
              sym (member-append id ids (take_expired now m).0 ∙ (rw c refl)) ∙ taken
        ]),
      )
]

-- Where every deadline of the map has a request, these wait, and none is filed twice: a round of the
-- timer does its work only if no deadline that has passed comes behind one that is still to come.
pub timer_round-IsPrompt :
    (h : Hooks) (now : ℕ) (s : Server)
    → IsFiled s s.timed_waiters
    → TimesOut h now s
    → IsPrompt now s.timed_waiters
unfolding timer_round
timer_round-IsPrompt h now s f t = taken-IsPrompt now s s.timed_waiters f (λ id k.
    let ids : List ℕ = (take_expired now s.timed_waiters).0 in
    let left : Server = record s { timed_waiters = (take_expired now s.timed_waiters).1 } in
    let (w, c) = context_of s id s.timed_waiters f (due_filed now id s.timed_waiters k) in
    let out : (if member id ids then none else context id s) ≡ none =
      sym (context-get_out_waiters id ids left) ∙ t.waiting id ∙ (rw k refl) in
    elim (Bool-cases (member id ids)) [
      | inl q ↦ q
      | inr q ↦ absurd (some-ne-none w (sym c ∙ (rw q at out)))
    ])
