-- ===== src/Smem/Server/WaiterLaws.antt =====
-- The waiting requests: no one waits for a key that is stored, and taking a key's waiters out takes
-- all of them.
use memfabric_hybrid.Base.{
  ℕ, ◌<◌, ◌≡◌, refl, ap, subst, ◌∙◌, true, false, inl, inr, List, [], ◌∷◌, Option, none, some, ◌==◌,
  ==_iff, if◌then◌else◌, Bool-cases, Option-cases, In, In-append_right,
}
use mathlib.Core.Bool.{false≢true}
use memfabric_hybrid.Base.Assoc.{lookup, same_bytes, same_bytes_eq, lookup-remove}
use memfabric_hybrid.Smem.Packer.{pack}
use memfabric_hybrid.Smem.Server.State.{
  Key, Value, Request, Waiter, Server, Hooks, backend_get, success, response, reply_bytes,
}
use memfabric_hybrid.Smem.Server.Waiters.{get_out, get_out_waiters, release_ids, release, wakeup}
use memfabric_hybrid.Smem.Server.Handlers.{ids_of}
use memfabric_hybrid.Smem.Server.Ranks.{member}

abbrev pub context : ℕ → Server → Option Waiter
context id s = lookup ◌==◌ id s.contexts

abbrev pub waiters_of : Key → Server → List ℕ
waiters_of k s = ids_of (lookup same_bytes k s.key_waiters)

-- Every waiting request is filed under its key, the key is not stored, and its id was given out.
pub record IsWatched (s : Server) : Type 0 where
  pub listed : (id : ℕ) (w : Waiter) → context id s ≡ some w → member id (waiters_of w.key s) ≡ true
  pub missing : (id : ℕ) (w : Waiter) → context id s ≡ some w → backend_get w.key s.store ≡ none
  pub given : (id : ℕ) (w : Waiter) → context id s ≡ some w → id < s.next_id

context-get_out :
    (i id : ℕ) (o : Option Waiter) (s : Server)
    → context i s ≡ o
    → context id (get_out i o s).1 ≡ (if i == id then none else context id s)
context-get_out i id none s e = elim (Bool-cases (i == id)) [
  | inl q ↦ rw q (subst (λ j. context j s ≡ none) ((==_iff i id).0 q) e)
  | inr q ↦ rw q
]
context-get_out i id (some w) s e = lookup-remove ◌==◌ ==_iff i id s.contexts

pub context-get_out_waiters :
    (id : ℕ) (ids : List ℕ) (s : Server)
    → context id (get_out_waiters ids s).1 ≡ (if member id ids then none else context id s)
unfolding get_out_waiters member
context-get_out_waiters id [] s = refl
context-get_out_waiters id (i ∷ ids) s =
    let s1 : Server = (get_out i (context i s) s).1 in
    context-get_out_waiters id ids s1
    ∙ rw (context-get_out i id (context i s) s refl) (elim (Bool-cases (i == id)) [
      | inl q ↦ rw q (elim (Bool-cases (member id ids)) [ inl m ↦ rw m | inr m ↦ rw m ])
      | inr q ↦ rw q
    ])

abbrev pub Framed : Server → Server → Type 0
Framed s t = (t.store ≡ s.store) × (t.key_waiters ≡ s.key_waiters) × (t.next_id ≡ s.next_id)

get_out-frame : (i : ℕ) (o : Option Waiter) (s : Server) → Framed s (get_out i o s).1
get_out-frame i none s = (refl, refl, refl)
get_out-frame i (some w) s = (refl, refl, refl)

pub get_out_waiters-frame : (ids : List ℕ) (s : Server) → Framed s (get_out_waiters ids s).1
unfolding get_out_waiters
get_out_waiters-frame [] s = (refl, refl, refl)
get_out_waiters-frame (i ∷ ids) s =
    let (a, b, c) = get_out-frame i (context i s) s in
    let (d, e, f) = get_out_waiters-frame ids (get_out i (context i s) s).1 in (d ∙ a, e ∙ b, f ∙ c)

-- A request that waits is among those that are taken out with its id.
pub In-get_out_waiters :
    (id : ℕ) (w : Waiter) (ids : List ℕ) (s : Server)
    → context id s ≡ some w
    → member id ids ≡ true
    → In w.request (get_out_waiters ids s).0
unfolding get_out_waiters member
In-get_out_waiters id w [] s e h = absurd (false≢true h)
In-get_out_waiters id w (i ∷ ids) s e h = elim (Bool-cases (i == id)) [
  | inl q ↦
      let here : context i s ≡ some w = ap (λ j. context j s) ((==_iff i id).0 q) ∙ e in
      rw here (inl refl)
  | inr q ↦
      let s1 : Server = (get_out i (context i s) s).1 in
      In-append_right w.request (get_out i (context i s) s).0 (get_out_waiters ids s1).0 (
        In-get_out_waiters id w ids s1 (context-get_out i id (context i s) s refl ∙ rw q e)
          (rw q at h))
]

-- Who waits after the waiters of k were taken out.
pub release-contexts :
    (k : Key) (s : Server) (id : ℕ)
    → context id (release k s).1 ≡ (if member id (waiters_of k s) then none else context id s)
unfolding release member
release-contexts k s id = elim (Option-cases (lookup same_bytes k s.key_waiters)) [
  | inl e ↦ rw (e, release_ids)
  | inr (ids, e) ↦ rw (e, release_ids) (context-get_out_waiters id ids s)
]

pub release-frame :
    (k : Key) (s : Server)
    → ((release k s).1.store ≡ s.store)
      × ((release k s).1.next_id ≡ s.next_id)
      × ((j : Key) → same_bytes k j ≡ false → waiters_of j (release k s).1 ≡ waiters_of j s)
unfolding release
release-frame k s = elim (Option-cases (lookup same_bytes k s.key_waiters)) [
  | inl e ↦ rw (e, release_ids) (refl, refl, λ j d. refl)
  | inr (ids, e) ↦
      let (a, b, c) = get_out_waiters-frame ids s in
      rw (e, release_ids)
        (
          a,
          c,
          λ j d. ap ids_of (
              lookup-remove same_bytes same_bytes_eq k j (get_out_waiters ids s).1.key_waiters
              ∙ (rw d)
              ∙ ap (λ m. lookup same_bytes j m) b),
        )
]

pub release-requests :
    (k : Key) (s : Server) (id : ℕ) (w : Waiter)
    → context id s ≡ some w
    → member id (waiters_of k s) ≡ true
    → In w.request (release k s).0
unfolding release member
release-requests k s id w e h = elim (Option-cases (lookup same_bytes k s.key_waiters)) [
  | inl q ↦ absurd (false≢true (rw q at h))
  | inr (ids, q) ↦ rw (q, release_ids) (In-get_out_waiters id w ids s e (rw q at h))
]

-- WakeupWaiters replies to every request of its list whose link stands.
pub In-wakeup :
    (h : Hooks) (r : Request) (rs : List Request) (v : Value)
    → In r rs
    → h.established r.link ≡ true
    → In (reply_bytes r success (pack (response 1 v))) (wakeup h rs v)
unfolding wakeup
In-wakeup h r [] v i e = absurd i
In-wakeup h r (q ∷ rs) v (inl same) e = rw (← same) (rw e (inl refl))
In-wakeup h r (q ∷ rs) v (inr i) e = elim (Bool-cases (h.established q.link)) [
  | inl d ↦ rw d (inr (In-wakeup h r rs v i e))
  | inr d ↦ rw d (In-wakeup h r rs v i e)
]
