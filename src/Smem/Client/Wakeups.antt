-- ===== src/Smem/Client/Wakeups.antt =====
-- Every blocked call of a client is woken, and a call whose send failed leaves its context behind.
use memfabric_hybrid.Base.{
  ℕ, ◌≡◌, refl, sym, ◌∙◌, inl, inr, true, false, List, [], ◌∷◌, none, some, ◌==◌, ==_iff, arith,
  Bool-cases, In,
}
use mathlib.Core.Option.{some-injective, some-ne-none}
use memfabric_hybrid.Base.Assoc.{Assoc, lookup}
use memfabric_hybrid.Smem.Server.Ranks.{member}
use memfabric_hybrid.Smem.Client.Contexts.{
  Context, waiting, Client, null_response, begin_blocked, receive_response, link_broken_handler,
}
use memfabric_hybrid.Smem.Client.ContextLaws.{
  Run, wake_all, Run-Kept, member-wake_all, not_woken, lookup-file_context,
}

no_members : (l : List ℕ) → ((k : ℕ) → member k l ≡ false) → l ≡ []
unfolding member
no_members [] h = refl
no_members (i ∷ l) h = absurd (ground (arith, h i))

-- In every run of a client in which a number is in use by one request at a time, whether or not its
-- sends succeed: the response to any blocked call wakes that call, and a broken link wakes every blocked
-- call, so that none is left.
pub Run-wakes :
    (c : Client) (l : List ℕ)
    → Run c l
    → ((n : ℕ) → member n l ≡ true → (receive_response n c).0 ≡ some waiting)
      × (wake_all (link_broken_handler c).0 l ≡ [])
unfolding receive_response link_broken_handler
Run-wakes c l r = (
  λ n h. rw (Run-Kept c l r n h) refl,
  no_members (wake_all c.contexts l) (λ k. elim (Bool-cases (member k (wake_all c.contexts l))) [
    | inr e ↦ e
    | inl e ↦ not_woken c.contexts l k (Run-Kept c l r k (member-wake_all c.contexts l k e))
  ]),
)

lookup-In : (n : ℕ) (x : Context) (m : Assoc ℕ Context) → lookup ◌==◌ n m ≡ some x → In (n, x) m
unfolding lookup
lookup-In n x [] e = absurd (some-ne-none x (sym e))
lookup-In n x ((j, y) ∷ m) e = elim (Bool-cases (j == n)) [
  | inl q ↦
      let same_number : j ≡ n = (==_iff j n).0 q in
      let same_context : y ≡ x = some-injective y x (rw q at e) in
      inl (λ i. (sym same_number i, sym same_context i))
  | inr q ↦ inr (lookup-In n x m (rw q at e))
]

-- In every such run, a blocked call over a link that fails to send returns a null response, but leaves
-- its context in the table, although the call is not blocked: when the link breaks next, the
-- context's SetFailedFinish runs behind the end of the call whose mutex and condition it refers to.
pub Run-dangles :
    (c : Client) (l : List ℕ)
    → Run c l
    → c.linked ≡ true
    → lookup ◌==◌ c.next_seq c.contexts ≡ none
    → ((begin_blocked false c).0 ≡ null_response)
      × (member c.next_seq l ≡ false)
      × In (c.next_seq, waiting) (link_broken_handler (begin_blocked false c).1).0
unfolding begin_blocked link_broken_handler
Run-dangles c l r up fresh =
    let here : (c.next_seq == c.next_seq) ≡ true = (==_iff c.next_seq c.next_seq).1 refl in
    (
      rw up refl,
      elim (Bool-cases (member c.next_seq l)) [
        | inr e ↦ e
        | inl e ↦ absurd (some-ne-none waiting (sym (Run-Kept c l r c.next_seq e) ∙ fresh))
      ],
      rw up (
          lookup-In c.next_seq waiting _
            (lookup-file_context c.next_seq c.next_seq waiting c.contexts fresh ∙ (rw here))),
    )
