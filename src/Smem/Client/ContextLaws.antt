-- ===== src/Smem/Client/ContextLaws.antt =====
-- A blocked call ends with its response or with the link.
use memfabric_hybrid.Base.{
  ℕ, ◌≡◌, sym, Bool, true, false, List, [], ◌∷◌, Option, none, some, ◌==◌, ==_iff, if◌then◌else◌,
  arith,
}
use mathlib.Core.Option.{some-ne-none}
use memfabric_hybrid.Base.Assoc.{Assoc, lookup, lookup-put, lookup-remove}
use memfabric_hybrid.Smem.Server.Ranks.{member}
use memfabric_hybrid.Smem.Server.Waiters.{without}
use memfabric_hybrid.Smem.Client.Contexts.{
  Context, waiting, watching, Client, file_context, null_response, blocked, begin_blocked,
  send_watch, unwatch, receive_response, link_broken_handler,
}

-- The caller that a context's SetFinished or SetFailedFinish wakes.
abbrev pub wake : ℕ → Option Context → List ℕ → List ℕ
wake n none l = l
wake n (some watching) l = l
wake n (some waiting) l = without n l

unfoldable pub wake_all : List (ℕ × Context) → List ℕ → List ℕ
wake_all [] l = l
wake_all ((n, x) ∷ m) l = wake_all m (wake n (some x) l)

abbrev pub idle_client : Bool → Client
idle_client linked = record { contexts = []; next_seq = 0; linked = linked; connected = linked }

-- The runs of a client, with the numbers of the calls that are blocked. A number is in use by one request
-- at a time.
pub data Run : Client → List ℕ → Type 0 where
  start : (linked : Bool) → Run (idle_client linked) []
  called :
      (sent : Bool) (n : ℕ) (c : Client) (l : List ℕ)
      → Run c l
      → lookup ◌==◌ c.next_seq c.contexts ≡ none
      → (begin_blocked sent c).0 ≡ blocked n
      → Run (begin_blocked sent c).1 (n ∷ l)
  returned :
      (sent : Bool) (c : Client) (l : List ℕ)
      → Run c l
      → lookup ◌==◌ c.next_seq c.contexts ≡ none
      → (begin_blocked sent c).0 ≡ null_response
      → Run (begin_blocked sent c).1 l
  watched :
      (sent : Bool) (c : Client) (l : List ℕ)
      → Run c l
      → lookup ◌==◌ c.next_seq c.contexts ≡ none
      → Run (send_watch sent c).1 l
  unwatched : (n : ℕ) (c : Client) (l : List ℕ) → Run c l → Run (unwatch n c).1 l
  answered :
      (n : ℕ) (c : Client) (l : List ℕ)
      → Run c l
      → Run (receive_response n c).1 (wake n (receive_response n c).0 l)
  broken :
      (c : Client) (l : List ℕ)
      → Run c l
      → Run (link_broken_handler c).1 (wake_all (link_broken_handler c).0 l)

-- Every blocked call has its context.
abbrev pub Kept : Client → List ℕ → Type 0
Kept c l = (n : ℕ) → member n l ≡ true → lookup ◌==◌ n c.contexts ≡ some waiting

pub lookup-file_context :
    (n k : ℕ) (x : Context) (m : Assoc ℕ Context)
    → lookup ◌==◌ n m ≡ none
    → lookup ◌==◌ k (file_context n x m) ≡ (if n == k then some x else lookup ◌==◌ k m)
unfolding file_context
lookup-file_context n k x m e = rw (e, file_context) (lookup-put ◌==◌ ==_iff n k x m)

member-without :
    (n k : ℕ) (l : List ℕ)
    → member k (without n l) ≡ true
    → (member k l ≡ true) × ((n == k) ≡ false)
unfolding member without
member-without n k [] h = absurd (cc)
member-without n k (i ∷ l) h = ground (arith, member-without n k l)

-- What is woken behind a list of contexts that has all the callers.
pub member-wake_all :
    (m : Assoc ℕ Context) (l : List ℕ) (k : ℕ) → member k (wake_all m l) ≡ true → member k l ≡ true
unfolding wake_all
member-wake_all [] l k h = h
member-wake_all ((n, waiting) ∷ m) l k h =
    (member-without n k l (member-wake_all m (without n l) k h)).0
member-wake_all ((n, watching) ∷ m) l k h = member-wake_all m l k h

pub not_woken :
    (m : Assoc ℕ Context) (l : List ℕ) (k : ℕ)
    → lookup ◌==◌ k m ≡ some waiting
    → member k (wake_all m l) ≡ false
unfolding wake_all lookup
not_woken [] l k e = absurd (some-ne-none waiting (sym e))
not_woken ((n, waiting) ∷ m) l k e =
    ground
      (arith, member-wake_all m (without n l) k, member-without n k l, not_woken m (without n l) k)
not_woken ((n, watching) ∷ m) l k e = ground (arith, not_woken m l k)

called-Kept :
    (sent : Bool) (n : ℕ) (c : Client) (l : List ℕ)
    → Kept c l
    → lookup ◌==◌ c.next_seq c.contexts ≡ none
    → (begin_blocked sent c).0 ≡ blocked n
    → Kept (begin_blocked sent c).1 (n ∷ l)
unfolding begin_blocked member
called-Kept sent n c l h e s k q =
    ground (arith, h k, lookup-file_context c.next_seq k waiting c.contexts e)

returned-Kept :
    (sent : Bool) (c : Client) (l : List ℕ)
    → Kept c l
    → lookup ◌==◌ c.next_seq c.contexts ≡ none
    → Kept (begin_blocked sent c).1 l
unfolding begin_blocked
returned-Kept sent c l h e k q =
    ground (arith, h k, lookup-file_context c.next_seq k waiting c.contexts e)

watched-Kept :
    (sent : Bool) (c : Client) (l : List ℕ)
    → Kept c l
    → lookup ◌==◌ c.next_seq c.contexts ≡ none
    → Kept (send_watch sent c).1 l
unfolding send_watch
watched-Kept sent c l h e k q =
    ground (arith, h k, lookup-file_context c.next_seq k watching c.contexts e)

unwatched-Kept : (n : ℕ) (c : Client) (l : List ℕ) → Kept c l → Kept (unwatch n c).1 l
unfolding unwatch
unwatched-Kept n c l h k q = ground (arith, h k, lookup-remove ◌==◌ ==_iff n k c.contexts)

answered-Kept :
    (n : ℕ) (c : Client) (l : List ℕ)
    → Kept c l
    → Kept (receive_response n c).1 (wake n (receive_response n c).0 l)
unfolding receive_response
answered-Kept n c l h k q =
    ground (arith, h k, member-without n k l, lookup-remove ◌==◌ ==_iff n k c.contexts)

broken-Kept :
    (c : Client) (l : List ℕ)
    → Kept c l
    → Kept (link_broken_handler c).1 (wake_all (link_broken_handler c).0 l)
unfolding link_broken_handler
broken-Kept c l h k q =
    ground (arith, h k, member-wake_all c.contexts l k, not_woken c.contexts l k)

pub Run-Kept : (c : Client) (l : List ℕ) → Run c l → Kept c l
unfolding member
Run-Kept _ _ (start linked) = λ n h. absurd (cc)
Run-Kept _ _ (called sent n c l r e s) = called-Kept sent n c l (Run-Kept c l r) e s
Run-Kept _ _ (returned sent c l r e s) = returned-Kept sent c l (Run-Kept c l r) e
Run-Kept _ _ (watched sent c l r e) = watched-Kept sent c l (Run-Kept c l r) e
Run-Kept _ _ (unwatched n c l r) = unwatched-Kept n c l (Run-Kept c l r)
Run-Kept _ _ (answered n c l r) = answered-Kept n c l (Run-Kept c l r)
Run-Kept _ _ (broken c l r) = broken-Kept c l (Run-Kept c l r)
