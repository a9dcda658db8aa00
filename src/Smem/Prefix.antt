-- ===== src/Smem/Prefix.antt =====
-- PrefixConfigStore, src/smem/csrc/config_store/tcp_store/smem_prefix_config_store.h: every call goes to
-- the store below it, with the prefix before its key. Watch, which calls back with the key that it was
-- given, and the methods that only pass a call on are left out.
pub mod Sharing
mod Examples
use memfabric_hybrid.Base.{
  ℕ, ◌≡◌, refl, ap, inl, inr, Bool, true, false, List, [], ◌∷◌, ◌++◌, Option, none, some,
  Bool-cases, Option-cases, if◌then◌else◌,
}
use mathlib.Core.List.{append_assoc}
use memfabric_hybrid.Base.Assoc.{same_bytes}
use memfabric_hybrid.Smem.Server.State.{Key, Value}
use memfabric_hybrid.Smem.Server.AddingLaws.{number_at}
use memfabric_hybrid.Smem.Server.Exchanging.{matches}
use memfabric_hybrid.Smem.Server.Outcomes.{value_or_empty}
use memfabric_hybrid.Smem.Client.Calls.{
  Call, set_call, get_call, remove_call, append_call, cas_call, add_call, write_call, View, update,
  forget, added, meaning,
}
use memfabric_hybrid.Smem.Group.Keys.{same_bytes-append}

-- The constructor's keyPrefix_, over a store with the common prefix `common`.
abbrev pub new_prefix : Key → Key → Key
new_prefix common prefix = common ++ prefix

-- GetCompleteKey
abbrev pub get_complete_key : Key → Key → Key
get_complete_key p k = p ++ k

-- Set, GetReal, Remove, Append, Cas, Add and Write.
unfoldable pub with_prefix : Key → Call → Call
with_prefix p (set_call k v) = set_call (p ++ k) v
with_prefix p (append_call k v) = append_call (p ++ k) v
with_prefix p (get_call k) = get_call (p ++ k)
with_prefix p (remove_call k) = remove_call (p ++ k)
with_prefix p (cas_call k x y) = cas_call (p ++ k) x y
with_prefix p (add_call k n) = add_call (p ++ k) n
with_prefix p (write_call k v offset) = write_call (p ++ k) v offset

-- What a map has under a prefix.
abbrev pub under : Key → View → View
under p f k = f (p ++ k)

module _ (p k : Key) (f : View) where
  under-update : (v : Value) → under p (update (p ++ k) v f) ≡ update k v (under p f)
  under-update v = λ i j. if same_bytes-append p k j i then some v else f (p ++ j)

  under-forget : under p (forget (p ++ k) f) ≡ forget k (under p f)
  under-forget = λ i j. if same_bytes-append p k j i then none else f (p ++ j)

-- Whether the key begins with the prefix.
abbrev pub Outside : Key → Key → Type 0
Outside p j = (k : Key) → same_bytes (p ++ k) j ≡ false

-- What a call of a prefix store is: the same answer and the same change as on the map under the prefix, and
-- no change elsewhere.
pub record IsScoped (p : Key) (q : Call) (f : View) : Type 0 where
  pub answer : (meaning (with_prefix p q) f).0 ≡ (meaning q (under p f)).0
  pub inside : under p (meaning (with_prefix p q) f).1 ≡ (meaning q (under p f)).1
  pub outside : (j : Key) → Outside p j → (meaning (with_prefix p q) f).1 j ≡ f j

added-scoped :
    (p k : Key) (n : ℕ) (f : View) (o : Option ℕ)
    → ((added (p ++ k) n f o).0 ≡ (added k n (under p f) o).0)
      × (under p (added (p ++ k) n f o).1 ≡ (added k n (under p f) o).1)
      × ((j : Key) → Outside p j → (added (p ++ k) n f o).1 j ≡ f j)
added-scoped p k n f none = (refl, refl, λ j h. refl)
added-scoped p k n f (some stored) = (refl, under-update p k f _, λ j h. rw (h k) refl)

-- Any call through a prefix store means on the whole map what the call means on the keys under the prefix:
-- it has the same answer, changes the keys under the prefix in the same way, and leaves every other
-- key alone.
pub with_prefix-IsScoped : (p : Key) (q : Call) (f : View) → IsScoped p q f
unfolding with_prefix
with_prefix-IsScoped p (set_call k v) f = record {
  answer = refl;
  inside = under-update p k f v;
  outside = λ j h. rw (h k) refl;
}
with_prefix-IsScoped p (append_call k v) f = record {
  answer = refl;
  inside = under-update p k f _;
  outside = λ j h. rw (h k) refl;
}
with_prefix-IsScoped p (get_call k) f = record {
  answer = refl;
  inside = refl;
  outside = λ j h. refl;
}
with_prefix-IsScoped p (remove_call k) f = record {
  answer = refl;
  inside = under-forget p k f;
  outside = λ j h. rw (h k) refl;
}
with_prefix-IsScoped p (cas_call k x y) f = elim (Bool-cases (matches x (f (p ++ k)))) [
  | inl e ↦ record {
    answer = refl;
    inside = rw e (under-update p k f y);
    outside = λ j h. rw e (rw (h k) refl);
  }
  | inr e ↦ record { answer = refl; inside = rw e refl; outside = λ j h. rw e refl }
]
with_prefix-IsScoped p (add_call k n) f =
    let (same, change, rest) = added-scoped p k n f (number_at (f (p ++ k))) in
    record { answer = same; inside = change; outside = rest }
with_prefix-IsScoped p (write_call k v offset) f = record {
  answer = refl;
  inside = under-update p k f _;
  outside = λ j h. rw (h k) refl;
}
