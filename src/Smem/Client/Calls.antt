-- ===== src/Smem/Client/Calls.antt =====
-- The calls of a client over its link, and what they mean on a map of keys to values.
use memfabric_hybrid.Base.{
  ℕ, ◌+◌, ◌*◌, ◌≤◌, ◌<◌, ◌≡◌, false, List, [], ◌∷◌, ◌++◌, Option, none, some, length, take,
  if◌then◌else◌, u32_mod, u64_mod, add64,
}
use memfabric_hybrid.Base.Assoc.{same_bytes}
use memfabric_hybrid.Smem.Packer.{max_value_size}
use memfabric_hybrid.Smem.Server.State.{
  Key, Value, success, invalid_message, not_exist, backend_get, Server,
}
use memfabric_hybrid.Smem.Server.Adding.{long_to_string, long_limit}
use memfabric_hybrid.Smem.Server.AddingLaws.{number_at}
use memfabric_hybrid.Smem.Server.Exchanging.{matches}
use memfabric_hybrid.Smem.Server.Outcomes.{value_or_empty}
use memfabric_hybrid.Smem.Server.Ranks.{auto_ranking}
use memfabric_hybrid.Smem.Server.Updates.{overwrite}
use memfabric_hybrid.Smem.Client.{
  Code, store_code, max_key_len_client, set, get, add, remove, append, cas, write,
}
use memfabric_hybrid.Smem.Client.Serving.{Site, Session, send}

-- GET does not wait here, and the number of ADD is the bit pattern of an int64_t.
pub data Call : Type 0 where
  set_call append_call : Key → Value → Call
  get_call remove_call : Key → Call
  cas_call : Key → Value → Value → Call
  add_call : Key → ℕ → Call
  write_call : Key → Value → ℕ → Call

-- What a call returns: its code, and the value or the number that it hands out.
pub record Answer : Type 0 where
  pub code : Code
  pub value : Option Value
  pub number : Option ℕ

abbrev pub plain : Code → Answer
plain c = record { code = c; value = none; number = none }

abbrev pub valued : Code × Option Value → Answer
valued (c, v) = record { code = c; value = v; number = none }

abbrev pub numbered : Code × Option ℕ → Answer
numbered (c, n) = record { code = c; value = none; number = n }

abbrev pub valued_if_defined : Option (Code × Option Value) → Option Answer
valued_if_defined none = none
valued_if_defined (some r) = some (valued r)

-- The calls over the wire: none is a call with no defined result.
unfoldable pub run : Site → Call → Session → Option Answer × Session
unfolding set get add remove append cas write
run c (set_call k v) s = let (r, t) = set (send c) k v s in (some (plain r), t)
run c (get_call k) s = let (r, t) = get (send c) k 0 s in (valued_if_defined r, t)
run c (remove_call k) s = let (r, t) = remove (send c) k s in (some (plain r), t)
run c (append_call k v) s = let (r, t) = append (send c) k v s in (some (numbered r), t)
run c (cas_call k x y) s = let (r, t) = cas (send c) k x y s in (valued_if_defined r, t)
run c (add_call k n) s = let (r, t) = add (send c) c.stale_errno k n s in (some (numbered r), t)
run c (write_call k v offset) s = let (r, t) = write (send c) k v offset s in (some (plain r), t)

-- The map that a server keeps.
abbrev pub View : Type 0
View = Key → Option Value

abbrev pub view_of : Server → View
view_of s k = backend_get k s.store

abbrev pub update : Key → Value → View → View
update k v f j = if same_bytes k j then some v else f j

abbrev pub forget : Key → View → View
forget k f j = if same_bytes k j then none else f j

abbrev pub found : Option Value → Answer
found none = plain (store_code not_exist)
found (some v) = valued (store_code success, some v)

abbrev pub removed : Option Value → Answer
removed none = plain (store_code not_exist)
removed (some v) = plain (store_code success)

abbrev pub added : Key → ℕ → View → Option ℕ → Answer × View
added k n f none = (plain (store_code invalid_message), f)
added k n f (some stored) = (
  numbered (store_code success, some (add64 stored n)),
  update k (long_to_string (add64 stored n)) f,
)

-- What the calls mean.
abbrev pub meaning : Call → View → Answer × View
meaning (set_call k v) f = (plain (store_code success), update k v f)
meaning (get_call k) f = (found (f k), f)
meaning (remove_call k) f = (removed (f k), forget k f)
meaning (append_call k v) f =
    let whole = value_or_empty (f k) ++ v in
    (numbered (store_code success, some (length whole)), update k whole f)
meaning (cas_call k x y) f = (
  valued (store_code success, some (value_or_empty (f k))),
  if matches x (f k) then update k y f else f,
)
meaning (add_call k n) f = added k n f (number_at (f k))
meaning (write_call k v offset) f =
    (plain (store_code success), update k (overwrite offset v (value_or_empty (f k))) f)

abbrev pub KeyFits : Key → Type 0
KeyFits k = (0 < length k) × (length k ≤ max_key_len_client)

-- The calls that keep to the limits of the protocol, on a map: keys of 1 to 1024 bytes, values of at
-- most 64 MiB, also those that come back; GET of no key of ranks; a WRITE to a key that is there.
abbrev pub Permitted : Call → View → Type 0
Permitted (set_call k v) f = KeyFits k × (length v ≤ max_value_size)
Permitted (get_call k) f =
    KeyFits k
    × (same_bytes (take 12 k) auto_ranking ≡ false)
    × (length (value_or_empty (f k)) ≤ max_value_size)
Permitted (remove_call k) f = KeyFits k
Permitted (append_call k v) f =
    KeyFits k × (length v ≤ max_value_size) × (length (value_or_empty (f k) ++ v) < long_limit)
Permitted (cas_call k x y) f =
    KeyFits k
    × (length x ≤ max_value_size)
    × (length y ≤ max_value_size)
    × (length (value_or_empty (f k)) ≤ max_value_size)
Permitted (add_call k n) f = KeyFits k × (n < u64_mod)
Permitted (write_call k v offset) f =
    KeyFits k
    × (4 + length v ≤ max_value_size)
    × (offset < u32_mod)
    × (offset ≤ 65535 * length v)
    × ((old : Value) × (f k ≡ some old))

unfoldable pub run_all : Site → List Call → Session → List (Option Answer) × Session
unfolding run
run_all c [] s = ([], s)
run_all c (q ∷ l) s = let (a, t) = run c q s in let (more, u) = run_all c l t in (a ∷ more, u)

abbrev pub meaning_all : List Call → View → List (Option Answer) × View
meaning_all [] f = ([], f)
meaning_all (q ∷ l) f =
    let (a, g) = meaning q f in let (more, h) = meaning_all l g in (some a ∷ more, h)

abbrev pub AllPermitted : List Call → View → Type 0
AllPermitted [] f = Unit {0}
AllPermitted (q ∷ l) f = Permitted q f × AllPermitted l (meaning q f).1
