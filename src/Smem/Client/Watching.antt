-- ===== src/Smem/Client/Watching.antt =====
-- A client that watches a missing key is told the value of the SET that makes it.
use memfabric_hybrid.Base.{
  ℕ, ◌+◌, ◌-◌, ◌%◌, ◌≤◌, ◌≡◌, refl, sym, ap, subst, ◌∙◌, true, false, [], ◌∷◌, none, some, length,
  take, ltb, ◌==◌, ==_iff, arith, u64_mod, In,
}
use mathlib.Core.List.{append-nil}
use memfabric_hybrid.Base.Assoc.{same_bytes, lookup-put}
use memfabric_hybrid.Smem.Packer.{SmemMessage, pack, unpack, done, total_size, max_value_size}
use memfabric_hybrid.Smem.Packer.RoundTrip.{unpack-pack}
use memfabric_hybrid.Smem.Server.State.{
  Key, Value, Request, Waiter, Server, Hooks, Outcome, success, backend_get, response, reply_bytes,
  silent, sm_ok,
}
use memfabric_hybrid.Smem.Server.Handlers.{
  max_key_len, get_plain, get_missing, wait_for, set_handler,
}
use memfabric_hybrid.Smem.Server.Ranks.{auto_ranking, get_handler}
use memfabric_hybrid.Smem.Server.Receive.{dispatch, receive_message}
use memfabric_hybrid.Smem.Server.WaiterLaws.{IsWatched, context}
use memfabric_hybrid.Smem.Server.Steps.{Quiet, execute_handle-Quiet, get_plain-IsWatched}
use memfabric_hybrid.Smem.Server.Outcomes.{Fills, set_handler-Fills}
use memfabric_hybrid.Smem.Client.{request_of}
use memfabric_hybrid.Smem.Client.Calls.{KeyFits}
use memfabric_hybrid.Smem.Client.Serving.{receive-pack}
use memfabric_hybrid.Smem.Client.Decoding.{request_of-IsPackable, response-IsPackable}
use memfabric_hybrid.Smem.Client.Contexts.{watch_request, watch_notice, tell}

notice-pack :
    (v : Value)
    → length v ≤ max_value_size
    → watch_notice (some (pack (response 1 v))) ≡ tell success v
unfolding watch_notice
notice-pack v small =
    let got : unpack (pack (response 1 v)) ≡ done (response 1 v, total_size (response 1 v)) =
      ap unpack (sym (append-nil (pack (response 1 v))))
      ∙ unpack-pack (response 1 v) (response-IsPackable 1 v (omega arith) small) [] in
    rw (got, watch_notice)

module _ (h : Hooks) (now : ℕ) (watcher : Request) (k : Key) (s : Server) (quiet : Quiet h)
    (missing : backend_get k s.store ≡ none) where
  waited :
      get_plain h now watcher (request_of 1 k []) k s
      ≡ silent sm_ok (wait_for now watcher k (u64_mod - 1) s)
  unfolding get_plain get_missing
  waited =
      rw (missing, get_plain) (rw (execute_handle-Quiet h 1 watcher.link k [] s.store quiet) refl)

  waiter_there :
      (w : Waiter) × (context s.next_id (wait_for now watcher k (u64_mod - 1) s) ≡ some w)
      × (w.key ≡ k)
      × (w.request ≡ watcher)
  unfolding wait_for
  waiter_there =
      let here : (s.next_id == s.next_id) ≡ true = (==_iff s.next_id s.next_id).1 refl in
      (
        record { deadline = (now + (u64_mod - 1)) % u64_mod; key = k; request = watcher },
        lookup-put ◌==◌ ==_iff s.next_id s.next_id _ s.contexts ∙ (rw here),
        refl,
        refl,
      )

-- A Watch for a missing key that holds no rank, of 1 to 1024 bytes, on a server without registered
-- operation handlers, whose waiting requests are filed and wait for missing keys: the server takes the
-- request without a reply, and the SET of the key that comes next, of at most 64 MiB, sends the watcher,
-- if its link stands, a response of which its context tells it success and exactly that value.
pub watch-told :
    (h : Hooks) (now : ℕ) (watcher req : Request) (k : Key) (v : Value) (s : Server)
    → Quiet h
    → IsWatched s
    → KeyFits k
    → same_bytes (take 12 k) auto_ranking ≡ false
    → backend_get k s.store ≡ none
    → h.established watcher.link ≡ true
    → length v ≤ max_value_size
    → (o : Outcome) × (receive_message h now watcher (pack (watch_request k)) s ≡ some o)
      × (o.replies ≡ [])
      × In
          (reply_bytes watcher success (pack (response 1 v)))
          (set_handler h req (request_of 0 k (v ∷ [])) o.state).replies
      × (watch_notice (some (pack (response 1 v))) ≡ tell success v)
unfolding watch_request dispatch get_handler
watch-told h now watcher req k v s quiet w fits plain_key missing stands small =
    let m : SmemMessage = request_of 1 k [] in
    let t : Server = wait_for now watcher k (u64_mod - 1) s in
    let short : ltb max_key_len (length k) ≡ false = ground (arith, fits.1) in
    let told : get_plain h now watcher m k s ≡ silent sm_ok t =
      waited h now watcher k s quiet missing in
    let kept : IsWatched t =
      subst (λ o. IsWatched o.state) told (get_plain-IsWatched h now watcher m k s quiet w) in
    let (waiter, there, same_key, same_request) = waiter_there h now watcher k s quiet missing in
    let filled : Fills h k v v t (set_handler h req (request_of 0 k (v ∷ [])) t) =
      (set_handler-Fills h req (request_of 0 k (v ∷ [])) k v t quiet kept refl refl
        (omega (arith, fits.1))).0 in
    (
      silent sm_ok t,
      receive-pack h now watcher m s
            (request_of-IsPackable 1 k [] (omega arith) fits (omega arith) tt)
          ∙ (rw short (rw plain_key (ap some told))),
      refl,
      subst
          (λ r.
            In (reply_bytes r success (pack (response 1 v)))
              (set_handler h req (request_of 0 k (v ∷ [])) t).replies)
          same_request
          (filled.woken s.next_id waiter there same_key
            (ap (λ r. h.established r.link) same_request ∙ stands)),
      notice-pack v small,
    )
