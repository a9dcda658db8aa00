-- ===== src/Smem/Client/CallLaws.antt =====
-- Each call of a client, over the wire to the server and back, does what it means on the map.
use memfabric_hybrid.Base.{ℕ, ◌≤◌, ◌≡◌, refl, ap, ◌∙◌, [], ◌∷◌, Option, none, some, length, arith}
use memfabric_hybrid.Smem.Packer.{SmemMessage, pack, max_value_size}
use memfabric_hybrid.Smem.Packer.RoundTrip.{IsPackable}
use memfabric_hybrid.Smem.Server.State.{
  Key, Value, Request, Reply, Outcome, success, backend_get, reply_note,
}
use memfabric_hybrid.Smem.Server.Receive.{dispatch}
use memfabric_hybrid.Smem.Server.Handlers.{set_handler, get_plain, remove_handler}
use memfabric_hybrid.Smem.Server.Outcomes.{value_or_empty}
use memfabric_hybrid.Smem.Server.WaiterLaws.{IsWatched}
use memfabric_hybrid.Smem.Server.Steps.{Quiet}
use memfabric_hybrid.Smem.Client.{store_code, request_of, get_request, set, get, remove, get_result}
use memfabric_hybrid.Smem.Client.Serving.{
  Site, Session, current, body_bytes, after, send, send-pack,
}
use memfabric_hybrid.Smem.Client.Replies.{
  Served, get_reply, remove_reply, add_reply, set-Served, get-Served, remove-Served,
}
use memfabric_hybrid.Smem.Client.Decoding.{
  is_bad_key-KeyFits, request_of-IsPackable, get_request-IsPackable, payload_value-pack,
}
use memfabric_hybrid.Smem.Client.Calls.{
  Call, set_call, get_call, remove_call, Answer, plain, valued, run, View, view_of, update, forget,
  found, removed, meaning, Permitted,
}

-- The call returned what it means, and left the map that it means.
pub record Refines (c : Site) (q : Call) (s : Session) : Type 0 where
  pub answer : (run c q s).0 ≡ some (meaning q (view_of s.server)).0
  pub view : view_of (run c q s).1.server ≡ (meaning q (view_of s.server)).1
  pub watched : IsWatched (run c q s).1.server

request_of-get_reply : (req : Request) (o : Option Value) → (get_reply req o).request ≡ req
request_of-get_reply req none = refl
request_of-get_reply req (some v) = refl

request_of-remove_reply : (req : Request) (o : Option Value) → (remove_reply req o).request ≡ req
request_of-remove_reply req none = refl
request_of-remove_reply req (some v) = refl

pub request_of-add_reply :
    (req : Request) (n : ℕ) (o : Option ℕ) → (add_reply req n o).request ≡ req
request_of-add_reply req n none = refl
request_of-add_reply req n (some x) = refl

valued-found : (o : Option Value) → valued ((found o).code, (found o).value) ≡ found o
valued-found none = refl
valued-found (some v) = refl

pub answered :
    (a b : Answer) (t : Session) → a ≡ b → ◌≡◌ {A = Option Answer × Session} (some a, t) (some b, t)
answered a b t e = ap (λ x. (some x, t)) e

module _ (c : Site) (s : Session) (quiet : Quiet c.hooks) (w : IsWatched s.server) where
  -- What comes back for a request that a handler served.
  pub exchanged :
      (m : SmemMessage) (a : Reply) (f : View) (o : Outcome)
      → IsPackable m
      → dispatch c.hooks c.now (current c s) m s.server ≡ some o
      → Served a f o
      → a.request ≡ current c s
      → send c (pack m) s ≡ (
        some (record { code = a.code; payload = some (body_bytes c.note_text a.body) }),
        after s.next_seq o.state,
      )
  exchanged m a f o ok handled served same = send-pack c m s a o ok handled served.first same

  pub refined :
      (q : Call) (o : Outcome)
      → run c q s ≡ (some (meaning q (view_of s.server)).0, after s.next_seq o.state)
      → view_of o.state ≡ (meaning q (view_of s.server)).1
      → IsWatched o.state
      → Refines c q s
  refined q o e f g = record {
    answer = ap (λ x. x.0) e;
    view = ap (λ x. view_of x.1.server) e ∙ f;
    watched = rw e g;
  }

  pub set-Refines :
      (k : Key) (v : Value)
      → Permitted (set_call k v) (view_of s.server)
      → Refines c (set_call k v) s
  unfolding run set dispatch
  set-Refines k v (fits, small) =
      let m : SmemMessage = request_of 0 k (v ∷ []) in
      let served : Served (reply_note (current c s) success) (update k v (view_of s.server))
          (set_handler c.hooks (current c s) m s.server) =
        set-Served c.hooks (current c s) k s.server quiet w (omega (arith, fits.1)) v in
      let ok : IsPackable m =
        request_of-IsPackable 0 k (v ∷ []) (omega arith) fits (omega arith) (small, tt) in
      refined (set_call k v) (set_handler c.hooks (current c s) m s.server)
        (rw (is_bad_key-KeyFits k fits) (rw (exchanged m _ _ _ ok refl served refl) refl))
        served.view served.watched

  get_answer :
      (o : Option Value)
      → length (value_or_empty o) ≤ max_value_size
      → get_result (
          some (record {
            code = (get_reply (current c s) o).code;
            payload = some (body_bytes c.note_text (get_reply (current c s) o).body);
          }))
        ≡ some ((found o).code, (found o).value)
  unfolding get_result
  get_answer none h = refl
  get_answer (some v) h = payload_value-pack (store_code success) 1 v (omega arith) h

  pub get-Refines : (k : Key) → Permitted (get_call k) (view_of s.server) → Refines c (get_call k) s
  unfolding run get dispatch
  get-Refines k (fits, plain_key, small) =
      let m : SmemMessage = get_request k 0 in
      let (served, handled) =
        get-Served c.hooks (current c s) k s.server quiet w (omega (arith, fits.1)) c.now
          plain_key in
      let ok : IsPackable m = get_request-IsPackable k fits in
      refined (get_call k) (get_plain c.hooks c.now (current c s) m k s.server)
        (rw (is_bad_key-KeyFits k fits) (
          rw
            (exchanged m _ _ _ ok handled served
              (request_of-get_reply (current c s) (backend_get k s.server.store)))
            (rw (get_answer (backend_get k s.server.store) small)
              (answered _ _ _ (valued-found (backend_get k s.server.store))))))
        served.view served.watched

  remove_answer :
      (o : Option Value) → plain (store_code (remove_reply (current c s) o).code) ≡ removed o
  remove_answer none = refl
  remove_answer (some v) = refl

  pub remove-Refines :
      (k : Key) → Permitted (remove_call k) (view_of s.server) → Refines c (remove_call k) s
  unfolding run remove dispatch
  remove-Refines k fits =
      let m : SmemMessage = request_of 3 k [] in
      let served : Served (remove_reply (current c s) (backend_get k s.server.store))
          (forget k (view_of s.server)) (remove_handler (current c s) m s.server) =
        remove-Served c.hooks (current c s) k s.server quiet w (omega (arith, fits.1)) in
      let ok : IsPackable m = request_of-IsPackable 3 k [] (omega arith) fits (omega arith) tt in
      refined (remove_call k) (remove_handler (current c s) m s.server)
        (rw (is_bad_key-KeyFits k fits) (
          rw
            (exchanged m _ _ _ ok refl served
              (request_of-remove_reply (current c s) (backend_get k s.server.store)))
            (answered _ _ _ (remove_answer (backend_get k s.server.store)))))
        served.view served.watched
