-- ===== src/Smem/Client/UpdateCalls.antt =====
-- APPEND, CAS, ADD and WRITE of a client, over the wire to the server and back.
use memfabric_hybrid.Base.{
  ℕ, ◌+◌, ◌≡◌, refl, ap, ◌∙◌, [], ◌∷◌, ◌++◌, Option, none, some, length, add64, arith,
  length-append,
}
use memfabric_hybrid.Base.Bytes.{le_bytes, length-le_bytes}
use memfabric_hybrid.Smem.Packer.{SmemMessage, pack}
use memfabric_hybrid.Smem.Packer.RoundTrip.{IsPackable}
use memfabric_hybrid.Smem.Server.State.{
  Key, Value, success, backend_get, response, to_string, reply_bytes,
}
use memfabric_hybrid.Smem.Server.Receive.{dispatch}
use memfabric_hybrid.Smem.Server.Handlers.{cas_handler}
use memfabric_hybrid.Smem.Server.Updates.{append_handler}
use memfabric_hybrid.Smem.Server.Adding.{add_handler, long_to_string}
use memfabric_hybrid.Smem.Server.AddingLaws.{number_at}
use memfabric_hybrid.Smem.Server.Outcomes.{value_or_empty}
use memfabric_hybrid.Smem.Server.WaiterLaws.{IsWatched}
use memfabric_hybrid.Smem.Server.Steps.{Quiet}
use memfabric_hybrid.Smem.Client.{
  store_code, request_of, add, append, cas, write, cas_result, add_result,
}
use memfabric_hybrid.Smem.Client.Serving.{Site, Session, current, body_bytes}
use memfabric_hybrid.Smem.Client.Replies.{Served, add_reply, append-Served}
use memfabric_hybrid.Smem.Client.Updating.{cas-Served, add-Served, write-Served}
use memfabric_hybrid.Smem.Client.Decoding.{
  is_bad_key-KeyFits, request_of-IsPackable, payload_value-pack, length-long_to_string,
  add_result-success, append_result-success,
}
use memfabric_hybrid.Smem.Client.Calls.{
  append_call, cas_call, add_call, write_call, numbered, run, view_of, update, added, Permitted,
}
use memfabric_hybrid.Smem.Client.CallLaws.{
  Refines, exchanged, refined, request_of-add_reply, answered,
}

module _ (c : Site) (s : Session) (quiet : Quiet c.hooks) (w : IsWatched s.server) where
  pub append-Refines :
      (k : Key) (v : Value)
      → Permitted (append_call k v) (view_of s.server)
      → Refines c (append_call k v) s
  unfolding run append dispatch
  append-Refines k v (fits, small, low) =
      let m : SmemMessage = request_of 4 k (v ∷ []) in
      let whole : Value = value_or_empty (backend_get k s.server.store) ++ v in
      let served : Served (reply_bytes (current c s) success (to_string (length whole)))
          (update k whole (view_of s.server)) (append_handler c.hooks (current c s) m s.server) =
        append-Served c.hooks (current c s) k s.server quiet w (omega (arith, fits.1)) v in
      let ok : IsPackable m =
        request_of-IsPackable 4 k (v ∷ []) (omega arith) fits (omega arith) (small, tt) in
      refined c s quiet w (append_call k v) (append_handler c.hooks (current c s) m s.server)
        (rw (is_bad_key-KeyFits k fits) (
          rw (exchanged c s quiet w m _ _ _ ok refl served refl)
            (rw (append_result-success (length whole) (omega (arith, low)) low) refl)))
        served.view served.watched

  pub cas-Refines :
      (k : Key) (x y : Value)
      → Permitted (cas_call k x y) (view_of s.server)
      → Refines c (cas_call k x y) s
  unfolding run cas cas_result dispatch
  cas-Refines k x y (fits, small_x, small_y, small) =
      let m : SmemMessage = request_of 5 k (x ∷ y ∷ []) in
      let old : Value = value_or_empty (backend_get k s.server.store) in
      let served : Served (reply_bytes (current c s) success (pack (response 5 old))) _
          (cas_handler c.hooks (current c s) m s.server) =
        cas-Served c.hooks (current c s) k s.server quiet w (omega (arith, fits.1)) x y in
      let ok : IsPackable m =
        request_of-IsPackable 5 k (x ∷ y ∷ []) (omega arith) fits (omega arith)
          (small_x, (small_y, tt)) in
      refined c s quiet w (cas_call k x y) (cas_handler c.hooks (current c s) m s.server)
        (rw (is_bad_key-KeyFits k fits) (
          rw (exchanged c s quiet w m _ _ _ ok refl served refl)
            (rw (payload_value-pack (store_code success) 5 old (omega arith) small) refl)))
        served.view served.watched

  add_answer :
      (n : ℕ) (o : Option ℕ) (k : Key)
      → numbered (
          add_result c.stale_errno (
            some (record {
              code = (add_reply (current c s) n o).code;
              payload = some (body_bytes c.note_text (add_reply (current c s) n o).body);
            })))
        ≡ (added k n (view_of s.server) o).0
  unfolding add_result
  add_answer n none k = refl
  add_answer n (some stored) k =
      ap numbered (add_result-success (add64 stored n) (omega arith) c.stale_errno)

  pub add-Refines :
      (k : Key) (n : ℕ) → Permitted (add_call k n) (view_of s.server) → Refines c (add_call k n) s
  unfolding run add dispatch
  add-Refines k n (fits, small) =
      let m : SmemMessage = request_of 2 k (long_to_string n ∷ []) in
      let o : Option ℕ = number_at (backend_get k s.server.store) in
      let served : Served (add_reply (current c s) n o) (added k n (view_of s.server) o).1
          (add_handler c.hooks (current c s) m s.server) =
        add-Served c.hooks (current c s) k s.server quiet w (omega (arith, fits.1)) n small in
      let ok : IsPackable m =
        request_of-IsPackable 2 k (long_to_string n ∷ []) (omega arith) fits (omega arith)
          (omega (arith, length-long_to_string n), tt) in
      refined c s quiet w (add_call k n) (add_handler c.hooks (current c s) m s.server)
        (rw (is_bad_key-KeyFits k fits) (
          rw (exchanged c s quiet w m _ _ _ ok refl served (request_of-add_reply (current c s) n o))
            (answered _ _ _ (add_answer n o k))))
        served.view served.watched

  pub write-Refines :
      (k : Key) (v : Value) (offset : ℕ)
      → Permitted (write_call k v offset) (view_of s.server)
      → Refines c (write_call k v offset) s
  unfolding run write dispatch
  write-Refines k v offset (fits, small, b, near, (old, present)) =
      let x : Value = le_bytes 4 offset ++ v in
      let m : SmemMessage = request_of 6 k (x ∷ []) in
      let (o, handled, served) =
        write-Served c.hooks (current c s) k s.server quiet w (omega (arith, fits.1)) v old offset b
          near present in
      let long : length x ≡ 4 + length v =
        length-append (le_bytes 4 offset) v ∙ ap (λ n. n + length v) (length-le_bytes 4 offset) in
      let ok : IsPackable m =
        request_of-IsPackable 6 k (x ∷ []) (omega arith) fits (omega arith)
          (omega (arith, long, small), tt) in
      refined c s quiet w (write_call k v offset) o
        (rw (is_bad_key-KeyFits k fits)
          (rw (exchanged c s quiet w m _ _ _ ok handled served refl) refl))
        (rw present served.view) served.watched
