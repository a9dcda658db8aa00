-- ===== src/Smem/Server/Receive.antt =====
-- ReceiveMessageHandler: a request's bytes to its handler.
use memfabric_hybrid.Base.{ℕ, List, Option, none, some, ◌==◌, if◌then◌else◌}
use memfabric_hybrid.Smem.Packer.{SmemMessage, done, reject, overread, unpack}
use memfabric_hybrid.Smem.Server.State.{
  Request, Server, Outcome, Hooks, invalid_message, sm_error, answer, reply_note,
}
use memfabric_hybrid.Smem.Server.Handlers.{
  set_handler, remove_handler, cas_handler, watch_handler, heartbeat_handler,
}
use memfabric_hybrid.Smem.Server.Updates.{append_handler, write_handler}
use memfabric_hybrid.Smem.Server.Adding.{add_handler}
use memfabric_hybrid.Smem.Server.Ranks.{get_handler}

-- requestHandlers_, by the value of the message's type.
unfoldable pub dispatch : Hooks → ℕ → Request → SmemMessage → Server → Option Outcome
dispatch h now req m s =
    if m.mt == 0
    then some (set_handler h req m s)
    else if m.mt == 1
    then get_handler h now req m s
    else if m.mt == 2
    then some (add_handler h req m s)
    else if m.mt == 3
    then some (remove_handler req m s)
    else if m.mt == 4
    then some (append_handler h req m s)
    else if m.mt == 5
    then some (cas_handler h req m s)
    else if m.mt == 6
    then write_handler h req m s
    else if m.mt == 7
    then some (watch_handler req m s)
    else if m.mt == 8
    then some (heartbeat_handler now req m s)
    else some (answer (reply_note req invalid_message) sm_error s)

-- `none` is what has no defined result, or does not end.
unfoldable pub receive_message : Hooks → ℕ → Request → List ℕ → Server → Option Outcome
receive_message h now req body s = elim (unpack body) [
  | overread ↦ none
  | reject ↦ some (answer (reply_note req invalid_message) sm_error s)
  | done (m, size) ↦ dispatch h now req m s
]
