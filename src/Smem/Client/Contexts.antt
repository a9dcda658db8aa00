-- ===== src/Smem/Client/Contexts.antt =====
-- The requests that a TcpConfigStore waits for, msgClientContext_ of
-- src/smem/csrc/config_store/tcp_store/smem_tcp_config_store.{h,cpp}: SendMessageBlocked up to its wait,
-- SendWatchRequest, Unwatch, ReceiveResponseHandler, LinkBrokenHandler, and what the contexts do.
use memfabric_hybrid.Base.{
  ℕ, ◌+◌, ◌%◌, Bool, true, false, List, [], ◌∷◌, Option, none, some, length, ◌==◌, if◌then◌else◌,
  u32_mod, u64_mod, ◌-◌,
}
use memfabric_hybrid.Base.Assoc.{Assoc, lookup, put, remove}
use memfabric_hybrid.Base.Bytes.{from_le}
use memfabric_hybrid.Smem.Packer.{SmemMessage, pack, Parse, done, reject, overread, unpack}
use memfabric_hybrid.Smem.Server.State.{Key, Value, StoreCode, success, io_error}
use memfabric_hybrid.Smem.Server.Handlers.{watch_rank_down_key}
use memfabric_hybrid.Smem.Client.{is_bad_key, request_of}

-- ClientWaitContext, whose caller is blocked, and ClientWatchContext as SendWatchRequest makes it, which
-- stays for more than one response.
pub data Context : Type 0 where
  waiting watching : Context

pub record Client : Type 0 where
  pub contexts : Assoc ℕ Context
  pub next_seq : ℕ
  pub linked : Bool
  pub connected : Bool

-- std::unordered_map::file_context keeps an entry that is there.
unfoldable pub file_context : ℕ → Context → Assoc ℕ Context → Assoc ℕ Context
file_context n x m = elim (lookup ◌==◌ n m) [ none ↦ put ◌==◌ n x m | some y ↦ m ]

-- reqSeqGen_.fetch_add(1U)
abbrev pub count_request : Client → Client
count_request c = record c { next_seq = (c.next_seq + 1) % u32_mod }

-- SendMessageBlocked up to WaitFinished: it returns nullptr, or waits for the response.
pub data Sent : Type 0 where
  null_response : Sent
  blocked : ℕ → Sent

-- `sent` is what LocalNonBlockSend returns: whether it is SM_OK.
unfoldable pub begin_blocked : Bool → Client → Sent × Client
unfolding file_context
begin_blocked sent c =
    let n = c.next_seq in
    let filed = record (count_request c) { contexts = file_context n waiting c.contexts } in
    if c.linked
    then if sent then (blocked n, filed) else (null_response, filed)
    else (null_response, count_request c)

pub data WatchSent : Type 0 where
  not_initialized send_failed : WatchSent
  watches : ℕ → WatchSent

-- SendWatchRequest
unfoldable pub send_watch : Bool → Client → WatchSent × Client
unfolding file_context
send_watch sent c =
    let n = c.next_seq in
    let filed = record (count_request c) { contexts = file_context n watching c.contexts } in
    if c.linked
    then if sent then (watches n, filed) else (send_failed, filed)
    else (not_initialized, count_request c)

-- Unwatch: whether there was a watch of that id.
abbrev pub drop_watch : ℕ → Option Context → Client → Bool × Client
drop_watch n none c = (false, c)
drop_watch n (some waiting) c = (false, c)
drop_watch n (some watching) c = (true, record c { contexts = remove ◌==◌ n c.contexts })

unfoldable pub unwatch : ℕ → Client → Bool × Client
unwatch n c = drop_watch n (lookup ◌==◌ n c.contexts) c

-- ReceiveResponseHandler: the context whose SetFinished it calls.
abbrev pub finish : ℕ → Option Context → Client → Option Context × Client
finish n none c = (none, c)
finish n (some waiting) c = (some waiting, record c { contexts = remove ◌==◌ n c.contexts })
finish n (some watching) c = (some watching, c)

unfoldable pub receive_response : ℕ → Client → Option Context × Client
receive_response n c = finish n (lookup ◌==◌ n c.contexts) c

-- LinkBrokenHandler: the contexts whose SetFailedFinish it calls.
unfoldable pub link_broken_handler : Client → List (ℕ × Context) × Client
link_broken_handler c = (c.contexts, record c { contexts = []; connected = false })

-- What ClientWatchContext::SetFinished tells its watcher: nothing for no data, and no defined result for
-- a read behind the data.
pub data Notice : Type 0 where
  silence undefined_read : Notice
  tell : StoreCode → Value → Notice

abbrev pub first_notice : List Value → Notice
first_notice [] = tell io_error []
first_notice (v ∷ vs) = tell success v

abbrev pub parsed_notice : Parse (SmemMessage × ℕ) → Notice
parsed_notice overread = undefined_read
parsed_notice reject = tell io_error []
parsed_notice (done (m, size)) = first_notice m.values

unfoldable pub watch_notice : Option (List ℕ) → Notice
watch_notice none = silence
watch_notice (some bytes) = parsed_notice (unpack bytes)

-- The callback of a watch for lost ranks: the rank, of four bytes.
unfoldable pub lost_rank : Notice → Option ℕ
lost_rank silence = none
lost_rank undefined_read = none
lost_rank (tell code v) = elim code [
  | success ↦ if length v == 4 then some (from_le v) else none
  | _ ↦ none
]

-- The messages of Watch for a key, which never waits out, of Watch for lost ranks, and of HeartBeat.
unfoldable pub watch_request : Key → SmemMessage
watch_request k = request_of 1 k []

abbrev pub rank_watch_request : SmemMessage
rank_watch_request = request_of 7 watch_rank_down_key []

abbrev pub heartbeat_request : SmemMessage
heartbeat_request = record { mt = 8; user_def = u64_mod - 1; keys = []; values = [] }

-- Watch for a key: none for a key that it rejects, and else the message and what SendWatchRequest did.
unfoldable pub watch_key : Bool → Key → Client → Option (List ℕ × WatchSent) × Client
unfolding is_bad_key send_watch
watch_key sent k c =
    if is_bad_key k
    then (none, c)
    else let (r, d) = send_watch sent c in (some (pack (watch_request k), r), d)
