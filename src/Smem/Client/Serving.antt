-- ===== src/Smem/Client/Serving.antt =====
-- SendMessageBlocked over a link to AccStoreServer: a request's bytes are received by the server in one
-- step, and the response is the first of its replies to that request. A call that the server does not
-- answer in that step has the answer none here.
use memfabric_hybrid.Base.{
  ℕ, ◌+◌, ◌%◌, ◌≡◌, sym, ap, ◌∙◌, Bool, true, ◌&&◌, List, [], ◌∷◌, Option, none, some, ◌==◌, ==_iff,
  if◌then◌else◌, u32_mod,
}
use mathlib.Core.List.{append-nil}
use memfabric_hybrid.Smem.Packer.{SmemMessage, pack, unpack, done, total_size}
use memfabric_hybrid.Smem.Packer.RoundTrip.{IsPackable, unpack-pack}
use memfabric_hybrid.Smem.Server.State.{Request, Server, Reply, Body, note, bytes, Outcome, Hooks}
use memfabric_hybrid.Smem.Server.Receive.{dispatch, receive_message}
use memfabric_hybrid.Smem.Client.{Response}

-- The server, and reqSeqGen_ of the client.
pub record Session : Type 0 where
  pub server : Server
  pub next_seq : ℕ

-- What the calls over one link have in common: the server's hooks, the clock, the link, the bytes of a
-- reply that carries a text, and whether errno is ERANGE before a call.
pub record Site : Type 0 where
  pub hooks : Hooks
  pub now : ℕ
  pub link : ℕ
  pub note_text : List ℕ
  pub stale_errno : Bool

abbrev pub body_bytes : List ℕ → Body → List ℕ
body_bytes text note = text
body_bytes text (bytes b) = b

unfoldable pub reply_to : List ℕ → Request → List Reply → Option Response
reply_to text req [] = none
reply_to text req (a ∷ l) =
    let rest = reply_to text req l in
    if a.request.link == req.link && a.request.seq == req.seq
    then some (record { code = a.code; payload = some (body_bytes text a.body) })
    else rest

abbrev pub current : Site → Session → Request
current c s = record { link = c.link; seq = s.next_seq }

abbrev pub after : ℕ → Server → Session
after n s = record { server = s; next_seq = (n + 1) % u32_mod }

unfoldable pub send : Site → List ℕ → Session → Option Response × Session
unfolding reply_to
send c body s = elim (receive_message c.hooks c.now (current c s) body s.server) [
  | none ↦ (none, after s.next_seq s.server)
  | some o ↦ (reply_to c.note_text (current c s) o.replies, after s.next_seq o.state)
]

-- The outcome answers with `a` before all else.
abbrev pub FirstReply : Reply → Outcome → Type 0
FirstReply a o = (rest : List Reply) × (o.replies ≡ a ∷ rest)

reply_to-first :
    (text : List ℕ) (req : Request) (a : Reply) (l : List Reply)
    → a.request ≡ req
    → reply_to text req (a ∷ l)
      ≡ some (record { code = a.code; payload = some (body_bytes text a.body) })
unfolding reply_to
reply_to-first text req a l e =
    let same_link : (a.request.link == req.link) ≡ true = (==_iff _ _).1 (ap (λ r. r.link) e) in
    let same_seq : (a.request.seq == req.seq) ≡ true = (==_iff _ _).1 (ap (λ r. r.seq) e) in
    rw (same_link) (rw same_seq)

pub receive-pack :
    (h : Hooks) (now : ℕ) (req : Request) (m : SmemMessage) (s : Server)
    → IsPackable m
    → receive_message h now req (pack m) s ≡ dispatch h now req m s
unfolding receive_message
receive-pack h now req m s ok =
    let got : unpack (pack m) ≡ done (m, total_size m) =
      ap unpack (sym (append-nil (pack m))) ∙ unpack-pack m ok [] in
    rw (got, receive_message)

-- A message that is handled is answered by the first reply of its outcome.
pub send-pack :
    (c : Site) (m : SmemMessage) (s : Session) (a : Reply) (o : Outcome)
    → IsPackable m
    → dispatch c.hooks c.now (current c s) m s.server ≡ some o
    → FirstReply a o
    → a.request ≡ current c s
    → send c (pack m) s ≡ (
      some (record { code = a.code; payload = some (body_bytes c.note_text a.body) }),
      after s.next_seq o.state,
    )
unfolding send
send-pack c m s a o ok handled (rest, first) same =
    rw (receive-pack c.hooks c.now (current c s) m s.server ok ∙ handled, send)
      (rw first (rw (reply_to-first c.note_text (current c s) a rest same)))
