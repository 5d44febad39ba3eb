-- ===== src/RpcClient/Session.antt =====
-- A session on a channel of the RPC layer: the requests of its users and the responses that arrive,
-- in the order in which they come, run by the code; and which sessions the exchange allows.
pub mod New
pub mod Heard
pub mod Request
pub mod Response
pub mod Refines
pub mod Refused
use rpc_kern.Base.{
  take, ℕ, ◌+◌, ◌^◌, ◌<◌, ◌≤◌, ◌≡◌, ◌≢◌, none, some, List, [], ◌∷◌, ◌++◌, pos, length, map, count,
}
use rpc_kern.Message.{decode_header, ByteOrder, msgheader_size}
use rpc_kern.Kernel.{World, Sent, Verbs, Run, fault, M, pure, and_then, ◌>>=◌}
use rpc_kern.Rdma.{RdmaChCb}
use rpc_kern.Rdma.Channel.Life.{Opened}
use rpc_kern.Rdma.Cq.{Completion, cq_event_handler}
use rpc_kern.RpcClient.{rpc_msg_buf_num, RpcChInfo, send_rpc_msg_to_server}
use rpc_kern.RpcClient.Exchange.{
  Exchange, Action, request, respond, after_request, after_response, Step, requests, responds,
}
use rpc_kern.RpcClient.Handler.{test_handlers}
use rpc_kern.RpcClient.Life.{allocated, channel_on}
use rpc_kern.RpcClient.Serving.{IsResponse}

-- A user sends its data, with the address of its wait queue, while no other takes an id; or the
-- completion queue reports a receive.
pub data Event : Type 0 where
  asks : (sem : ℕ) → (bytes : List ℕ) → Event
  arrives : Completion → Event

unfoldable pub play : ByteOrder → Verbs → RpcChInfo → Event → M RpcChInfo
play order v ch (asks sem bytes) = do
  (ch', id) ←
      send_rpc_msg_to_server order v ([] ∷ []) (record { rpc_ch = ch; bytes = bytes; sem = sem })
  pure ch'
play order v ch (arrives c) = elim ch.ch_cb [
  | none ↦ λ w. fault
  | some cb ↦ do
    (cb', ret) ← cq_event_handler order v test_handlers cb (c ∷ []) (pos 0)
    pure (record ch { ch_cb = some cb' })
]

unfoldable pub play_all : ByteOrder → Verbs → RpcChInfo → List Event → M RpcChInfo
unfolding play
play_all order v ch [] = pure ch
play_all order v ch (e ∷ es) = do ch' ← play order v ch e; play_all order v ch' es

-- An event that a step of the exchange stands for. A request has 64 bits of address and enough data;
-- a response comes in the oldest receive, is of full size, and names the channel at `ch`.
pub data Allowed (order : ByteOrder) (size ch : ℕ) (s : Exchange) : Event → Exchange → Type 0 where
  asking :
      (sem : ℕ) (bytes : List ℕ) (t : Exchange)
      → Step s request t
      → sem < 2 ^ 64
      → size ≤ length bytes
      → Allowed order size ch s (asks sem bytes) t
  arriving :
      (c : Completion) (id : ℕ) (rest : List ℕ)
      → 0 < count id s.waiting
      → s.receives ≡ c.wc.wr_id ∷ rest
      → IsResponse order (size + msgheader_size) size rpc_msg_buf_num ch c
      → Allowed order size ch s (arrives c) (after_response s id c.wc.wr_id rest)

pub data AllAllowed (order : ByteOrder) (size ch : ℕ)
    : Exchange → List Event → Exchange → Type 0 where
  done : {s : Exchange} → AllAllowed order size ch s [] s
  then_next :
      {s t u : Exchange} {e : Event} {es : List Event}
      → Allowed order size ch s e t
      → AllAllowed order size ch t es u
      → AllAllowed order size ch s (e ∷ es) u

-- The channel of the code, since the world `w0`, is in a state of the exchange: it is open; the
-- bitmap is that of the exchange; the receives posted and not yet used are its receives, in order;
-- and the requests sent, by id, are those that wait and those that were answered.
pub record Implements (size : ℕ) (w0 : World) (s : Exchange) (cb : RdmaChCb) (w : World)
    : Type 0 where
  pub opened : Opened rpc_msg_buf_num (allocated w0) cb w
  pub next : w0.next + 24 ≤ w.next
  pub data_size : cb.msgdata_size ≡ size
  pub fit : cb.msgbuf_size ≡ size + msgheader_size
  pub bitmap : w.bitmaps w0.next ≡ some s.bitmap
  pub used : List ℕ
  pub posted : w.posted ≡ w0.posted ++ used ++ s.receives
  pub answered : List ℕ
  pub answers : length answered ≡ length used
  pub sent :
      (id : ℕ)
      → count id (map (λ (t : Sent). t.wr_id) w.sent)
        ≡ count id (map (λ (t : Sent). t.wr_id) w0.sent) + count id answered + count id s.waiting

-- The channel of the RPC layer on it.
abbrev pub In : (size : ℕ) → (w0 : World) → Exchange → RpcChInfo → World → Type 0
In size w0 s ch w = (cb : RdmaChCb) × (ch ≡ channel_on w0 cb) × Implements size w0 s cb w

-- The wait queue, the channel and the data that a message on the wire carries.
abbrev pub on_wire : ByteOrder → (size : ℕ) → Sent → ℕ × ℕ × List ℕ
on_wire order size t =
    let header = decode_header order t.msg in
    (header.sem, header.client_rpc_ch, take size t.msg.bytes)

-- The requests of a session on the channel at `ch`, in order.
abbrev pub asked : (size ch : ℕ) → List Event → List (ℕ × ℕ × List ℕ)
asked size ch [] = []
asked size ch (asks sem bytes ∷ es) = (sem, ch, take size bytes) ∷ asked size ch es
asked size ch (arrives c ∷ es) = asked size ch es

-- The wait queues that its responses name, in order.
abbrev pub woken_by : ByteOrder → List Event → List ℕ
woken_by order [] = []
woken_by order (asks sem bytes ∷ es) = woken_by order es
woken_by order (arrives c ∷ es) = (decode_header order c.arrived).sem ∷ woken_by order es

-- What the users of the channel and the server see of it.
pub record Told (order : ByteOrder) (size ch : ℕ) (es : List Event) (w w' : World) : Type 0 where
  pub wire : map (on_wire order size) w'.sent ≡ map (on_wire order size) w.sent ++ asked size ch es
  pub woken : w'.woken ≡ w.woken ++ woken_by order es

-- The channel in a state of the exchange, after the events that have led there.
abbrev pub Heard :
    ByteOrder
    → (size : ℕ) → (w0 : World) → Exchange
    → List Event
    → World
    → RpcChInfo
    → World
    → Type 0
Heard order size w0 s es w ch w' = In size w0 s ch w' × Told order size w0.next es w w'
