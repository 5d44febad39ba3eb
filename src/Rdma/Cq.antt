-- ===== src/Rdma/Cq.antt =====
-- rdma.c: cq_event_handler and cq_thread. What ib_poll_cq yields is an argument: the completions that
-- it returns one by one, each with the message that the adapter has put into the receive buffer, and
-- the code that ends the loop.
pub mod Reposts
pub mod Calm
pub mod Batches
use rpc_kern.Base.{
  ℕ, ◌+◌, Bool, true, false, not, Option, none, some, List, [], ◌∷◌, ℤ, pos, negsuc, is_zero,
  get_elem?, set, ◌==◌, if◌then◌else◌,
}
use rpc_kern.Message.{RdmaMsg, ByteOrder}
use rpc_kern.Kernel
use rpc_kern.Kernel.{
  World, Verbs, Run, ok, fault, M, pure, and_then, or_fault, ◌>>=◌, ◌>>◌, alive, post_recv, call,
}
use rpc_kern.Rdma.{RdmaChState, is_state, MsgbufCtx, RdmaChCb, wake_up_cb, error}
use rpc_kern.Rdma.Receive.{
  WcStatus, success, flush_err, failure, WcOpcode, send, rdma_write, rdma_read, recv, unknown, Wc,
  Invoke, receive_msg,
}

pub record Completion : Type 0 where
  pub wc : Wc
  pub arrived : RdmaMsg

-- The adapter's write into the receive buffer of a completed receive.
unfoldable pub land : RdmaChCb → Completion → RdmaChCb
land cb c = elim (get_elem? cb.buf_ctxs c.wc.wr_id) [
  | none ↦ cb
  | some mb ↦ record cb {
    buf_ctxs = set cb.buf_ctxs c.wc.wr_id (record mb { recv_msg = c.arrived });
  }
]

-- What a round of the loop does next.
pub data Next : Type 0 where
  flushed continue : Next
  goto_error : ℤ → Next

-- `goto error` unless the code is 0.
abbrev pub check : ℤ → Next
check ret = if is_zero ret then continue else goto_error ret

-- The receive case of the switch: the message is handled, and then its buffer is posted again.
unfoldable pub on_recv : ByteOrder → Verbs → Invoke → RdmaChCb → Wc → M (RdmaChCb × Next)
on_recv order v invoke cb wc = do
  (cb, ret) ← receive_msg order v invoke cb wc
  if not (is_zero ret) then pure (cb, goto_error ret) else do
    mb_ctx ← or_fault (get_elem? cb.buf_ctxs wc.wr_id)
    alive Kernel.qp cb.qp
    ret ← post_recv v mb_ctx.rq_wr.wr_id
    pure (cb, check ret)

-- The switch on the opcode of a successful completion.
unfoldable pub on_opcode :
    ByteOrder → Verbs → Invoke → RdmaChCb → Wc → WcOpcode → M (RdmaChCb × Next)
unfolding on_recv
on_opcode order v invoke cb wc send = pure (cb, continue)
on_opcode order v invoke cb wc rdma_write = pure (cb, continue)
on_opcode order v invoke cb wc rdma_read = pure (cb, continue)
on_opcode order v invoke cb wc recv = on_recv order v invoke cb wc
on_opcode order v invoke cb wc unknown = pure (cb, goto_error (negsuc 0))

-- The body of the loop, by the status of the completion.
unfoldable pub on_completion :
    ByteOrder → Verbs → Invoke → RdmaChCb → Wc → WcStatus → M (RdmaChCb × Next)
unfolding on_opcode
on_completion order v invoke cb wc success = on_opcode order v invoke cb wc wc.opcode
on_completion order v invoke cb wc flush_err = pure (cb, flushed)
on_completion order v invoke cb wc failure = pure (cb, goto_error (negsuc 0))

-- The label `error`.
abbrev pub error_exit : RdmaChCb → ℤ → M (RdmaChCb × ℤ)
error_exit cb ret = pure (wake_up_cb (record cb { state = error }), ret)

abbrev pub as_int : Bool → ℤ
as_int true = pos 1
as_int false = pos 0

-- `last` is what the last ib_poll_cq returns, a code other than 1; `was_flushed` is `flushed`.
unfoldable pub poll_loop :
    ByteOrder
    → Verbs
    → Invoke
    → RdmaChCb
    → List Completion
    → (last : ℤ) → (was_flushed : Bool) → M (RdmaChCb × ℤ)
unfolding on_completion land
poll_loop order v invoke cb [] last was_flushed w =
    if is_zero last then ok (cb, as_int was_flushed) w else error_exit cb last w
poll_loop order v invoke cb (c ∷ cs) last was_flushed w =
    and_then (on_completion order v invoke (land cb c) c.wc c.wc.status w) λ (cb', next).
      elim next [
        | flushed ↦ poll_loop order v invoke cb' cs last true
        | continue ↦ poll_loop order v invoke cb' cs last was_flushed
        | goto_error ret ↦ error_exit cb' ret
      ]

unfoldable pub cq_event_handler :
    ByteOrder → Verbs → Invoke → RdmaChCb → List Completion → ℤ → M (RdmaChCb × ℤ)
unfolding poll_loop
cq_event_handler order v invoke cb polled last = poll_loop order v invoke cb polled last false

-- `garbage` is what the variable `ret`, which is tested before anything is stored in it, happens to
-- hold: the code of ib_req_notify_cq is dropped.
unfoldable pub cq_thread :
    ByteOrder → Verbs → Invoke → RdmaChCb → (garbage : ℤ) → List Completion → ℤ → M RdmaChCb
unfolding cq_event_handler
cq_thread order v invoke cb garbage polled last = if is_state cb.state error then pure cb else do
  notified ← call v.req_notify_cq
  if not (is_zero garbage)
      then pure cb
      else do (cb, ret) ← cq_event_handler order v invoke cb polled last; pure cb
