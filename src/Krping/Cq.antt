-- ===== src/Krping/Cq.antt =====
-- bak/krping.c: the prototype's handler of its completion queue.
use rpc_kern.Base.{
  ℕ, ◌+◌, not, ◌||◌, List, [], ◌∷◌, ℤ, pos, negsuc, is_zero, leb, ◌==◌, if◌then◌else◌,
}
use rpc_kern.Kernel
use rpc_kern.Kernel.{World, Verbs, Run, ok, fault, M, pure, and_then, ◌>>=◌, ◌>>◌, alive, call}
use rpc_kern.Krping.{
  TestState, connected, rdma_read_adv, rdma_read_complete, rdma_write_adv, rdma_write_complete,
  error, at_least, is_state, KrpingRdmaInfo, KrWcStatus, KrWcOpcode, KrWc, KrpingCb, KrpingVerbs,
  wake_up_krping,
}
use rpc_kern.Krping

-- sizeof(struct krping_rdma_info)
abbrev pub info_size : ℕ
info_size = 16

unfoldable pub server_recv : KrpingVerbs → KrpingCb → KrWc → KrpingCb × ℤ
server_recv u cb wc = if not (wc.byte_len == info_size) then (cb, negsuc 0) else (
  record cb {
    remote_rkey = u.ntohl cb.recv_buf.rkey;
    remote_addr = u.ntohll cb.recv_buf.buf;
    remote_len = u.ntohl cb.recv_buf.size;
    state =
        if leb (Krping.state_value cb.state) (Krping.state_value connected)
          || is_state cb.state rdma_write_complete
        then rdma_read_adv
        else rdma_write_adv;
  },
  pos 0,
)

unfoldable pub client_recv : KrpingCb → KrWc → KrpingCb × ℤ
client_recv cb wc = if not (wc.byte_len == info_size) then (cb, negsuc 0) else (
  record cb {
    state = if is_state cb.state rdma_read_adv then rdma_write_adv else rdma_write_complete;
  },
  pos 0,
)

-- Whether the loop goes on, or goes to `error`.
pub data KrStep : Type 0 where
  next_wc goto_error : KrStep

-- What a completed receive does to the block: it is counted, and the handler of its side runs.
unfoldable pub krping_received : KrpingVerbs → KrpingCb → KrWc → KrpingCb × ℤ
unfolding client_recv server_recv
krping_received u cb wc =
    let s = cb.stats in
    let cb = record cb {
      stats = record s { recv_bytes = s.recv_bytes + info_size; recv_msgs = s.recv_msgs + 1 };
      recv_buf = wc.info;
    } in
    if is_zero cb.server then client_recv cb wc else server_recv u cb wc

-- The receive is posted again, unless the handler has failed.
unfoldable pub krping_post_again : Verbs → KrpingCb × ℤ → M (KrpingCb × KrStep)
krping_post_again v (cb, ret) = if not (is_zero ret) then pure (cb, goto_error) else do
  alive Kernel.qp cb.qp
  ret ← call v.post_recv
  if not (is_zero ret) then pure (cb, goto_error) else pure (wake_up_krping cb, next_wc)

-- The receive case of the switch.
unfoldable pub krping_on_recv : Verbs → KrpingVerbs → KrpingCb → KrWc → M (KrpingCb × KrStep)
unfolding krping_received krping_post_again
krping_on_recv v u cb wc = krping_post_again v (krping_received u cb wc)

-- The switch on the opcode of a successful completion. Nothing sets the segment list of `rdma_sq_wr`,
-- so the length that two cases read lies behind a null pointer.
unfoldable pub krping_on_opcode :
    Verbs → KrpingVerbs → KrpingCb → KrWc → KrWcOpcode → M (KrpingCb × KrStep)
unfolding krping_on_recv
krping_on_opcode v u cb wc KrWcOpcode.send =
    let s = cb.stats in
    pure (
      record cb {
        stats = record s {
          send_bytes = s.send_bytes + cb.send_sgl.length;
          send_msgs = s.send_msgs + 1;
        };
      },
      next_wc,
    )
krping_on_opcode v u cb wc KrWcOpcode.rdma_write = λ w. fault
krping_on_opcode v u cb wc KrWcOpcode.rdma_read = λ w. fault
krping_on_opcode v u cb wc KrWcOpcode.recv = krping_on_recv v u cb wc
krping_on_opcode v u cb wc KrWcOpcode.unknown = pure (cb, goto_error)

-- The body of the loop, by the status of the completion.
unfoldable pub krping_on_completion :
    Verbs → KrpingVerbs → KrpingCb → KrWc → KrWcStatus → M (KrpingCb × KrStep)
unfolding krping_on_opcode
krping_on_completion v u cb wc KrWcStatus.success = krping_on_opcode v u cb wc wc.opcode
krping_on_completion v u cb wc KrWcStatus.flush_err = pure (cb, next_wc)
krping_on_completion v u cb wc KrWcStatus.failure = pure (cb, goto_error)

-- The label `error`.
abbrev pub krping_error : KrpingCb → M KrpingCb
krping_error cb = pure (wake_up_krping (record cb { state = error }))

-- `last` is what the last ib_poll_cq returns, a code other than 1.
unfoldable pub krping_poll_loop : Verbs → KrpingVerbs → KrpingCb → List KrWc → ℤ → M KrpingCb
unfolding krping_on_completion
krping_poll_loop v u cb [] last w = if is_zero last then ok cb w else krping_error cb w
krping_poll_loop v u cb (wc ∷ wcs) last w =
    and_then (krping_on_completion v u cb wc wc.status w) λ (cb', next). elim next [
      | next_wc ↦ krping_poll_loop v u cb' wcs last
      | goto_error ↦ krping_error cb'
    ]

-- The handler of the block's own queue, which BUG_ON tests, and which is alive while its handler
-- runs.
unfoldable pub krping_cq_event_handler : Verbs → KrpingVerbs → KrpingCb → List KrWc → ℤ → M KrpingCb
unfolding krping_poll_loop
krping_cq_event_handler v u cb polled last =
    if is_state cb.state error
    then pure cb
    else if cb.frtest
    then pure cb
    else do notified ← call v.req_notify_cq; krping_poll_loop v u cb polled last
