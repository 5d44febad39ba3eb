-- ===== src/RpcClient/Responses.antt =====
-- The completion queue's loop over any number of responses to the test client.
use rpc_kern.Base.{
  ℕ, ◌+◌, ◌<◌, ◌≡◌, refl, ◌∙◌, sym, ap, false, some, List, [], ◌∷◌, ◌++◌, append_assoc, append-nil,
  ◌^◌, ◌≤◌, leb, if◌then◌else◌, arith, pos, length, get_elem?,
}
use rpc_kern.Msgbuf.{free_msgbuf_id}
use rpc_kern.Message.{RdmaMsg, ByteOrder, decode_header, msgheader_size}
use rpc_kern.Kernel
use rpc_kern.Kernel.{World, Run, Verbs, post_recv, M, ok, and_then, pure, alive, tick}
use rpc_kern.Kernel.Owned.{alive-ok}
use rpc_kern.Kernel.Returns.{Returns, returns, chain, weaken}
use rpc_kern.Kernel.Succeed.{AllSucceed}
use rpc_kern.Rdma.{MsgbufCtx, RdmaChCb, value, connected, working}
use rpc_kern.Rdma.Receive.{success, recv}
use rpc_kern.Rdma.Receive.Delivers.{CanReceive}
use rpc_kern.Rdma.Cq.{
  Completion, Next, land, continue, on_recv, on_opcode, on_completion, poll_loop, cq_event_handler,
}
use rpc_kern.RpcClient.Handler.{test_handlers, receive_msg-Answered}
use rpc_kern.RpcClient.Serving.{
  Serving, IsResponse, AllResponses, freed_by, sems, buffers_used, working-frame, land-Serving,
  reposted-Serving,
}

module _ (order : ByteOrder) (v : Verbs) (all : AllSucceed v) (size bytes n ch : ℕ)
    (fit : size ≡ bytes + msgheader_size) (small : size < 2 ^ 31) where
  -- What one response does.
  abbrev pub Step : Completion → List ℕ → World → RdmaChCb × Next → World → Type 0
  Step c bitmap w out w' =
      (out.1 ≡ continue)
      × Serving size bytes n ch (free_msgbuf_id bitmap c.wc.wr_id) out.0 w'
      × ((a : ℕ) → w'.live a ≡ w.live a)
      × (w'.woken ≡ w.woken ++ (decode_header order c.arrived).sem ∷ [])
      × (w'.posted ≡ w.posted ++ c.wc.wr_id ∷ [])

  -- What else one response leaves, in the channel `cb`.
  abbrev pub Leaves : RdmaChCb → World → RdmaChCb → World → Type 0
  Leaves cb w out w' =
      (out ≡ (if leb (value cb.state) (value connected) then record cb { state = working } else cb))
      × (w'.sent ≡ w.sent)
      × (w.next ≤ w'.next)

  pub on_recv-Step :
      (bitmap : List ℕ) (cb : RdmaChCb) (w : World) (c : Completion) (mb : MsgbufCtx)
      → Serving size bytes n ch bitmap cb w
      → IsResponse order size bytes n ch c
      → get_elem? cb.buf_ctxs c.wc.wr_id ≡ some mb
      → mb.recv_msg ≡ c.arrived
      → w.live mb.recv_buf ≡ some Kernel.memory
      → mb.rq_wr.wr_id ≡ c.wc.wr_id
      → Returns
          (λ out w'. Step c bitmap w out w' × Leaves cb w out.0 w')
          (on_recv order v test_handlers cb c.wc w)
  unfolding on_recv post_recv
  on_recv-Step bitmap cb w c mb s r here msg buffer id =
      let names : (decode_header order mb.recv_msg).client_rpc_ch ≡ ch =
        ap (λ m. (decode_header order m).client_rpc_ch) msg ∙ r.names in
      let ready : CanReceive cb w c.wc mb = record {
        sizes = s.size_is ∙ fit ∙ ap (λ k. k + msgheader_size) (sym s.data_is);
        small = omega (arith, s.size_is);
        full = r.full ∙ sym s.size_is;
        context = here;
        buffer = buffer;
        room = ap (λ (m : RdmaMsg). length m.bytes) msg ∙ r.room ∙ sym s.data_is;
      } in
      chain
        (receive_msg-Answered order v cb c.wc mb w bitmap ready s.unused s.not_null
          (ap w.live names ∙ s.channel) (ap w.bitmaps names ∙ s.known) (all.kzalloc_ok _)
          (all.kzalloc_ok _) (all.kzalloc_ok _))
        λ out w' a.
          let (ctxs, qp, big, less) =
            working-frame (leb (value cb.state) (value connected)) cb out.0 a.state in
          let context : get_elem? out.0.buf_ctxs c.wc.wr_id ≡ some mb =
            ap (λ t. get_elem? t c.wc.wr_id) ctxs ∙ here in
          let queue : w'.live out.0.qp ≡ some Kernel.qp =
            a.live out.0.qp ∙ ap w.live qp ∙ s.queue in
          let known : w'.bitmaps ch ≡ some (free_msgbuf_id bitmap c.wc.wr_id) =
            ap w'.bitmaps (sym names) ∙ a.cleared in
          rw (a.code, context, alive-ok _ _ w' queue, all.post_recv)
            (returns (
              (
                refl,
                reposted-Serving size bytes n ch bitmap (free_msgbuf_id bitmap c.wc.wr_id) cb out.0
                    w w' _ s (leb (value cb.state) (value connected)) a.state a.live
                    (omega (arith, a.next)) known,
                a.live,
                a.woken ∙ ap (λ m. w.woken ++ (decode_header order m).sem ∷ []) msg,
                ap (λ t. t ++ mb.rq_wr.wr_id ∷ []) a.posted ∙ ap (λ k. w.posted ++ k ∷ []) id,
              ),
              (a.state, a.sent, omega (arith, a.next)),
            ))

  pub on_completion-recv :
      (cb : RdmaChCb) (c : Completion) (w : World)
      → c.wc.status ≡ success
      → c.wc.opcode ≡ recv
      → on_completion order v test_handlers cb c.wc c.wc.status w
        ≡ on_recv order v test_handlers cb c.wc w
  unfolding on_completion on_opcode
  on_completion-recv cb c w st op =
      ap (λ t. on_completion order v test_handlers cb c.wc t w) st
      ∙ ap (λ t. on_opcode order v test_handlers cb c.wc t w) op

  poll_loop-Serving :
      (cs : List Completion) (bitmap : List ℕ) (cb : RdmaChCb) (w : World)
      → AllResponses order size bytes n ch cs
      → Serving size bytes n ch bitmap cb w
      → Returns
          (λ out w'.
            (out.1 ≡ pos 0)
            × Serving size bytes n ch (freed_by bitmap cs) out.0 w'
            × ((a : ℕ) → w'.live a ≡ w.live a)
            × (w'.woken ≡ w.woken ++ sems order cs)
            × (w'.posted ≡ w.posted ++ buffers_used cs))
          (poll_loop order v test_handlers cb cs (pos 0) false w)
  unfolding poll_loop
  poll_loop-Serving [] bitmap cb w rs s =
      returns (refl, s, λ a. refl, sym (append-nil w.woken), sym (append-nil w.posted))
  poll_loop-Serving (c ∷ cs) bitmap cb w (r, rs) s =
      let (landed, (mb, here, msg, buffer, id)) =
        land-Serving size bytes n ch bitmap cb w c s r.in_range in
      rw (on_completion-recv (land cb c) c w r.status r.opcode) (
        chain (on_recv-Step bitmap (land cb c) w c mb landed r here msg buffer id)
          λ out w1 ((next, s1, l1, k1, p1), leaves). rw next (
            weaken (poll_loop-Serving cs (free_msgbuf_id bitmap c.wc.wr_id) out.0 w1 rs s1)
              λ out' w2 (code, s2, l2, k2, p2). (
                code,
                s2,
                λ a. l2 a ∙ l1 a,
                k2
                    ∙ ap (λ t. t ++ sems order cs) k1
                    ∙ append_assoc w.woken ((decode_header order c.arrived).sem ∷ [])
                        (sems order cs),
                p2
                    ∙ ap (λ t. t ++ buffers_used cs) p1
                    ∙ append_assoc w.posted (c.wc.wr_id ∷ []) (buffers_used cs),
              )))

  -- On a channel that serves, where every call succeeds, cq_event_handler on any number of full-size
  -- responses that name the channel's rpc_ch_info returns 0, and the channel still serves; what is
  -- alive is what was alive before; each response has woken the requester that it names and has had
  -- its buffer posted again, in the order of arrival; and the bitmap is as if each response had freed
  -- its buffer's index, in that order.
  pub cq_event_handler-Serving :
      (cs : List Completion) (bitmap : List ℕ) (cb : RdmaChCb) (w : World)
      → AllResponses order size bytes n ch cs
      → Serving size bytes n ch bitmap cb w
      → Returns
          (λ out w'.
            (out.1 ≡ pos 0)
            × Serving size bytes n ch (freed_by bitmap cs) out.0 w'
            × ((a : ℕ) → w'.live a ≡ w.live a)
            × (w'.woken ≡ w.woken ++ sems order cs)
            × (w'.posted ≡ w.posted ++ buffers_used cs))
          (cq_event_handler order v test_handlers cb cs (pos 0) w)
  unfolding cq_event_handler
  cq_event_handler-Serving cs bitmap cb w rs s = poll_loop-Serving cs bitmap cb w rs s
