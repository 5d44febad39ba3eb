-- ===== src/Rdma/Receive/Arrival.antt =====
-- A message on its way: what send_rdma_msg puts on the wire, receive_msg hands to the handler.
use rpc_kern.Base.{
  ℕ, ◌+◌, ◌^◌, ◌<◌, ◌≤◌, ◌≡◌, refl, ◌∙◌, sym, ap, true, some, List, [], ◌∷◌, ◌++◌, take, length,
  is_zero,
}
use rpc_kern.Message.{RdmaMsg, RpcMsg, RpcMsgHeader, ByteOrder, msgheader_size}
use rpc_kern.Kernel.{World, Sent, Verbs}
use rpc_kern.Kernel.Returns.{Returns, weaken}
use rpc_kern.Rdma.{MsgbufCtx, RdmaChCb}
use rpc_kern.Rdma.Send.{choose_seqn, send_rdma_msg}
use rpc_kern.Rdma.Send.Posts.{CanSend, Carries, header_of, send_rdma_msg-Posted}
use rpc_kern.Rdma.Receive.{Wc, RpcMsgHandlerParam, handler_param}
use rpc_kern.Rdma.Receive.Delivers.{delivered, handler_param-delivered}

-- What a handler gets, from its message on.
abbrev pub Arrives : ByteOrder → RdmaChCb → RpcMsg → (rpc_ch_addr : ℕ) → RdmaMsg → Type 0
Arrives order receiver msg rpc_ch_addr m =
    (wc : Wc) (a b c : ℕ)
    → (p : RpcMsgHandlerParam) × (handler_param order receiver wc.wr_id m a b c ≡ some p)
      × (p.param.msg ≡ msg)
      × (p.client_rpc_ch ≡ rpc_ch_addr)
      × (p.msgbuf_id ≡ wc.wr_id)

Carries-Arrives :
    (order : ByteOrder) (receiver : RdmaChCb) (n seqn sem rpc_ch_addr : ℕ) (bytes : List ℕ)
    (m : RdmaMsg)
    → receiver.msgdata_size ≡ n
    → receiver.msgbuf_size ≡ receiver.msgdata_size + msgheader_size
    → Carries order n (header_of seqn sem rpc_ch_addr) bytes m
    → Arrives order receiver
        (record { header = header_of seqn sem rpc_ch_addr; bytes = take n bytes })
        rpc_ch_addr
        m
Carries-Arrives order receiver n seqn sem rpc_ch_addr bytes m same sizes carries wc a b c = (
  delivered order receiver wc m a b c,
  handler_param-delivered order receiver wc m a b c sizes (carries.size ∙ sym same),
  rw (carries.words, same, carries.front) refl,
  ap (λ (h : RpcMsgHeader). h.client_rpc_ch) carries.words,
  refl,
)

-- send_rdma_msg on a buffer that can send, with words of 64 bits, enough data and an adapter that
-- accepts the request, appends one message to what is sent; and whichever receiver of the same sizes
-- that message arrives at, into whichever receive buffer, the handler's parameter there holds the
-- sender's sequence number, wait queue, channel and data, and the receive buffer's index.
pub send_rdma_msg-handler_param :
    (order : ByteOrder) (v : Verbs) (cb : RdmaChCb) (rpc_ch_addr : ℕ) (bytes : List ℕ)
    (sem msgbuf_id seqn : ℕ) (mb : MsgbufCtx) (w : World) (receiver : RdmaChCb)
    → CanSend cb w msgbuf_id mb
    → sem < 2 ^ 64
    → rpc_ch_addr < 2 ^ 64
    → seqn < 2 ^ 64
    → cb.msgdata_size ≤ length bytes
    → is_zero (v.post_send w.clock) ≡ true
    → receiver.msgdata_size ≡ cb.msgdata_size
    → receiver.msgbuf_size ≡ receiver.msgdata_size + msgheader_size
    → Returns
        (λ out w'.
          (sent : Sent) × (w'.sent ≡ w.sent ++ sent ∷ [])
          × Arrives order receiver
              (record {
                header = header_of (choose_seqn mb seqn).1 sem rpc_ch_addr;
                bytes = take cb.msgdata_size bytes;
              })
              rpc_ch_addr
              sent.msg)
        (send_rdma_msg order v cb rpc_ch_addr bytes sem msgbuf_id seqn w)
send_rdma_msg-handler_param order v cb rpc_ch_addr bytes sem msgbuf_id seqn mb w receiver ready sw
      cw nw enough accepted same sizes =
    weaken
      (send_rdma_msg-Posted order v cb rpc_ch_addr bytes sem msgbuf_id seqn mb w ready sw cw nw
        enough accepted)
      λ out w' p. (
        p.sent,
        p.appended,
        Carries-Arrives order receiver cb.msgdata_size (choose_seqn mb seqn).1 sem rpc_ch_addr bytes
            p.sent.msg same sizes p.carries,
      )
