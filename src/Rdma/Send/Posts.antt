-- ===== src/Rdma/Send/Posts.antt =====
-- What send_rdma_msg puts on the wire.
pub use rpc_kern.Rdma.Send.Fills.{Carries, header_of}
use rpc_kern.Base.{
  ℕ, ◌+◌, ◌%◌, ◌^◌, ◌<◌, ◌≤◌, ◌≡◌, refl, ap, true, false, some, List, [], ◌∷◌, ◌++◌, get_elem?, set,
  ◌==◌, leb, if◌then◌else◌, is_zero, arith, length, inr, none,
}
use rpc_kern.Message.{ByteOrder, encode_header, memcpy-none}
use rpc_kern.Kernel.{fault, World, Sent, Verbs, ok, alive, post_send, tick}
use rpc_kern.Kernel
use rpc_kern.Kernel.Owned.{alive-ok}
use rpc_kern.Kernel.Returns.{Returns, returns, weaken}
use rpc_kern.Rdma.{MsgbufCtx, RdmaChCb}
use rpc_kern.Rdma.Send.{choose_seqn, fill_msg, send_rdma_msg}
use rpc_kern.Rdma.Send.Fills.{choose_seqn-frame, filled, fill_msg-filled, filled-Carries}

-- A message buffer of a channel that is ready to send through it.
pub record CanSend (cb : RdmaChCb) (w : World) (msgbuf_id : ℕ) (mb : MsgbufCtx) : Type 0 where
  pub in_range : msgbuf_id < cb.msgbuf_cnt
  pub context : get_elem? cb.buf_ctxs msgbuf_id ≡ some mb
  pub buffer : w.live mb.send_buf ≡ some Kernel.memory
  pub room : length mb.send_msg.bytes ≡ cb.msgdata_size
  pub queue : w.live cb.qp ≡ some Kernel.qp

-- What is on the wire, in the contexts and in the result after a message has been sent.
pub record Posted (order : ByteOrder) (cb : RdmaChCb) (mb : MsgbufCtx) (w : World) (rpc_ch_addr : ℕ)
    (bytes : List ℕ) (sem msgbuf_id seqn : ℕ) (out : RdmaChCb × ℕ) (w' : World) : Type 0 where
  pub sent : Sent
  pub appended : w'.sent ≡ w.sent ++ sent ∷ []
  pub carries :
      Carries order cb.msgdata_size
        (header_of (choose_seqn mb seqn).1 sem rpc_ch_addr)
        bytes
        sent.msg
  pub size : out.1 ≡ cb.msgbuf_size
  pub mb' : MsgbufCtx
  pub stored : out.0 ≡ record cb { buf_ctxs = set cb.buf_ctxs msgbuf_id mb' }
  pub request_id : sent.wr_id ≡ mb.sq_wr.wr_id
  pub content : sent.msg ≡ mb'.send_msg
  pub frame : mb' ≡ record mb { seqn = mb'.seqn; send_msg = mb'.send_msg }
  pub number : mb'.seqn ≡ (if seqn == 0 then (mb.seqn + 1) % 2 ^ 64 else mb.seqn)
  pub next : w'.next ≡ w.next
  pub woken : w'.woken ≡ w.woken
  pub untouched : (w'.live ≡ w.live) × (w'.posted ≡ w.posted) × (w'.bitmaps ≡ w.bitmaps)

-- What is left after a request that the adapter has refused.
pub record Unsent (cb : RdmaChCb) (mb : MsgbufCtx) (msgbuf_id : ℕ) (w : World) (out : RdmaChCb × ℕ)
    (w' : World) : Type 0 where
  pub result : out.1 ≡ 0
  pub mb' : MsgbufCtx
  pub stored : out.0 ≡ record cb { buf_ctxs = set cb.buf_ctxs msgbuf_id mb' }
  pub frame : mb' ≡ record mb { seqn = mb'.seqn; send_msg = mb'.send_msg }
  pub size : length mb'.send_msg.bytes ≡ cb.msgdata_size
  pub sent : w'.sent ≡ w.sent
  pub live : w'.live ≡ w.live
  pub posted : w'.posted ≡ w.posted
  pub bitmaps : w'.bitmaps ≡ w.bitmaps
  pub next : w'.next ≡ w.next

module _ (order : ByteOrder) (v : Verbs) (cb : RdmaChCb) (rpc_ch_addr : ℕ) (bytes : List ℕ)
    (sem msgbuf_id seqn : ℕ) (mb : MsgbufCtx) (w : World) (ready : CanSend cb w msgbuf_id mb)
    (sem_word : sem < 2 ^ 64) (ch_word : rpc_ch_addr < 2 ^ 64) (seqn_word : seqn < 2 ^ 64)
    (enough : cb.msgdata_size ≤ length bytes) where
  abbrev mb_filled : MsgbufCtx
  mb_filled =
      filled order cb.msgdata_size rpc_ch_addr bytes sem seqn mb sem_word ch_word seqn_word
        ready.room enough

  abbrev request : Sent
  request = record {
    wr_id = mb_filled.sq_wr.wr_id;
    sg_list = mb_filled.sq_wr.sg_list;
    msg = mb_filled.send_msg;
  }

  send_rdma_msg-run :
      send_rdma_msg order v cb rpc_ch_addr bytes sem msgbuf_id seqn w
      ≡ ok
          (
            record cb { buf_ctxs = set cb.buf_ctxs msgbuf_id mb_filled },
            if is_zero (v.post_send w.clock) then cb.msgbuf_size else 0,
          )
          (record (tick w) {
            sent = if is_zero (v.post_send w.clock) then w.sent ++ request ∷ [] else w.sent;
          })
  unfolding send_rdma_msg post_send
  send_rdma_msg-run =
      let small : leb cb.msgbuf_cnt msgbuf_id ≡ false = ground (arith, ready.in_range) in
      let fill =
        fill_msg-filled order cb.msgdata_size rpc_ch_addr bytes sem seqn mb sem_word ch_word
          seqn_word ready.room enough in
      rw (small, ready.context, alive-ok _ _ w ready.buffer, fill, alive-ok _ _ w ready.queue)

  pub send_rdma_msg-Posted :
      is_zero (v.post_send w.clock) ≡ true
      → Returns
          (Posted order cb mb w rpc_ch_addr bytes sem msgbuf_id seqn)
          (send_rdma_msg order v cb rpc_ch_addr bytes sem msgbuf_id seqn w)
  unfolding choose_seqn encode_header
  send_rdma_msg-Posted accepted =
      rw (send_rdma_msg-run, accepted)
        (returns (record {
          sent = request;
          appended = refl;
          carries =
              filled-Carries order cb.msgdata_size rpc_ch_addr bytes sem seqn mb sem_word ch_word
                seqn_word ready.room enough;
          size = refl;
          mb' = mb_filled;
          stored = refl;
          request_id = ap (λ (m : MsgbufCtx). m.sq_wr.wr_id) (choose_seqn-frame mb seqn);
          content = refl;
          frame =
              ap (λ (m : MsgbufCtx). record m { send_msg = mb_filled.send_msg })
                (choose_seqn-frame mb seqn);
          number = ground arith;
          next = refl;
          woken = refl;
          untouched = (refl, refl, refl);
        }))

  -- Nothing is sent, and all but the number and the message of the buffer stays as it was.
  pub send_rdma_msg-Unsent :
      is_zero (v.post_send w.clock) ≡ false
      → Returns
          (Unsent cb mb msgbuf_id w)
          (send_rdma_msg order v cb rpc_ch_addr bytes sem msgbuf_id seqn w)
  unfolding choose_seqn encode_header
  send_rdma_msg-Unsent refused =
      rw (send_rdma_msg-run, refused)
        (returns (record {
          result = refl;
          mb' = mb_filled;
          stored = refl;
          frame =
              ap (λ (m : MsgbufCtx). record m { send_msg = mb_filled.send_msg })
                (choose_seqn-frame mb seqn);
          size =
              (filled-Carries order cb.msgdata_size rpc_ch_addr bytes sem seqn mb sem_word ch_word
                seqn_word ready.room enough).size;
          sent = refl;
          live = refl;
          posted = refl;
          bitmaps = refl;
          next = refl;
        }))

  -- send_rdma_msg on a buffer that can send, with words of 64 bits and at least the channel's size
  -- of data, returns 0 if the adapter refuses the request, and what is sent, what is alive and the
  -- bitmaps are as before.
  pub send_rdma_msg-refused :
      is_zero (v.post_send w.clock) ≡ false
      → Returns
          (λ out w'.
            (out.1 ≡ 0) × (w'.sent ≡ w.sent) × (w'.live ≡ w.live) × (w'.bitmaps ≡ w.bitmaps))
          (send_rdma_msg order v cb rpc_ch_addr bytes sem msgbuf_id seqn w)
  send_rdma_msg-refused refused =
      weaken (send_rdma_msg-Unsent refused) λ out w' u. (u.result, u.sent, u.live, u.bitmaps)

-- If the data is shorter than the channel's data size, sending copies past its end.
pub send_rdma_msg-short :
    (order : ByteOrder) (v : Verbs) (cb : RdmaChCb) (rpc_ch_addr : ℕ) (bytes : List ℕ)
    (sem msgbuf_id seqn : ℕ) (mb : MsgbufCtx) (w : World)
    → CanSend cb w msgbuf_id mb
    → length bytes < cb.msgdata_size
    → send_rdma_msg order v cb rpc_ch_addr bytes sem msgbuf_id seqn w ≡ fault
unfolding send_rdma_msg fill_msg encode_header
send_rdma_msg-short order v cb rpc_ch_addr bytes sem msgbuf_id seqn mb w ready short =
    let small : leb cb.msgbuf_cnt msgbuf_id ≡ false = ground (arith, ready.in_range) in
    let none_copied : fill_msg order cb.msgdata_size rpc_ch_addr bytes sem seqn mb ≡ none = rw (
      fill_msg,
      memcpy-none (choose_seqn mb seqn).0.send_msg.bytes bytes cb.msgdata_size (inr short),
    ) in
    rw (small, ready.context, alive-ok _ _ w ready.buffer, none_copied)
