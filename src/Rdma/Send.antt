-- ===== src/Rdma/Send.antt =====
-- rdma.c: alloc_seqn and send_rdma_msg.
pub mod Fills
pub mod Posts
use rpc_kern.Base.{
  ℕ, ◌+◌, ◌%◌, ◌^◌, Bool, Option, none, some, List, get_elem?, set, ◌==◌, leb, if◌then◌else◌,
  is_zero,
}
use rpc_kern.Message.{RdmaMsg, ByteOrder, encode_header, memcpy}
use rpc_kern.Kernel
use rpc_kern.Kernel.{
  World, Verbs, Run, ok, fault, M, pure, and_then, or_fault, ◌>>=◌, ◌>>◌, alive, post_send,
}
use rpc_kern.Rdma.{MsgbufCtx, RdmaChCb}

-- `seqn` is an unsigned long of 64 bits.
unfoldable pub alloc_seqn : MsgbufCtx → MsgbufCtx × ℕ
alloc_seqn mb_ctx = let next = (mb_ctx.seqn + 1) % 2 ^ 64 in (record mb_ctx { seqn = next }, next)

-- The context and the number that go with a message: a new number if 0 is passed.
unfoldable pub choose_seqn : MsgbufCtx → ℕ → MsgbufCtx × ℕ
unfolding alloc_seqn
choose_seqn mb_ctx seqn = if seqn == 0 then alloc_seqn mb_ctx else (mb_ctx, seqn)

-- The context with its message filled in; the data is always copied at its full fixed size.
unfoldable pub fill_msg : ByteOrder → ℕ → ℕ → List ℕ → ℕ → ℕ → MsgbufCtx → Option MsgbufCtx
fill_msg order msgdata_size rpc_ch_addr bytes sem seqn mb_ctx =
    let (mb, number) = choose_seqn mb_ctx seqn in
    let msg = encode_header order number sem rpc_ch_addr mb.send_msg in
    elim (memcpy msg.bytes bytes msgdata_size) [
      | none ↦ none
      | some copied ↦ some (record mb { send_msg = record msg { bytes = copied } })
    ]

-- The sequence number is chosen, the message filled in and the request posted. The result is the
-- size sent, or 0. `msgbuf_id` comes from a bitmap, and is not negative.
unfoldable pub send_rdma_msg :
    ByteOrder
    → Verbs
    → RdmaChCb
    → (rpc_ch_addr : ℕ) → (bytes : List ℕ) → (sem msgbuf_id seqn : ℕ) → M (RdmaChCb × ℕ)
send_rdma_msg order v cb rpc_ch_addr bytes sem msgbuf_id seqn =
    if leb cb.msgbuf_cnt msgbuf_id then pure (cb, 0) else do
      mb_ctx ← or_fault (get_elem? cb.buf_ctxs msgbuf_id)
      alive Kernel.memory mb_ctx.send_buf
      mb ← or_fault (fill_msg order cb.msgdata_size rpc_ch_addr bytes sem seqn mb_ctx)
      alive Kernel.qp cb.qp
      ret ←
          post_send v
            (record { wr_id = mb.sq_wr.wr_id; sg_list = mb.sq_wr.sg_list; msg = mb.send_msg })
      pure (
        record cb { buf_ctxs = set cb.buf_ctxs msgbuf_id mb },
        if is_zero ret then cb.msgbuf_size else 0,
      )
