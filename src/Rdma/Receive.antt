-- ===== src/Rdma/Receive.antt =====
-- rdma.c: receive_msg, and the parameters (rpc.h) with which it calls the handler of the layer
-- above. A handler is the function at an address: `invoke` says what the function does.
pub mod Delivers
pub mod Arrival
use rpc_kern.Base.{
  ℕ, ◌+◌, ◌-◌, ◌%◌, ◌^◌, Bool, not, Option, none, some, List, ℤ, pos, negsuc, get_elem?, replicate,
  ◌==◌, leb, if◌then◌else◌,
}
use rpc_kern.Message.{
  RdmaMsg, RpcMsg, RpcMsgHeader, ByteOrder, decode_header, memcpy, msgheader_size,
}
use rpc_kern.Kernel
use rpc_kern.Kernel.{
  World, Verbs, Run, ok, fault, M, pure, and_then, or_fault, ◌>>=◌, ◌>>◌, null, alive, kzalloc,
  kfree,
}
use rpc_kern.Rdma.{RdmaChState, value, MsgbufCtx, RdmaChCb, connected, working}

pub data WcStatus : Type 0 where
  success flush_err failure : WcStatus

pub data WcOpcode : Type 0 where
  send rdma_write rdma_read recv unknown : WcOpcode

-- struct ib_wc, as far as it is read.
pub record Wc : Type 0 where
  pub status : WcStatus
  pub opcode : WcOpcode
  pub byte_len : ℕ
  pub wr_id : ℕ

-- Each of the three has its own address, by which it is freed. `client_id` stays 0.
pub record MsgHandlerParam : Type 0 where
  pub self : ℕ
  pub client_id : ℕ
  pub msgbuf_id : ℕ
  pub ch_cb : ℕ
  pub msg_addr : ℕ
  pub msg : RpcMsg

pub record RpcMsgHandlerParam : Type 0 where
  pub self : ℕ
  pub msgbuf_id : ℕ
  pub client_rpc_ch : ℕ
  pub param : MsgHandlerParam
  pub user_msg_handler_cb : ℕ

abbrev pub Invoke : Type 0
Invoke = ℕ → RpcMsgHandlerParam → M (Unit {0})

abbrev pub enomem : ℤ
enomem = negsuc 11

-- What the handler is given: a zeroed message of `msgbuf_size` bytes, with the header converted and
-- the data copied at its full fixed size. `none` is a copy past the end of a buffer.
unfoldable pub handler_param :
    ByteOrder → RdmaChCb → ℕ → RdmaMsg → (rpc_param param msg : ℕ) → Option RpcMsgHandlerParam
handler_param order cb msgbuf_id arrived rpc_param param msg =
    let header = decode_header order arrived in
    elim (memcpy (replicate (cb.msgbuf_size - msgheader_size) 0) arrived.bytes cb.msgdata_size) [
      | none ↦ none
      | some copied ↦ some (record {
        self = rpc_param;
        msgbuf_id = msgbuf_id;
        client_rpc_ch = header.client_rpc_ch;
        param = record {
          self = param;
          client_id = 0;
          msgbuf_id = msgbuf_id;
          ch_cb = cb.self;
          msg_addr = msg;
          msg = record { header = header; bytes = copied };
        };
        user_msg_handler_cb = cb.user_msg_handler_cb;
      })
    ]

-- The part after the allocations.
unfoldable pub dispatch_msg :
    ByteOrder → Invoke → RdmaChCb → Wc → (rpc_param param msg : ℕ) → M (RdmaChCb × ℤ)
unfolding handler_param
dispatch_msg order invoke cb wc rpc_param param msg = do
  mb_ctx ← or_fault (get_elem? cb.buf_ctxs wc.wr_id)
  alive Kernel.memory mb_ctx.recv_buf
  p ← or_fault (handler_param order cb wc.wr_id mb_ctx.recv_msg rpc_param param msg)
  invoke cb.rpc_msg_handler_cb p
  pure (if leb (value cb.state) (value connected) then record cb { state = working } else cb, pos 0)

-- The labels `err1`, `err2` and `err3`, each of which falls into the one before.
abbrev pub err1 : RdmaChCb → M (RdmaChCb × ℤ)
err1 cb = pure (cb, enomem)

abbrev pub err2 : RdmaChCb → ℕ → M (RdmaChCb × ℤ)
err2 cb rpc_param = kfree rpc_param >> err1 cb

abbrev pub err3 : RdmaChCb → ℕ → ℕ → M (RdmaChCb × ℤ)
err3 cb rpc_param param = kfree param >> err2 cb rpc_param

unfoldable pub receive_msg : ByteOrder → Verbs → Invoke → RdmaChCb → Wc → M (RdmaChCb × ℤ)
unfolding dispatch_msg
receive_msg order v invoke cb wc =
    if not (wc.byte_len == cb.msgbuf_size % 2 ^ 32) then pure (cb, negsuc 0) else do
      rpc_param ← kzalloc v
      if rpc_param == null then err1 cb else do
        param ← kzalloc v
        if param == null then err2 cb rpc_param else do
          msg ← kzalloc v
          if msg == null
              then err3 cb rpc_param param
              else dispatch_msg order invoke cb wc rpc_param param msg
