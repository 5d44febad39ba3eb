-- ===== src/Rdma/Send/Fills.antt =====
-- What fills the message of a request in send_rdma_msg.
use rpc_kern.Base.{
  ℕ, ◌^◌, ◌<◌, ◌≤◌, ◌≡◌, ◌∙◌, ap, some, List, ◌++◌, arith, length, take, drop, take-append,
  length-take-append-drop,
}
use rpc_kern.Message.{
  RdmaMsg, RpcMsgHeader, ByteOrder, encode_header, decode_header, decode-encode, memcpy-some,
}
use rpc_kern.Rdma.{MsgbufCtx}
use rpc_kern.Rdma.Send.{choose_seqn, fill_msg}

-- A message that carries the words and the data given.
pub record Carries (order : ByteOrder) (n : ℕ) (header : RpcMsgHeader) (bytes : List ℕ)
    (msg : RdmaMsg) : Type 0 where
  pub words : decode_header order msg ≡ header
  pub front : take n msg.bytes ≡ take n bytes
  pub size : length msg.bytes ≡ n

abbrev pub header_of : (seqn sem rpc_ch_addr : ℕ) → RpcMsgHeader
header_of seqn sem rpc_ch_addr = record { seqn = seqn; sem = sem; client_rpc_ch = rpc_ch_addr }

choose_seqn-word : (mb : MsgbufCtx) (seqn : ℕ) → seqn < 2 ^ 64 → (choose_seqn mb seqn).1 < 2 ^ 64
unfolding choose_seqn
choose_seqn-word mb seqn h = ground arith

pub choose_seqn-frame :
    (mb : MsgbufCtx) (seqn : ℕ)
    → (choose_seqn mb seqn).0 ≡ record mb { seqn = (choose_seqn mb seqn).0.seqn }
unfolding choose_seqn
choose_seqn-frame mb seqn = ground arith

choose_seqn-send_msg : (mb : MsgbufCtx) (seqn : ℕ) → (choose_seqn mb seqn).0.send_msg ≡ mb.send_msg
unfolding choose_seqn
choose_seqn-send_msg mb seqn = ground arith

module _ (order : ByteOrder) (n rpc_ch_addr : ℕ) (bytes : List ℕ) (sem seqn : ℕ) (mb : MsgbufCtx)
    (sem_word : sem < 2 ^ 64) (ch_word : rpc_ch_addr < 2 ^ 64) (seqn_word : seqn < 2 ^ 64)
    (buffer : length mb.send_msg.bytes ≡ n) (enough : n ≤ length bytes) where
  -- The context after its message has been filled in.
  abbrev pub filled : MsgbufCtx
  filled =
      let (chosen, number) = choose_seqn mb seqn in
      let msg = record chosen.send_msg { bytes = take n bytes ++ drop n chosen.send_msg.bytes } in
      record chosen { send_msg = encode_header order number sem rpc_ch_addr msg }

  room : length (choose_seqn mb seqn).0.send_msg.bytes ≡ n
  room = ap (λ (m : RdmaMsg). length m.bytes) (choose_seqn-send_msg mb seqn) ∙ buffer

  pub fill_msg-filled : fill_msg order n rpc_ch_addr bytes sem seqn mb ≡ some filled
  unfolding fill_msg encode_header
  fill_msg-filled = rw (
    fill_msg,
    memcpy-some (choose_seqn mb seqn).0.send_msg.bytes bytes n (omega (arith, room)) enough,
  )

  filled-words :
      decode_header order filled.send_msg ≡ header_of (choose_seqn mb seqn).1 sem rpc_ch_addr
  filled-words =
      decode-encode order _ sem rpc_ch_addr _ (choose_seqn-word mb seqn seqn_word) sem_word ch_word

  pub filled-Carries :
      Carries order n (header_of (choose_seqn mb seqn).1 sem rpc_ch_addr) bytes filled.send_msg
  unfolding encode_header
  filled-Carries = record {
    words = filled-words;
    front = take-append n bytes _ enough;
    size = length-take-append-drop n bytes _ enough (omega (arith, room)) ∙ room;
  }
