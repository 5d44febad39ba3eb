-- ===== src/Message.antt =====
-- The message of rdma.h (struct rdma_msg, as it travels) and of rpc.h (struct rpc_msg, as the user's
-- handler reads it), their sizes, and the copies between them. Both are packed: three 64-bit words
-- and the data bytes. The byte order conversion is the kernel's, and an argument.
pub mod Endian
use rpc_kern.Base.{
  ℕ, ◌+◌, ◌-◌, ◌%◌, ◌^◌, ◌<◌, ◌≤◌, ◌≡◌, ◌⊎◌, inl, inr, Bool, List, Option, none, some, length, take,
  drop, ◌++◌, leb, ltb, ◌||◌, if◌then◌else◌, arith,
}

-- Big-endian words, as numbers of the host.
pub record RdmaMsg : Type 0 where
  pub seq_num : ℕ
  pub rpc_ch_addr : ℕ
  pub sem_addr : ℕ
  pub bytes : List ℕ

pub record RpcMsgHeader : Type 0 where
  pub seqn : ℕ
  pub client_rpc_ch : ℕ
  pub sem : ℕ

pub record RpcMsg : Type 0 where
  pub header : RpcMsgHeader
  pub bytes : List ℕ

-- `&msg.data - &msg` of the packed struct: three words of eight bytes.
abbrev pub msgheader_size : ℕ
msgheader_size = 24

-- `int` sizes; the callers pass sizes far below 2 ^ 31, so the sums do not overflow.
unfoldable pub msgdata_size : ℕ → ℕ
msgdata_size msgbuf_size = msgbuf_size - msgheader_size

unfoldable pub msgbuf_size : ℕ → ℕ
msgbuf_size msgdata_size = msgdata_size + msgheader_size

-- Copies `n` bytes of `src` over the front of `dst`; `none` where it would run past either.
unfoldable pub memcpy : List ℕ → List ℕ → ℕ → Option (List ℕ)
memcpy dst src n =
    if ltb (length dst) n || ltb (length src) n then none else some (take n src ++ drop n dst)

-- What the code relies on of the kernel's cpu_to_be64, which rpc.h uses in both directions
-- (`htonll` and `ntohll` are both `cpu_to_be64`): on 64-bit words it is its own inverse.
pub record ByteOrder : Type 0 where
  pub cpu_to_be64 : ℕ → ℕ
  pub htons : ℕ → ℕ
  pub self_inverse : (x : ℕ) → x < 2 ^ 64 → cpu_to_be64 (cpu_to_be64 x) ≡ x

-- The words that a sender puts into the front of a message.
unfoldable pub encode_header : ByteOrder → ℕ → ℕ → ℕ → RdmaMsg → RdmaMsg
encode_header order seqn sem rpc_ch_addr msg = record msg {
  seq_num = order.cpu_to_be64 seqn;
  sem_addr = order.cpu_to_be64 sem;
  rpc_ch_addr = order.cpu_to_be64 rpc_ch_addr;
}

-- The words that a receiver reads from it.
unfoldable pub decode_header : ByteOrder → RdmaMsg → RpcMsgHeader
decode_header order msg = record {
  seqn = order.cpu_to_be64 msg.seq_num;
  sem = order.cpu_to_be64 msg.sem_addr;
  client_rpc_ch = order.cpu_to_be64 msg.rpc_ch_addr;
}

pub decode-encode :
    (order : ByteOrder) (seqn sem rpc_ch_addr : ℕ) (msg : RdmaMsg)
    → seqn < 2 ^ 64
    → sem < 2 ^ 64
    → rpc_ch_addr < 2 ^ 64
    → decode_header order (encode_header order seqn sem rpc_ch_addr msg)
      ≡ record { seqn = seqn; sem = sem; client_rpc_ch = rpc_ch_addr }
unfolding decode_header encode_header
decode-encode order seqn sem rpc_ch_addr msg a b c =
    ground
      (arith, order.self_inverse seqn a, order.self_inverse sem b, order.self_inverse rpc_ch_addr c)

-- A copy within both buffers.
pub memcpy-some :
    (dst src : List ℕ) (n : ℕ)
    → n ≤ length dst
    → n ≤ length src
    → memcpy dst src n ≡ some (take n src ++ drop n dst)
unfolding memcpy
memcpy-some dst src n h k = ground arith

-- A copy past the end of either.
pub memcpy-none :
    (dst src : List ℕ) (n : ℕ) → (length dst < n) ⊎ (length src < n) → memcpy dst src n ≡ none
unfolding memcpy
memcpy-none dst src n (inl h) = ground arith
memcpy-none dst src n (inr h) = ground arith
