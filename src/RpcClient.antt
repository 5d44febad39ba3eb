-- ===== src/RpcClient.antt =====
-- rpc_client.c: the channel of the RPC layer, and the handler that it gives to the RDMA layer.
pub mod Handler
pub mod Exchange
pub mod Life
pub mod Target
pub mod Serving
pub mod Responses
pub mod FirstRequest
pub mod Requests
pub mod Session
pub mod Order
use rpc_kern.Base.{
  ℕ, zero, suc, ◌+◌, Bool, true, false, Option, none, some, List, [], ◌∷◌, ◌++◌, replicate, ◌==◌,
  if◌then◌else◌,
}
use rpc_kern.Bitmap.{bit_arr_size}
use rpc_kern.Msgbuf.{Other, free_msgbuf_id, alloc_msgbuf_id}
use rpc_kern.Message.{ByteOrder}
use rpc_kern.Kernel
use rpc_kern.Kernel.{
  World, Verbs, Run, ok, fault, asleep, M, pure, and_then, or_fault, ◌>>=◌, ◌>>◌, null, alive,
  kzalloc, kfree,
}
use rpc_kern.Rdma.{RdmaChCb}
use rpc_kern.Rdma.Send.{send_rdma_msg}
use rpc_kern.Rdma.Receive.{MsgHandlerParam, RpcMsgHandlerParam}
use rpc_kern.Rdma.Channel.{RdmaChAttr, init_rdma_ch, destroy_rdma_client}

-- enum rpc_channel_type: RPC_CH_RDMA, or any other number.
pub data RpcChannelType : Type 0 where
  rpc_ch_rdma : RpcChannelType
  invalid : ℕ → RpcChannelType

abbrev pub rpc_msg_buf_num : ℕ
rpc_msg_buf_num = 4

-- struct rpc_ch_info, at the address `self`; its bitmap stands in the world, as threads share it.
pub record RpcChInfo : Type 0 where
  pub self : ℕ
  pub ch_type : RpcChannelType
  pub ch_cb : Option RdmaChCb
  pub msgbuf_bitmap : ℕ

pub record RpcReqParam : Type 0 where
  pub rpc_ch : RpcChInfo
  pub bytes : List ℕ
  pub sem : ℕ

abbrev pub with_bitmap : World → ℕ → List ℕ → World
with_bitmap w ch bitmap = record w { bitmaps = λ a. if ch == a then some bitmap else w.bitmaps a }

-- The bitmap of the channel at an address.
abbrev pub bitmap_at : ℕ → M (List ℕ)
bitmap_at ch w = or_fault (w.bitmaps ch) w

abbrev pub put_bitmap : ℕ → List ℕ → M (Unit {0})
put_bitmap ch bitmap w = ok tt (with_bitmap w ch bitmap)

-- free_msgbuf_id on the channel at an address; a fault if it is not alive.
unfoldable pub free_at : ℕ → ℕ → M (Unit {0})
free_at ch id = do
  alive Kernel.memory ch
  bitmap ← bitmap_at ch
  put_bitmap ch (free_msgbuf_id bitmap id)

-- A spinning loop leaves the task asleep, as far as its caller is concerned.
abbrev pub or_spin {ℓ} : {A : Type ℓ} → Option A → M A
or_spin none w = asleep
or_spin (some a) w = ok a w

-- alloc_msgbuf_id on it, with what the other threads do meanwhile.
unfoldable pub alloc_at : List (List Other) → ℕ → M ℕ
alloc_at rounds ch = do
  alive Kernel.memory ch
  bitmap ← bitmap_at ch
  (id, bitmap') ← or_spin (alloc_msgbuf_id rounds bitmap 0)
  put_bitmap ch bitmap'
  pure id

-- The handler of the RPC layer. `user` is the user's handler, the function at an address.
unfoldable pub client_rpc_rdma_msg_handler :
    (ℕ → MsgHandlerParam → M (Unit {0})) → RpcMsgHandlerParam → M (Unit {0})
client_rpc_rdma_msg_handler user rpc_pa = do
  alive Kernel.memory rpc_pa.self
  free_at rpc_pa.client_rpc_ch rpc_pa.msgbuf_id
  user rpc_pa.user_msg_handler_cb rpc_pa.param
  kfree rpc_pa.self

-- The size of the attribute's address array.
abbrev pub ip_addr_size : ℕ
ip_addr_size = 16

-- An array of `n` bytes, which holds what `byte` says.
abbrev pub array : (n : ℕ) → (byte : ℕ → ℕ) → List ℕ
array zero byte = []
array (suc n) byte = byte 0 ∷ array n (λ i. byte (i + 1))

-- strcpy into an array that held `before`: the bytes up to the first zero, and it. `none` is a write
-- past the end of the array, or a read past the end of the source.
unfoldable pub strcpy : (before src : List ℕ) → Option (List ℕ)
strcpy (b ∷ before) (s ∷ src) =
    let rest = strcpy before src in
    if s == 0 then some (0 ∷ before) else elim rest [ none ↦ none | some l ↦ some (s ∷ l) ]
strcpy before src = none

-- The label `err`: the bitmap is not freed.
abbrev pub client_err : ℕ → M (Option RpcChInfo)
client_err rpc_ch = kfree rpc_ch >> pure none

-- `handler` is the address of client_rpc_rdma_msg_handler, and `before` what the bytes of
-- the attribute's address array are at first.
unfoldable pub init_rpc_client :
    ByteOrder
    → Verbs
    → (handler : ℕ) → (before : ℕ → ℕ) → RpcChannelType
    → (target : List ℕ) → (port max_msgdata_size msg_handler : ℕ) → M (Option RpcChInfo)
unfolding strcpy
init_rpc_client order v handler before ch_type target port max_msgdata_size msg_handler = do
  rpc_ch ← kzalloc v
  alive Kernel.memory rpc_ch
  bitmap ← kzalloc v
  if bitmap == null then pure tt else put_bitmap rpc_ch (replicate bit_arr_size 0)
  elim ch_type [
    | invalid n ↦ client_err rpc_ch
    | rpc_ch_rdma ↦ do
      ip_addr ← or_fault (strcpy (array ip_addr_size before) target)
      ch_cb ← init_rdma_ch order v (record {
        port = port;
        server = false;
        ip_addr = ip_addr;
        msgbuf_cnt = rpc_msg_buf_num;
        msgdata_size = max_msgdata_size;
        rpc_msg_handler_cb = handler;
        user_msg_handler_cb = msg_handler;
      })
      elim ch_cb [
        | none ↦ client_err rpc_ch
        | some cb ↦ pure (
            some (record {
              self = rpc_ch;
              ch_type = rpc_ch_rdma;
              ch_cb = some cb;
              msgbuf_bitmap = bitmap;
            }))
      ]
  ]

unfoldable pub destroy_channel : RpcChannelType → Option RdmaChCb → M (Unit {0})
destroy_channel rpc_ch_rdma none = λ w. fault
destroy_channel rpc_ch_rdma (some cb) = destroy_rdma_client cb
destroy_channel (invalid n) cb = pure tt

abbrev pub bit_array_free : ℕ → M (Unit {0})
bit_array_free bitarray = kfree bitarray

unfoldable pub destroy_rpc_client : RpcChInfo → M (Unit {0})
unfolding destroy_channel
destroy_rpc_client rpc_ch = do
  alive Kernel.memory rpc_ch.self
  destroy_channel rpc_ch.ch_type rpc_ch.ch_cb
  bit_array_free rpc_ch.msgbuf_bitmap
  kfree rpc_ch.self

unfoldable pub send_on_channel :
    ByteOrder → Verbs → RpcChInfo → List ℕ → ℕ → ℕ → RpcChannelType → Option RdmaChCb → M RpcChInfo
send_on_channel order v rpc_ch bytes sem msgbuf_id rpc_ch_rdma none = λ w. fault
send_on_channel order v rpc_ch bytes sem msgbuf_id rpc_ch_rdma (some cb) = do
  (cb, dropped) ← send_rdma_msg order v cb rpc_ch.self bytes sem msgbuf_id 0
  pure (record rpc_ch { ch_cb = some cb })
send_on_channel order v rpc_ch bytes sem msgbuf_id (invalid n) cb = pure rpc_ch

-- The id of the message buffer that was used; what send_rdma_msg returns is dropped.
unfoldable pub send_rpc_msg_to_server :
    ByteOrder → Verbs → List (List Other) → RpcReqParam → M (RpcChInfo × ℕ)
unfolding send_on_channel alloc_at
send_rpc_msg_to_server order v rounds req_param = do
  let rpc_ch = req_param.rpc_ch
  msgbuf_id ← alloc_at rounds rpc_ch.self
  rpc_ch ←
      send_on_channel order v rpc_ch req_param.bytes req_param.sem msgbuf_id rpc_ch.ch_type
        rpc_ch.ch_cb
  pure (rpc_ch, msgbuf_id)
