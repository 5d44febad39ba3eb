-- ===== src/Examples/Requests.antt =====
-- Requests through the RPC layer.
use rpc_kern.Base.{◌≡◌, refl, arith, some, [], ◌∷◌, negsuc}
use rpc_kern.Bitmap.{find_from, bit_array_find_first_clear_bit, bit_array_set_bit}
use rpc_kern.Msgbuf.{alloc_attempt, alloc_msgbuf_id, others}
use rpc_kern.Message.Endian.{little_endian}
use rpc_kern.Kernel.{World}
use rpc_kern.Kernel.Returns.{Returns}
use rpc_kern.RpcClient.{RpcChInfo, RpcReqParam, rpc_ch_rdma, send_rpc_msg_to_server}
use rpc_kern.RpcClient.Requests.{
  IsOpen, Requested, send_rpc_msg_to_server-Requested, send_rpc_msg_to_server_leaks,
}
use rpc_kern.Examples.{willing, open_world, open_cb, ctx0, taken_first}
use rpc_kern.Examples.Ids.{full_bitmap}
use rpc_kern.Examples.Messages.{can_send}

abbrev channel : RpcChInfo
channel = record { self = 1; ch_type = rpc_ch_rdma; ch_cb = some open_cb; msgbuf_bitmap = 90 }

abbrev req : RpcReqParam
req = record { rpc_ch = channel; bytes = 104 ∷ 101 ∷ 108 ∷ 108 ∷ 111 ∷ []; sem = 77 }

channel-IsOpen : IsOpen channel taken_first open_world
channel-IsOpen = record { alive = refl; known = refl }

-- The first free id is 1.
takes_one : alloc_msgbuf_id ([] ∷ []) taken_first 0 ≡ some (1, 1 ∷ 1 ∷ 1 ∷ 0 ∷ [])
unfolding alloc_msgbuf_id alloc_attempt find_from bit_array_find_first_clear_bit bit_array_set_bit
    others
takes_one = refl

send_rpc_msg_to_server-Requested_example :
    Returns
      (Requested little_endian willing
        ([] ∷ [])
        req
        open_cb
        taken_first
        (1 ∷ 1 ∷ 1 ∷ 0 ∷ [])
        1
        (record ctx0 { id = 1 })
        open_world
        channel-IsOpen
        refl
        refl
        takes_one
        can_send
        (omega arith)
        (omega arith)
        (omega arith))
      (send_rpc_msg_to_server little_endian willing ([] ∷ []) req open_world)
send_rpc_msg_to_server-Requested_example =
    send_rpc_msg_to_server-Requested little_endian willing ([] ∷ []) req open_cb taken_first
      (1 ∷ 1 ∷ 1 ∷ 0 ∷ []) 1 (record ctx0 { id = 1 }) open_world channel-IsOpen refl refl takes_one
      can_send (omega arith) (omega arith) (omega arith) refl

send_rpc_msg_to_server_leaks_example :
    Returns
      (λ out w'. (out.1 ≡ 1) × (w'.bitmaps 1 ≡ some (1 ∷ 1 ∷ 1 ∷ 0 ∷ [])) × (w'.sent ≡ []))
      (send_rpc_msg_to_server little_endian
        (record willing { post_send = λ t. negsuc 11 })
        ([] ∷ [])
        req
        open_world)
send_rpc_msg_to_server_leaks_example =
    send_rpc_msg_to_server_leaks little_endian (record willing { post_send = λ t. negsuc 11 })
      ([] ∷ []) req open_cb taken_first (1 ∷ 1 ∷ 1 ∷ 0 ∷ []) 1 (record ctx0 { id = 1 }) open_world
      channel-IsOpen refl refl takes_one can_send (omega arith) (omega arith) (omega arith) refl

abbrev full_world : World
full_world = record open_world { bitmaps = λ a. some full_bitmap }
