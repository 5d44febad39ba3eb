-- ===== src/Examples/Messages.antt =====
-- A received response, and a message that is sent.
use rpc_kern.Base.{
  ℕ, ◌≡◌, refl, arith, true, false, ◌⊎◌, some, List, [], ◌∷◌, pos, get_or, ◌==◌, ◌++◌,
}
use rpc_kern.Message.{decode_header}
use rpc_kern.Message.Endian.{little_endian, swap64}
use rpc_kern.Kernel
use rpc_kern.Kernel.{World, Verbs, Run, ok, and_then, pure, post_recv, kzalloc, create, alive, Sent}
use rpc_kern.Kernel.Returns.{Returns}
use rpc_kern.Rdma.{working}
use rpc_kern.Rdma.Receive.Arrival.{Arrives, send_rdma_msg-handler_param}
use rpc_kern.Rdma.Send.Posts.{header_of, CanSend}
use rpc_kern.Rdma.Send.{send_rdma_msg, choose_seqn}
use rpc_kern.Rdma.Receive.{Wc, success, recv, receive_msg, Invoke}
use rpc_kern.Rdma.Receive.Delivers.{CanReceive, Unwound, delivered, allocated, receive_msg-delivers}
use rpc_kern.RpcClient.Handler.{
  test_handlers, Answered, receive_msg-Answered, response_frees_receive_index,
}
use rpc_kern.Examples.{willing, open_world, open_world_unused, open_cb, ctx0, response, taken_first}
use rpc_kern.Examples.Ids.{taken_first-IsBitmap}

abbrev wc : Wc
wc = record { status = success; opcode = recv; byte_len = 28; wr_id = 0 }

pub can_receive : CanReceive open_cb open_world wc ctx0
can_receive = record {
  sizes = refl;
  small = omega arith;
  full = refl;
  context = refl;
  buffer = refl;
  room = refl;
}

-- The response names the channel at 1.
response-channel : (decode_header little_endian response).client_rpc_ch ≡ 1
unfolding decode_header swap64
response-channel = refl

channel_alive :
    open_world.live (decode_header little_endian response).client_rpc_ch ≡ some Kernel.memory
channel_alive = rw response-channel refl

channel_known :
    open_world.bitmaps (decode_header little_endian response).client_rpc_ch ≡ some taken_first
channel_known = rw response-channel refl

receive_msg-delivers_example :
    ((true ≡ false)
      × Returns
          (Unwound little_endian willing test_handlers open_cb wc ctx0 open_world can_receive
            open_world_unused
            (omega arith))
          (receive_msg little_endian willing test_handlers open_cb wc open_world))
    ⊎ ((true ≡ true)
        × (receive_msg little_endian willing test_handlers open_cb wc open_world
            ≡ and_then
                (test_handlers 60 (delivered little_endian open_cb wc response 8 9 10) (
                  allocated little_endian willing test_handlers open_cb wc ctx0 open_world
                    can_receive open_world_unused
                    (omega arith)))
                (λ _. pure (record open_cb { state = working }, pos 0))))
receive_msg-delivers_example =
    receive_msg-delivers little_endian willing test_handlers open_cb wc ctx0 open_world can_receive
      open_world_unused (omega arith)

receive_msg-Answered_example :
    Returns
      (Answered little_endian willing open_cb wc ctx0 open_world taken_first can_receive
        open_world_unused
        (omega arith)
        channel_alive
        channel_known)
      (receive_msg little_endian willing test_handlers open_cb wc open_world)
receive_msg-Answered_example =
    receive_msg-Answered little_endian willing open_cb wc ctx0 open_world taken_first can_receive
      open_world_unused (omega arith) channel_alive channel_known refl refl refl

response_frees_receive_index_example :
    Returns
      (λ out w'.
        (bitmap' : List ℕ) × (w'.bitmaps (decode_header little_endian response).client_rpc_ch
          ≡ some bitmap')
        × (get_or bitmap' 0 0 ≡ 0)
        × ((id : ℕ) → (0 == id) ≡ false → get_or bitmap' id 0 ≡ get_or taken_first id 0))
      (receive_msg little_endian willing test_handlers open_cb wc open_world)
response_frees_receive_index_example =
    response_frees_receive_index little_endian willing open_cb wc ctx0 open_world taken_first
      can_receive open_world_unused (omega arith) channel_alive channel_known taken_first-IsBitmap
      refl refl refl

-- A handler that does nothing.
abbrev idle_handler : Invoke
idle_handler h p = pure tt

abbrev received : World
received =
    allocated little_endian willing idle_handler open_cb wc ctx0 open_world can_receive
      open_world_unused (omega arith)

pub can_send : CanSend open_cb open_world 1 (record ctx0 { id = 1 })
can_send = record {
  in_range = omega arith;
  context = refl;
  buffer = refl;
  room = refl;
  queue = refl;
}

abbrev text : List ℕ
text = 104 ∷ 101 ∷ 108 ∷ 108 ∷ 111 ∷ []

send_rdma_msg-handler_param_example :
    Returns
      (λ out w'.
        (sent : Sent) × (w'.sent ≡ [] ++ sent ∷ [])
        × Arrives little_endian
            (record open_cb { self = 70 })
            (record {
              header = header_of (choose_seqn (record ctx0 { id = 1 }) 0).1 77 1;
              bytes = 104 ∷ 101 ∷ 108 ∷ 108 ∷ [];
            })
            1
            sent.msg)
      (send_rdma_msg little_endian willing open_cb 1 text 77 1 0 open_world)
send_rdma_msg-handler_param_example =
    send_rdma_msg-handler_param little_endian willing open_cb 1 text 77 1 0 (record ctx0 { id = 1 })
      open_world (record open_cb { self = 70 }) can_send (omega arith) (omega arith) (omega arith)
      (omega arith) refl refl refl
