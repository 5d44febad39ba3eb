-- ===== src/Examples/Sessions.antt =====
-- Two requests on a new channel, of which the second is answered first.
use rpc_kern.Base.{
  ℕ, ◌<◌, ◌≤◌, ◌≡◌, ◌⊎◌, refl, arith, some, none, List, [], ◌∷◌, count, ltb, if◌then◌else◌, negsuc,
}
use rpc_kern.Bitmap.{
  bit_arr_size, find_from, bit_array_find_first_clear_bit, bit_array_set_bit, bit_array_clear_bit,
}
use rpc_kern.Msgbuf.{alloc_attempt, free_msgbuf_id, allocates}
use rpc_kern.Message.{decode_header}
use rpc_kern.Message.Endian.{little_endian, swap64}
use rpc_kern.Kernel.Returns.{Returns}
use rpc_kern.Rdma.Channel.Running.{comes_up}
use rpc_kern.Rdma.Cq.{Completion}
use rpc_kern.Rdma.Receive.{success, recv}
use rpc_kern.RpcClient.{
  rpc_ch_rdma, RpcChInfo, init_rpc_client, destroy_rpc_client, send_rpc_msg_to_server,
}
use rpc_kern.RpcClient.Exchange.{
  Exchange, start, request, respond, Step, requests, responds, Reach, here, next,
}
use rpc_kern.RpcClient.Exchange.Flow.{Reach-covered, Reach-unblocks}
use rpc_kern.RpcClient.Exchange.Shared.{Reach-shares}
use rpc_kern.RpcClient.Serving.{IsResponse}
use rpc_kern.RpcClient.Session.{
  Heard, Event, asks, arrives, play_all, AllAllowed, done, then_next, asking, arriving,
}
use rpc_kern.RpcClient.Session.Refines.{session-Implements}
use rpc_kern.Kernel.{asleep}
use rpc_kern.Kernel.Succeed.{AllSucceed}
use rpc_kern.RpcClient.Session.Refused.{refused_requests_block}
use rpc_kern.Examples.Opened.{target_array, target_fits}
use rpc_kern.Examples.{willing, willing-AllSucceed, empty_world, response}

abbrev waits : List ℕ → List ℕ → Exchange
waits bitmap waiting = record { bitmap = bitmap; receives = 0 ∷ 1 ∷ 2 ∷ 3 ∷ []; waiting = waiting }

abbrev one : Exchange
one = waits (1 ∷ 0 ∷ 0 ∷ 0 ∷ []) (0 ∷ [])

abbrev two : Exchange
two = waits (1 ∷ 1 ∷ 0 ∷ 0 ∷ []) (1 ∷ 0 ∷ [])

abbrev three : Exchange
three = waits (1 ∷ 1 ∷ 1 ∷ 0 ∷ []) (2 ∷ 1 ∷ 0 ∷ [])

abbrev four : Exchange
four = waits (1 ∷ 1 ∷ 1 ∷ 1 ∷ []) (3 ∷ 2 ∷ 1 ∷ 0 ∷ [])

-- The response to id 1 has come in buffer 0.
abbrev swapped : Exchange
swapped = record { bitmap = 0 ∷ 1 ∷ 0 ∷ 0 ∷ []; receives = 1 ∷ 2 ∷ 3 ∷ 0 ∷ []; waiting = 0 ∷ [] }

to_one : Step start request one
unfolding alloc_attempt find_from bit_array_find_first_clear_bit bit_array_set_bit
to_one = requests (λ e. absurd (omega arith))

to_two : Step one request two
unfolding alloc_attempt find_from bit_array_find_first_clear_bit bit_array_set_bit
to_two = requests (λ e. absurd (omega arith))

to_three : Step two request three
unfolding alloc_attempt find_from bit_array_find_first_clear_bit bit_array_set_bit
to_three = requests (λ e. absurd (omega arith))

to_four : Step three request four
unfolding alloc_attempt find_from bit_array_find_first_clear_bit bit_array_set_bit
to_four = requests (λ e. absurd (omega arith))

to_swapped : Step two (respond 1) swapped
unfolding free_msgbuf_id bit_array_clear_bit
to_swapped = responds 1 0 (1 ∷ 2 ∷ 3 ∷ []) (omega arith) refl

reach_two : Reach start two
reach_two = next request (next request here to_one) to_two

reach_four : Reach start four
reach_four = next request (next request reach_two to_three) to_four

no_id_left : (alloc_attempt four.bitmap 0).ret ≡ 0
unfolding alloc_attempt find_from bit_array_find_first_clear_bit
no_id_left = refl

Reach-covered_example :
    (1 ≤ 1)
    × (1 ≤ 4)
    × (4 ≡ bit_arr_size)
    × ((i : ℕ) → count i (1 ∷ 2 ∷ 3 ∷ 0 ∷ []) ≡ (if ltb i bit_arr_size then 1 else 0))
Reach-covered_example = Reach-covered {s = swapped} (next (respond 1) reach_two to_swapped)

Reach-unblocks_example :
    (0 < 4)
    × ((count 2 four.waiting ≡ 0)
        ⊎ ((t : Exchange) × Step four (respond 2) t × ((alloc_attempt t.bitmap 0).ret ≡ 1)))
Reach-unblocks_example = Reach-unblocks {s = four} 2 reach_four no_id_left

Reach-shares_example :
    (t u : Exchange) × Step two (respond 1) t × Step t request u × (1 < count 0 u.waiting)
Reach-shares_example =
    Reach-shares {s = two} 0 1 (1 ∷ 2 ∷ 3 ∷ []) reach_two (λ e. absurd (omega arith)) (omega arith)
      (omega arith) refl (λ k h. absurd (omega arith))

abbrev completion : Completion
completion = record {
  wc = record { status = success; opcode = recv; byte_len = 28; wr_id = 0 };
  arrived = response;
}

is_response : IsResponse little_endian 28 4 4 1 completion
unfolding decode_header swap64
is_response = record {
  status = refl;
  opcode = refl;
  full = refl;
  in_range = omega arith;
  room = refl;
  names = refl;
}

abbrev bytes : List ℕ
bytes = 104 ∷ 105 ∷ 33 ∷ 0 ∷ []

abbrev events : List Event
events = asks 76 bytes ∷ asks 77 bytes ∷ arrives completion ∷ []

allowed : AllAllowed little_endian 4 1 start events swapped
unfolding free_msgbuf_id bit_array_clear_bit
allowed = then_next (asking 76 bytes one to_one (omega arith) (omega arith)) (
    then_next (asking 77 bytes two to_two (omega arith) (omega arith))
      (then_next (arriving completion 1 (1 ∷ 2 ∷ 3 ∷ []) (omega arith) refl is_response) done))

session-Implements_example :
    Returns
      (λ out w1.
        (ch : RpcChInfo) × (out ≡ some ch)
        × Returns
            (λ ch' w2.
              Heard little_endian 4 (empty_world (comes_up [])) swapped events w1 ch' w2
              × Reach start swapped
              × Returns (λ _ w3. (a : ℕ) → w3.live a ≡ none) (destroy_rpc_client ch' w2))
            (play_all little_endian willing ch events w1))
      (init_rpc_client little_endian willing 60
        (λ i. 0)
        rpc_ch_rdma
        (10 ∷ 1 ∷ 2 ∷ 3 ∷ 0 ∷ [])
        7174
        4
        61
        (empty_world (comes_up [])))
session-Implements_example =
    session-Implements little_endian willing willing-AllSucceed (λ t. refl) 4 (omega arith)
      (empty_world (comes_up [])) (omega arith) (omega arith) (λ a h. refl) 60 (λ i. 0)
      (10 ∷ 1 ∷ 2 ∷ 3 ∷ 0 ∷ []) target_array 7174 61 [] events swapped target_fits refl allowed

abbrev asking_four : List Event
asking_four = asks 76 bytes ∷ asks 77 bytes ∷ asks 78 bytes ∷ asks 79 bytes ∷ []

refusing-AllSucceed : AllSucceed (record willing { post_send = λ t. negsuc 11 })
refusing-AllSucceed = record {
  kzalloc_ok = λ t. refl;
  alloc_pd = λ t. refl;
  create_cq = λ t. refl;
  req_notify_cq = λ t. refl;
  create_qp = λ t. refl;
  dma_map_ok = λ t. refl;
  post_recv = λ t. refl;
  create_id = λ t. refl;
  resolve_addr = λ t. refl;
  resolve_route = λ t. refl;
  connect = λ t. refl;
}

refused_requests_block_example :
    Returns
      (λ out w1.
        (ch : RpcChInfo) × (out ≡ some ch)
        × Returns
            (λ ch' w2.
              (w2.sent ≡ [])
              × (send_rpc_msg_to_server little_endian
                    (record willing { post_send = λ t. negsuc 11 })
                    ([] ∷ (allocates ∷ []) ∷ [])
                    (record { rpc_ch = ch'; bytes = bytes; sem = 80 })
                    w2
                  ≡ asleep))
            (play_all little_endian
              (record willing { post_send = λ t. negsuc 11 })
              ch
              asking_four
              w1))
      (init_rpc_client little_endian
        (record willing { post_send = λ t. negsuc 11 })
        60
        (λ i. 0)
        rpc_ch_rdma
        (10 ∷ 1 ∷ 2 ∷ 3 ∷ 0 ∷ [])
        7174
        4
        61
        (empty_world (comes_up [])))
refused_requests_block_example =
    refused_requests_block little_endian (record willing { post_send = λ t. negsuc 11 }) (λ t. refl)
      4 (empty_world (comes_up [])) (omega arith) refusing-AllSucceed (omega arith) (λ a h. refl) 60
      (λ i. 0) (10 ∷ 1 ∷ 2 ∷ 3 ∷ 0 ∷ []) target_array 7174 61 [] asking_four (0 ∷ 1 ∷ []) 80 bytes
      target_fits refl refl
      (
        omega arith,
        omega arith,
        (omega arith, omega arith, (omega arith, omega arith, (omega arith, omega arith, tt))),
      )
