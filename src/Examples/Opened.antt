-- ===== src/Examples/Opened.antt =====
-- A channel of the RPC layer in a new kernel: opened, used and destroyed.
use rpc_kern.Base.{ℕ, ◌≡◌, refl, arith, none, some, List, [], ◌∷◌, replicate, true}
use rpc_kern.Message.Endian.{little_endian}
use rpc_kern.Kernel.Returns.{Returns}
use rpc_kern.Rdma.Channel.Running.{comes_up}
use rpc_kern.RpcClient.Target.{init_rpc_client_overruns}
use rpc_kern.RpcClient.{
  strcpy, array, ip_addr_size, rpc_ch_rdma, RpcChInfo, init_rpc_client, destroy_rpc_client,
  send_rpc_msg_to_server,
}
use rpc_kern.RpcClient.Requests.{IsOpen}
use rpc_kern.RpcClient.Life.{init_rpc_client-destroy_rpc_client}
use rpc_kern.RpcClient.FirstRequest.{SentFirst, init_rpc_client-send_rpc_msg_to_server}
use rpc_kern.Kernel.{fault}
use rpc_kern.TestClient.{test_main}
use rpc_kern.TestClient.Run.{test_main_overreads}
use rpc_kern.TestClient.Proc.{efault, krping_write_proc}
use rpc_kern.TestClient.Proc.Written.{krping_write_proc-Written}
use rpc_kern.Examples.{willing, willing-AllSucceed, empty_world}

-- What the copy of the address leaves in the attribute's array.
abbrev pub target_array : List ℕ
target_array = 10 ∷ 1 ∷ 2 ∷ 3 ∷ replicate 12 0

pub target_fits : strcpy (array ip_addr_size (λ i. 0)) (10 ∷ 1 ∷ 2 ∷ 3 ∷ 0 ∷ []) ≡ some target_array
unfolding strcpy
target_fits = refl

init_rpc_client-destroy_rpc_client_example :
    Returns
      (λ out w1.
        (ch : RpcChInfo) × (out ≡ some ch)
        × IsOpen ch (0 ∷ 0 ∷ 0 ∷ 0 ∷ []) w1
        × Returns (λ _ w2. (a : ℕ) → w2.live a ≡ none) (destroy_rpc_client ch w1))
      (init_rpc_client little_endian willing 60
        (λ i. 0)
        rpc_ch_rdma
        (10 ∷ 1 ∷ 2 ∷ 3 ∷ 0 ∷ [])
        7174
        8
        61
        (empty_world (comes_up [])))
init_rpc_client-destroy_rpc_client_example =
    init_rpc_client-destroy_rpc_client little_endian willing 60 (λ i. 0) (10 ∷ 1 ∷ 2 ∷ 3 ∷ 0 ∷ [])
      7174 8 61 (empty_world (comes_up [])) (omega arith) (λ a h. refl) target_array [] target_fits
      willing-AllSucceed refl

init_rpc_client-send_rpc_msg_to_server_example :
    Returns
      (λ out w1.
        (ch : RpcChInfo) × (out ≡ some ch)
        × Returns (SentFirst little_endian 2 77 (104 ∷ 105 ∷ 0 ∷ []) ch w1) (
            send_rpc_msg_to_server little_endian willing
              ([] ∷ [])
              (record { rpc_ch = ch; bytes = 104 ∷ 105 ∷ 0 ∷ []; sem = 77 })
              w1))
      (init_rpc_client little_endian willing 60
        (λ i. 0)
        rpc_ch_rdma
        (10 ∷ 1 ∷ 2 ∷ 3 ∷ 0 ∷ [])
        7174
        2
        61
        (empty_world (comes_up [])))
init_rpc_client-send_rpc_msg_to_server_example =
    init_rpc_client-send_rpc_msg_to_server little_endian willing 60 (λ i. 0)
      (10 ∷ 1 ∷ 2 ∷ 3 ∷ 0 ∷ []) target_array 7174 2 61 (empty_world (comes_up [])) [] 77
      (104 ∷ 105 ∷ 0 ∷ []) target_fits (omega arith) (omega arith) (λ a h. refl) willing-AllSucceed
      (λ t. refl) refl (omega arith) (omega arith)

-- An array of 16 bytes without a zero.
init_rpc_client_overruns_example :
    init_rpc_client little_endian willing 60
      (λ i. 0)
      rpc_ch_rdma
      (replicate 16 7)
      7174
      8
      61
      (empty_world (comes_up []))
    ≡ fault
init_rpc_client_overruns_example =
    init_rpc_client_overruns little_endian willing 60 (λ i. 0) (replicate 16 7) 7174 8 61
      (empty_world (comes_up [])) (omega arith) (λ a h. refl) (λ t. refl) refl

test_main_overreads_example :
    test_main little_endian willing
      ([] ∷ [])
      60
      61
      (λ i. 0)
      (10 ∷ 1 ∷ 2 ∷ 3 ∷ 0 ∷ [])
      77
      (empty_world (comes_up []))
    ≡ fault
test_main_overreads_example =
    test_main_overreads little_endian willing 60 61 (λ i. 0) (10 ∷ 1 ∷ 2 ∷ 3 ∷ 0 ∷ []) 77 []
      (empty_world (comes_up [])) (omega arith) (λ a h. refl) willing-AllSucceed refl

-- copy_from_user leaves three bytes.
krping_write_proc-Written_example :
    Returns
      (λ out w'. (out.1 ≡ efault) × (out.0.refs ≡ 1) × ((a : ℕ) → w'.live a ≡ none))
      (krping_write_proc little_endian willing
        ([] ∷ [])
        60
        61
        (λ i. 0)
        (10 ∷ 1 ∷ 2 ∷ 3 ∷ 0 ∷ [])
        77
        true
        3
        5
        (record { refs = 0; krping_proc = 9; listed = true })
        (empty_world (comes_up [])))
krping_write_proc-Written_example =
    krping_write_proc-Written little_endian willing 60 61 (λ i. 0) (10 ∷ 1 ∷ 2 ∷ 3 ∷ 0 ∷ []) 77 []
      (empty_world (comes_up [])) (omega arith) (λ a h. refl) refl 5 (omega arith)
      (record { refs = 0; krping_proc = 9; listed = true }) true 3 (λ e. willing-AllSucceed)
