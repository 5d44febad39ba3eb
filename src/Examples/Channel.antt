-- ===== src/Examples/Channel.antt =====
-- The life of a channel with two message buffers, in kernels that succeed and that fail.
use rpc_kern.Base.{
  length, ◌+◌, ◌*◌, pos, ℕ, ◌≡◌, refl, arith, false, inr, none, some, [], ◌∷◌, pos, negsuc, ◌==◌,
  if◌then◌else◌, length, is_zero, ◌||◌,
}
use rpc_kern.Message.Endian.{little_endian}
use rpc_kern.Kernel
use rpc_kern.Kernel.{Kind, World, Verbs, fault}
use rpc_kern.Kernel.Returns.{Returns}
use rpc_kern.Kernel.Succeed.{within}
use rpc_kern.Rdma.{RdmaChCb, MsgbufCtx, idle, connected}
use rpc_kern.Rdma.Setup.{setup_qp, setup_buffers}
use rpc_kern.Rdma.Setup.Queue.{setup_qp-undone, setup_qp_hides_failure}
use rpc_kern.Rdma.Setup.Buffers.{Up, setup_buffers-Up}
use rpc_kern.Rdma.Setup.Unmapped.{request_addrs, dma_addrs, setup_buffers_hides_failure}
use rpc_kern.Rdma.Channel.{RdmaChAttr, init_rdma_ch, destroy_rdma_client, post_and_connect}
use rpc_kern.Rdma.Channel.Running.{comes_up}
use rpc_kern.Rdma.Channel.Start.{init_rdma_ch-destroy_rdma_client}
use rpc_kern.Rdma.Channel.Failure.{init_rdma_ch_hides_failure}
use rpc_kern.Rdma.Channel.Undone.{post_and_connect-Undone}
use rpc_kern.Examples.{
  willing, willing-AllSucceed, empty_world, open_world, open_world_unused, open_cb, ctx0,
}

abbrev attr : RdmaChAttr
attr = record {
  port = 20000;
  server = false;
  ip_addr = 10 ∷ 0 ∷ 0 ∷ 1 ∷ 0 ∷ [];
  msgbuf_cnt = 2;
  msgdata_size = 4;
  rpc_msg_handler_cb = 60;
  user_msg_handler_cb = 61;
}

init_rdma_ch-destroy_rdma_client_example :
    Returns
      (λ out w1.
        (cb : RdmaChCb) × (out ≡ some cb)
        × (cb.state ≡ connected)
        × (length cb.buf_ctxs ≡ 2)
        × (w1.posted ≡ 0 ∷ 1 ∷ [])
        × Returns (λ _ w2. (a : ℕ) → w2.live a ≡ none) (destroy_rdma_client cb w1))
      (init_rdma_ch little_endian willing attr (empty_world (comes_up [])))
init_rdma_ch-destroy_rdma_client_example =
    init_rdma_ch-destroy_rdma_client little_endian willing willing-AllSucceed attr []
      (empty_world (comes_up [])) refl (omega arith) (λ a h. refl) refl

-- The address cannot be resolved.
init_rdma_ch_hides_failure_example :
    Returns
      (λ out w'.
        (cb : RdmaChCb) × (out ≡ some cb) × (cb.state ≡ idle) × (destroy_rdma_client cb w' ≡ fault))
      (init_rdma_ch little_endian
        (record willing { resolve_addr = λ t. negsuc 98 })
        attr
        (empty_world []))
init_rdma_ch_hides_failure_example =
    init_rdma_ch_hides_failure little_endian (record willing { resolve_addr = λ t. negsuc 98 }) attr
      (empty_world []) (omega arith) refl refl (λ t. refl) (λ t. refl) (λ t. refl)

-- The queue pair cannot be made.
setup_qp-undone_example :
    Returns
      (λ out w'. (out.1 ≡ negsuc 11) × ((a : ℕ) → w'.live a ≡ open_world.live a))
      (setup_qp (record willing { create_qp = λ t. negsuc 11 }) open_cb 5 open_world)
setup_qp-undone_example =
    setup_qp-undone (record willing { create_qp = λ t. negsuc 11 }) open_cb open_world refl refl
      open_world_unused (negsuc 11) refl (inr (refl, refl, refl)) refl

setup_qp_hides_failure_example :
    Returns
      (λ out w'. (out.1 ≡ pos 0) × (out.0.pd ≡ 8) × ((a : ℕ) → w'.live a ≡ open_world.live a))
      (setup_qp (record willing { req_notify_cq = λ t. negsuc 11 }) open_cb 5 open_world)
setup_qp_hides_failure_example =
    setup_qp_hides_failure (record willing { req_notify_cq = λ t. negsuc 11 }) open_cb open_world
      refl refl open_world_unused refl refl refl

setup_buffers-Up_example :
    Returns (Up 8 open_cb open_world) (setup_buffers willing open_cb open_world)
setup_buffers-Up_example =
    setup_buffers-Up willing willing-AllSucceed open_cb open_world (omega arith) (omega arith) refl

-- One context, whose buffers are at 8 and 9 and whose mappings are at 10 and 11.
abbrev mapped_world : World
mapped_world = record open_world {
  next = 12;
  live = λ a.
      if within 8 10 a
      then some Kernel.memory
      else if within 10 12 a
      then some Kernel.dma_map
      else open_world.live a;
}

abbrev mapped_ctx : MsgbufCtx
mapped_ctx = record ctx0 { recv_buf = 8; send_buf = 9; recv_mapping = 10; send_mapping = 11 }

abbrev mapped_cb : RdmaChCb
mapped_cb = record open_cb { self = 1; buf_ctxs = mapped_ctx ∷ [] }

-- The connection is refused.
post_and_connect-Undone_example :
    Returns
      (λ out w'.
        (is_zero out.1 ≡ false)
        × (out.0 ≡ mapped_cb)
        × ((a : ℕ)
            → w'.live a ≡ (
                if within 8 12 a || (4 == a) || (7 == a) || (6 == a)
                then none
                else mapped_world.live a))
        × (destroy_rdma_client out.0 w' ≡ fault))
      (post_and_connect (record willing { connect = λ t. negsuc 110 }) mapped_cb mapped_world)
post_and_connect-Undone_example =
    post_and_connect-Undone (record willing { connect = λ t. negsuc 110 }) mapped_cb 8 1
      mapped_world (omega arith) (omega arith) refl (refl, refl, tt) (refl, refl, tt) refl refl refl
      (λ a h. ground arith) (λ a h. ground arith) refl (omega arith) refl refl (inr refl)

-- The first mapping succeeds, and no other.
setup_buffers_hides_failure_example :
    Returns
      (λ out w'.
        (out.1 ≡ pos 0)
        × (request_addrs out.0.buf_ctxs
            ≡ dma_addrs
                (record willing { dma_map_ok = λ t. t == 4 })
                (length open_cb.buf_ctxs)
                (open_world.clock + 2 * length open_cb.buf_ctxs)
                (open_world.next + 2 * length open_cb.buf_ctxs)))
      (setup_buffers (record willing { dma_map_ok = λ t. t == 4 }) open_cb open_world)
setup_buffers_hides_failure_example =
    setup_buffers_hides_failure (record willing { dma_map_ok = λ t. t == 4 }) (λ t. refl) open_cb
      open_world (omega arith) (omega arith) refl
