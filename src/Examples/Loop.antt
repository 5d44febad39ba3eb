-- ===== src/Examples/Loop.antt =====
-- Two responses in one run of the completion queue's loop.
use rpc_kern.Base.{ℕ, zero, suc, ◌<◌, ◌≡◌, refl, arith, some, [], ◌∷◌, ◌++◌, pos, get_elem?}
use rpc_kern.Message.{decode_header}
use rpc_kern.Message.Endian.{little_endian, swap64}
use rpc_kern.Kernel
use rpc_kern.Kernel.{World, and_then}
use rpc_kern.Kernel.Returns.{Returns}
use rpc_kern.Rdma.{MsgbufCtx}
use rpc_kern.Rdma.Receive.{success, recv}
use rpc_kern.Rdma.Cq.{Completion, cq_event_handler}
use rpc_kern.RpcClient.Handler.{test_handlers}
use rpc_kern.RpcClient.Serving.{Serving, IsResponse, sems, freed_by}
use rpc_kern.RpcClient.Responses.{cq_event_handler-Serving}
use rpc_kern.Rdma.Cq.Batches.{channel_after, and_again, cq_event_handler-append}
use rpc_kern.Examples.{
  willing, willing-AllSucceed, open_world, open_world_unused, open_cb, ctx0, response, taken_first,
}

-- A channel with one context.
abbrev one_ctx : MsgbufCtx
one_ctx = ctx0

serving : Serving 28 4 1 1 taken_first (record open_cb { buf_ctxs = one_ctx ∷ [] }) open_world
serving = record {
  size_is = refl;
  data_is = refl;
  contexts = contexts;
  len = refl;
  queue = refl;
  unused = open_world_unused;
  not_null = omega arith;
  channel = refl;
  known = refl;
}
  where
    contexts :
        (i : ℕ)
        → i < 1
        → (mb : MsgbufCtx) × (get_elem? (one_ctx ∷ []) i ≡ some mb)
          × (open_world.live mb.recv_buf ≡ some Kernel.memory)
          × (mb.rq_wr.wr_id ≡ i)
    contexts zero h = (one_ctx, refl, refl, refl)
    contexts (suc i) h = absurd (omega arith)

abbrev completion : Completion
completion = record {
  wc = record { status = success; opcode = recv; byte_len = 28; wr_id = 0 };
  arrived = response;
}

is_response : IsResponse little_endian 28 4 1 1 completion
unfolding decode_header swap64
is_response = record {
  status = refl;
  opcode = refl;
  full = refl;
  in_range = omega arith;
  room = refl;
  names = refl;
}

cq_event_handler-Serving_example :
    Returns
      (λ out w'.
        (out.1 ≡ pos 0)
        × Serving 28 4 1 1 (freed_by taken_first (completion ∷ completion ∷ [])) out.0 w'
        × ((a : ℕ) → w'.live a ≡ open_world.live a)
        × (w'.woken ≡ [] ++ sems little_endian (completion ∷ completion ∷ []))
        × (w'.posted ≡ 0 ∷ 0 ∷ []))
      (cq_event_handler little_endian willing test_handlers
        (record open_cb { buf_ctxs = one_ctx ∷ [] })
        (completion ∷ completion ∷ [])
        (pos 0)
        open_world)
cq_event_handler-Serving_example =
    cq_event_handler-Serving little_endian willing willing-AllSucceed 28 4 1 1 refl (omega arith)
      (completion ∷ completion ∷ []) taken_first (record open_cb { buf_ctxs = one_ctx ∷ [] })
      open_world (is_response, (is_response, tt)) serving

cq_event_handler-append_example :
    channel_after (
      cq_event_handler little_endian willing test_handlers
        (record open_cb { buf_ctxs = one_ctx ∷ [] })
        (completion ∷ completion ∷ [])
        (pos 0)
        open_world)
    ≡ and_then
        (cq_event_handler little_endian willing test_handlers
          (record open_cb { buf_ctxs = one_ctx ∷ [] })
          (completion ∷ [])
          (pos 0)
          open_world)
        (and_again little_endian willing test_handlers (completion ∷ []) (pos 0))
cq_event_handler-append_example =
    cq_event_handler-append little_endian willing test_handlers (completion ∷ []) (completion ∷ [])
      (pos 0) (record open_cb { buf_ctxs = one_ctx ∷ [] }) open_world refl
