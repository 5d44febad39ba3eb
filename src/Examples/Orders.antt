-- ===== src/Examples/Orders.antt =====
-- Two responses, in two buffers, in both orders.
use rpc_kern.Base.{
  ltb, count, get_or, if◌then◌else◌, ℕ, zero, suc, ◌<◌, ◌≡◌, refl, arith, some, [], ◌∷◌, pos,
  get_elem?,
}
use rpc_kern.Message.{decode_header}
use rpc_kern.Message.Endian.{little_endian, swap64}
use rpc_kern.Kernel
use rpc_kern.Kernel.{World}
use rpc_kern.Kernel.Returns.{Returns}
use rpc_kern.Rdma.{MsgbufCtx, RdmaChCb}
use rpc_kern.Rdma.Receive.{success, recv}
use rpc_kern.Rdma.Cq.{Completion, cq_event_handler}
use rpc_kern.RpcClient.Handler.{test_handlers}
use rpc_kern.RpcClient.Order.{bag, freed, SameItems, cq_event_handler-any_order}
use rpc_kern.RpcClient.Serving.{Serving, IsResponse}
use rpc_kern.Examples.{
  willing, willing-AllSucceed, open_world, open_world_unused, open_cb, ctx0, response, taken_first,
}
use rpc_kern.Examples.Ids.{taken_first-IsBitmap}

abbrev ctx1 : MsgbufCtx
ctx1 = record ctx0 { id = 1; rq_wr = record ctx0.rq_wr { wr_id = 1 } }

abbrev two_ctxs : RdmaChCb
two_ctxs = record open_cb { buf_ctxs = ctx0 ∷ ctx1 ∷ [] }

serves_two : Serving 28 4 2 1 taken_first two_ctxs open_world
serves_two = record {
  size_is = refl;
  data_is = refl;
  contexts = contexts;
  len = refl;
  queue = refl;
  unused = open_world_unused;
  not_null = omega arith;
  channel = refl;
  known = refl;
}
  where
    contexts :
        (i : ℕ)
        → i < 2
        → (mb : MsgbufCtx) × (get_elem? (ctx0 ∷ ctx1 ∷ []) i ≡ some mb)
          × (open_world.live mb.recv_buf ≡ some Kernel.memory)
          × (mb.rq_wr.wr_id ≡ i)
    contexts zero h = (ctx0, refl, refl, refl)
    contexts (suc zero) h = (ctx1, refl, refl, refl)
    contexts (suc (suc i)) h = absurd (omega arith)

-- To the wait queues at 77 and 78.
abbrev to_77 : Completion
to_77 = record {
  wc = record { status = success; opcode = recv; byte_len = 28; wr_id = 0 };
  arrived = response;
}

abbrev to_78 : Completion
to_78 = record {
  wc = record { status = success; opcode = recv; byte_len = 28; wr_id = 1 };
  arrived = record response { sem_addr = swap64 78 };
}

answers_77 : IsResponse little_endian 28 4 2 1 to_77
unfolding decode_header swap64
answers_77 = record {
  status = refl;
  opcode = refl;
  full = refl;
  in_range = omega arith;
  room = refl;
  names = refl;
}

answers_78 : IsResponse little_endian 28 4 2 1 to_78
unfolding decode_header swap64
answers_78 = record {
  status = refl;
  opcode = refl;
  full = refl;
  in_range = omega arith;
  room = refl;
  names = refl;
}

two_swapped : (x y : ℕ) → SameItems (x ∷ y ∷ []) (y ∷ x ∷ [])
two_swapped x y a = grind arith

cq_event_handler-any_order_example :
    Returns
      (λ out w1.
        Returns
          (λ out' w2.
            (out.1 ≡ out'.1)
            × ((a : ℕ) → w1.live a ≡ w2.live a)
            × (w1.bitmaps 1 ≡ some (freed taken_first taken_first-IsBitmap (bag (0 ∷ 1 ∷ []))))
            × (w2.bitmaps 1 ≡ w1.bitmaps 1)
            × ((j : ℕ)
                → get_or (freed taken_first taken_first-IsBitmap (bag (0 ∷ 1 ∷ []))) j 0
                  ≡ (if ltb 0 (count j (0 ∷ 1 ∷ [])) then 0 else get_or taken_first j 0)))
          (cq_event_handler little_endian willing test_handlers two_ctxs
            (to_78 ∷ to_77 ∷ [])
            (pos 0)
            open_world))
      (cq_event_handler little_endian willing test_handlers two_ctxs
        (to_77 ∷ to_78 ∷ [])
        (pos 0)
        open_world)
cq_event_handler-any_order_example =
    cq_event_handler-any_order little_endian willing willing-AllSucceed 28 4 2 1 refl (omega arith)
      (to_77 ∷ to_78 ∷ []) (to_78 ∷ to_77 ∷ []) taken_first two_ctxs open_world taken_first-IsBitmap
      (answers_77, (answers_78, tt)) (answers_78, (answers_77, tt)) serves_two (two_swapped 0 1)
