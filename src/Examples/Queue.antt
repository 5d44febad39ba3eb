-- ===== src/Examples/Queue.antt =====
-- The connection manager's events and the completion queue.
use rpc_kern.Base.{◌≡◌, refl, false, List, [], ◌∷◌, pos, negsuc, true, ◌↔◌}
use rpc_kern.Message.Endian.{little_endian}
use rpc_kern.Kernel.{CmEvent, event, interrupted, World, asleep}
use rpc_kern.Kernel.Returns.{Returns}
use rpc_kern.Rdma.{RdmaChCb, addr_resolved, route_resolved}
use rpc_kern.Rdma.Cm.{cma_event_handler, bind_client, connect_client}
use rpc_kern.Rdma.Cm.Events.{Handled, cma_event_handler-Handled}
use rpc_kern.Rdma.Cm.Outcomes.{bind_client-Concludes}
use rpc_kern.Rdma.Cm.Hang.{connect_client-hangs_iff}
use rpc_kern.Rdma.Receive.{success, flush_err, failure, send, recv}
use rpc_kern.Rdma.Cq.{Completion, cq_event_handler}
use rpc_kern.Rdma.Cq.Reposts.{Polled, cq_event_handler-Polled}
use rpc_kern.RpcClient.Handler.{test_handlers}
use rpc_kern.Examples.{willing, open_world, open_cb, idle_cb, response}

cma_event_handler-Handled_example :
    Returns
      (λ out w'. Handled idle_cb CmEvent.rejected out)
      (cma_event_handler willing idle_cb CmEvent.rejected open_world)
cma_event_handler-Handled_example =
    cma_event_handler-Handled willing idle_cb CmEvent.rejected open_world

-- The address is resolved and the route is not; a signal comes in the end.
abbrev resolving : World
resolving = record open_world {
  script =
      event CmEvent.unhandled
      ∷ event CmEvent.addr_resolved
      ∷ event CmEvent.route_error
      ∷ interrupted
      ∷ [];
}

bind_client-Concludes_example :
    Returns
      (λ out w'.
        (out.0 ≡ record idle_cb {
          sin = record idle_cb.sin { port = 8270 };
          state = addr_resolved;
          sem = out.0.sem;
          child_cm_id = out.0.child_cm_id;
        })
        × (out.1 ≡ negsuc 0))
      (bind_client willing idle_cb resolving)
bind_client-Concludes_example =
    bind_client-Concludes willing true (λ t. refl) idle_cb resolving refl refl

abbrev bound_cb : RdmaChCb
bound_cb = record open_cb { state = route_resolved }

abbrev refused : World
refused = record open_world { script = event CmEvent.unhandled ∷ event CmEvent.rejected ∷ [] }

connect_client-hangs_iff_example :
    (connect_client willing bound_cb refused ≡ asleep) ↔ (false ≡ false)
connect_client-hangs_iff_example =
    connect_client-hangs_iff willing bound_cb refused (λ t. refl) refl refl refl refl refl

-- A send has completed, a receive was flushed, and another failed.
abbrev polled : List Completion
polled =
    record {
      wc = record { status = success; opcode = send; byte_len = 28; wr_id = 0 };
      arrived = response;
    }
    ∷ record {
      wc = record { status = flush_err; opcode = recv; byte_len = 0; wr_id = 0 };
      arrived = response;
    }
    ∷ record {
      wc = record { status = failure; opcode = recv; byte_len = 0; wr_id = 1 };
      arrived = response;
    }
    ∷ []

cq_event_handler-Polled_example :
    Returns
      (Polled polled (pos 0) false open_cb open_world)
      (cq_event_handler little_endian willing test_handlers open_cb polled (pos 0) open_world)
cq_event_handler-Polled_example =
    cq_event_handler-Polled little_endian willing test_handlers polled (pos 0) open_cb open_world
      ((λ e. cc), ((λ e. cc), ((λ e. cc), tt)))
