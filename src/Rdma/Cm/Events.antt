-- ===== src/Rdma/Cm/Events.antt =====
-- What the event handler does to the control block, for every event.
use rpc_kern.Base.{
  ◌+◌, ◌≡◌, refl, ◌⊎◌, inl, inr, Bool, true, false, ℤ, negsuc, is_zero, arith, Bool-cases,
}
use rpc_kern.Kernel.{CmEvent, World, Verbs, call}
use rpc_kern.Kernel.Returns.{Returns, returns}
use rpc_kern.Rdma.{RdmaChCb, at_least, route_resolved}
use rpc_kern.Rdma.Cm.{cma_event_handler}

-- The events by which the connection manager reports that an attempt failed.
abbrev pub is_failure : CmEvent → Bool
is_failure CmEvent.addr_error = true
is_failure CmEvent.route_error = true
is_failure CmEvent.connect_error = true
is_failure CmEvent.unreachable = true
is_failure CmEvent.rejected = true
is_failure _ = false

-- The control block and the code after an event.
pub record Handled (cb : RdmaChCb) (e : CmEvent) (out : RdmaChCb × ℤ) : Type 0 where
  pub frame :
      out.0 ≡ record cb { state = out.0.state; sem = out.0.sem; child_cm_id = out.0.child_cm_id }
  pub no_lost_wakeup :
      at_least out.0.state route_resolved ≡ true → (out.0 ≡ cb) ⊎ (out.0.sem ≡ cb.sem + 1)
  pub failure :
      is_failure e ≡ true → (out.1 ≡ negsuc 0) × (out.0.sem ≡ cb.sem + 1) × (out.0.state ≡ cb.state)

-- cma_event_handler returns on every event. It changes no field of the control block but `state`,
-- `sem` and `child_cm_id`; if it leaves a block in a state from ROUTE_RESOLVED on, the block is
-- unchanged or its sleeper has been woken once; and on a failure event it answers -1, wakes the
-- sleeper once, and leaves the state as it was.
pub cma_event_handler-Handled :
    (v : Verbs) (cb : RdmaChCb) (e : CmEvent) (w : World)
    → Returns (λ out w'. Handled cb e out) (cma_event_handler v cb e w)
unfolding cma_event_handler call
cma_event_handler-Handled v cb CmEvent.addr_resolved w =
    elim (Bool-cases (is_zero (v.resolve_route w.clock))) [
      | inl e ↦
          rw e (returns (record { frame = refl; no_lost_wakeup = λ h. cc; failure = λ h. cc }))
      | inr e ↦
          rw e
            (returns (record { frame = refl; no_lost_wakeup = λ h. inr refl; failure = λ h. cc }))
    ]
cma_event_handler-Handled v cb CmEvent.established w = elim (Bool-cases cb.server) [
  | inl e ↦
      rw e (returns (record { frame = refl; no_lost_wakeup = λ h. inr refl; failure = λ h. cc }))
  | inr e ↦
      rw e (returns (record { frame = refl; no_lost_wakeup = λ h. inr refl; failure = λ h. cc }))
]
cma_event_handler-Handled v cb CmEvent.device_removal w =
    returns (record { frame = refl; no_lost_wakeup = λ h. inl refl; failure = λ h. cc })
cma_event_handler-Handled v cb CmEvent.unhandled w =
    returns (record { frame = refl; no_lost_wakeup = λ h. inl refl; failure = λ h. cc })
cma_event_handler-Handled v cb e w =
    returns (record { frame = refl; no_lost_wakeup = λ h. inr refl; failure = ground arith })
