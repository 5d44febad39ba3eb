-- ===== src/Rdma/Cm.antt =====
-- rdma.c: the connection manager's events, the sleep on the control block's wait queue, and the
-- three functions that sleep there (do_accept, bind_client, connect_client).
pub mod Events
pub mod Scripts
pub mod Outcomes
pub mod Hang
pub mod Sleep
use rpc_kern.Base.{
  ℕ, ◌+◌, Bool, true, false, not, ◌&&◌, ℤ, pos, negsuc, is_zero, List, [], ◌∷◌, ◌==◌, if◌then◌else◌,
}
use rpc_kern.Kernel
use rpc_kern.Kernel.{
  CmEvent, Wakeup, event, interrupted, cq_failed, cq_received, World, Verbs, Run, ok, fault, asleep,
  M, pure, and_then, ◌>>=◌, ◌>>◌, call, destroy,
}
use rpc_kern.Rdma.Cq.{error_exit}
use rpc_kern.Rdma.{
  RdmaChState, value, at_least, is_state, RdmaChCb, Sockaddr, wake_up_cb, addr_resolved,
  route_resolved, connect_request, connected, working, disconnected, error,
}

-- The handler's result, and the control block after it.
unfoldable pub cma_event_handler : Verbs → RdmaChCb → CmEvent → M (RdmaChCb × ℤ)
cma_event_handler v cb CmEvent.addr_resolved = do
  ret ← call v.resolve_route
  pure (
      if is_zero ret
      then (record cb { state = addr_resolved }, ret)
      else (wake_up_cb (record cb { state = error }), ret))
cma_event_handler v cb CmEvent.route_resolved =
    pure (wake_up_cb (record cb { state = route_resolved }), pos 0)
cma_event_handler v cb (CmEvent.connect_request id) =
    pure (wake_up_cb (record cb { state = connect_request; child_cm_id = id }), pos 0)
cma_event_handler v cb CmEvent.established =
    pure (wake_up_cb (if cb.server then cb else record cb { state = connected }), pos 0)
cma_event_handler v cb CmEvent.addr_error = pure (wake_up_cb cb, negsuc 0)
cma_event_handler v cb CmEvent.route_error = pure (wake_up_cb cb, negsuc 0)
cma_event_handler v cb CmEvent.connect_error = pure (wake_up_cb cb, negsuc 0)
cma_event_handler v cb CmEvent.unreachable = pure (wake_up_cb cb, negsuc 0)
cma_event_handler v cb CmEvent.rejected = pure (wake_up_cb cb, negsuc 0)
cma_event_handler v cb CmEvent.disconnected =
    pure (wake_up_cb (record cb { state = disconnected }), pos 0)
cma_event_handler v cb CmEvent.device_removal = pure (cb, negsuc 0)
cma_event_handler v cb CmEvent.unhandled = pure (cb, pos 0)

-- The connection manager's part: it calls the handler, and destroys the id if that answers with a
-- code other than 0.
unfoldable pub deliver : Verbs → RdmaChCb → CmEvent → M RdmaChCb
unfolding cma_event_handler
deliver v cb e = do
  (cb', ret) ← cma_event_handler v cb e
  if is_zero ret then pure tt else destroy Kernel.cm_id cb.cm_id
  pure cb'

-- The task looks at the condition again when it is woken, and returns when it holds. A signal ends
-- the sleep too; every caller ignores the difference. The label `error` of the completion handler
-- wakes the task; a message that it receives does not, and of what that does only the state is seen
-- here.
unfoldable pub sleep : Verbs → (RdmaChState → Bool) → RdmaChCb → List Wakeup → M RdmaChCb
sleep v condition cb [] w = asleep
sleep v condition cb (interrupted ∷ s) w = ok cb (record w { script = s })
sleep v condition cb (cq_failed ∷ s) w = and_then (error_exit cb (negsuc 0) w) λ (cb', ret) w'.
    if condition cb'.state then ok cb' (record w' { script = s }) else sleep v condition cb' s w'
sleep v condition cb (cq_received ∷ s) w =
    let now = if at_least connected cb.state then record cb { state = working } else cb in
    sleep v condition now s w
sleep v condition cb (event e ∷ s) w = and_then (deliver v cb e w) λ cb' w'.
    if not (cb'.sem == cb.sem) && condition cb'.state
    then ok cb' (record w' { script = s })
    else sleep v condition cb' s w'

unfoldable pub wait_event_interruptible : Verbs → (RdmaChState → Bool) → RdmaChCb → M RdmaChCb
unfolding sleep
wait_event_interruptible v condition cb w =
    if condition cb.state then ok cb w else sleep v condition cb w.script w

unfoldable pub do_accept : Verbs → RdmaChCb → M (RdmaChCb × ℤ)
do_accept v cb = do
  ret ← call v.accept
  if not (is_zero ret) then pure (cb, ret) else do
    cb ← wait_event_interruptible v (λ s. at_least s connected) cb
    if is_state cb.state error then pure (cb, negsuc 0) else pure (cb, pos 0)

abbrev pub af_inet : ℕ
af_inet = 2

-- `sin_port` and `sin6_port` lie at the same place.
unfoldable pub set_port : Sockaddr → ℕ → Sockaddr
set_port sin port =
    if sin.family == af_inet then record sin { port = port } else record sin { port = port }

unfoldable pub bind_client : Verbs → RdmaChCb → M (RdmaChCb × ℤ)
unfolding set_port
bind_client v cb = do
  let cb = record cb { sin = set_port cb.sin cb.port }
  ret ← call v.resolve_addr
  if not (is_zero ret) then pure (cb, ret) else do
    cb ← wait_event_interruptible v (λ s. at_least s route_resolved) cb
    if not (is_state cb.state route_resolved) then pure (cb, negsuc 0) else pure (cb, pos 0)

unfoldable pub connect_client : Verbs → RdmaChCb → M (RdmaChCb × ℤ)
connect_client v cb = do
  ret ← call v.connect
  if not (is_zero ret) then pure (cb, ret) else do
    cb ← wait_event_interruptible v (λ s. at_least s connected) cb
    if not (is_state cb.state connected) then pure (cb, negsuc 0) else pure (cb, pos 0)
