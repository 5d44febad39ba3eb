-- ===== src/Krping/Cm.antt =====
-- bak/krping.c: the prototype's handler of the connection manager's events, the sleep on its control
-- block, and the functions that sleep there until a connection is up.
use rpc_kern.Base.{
  ℕ, Bool, true, false, not, ◌&&◌, List, [], ◌∷◌, ℤ, pos, negsuc, is_zero, take, ◌==◌,
  if◌then◌else◌,
}
use rpc_kern.Kernel
use rpc_kern.Kernel.{
  CmEvent, World, Verbs, Run, ok, fault, asleep, M, pure, and_then, ◌>>=◌, ◌>>◌, alive, call,
}
use rpc_kern.Rdma.{Sockaddr}
use rpc_kern.Krping.{
  TestState, addr_resolved, route_resolved, connect_request, connected, error, at_least, is_state,
  Occurrence, cm_event, completed, signal, KrpingCb, KrpingVerbs, wake_up_krping,
}
use rpc_kern.Krping.Cq.{krping_cq_event_handler}

-- The handler always answers 0.
unfoldable pub krping_cma_event_handler : Verbs → KrpingCb → CmEvent → M (KrpingCb × ℤ)
krping_cma_event_handler v cb CmEvent.addr_resolved = do
  let cb = record cb { state = addr_resolved }
  ret ← call v.resolve_route
  pure (if is_zero ret then cb else wake_up_krping cb, pos 0)
krping_cma_event_handler v cb CmEvent.route_resolved =
    pure (wake_up_krping (record cb { state = route_resolved }), pos 0)
krping_cma_event_handler v cb (CmEvent.connect_request id) =
    pure (wake_up_krping (record cb { state = connect_request; child_cm_id = id }), pos 0)
krping_cma_event_handler v cb CmEvent.established =
    pure (wake_up_krping (if is_zero cb.server then record cb { state = connected } else cb), pos 0)
krping_cma_event_handler v cb CmEvent.unhandled = pure (wake_up_krping cb, pos 0)
krping_cma_event_handler v cb e = pure (wake_up_krping (record cb { state = error }), pos 0)

-- One thing that happens to the block while the task sleeps; a signal does nothing to it.
unfoldable pub krping_occur : Verbs → KrpingVerbs → KrpingCb → Occurrence → M KrpingCb
unfolding krping_cma_event_handler krping_cq_event_handler
krping_occur v u cb (cm_event e) = do (cb, ret) ← krping_cma_event_handler v cb e; pure cb
krping_occur v u cb (completed polled last) = krping_cq_event_handler v u cb polled last
krping_occur v u cb signal = pure cb

-- The task looks at the condition again when it is woken, and returns when it holds. A signal ends
-- the sleep too; every caller ignores the difference.
unfoldable pub krping_sleep :
    Verbs → KrpingVerbs → (TestState → Bool) → KrpingCb → List Occurrence → M KrpingCb
unfolding krping_occur
krping_sleep v u condition cb [] w = asleep
krping_sleep v u condition cb (signal ∷ s) w = ok (record cb { to_come = s }) w
krping_sleep v u condition cb (x ∷ s) w = and_then (krping_occur v u cb x w) λ cb' w'.
    if not (cb'.sem == cb.sem) && condition cb'.state
    then ok (record cb' { to_come = s }) w'
    else krping_sleep v u condition cb' s w'

unfoldable pub krping_wait : Verbs → KrpingVerbs → (TestState → Bool) → KrpingCb → M KrpingCb
unfolding krping_sleep
krping_wait v u condition cb w =
    if condition cb.state then ok cb w else krping_sleep v u condition cb cb.to_come w

unfoldable pub krping_accept : Verbs → KrpingVerbs → KrpingCb → M (KrpingCb × ℤ)
krping_accept v u cb = do
  alive Kernel.cm_id cb.child_cm_id
  ret ← call v.accept
  if not (is_zero ret) then pure (cb, ret) else do
    cb ← krping_wait v u (λ s. at_least s connected) cb
    if is_state cb.state error then pure (cb, negsuc 0) else pure (cb, pos 0)

abbrev pub eintr : ℤ
eintr = negsuc 3

abbrev pub einval : ℤ
einval = negsuc 21

-- The address family with its numbers; the zeroed one has family 0. The scope of an address of the
-- other family, which its device's name gives, is left out: nothing stores a name.
unfoldable pub krping_fill_sockaddr : KrpingCb → Sockaddr
krping_fill_sockaddr cb =
    if cb.addr_type == 2
    then record { family = 2; addr = take 4 cb.addr; port = cb.port }
    else if cb.addr_type == 10
    then record { family = 10; addr = take 16 cb.addr; port = cb.port }
    else record { family = 0; addr = []; port = 0 }

unfoldable pub reg_supported : KrpingVerbs → Bool
reg_supported u = if not u.mem_mgt_extensions then false else true

-- `resolve` is what rdma_resolve_addr answers for an address.
unfoldable pub krping_bind_client :
    Verbs → KrpingVerbs → (resolve : Sockaddr → ℕ → ℤ) → KrpingCb → M (KrpingCb × ℤ)
unfolding krping_fill_sockaddr
krping_bind_client v u resolve cb = do
  alive Kernel.cm_id cb.cm_id
  ret ← call (resolve (krping_fill_sockaddr cb))
  if not (is_zero ret) then pure (cb, ret) else do
    cb ← krping_wait v u (λ s. at_least s route_resolved) cb
    if not (is_state cb.state route_resolved)
        then pure (cb, eintr)
        else if not (reg_supported u)
        then pure (cb, einval)
        else pure (cb, pos 0)

unfoldable pub krping_connect_client : Verbs → KrpingVerbs → KrpingCb → M (KrpingCb × ℤ)
krping_connect_client v u cb = do
  alive Kernel.cm_id cb.cm_id
  ret ← call v.connect
  if not (is_zero ret) then pure (cb, ret) else do
    cb ← krping_wait v u (λ s. at_least s connected) cb
    if is_state cb.state error then pure (cb, negsuc 0) else pure (cb, pos 0)
