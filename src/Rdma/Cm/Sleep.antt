-- ===== src/Rdma/Cm/Sleep.antt =====
-- What the sleeping functions of rdma.c return, and when they do not.
use rpc_kern.Base.{
  ℕ, ◌+◌, ◌≡◌, refl, ◌∙◌, ap, Bool, true, false, pos, is_zero, arith, List, [], ◌∷◌, some, &&-false,
  none,
}
use rpc_kern.Kernel
use rpc_kern.Kernel.{
  CmEvent, event, interrupted, World, Verbs, Run, ok, asleep, call, destroy, tick, put, Wakeup,
}
use rpc_kern.Rdma.{
  RdmaChState, RdmaChCb, Sockaddr, wake_up_cb, at_least, addr_resolved, route_resolved, connected,
}
use rpc_kern.Rdma.Cm.{
  deliver, sleep, wait_event_interruptible, bind_client, connect_client, set_port,
}
use rpc_kern.Rdma.Cm.Events.{is_failure}

pub deliver-failure :
    (v : Verbs) (cb : RdmaChCb) (e : CmEvent) (w : World)
    → is_failure e ≡ true
    → w.live cb.cm_id ≡ some Kernel.cm_id
    → deliver v cb e w ≡ ok (wake_up_cb cb) (record w { live = put w.live cb.cm_id none })
unfolding deliver destroy
deliver-failure v cb e w f l = ground arith

module _ (v : Verbs) (condition : RdmaChState → Bool) (cb : RdmaChCb) where
  wait-sleeps :
      (w : World) (s : List Wakeup)
      → condition cb.state ≡ false
      → w.script ≡ s
      → wait_event_interruptible v condition cb w ≡ sleep v condition cb s w
  unfolding wait_event_interruptible
  wait-sleeps w s c e = rw c (ap (λ t. sleep v condition cb t w) e)

  -- An event that wakes the sleeper with its condition true.
  sleep-wakes :
      (e : CmEvent) (s : List Wakeup) (w w' : World) (cb' : RdmaChCb)
      → deliver v cb e w ≡ ok cb' w'
      → cb'.sem ≡ cb.sem + 1
      → condition cb'.state ≡ true
      → sleep v condition cb (event e ∷ s) w ≡ ok cb' (record w' { script = s })
  unfolding sleep
  sleep-wakes e s w w' cb' d n c = rw (d, c) (ground arith)

  -- Any other event.
  sleep-on :
      (e : CmEvent) (s : List Wakeup) (w w' : World) (cb' : RdmaChCb)
      → deliver v cb e w ≡ ok cb' w'
      → condition cb'.state ≡ false
      → sleep v condition cb (event e ∷ s) w ≡ sleep v condition cb' s w'
  unfolding sleep
  sleep-on e s w w' cb' d c = rw (d, c, &&-false)

  -- A failure event wakes the sleeper with the condition still false, so the task sleeps on; the
  -- connection manager has destroyed the id and reports nothing more.
  wait-failure :
      (e : CmEvent) (w : World)
      → is_failure e ≡ true
      → condition cb.state ≡ false
      → w.live cb.cm_id ≡ some Kernel.cm_id
      → w.script ≡ event e ∷ []
      → wait_event_interruptible v condition cb w ≡ asleep
  unfolding sleep
  wait-failure e w f c l s =
      wait-sleeps w (event e ∷ []) c s
      ∙ sleep-on e [] w _ (wake_up_cb cb) (deliver-failure v cb e w f l) c

-- If the state is below ROUTE_RESOLVED, rdma_resolve_addr is accepted, and all that happens while
-- the task sleeps is one failure event, bind_client never returns, given that its id is alive.
pub bind_client_hangs :
    (v : Verbs) (cb : RdmaChCb) (e : CmEvent) (w : World)
    → is_failure e ≡ true
    → at_least cb.state route_resolved ≡ false
    → is_zero (v.resolve_addr w.clock) ≡ true
    → w.live cb.cm_id ≡ some Kernel.cm_id
    → w.script ≡ event e ∷ []
    → bind_client v cb w ≡ asleep
unfolding bind_client call
bind_client_hangs v cb e w f c r l s = rw (
  r,
  wait-failure v (λ s. at_least s route_resolved) (record cb { sin = set_port cb.sin cb.port }) e
      (tick w) f c l s,
)

-- If the state is below CONNECTED, rdma_connect is accepted, and all that happens while the task
-- sleeps is one failure event, connect_client never returns, given that its id is alive.
pub connect_client_hangs :
    (v : Verbs) (cb : RdmaChCb) (e : CmEvent) (w : World)
    → is_failure e ≡ true
    → at_least cb.state connected ≡ false
    → is_zero (v.connect w.clock) ≡ true
    → w.live cb.cm_id ≡ some Kernel.cm_id
    → w.script ≡ event e ∷ []
    → connect_client v cb w ≡ asleep
unfolding connect_client call
connect_client_hangs v cb e w f c r l s =
    rw (r, wait-failure v (λ s. at_least s connected) cb e (tick w) f c l s)

pub set_port_lem : (sin : Sockaddr) (port : ℕ) → set_port sin port ≡ record sin { port = port }
unfolding set_port
set_port_lem sin port = ground arith

-- If the state is below ROUTE_RESOLVED, both resolutions are accepted, and the first two things to
-- happen are their two events, bind_client returns 0 with the channel in state ROUTE_RESOLVED, the
-- port in the address, one wake-up more and the rest of the events still to come.
pub bind_client-resolved :
    (v : Verbs) (cb : RdmaChCb) (w : World) (rest : List Wakeup)
    → at_least cb.state route_resolved ≡ false
    → is_zero (v.resolve_addr w.clock) ≡ true
    → is_zero (v.resolve_route (w.clock + 1)) ≡ true
    → w.script ≡ event CmEvent.addr_resolved ∷ event CmEvent.route_resolved ∷ rest
    → bind_client v cb w
      ≡ ok
          (
            record cb {
              sin = record cb.sin { port = cb.port };
              state = route_resolved;
              sem = cb.sem + 1;
            },
            pos 0,
          )
          (record w { clock = w.clock + 1 + 1; script = rest })
unfolding bind_client call deliver
bind_client-resolved v cb w rest c a r s =
    let start = record cb { sin = set_port cb.sin cb.port } in
    let waiting = λ (s : RdmaChState). at_least s route_resolved in
    let halfway = record start { state = addr_resolved } in
    let slept : wait_event_interruptible v waiting start (tick w)
        ≡ ok (wake_up_cb (record start { state = route_resolved }))
            (record w { clock = w.clock + 1 + 1; script = rest }) =
      wait-sleeps v waiting start (tick w) _ c s
      ∙ sleep-on v waiting start CmEvent.addr_resolved _ (tick w) (tick (tick w)) halfway
          (rw (r, r)) refl
      ∙ sleep-wakes v waiting halfway CmEvent.route_resolved rest (tick (tick w)) _ _ refl refl
          refl in
    rw (a, slept, set_port_lem cb.sin cb.port)

-- If a client's state is below CONNECTED, rdma_connect is accepted, and the first thing to happen is
-- that the connection is established, connect_client returns 0 with the channel in state CONNECTED,
-- one wake-up more and the rest of the events still to come.
pub connect_client-established :
    (v : Verbs) (cb : RdmaChCb) (w : World) (rest : List Wakeup)
    → cb.server ≡ false
    → at_least cb.state connected ≡ false
    → is_zero (v.connect w.clock) ≡ true
    → w.script ≡ event CmEvent.established ∷ rest
    → connect_client v cb w
      ≡ ok
          (record cb { state = connected; sem = cb.sem + 1 }, pos 0)
          (record w { clock = w.clock + 1; script = rest })
unfolding connect_client call deliver
connect_client-established v cb w rest sv c a s =
    let waiting = λ (s : RdmaChState). at_least s connected in
    let slept : wait_event_interruptible v waiting cb (tick w)
        ≡ ok (wake_up_cb (record cb { state = connected }))
            (record w { clock = w.clock + 1; script = rest }) =
      wait-sleeps v waiting cb (tick w) _ c s
      ∙ sleep-wakes v waiting cb CmEvent.established rest (tick w) (tick w) _ (rw sv) refl refl in
    rw (a, slept)
