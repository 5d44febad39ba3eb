-- ===== src/Rdma/Cm/Outcomes.antt =====
-- What the functions that sleep return, for every answer of the adapter and every sequence of events.
use rpc_kern.Base.{
  ℕ, ◌≡◌, refl, Bool, true, false, not, ℤ, pos, negsuc, is_zero, List, Option, none, some,
  if◌then◌else◌, Bool-cases, inl, inr, arith, ap,
}
use rpc_kern.Kernel
use rpc_kern.Kernel.{Wakeup, World, Verbs, Run, ok, asleep, M, and_then, ◌>>=◌, pure, call, tick}
use rpc_kern.Kernel.Returns.{Returns, returns}
use rpc_kern.Rdma.{
  RdmaChState, RdmaChCb, at_least, is_state, addr_resolved, route_resolved, connected, error,
}
use rpc_kern.Rdma.Cm.{wait_event_interruptible, bind_client, connect_client, do_accept}
use rpc_kern.Rdma.Cm.Sleep.{set_port_lem}
use rpc_kern.Rdma.Cm.Scripts.{first_state, is_orderly, Ends, sleep-first_state}

-- The state in which the sleep ends; at once if the condition holds.
abbrev pub state_on_return :
    (accepted server : Bool) → (RdmaChState → Bool) → RdmaChState → List Wakeup → Option RdmaChState
state_on_return accepted server condition st s =
    let later = first_state accepted server condition st s in
    if condition st then some st else later

-- The outcome of a function that makes one call and then sleeps, by whether the call is accepted: if
-- not, its code, with the block as it was; else the code for the state in which the sleep ends.
abbrev pub Concludes :
    (accepted : Bool)
    → ℤ
    → (RdmaChState → ℤ)
    → RdmaChCb
    → Option RdmaChState
    → Run (RdmaChCb × ℤ)
    → Type 0
Concludes false ret code cb o r = Returns (λ out w'. out ≡ (cb, ret)) r
Concludes true ret code cb none r = r ≡ asleep
Concludes true ret code cb (some st) r =
    Returns
      (λ out w'.
        (out.0 ≡ record cb { state = st; sem = out.0.sem; child_cm_id = out.0.child_cm_id })
        × (out.1 ≡ code st))
      r

-- The codes of bind_client, connect_client and do_accept.
abbrev pub unless : RdmaChState → RdmaChState → ℤ
unless good st = if is_state st good then pos 0 else negsuc 0

abbrev pub unless_error : RdmaChState → ℤ
unless_error st = if is_state st error then negsuc 0 else pos 0

after-Ends :
    (cb : RdmaChCb) (o : Option RdmaChState) (code : RdmaChState → ℤ) (ret : ℤ) (r : Run RdmaChCb)
    (f : RdmaChCb → M (RdmaChCb × ℤ))
    → ((a : RdmaChCb) (w : World) → f a w ≡ ok (a, code a.state) w)
    → Ends cb o r
    → Concludes true ret code cb o (and_then r f)
after-Ends cb none code ret r f e s = rw s refl
after-Ends cb (some st) code ret r f e (returns p) =
    rw (e _ _) (returns (p, ap (λ (c : RdmaChCb). code c.state) p))

module _ (v : Verbs) (accepted : Bool) (route : (t : ℕ) → is_zero (v.resolve_route t) ≡ accepted)
    (cb : RdmaChCb) (w : World) (orderly : is_orderly accepted true w.script ≡ true)
    (here : w.live cb.cm_id ≡ some Kernel.cm_id) where
  wait-Ends :
      (condition : RdmaChState → Bool) (cb' : RdmaChCb)
      → condition addr_resolved ≡ false
      → w.live cb'.cm_id ≡ some Kernel.cm_id
      → Ends cb'
          (state_on_return accepted cb'.server condition cb'.state w.script)
          (wait_event_interruptible v condition cb' (tick w))
  unfolding wait_event_interruptible
  wait-Ends condition cb' c here' = elim (Bool-cases (condition cb'.state)) [
    | inl y ↦ rw y (returns refl)
    | inr n ↦
        rw n (
          sleep-first_state v accepted route condition c cb' true w.script (tick w) n orderly here')
  ]

  -- A call, and a sleep if it is accepted.
  call-Concludes :
      (f : ℕ → ℤ) (code : RdmaChState → ℤ) (condition : RdmaChState → Bool) (cb' : RdmaChCb)
      (k : RdmaChCb → M (RdmaChCb × ℤ))
      → condition addr_resolved ≡ false
      → w.live cb'.cm_id ≡ some Kernel.cm_id
      → ((a : RdmaChCb) (w' : World) → k a w' ≡ ok (a, code a.state) w')
      → Concludes
          (is_zero (f w.clock))
          (f w.clock)
          code
          cb'
          (state_on_return accepted cb'.server condition cb'.state w.script)
          ((if not (is_zero (f w.clock))
              then pure (cb', f w.clock)
              else (wait_event_interruptible v condition cb' >>= k))
            (tick w))
  call-Concludes f code condition cb' k c here' e = go (is_zero (f w.clock))
    where
      go :
          (b : Bool)
          → Concludes b
              (f w.clock)
              code
              cb'
              (state_on_return accepted cb'.server condition cb'.state w.script)
              ((if not b
                  then pure (cb', f w.clock)
                  else (wait_event_interruptible v condition cb' >>= k))
                (tick w))
      go true =
          after-Ends cb' (state_on_return accepted cb'.server condition cb'.state w.script) code
            (f w.clock) (wait_event_interruptible v condition cb' (tick w)) k e
            (wait-Ends condition cb' c here')
      go false = returns refl

  pub connect_client-Concludes :
      Concludes
        (is_zero (v.connect w.clock))
        (v.connect w.clock)
        (unless connected)
        cb
        (state_on_return accepted cb.server (λ s. at_least s connected) cb.state w.script)
        (connect_client v cb w)
  unfolding connect_client call
  connect_client-Concludes =
      call-Concludes v.connect (unless connected) (λ s. at_least s connected) cb _ refl here
        λ a w'. ground arith

  -- bind_client in any state, whether rdma_resolve_addr is accepted or not, with an adapter that
  -- accepts every rdma_resolve_route or none, and for every sequence of events, signals and
  -- errors of the completion handler in which no event follows one that destroys the id, which is
  -- alive, and no message is received: if rdma_resolve_addr is refused, it returns
  -- that code; if a task that looked at its condition after every event would go on in some state,
  -- it returns in that state, with 0 if that is ROUTE_RESOLVED and -1 if not; if such a task never
  -- would, it never returns. No field of the block changes but the state, `sem`, `child_cm_id` and
  -- the port in the address.
  pub bind_client-Concludes :
      Concludes
        (is_zero (v.resolve_addr w.clock))
        (v.resolve_addr w.clock)
        (unless route_resolved)
        (record cb { sin = record cb.sin { port = cb.port } })
        (state_on_return accepted cb.server (λ s. at_least s route_resolved) cb.state w.script)
        (bind_client v cb w)
  unfolding bind_client call
  bind_client-Concludes = rw (set_port_lem cb.sin cb.port) (
      call-Concludes v.resolve_addr (unless route_resolved) (λ s. at_least s route_resolved)
        (record cb { sin = record cb.sin { port = cb.port } }) _ refl here λ a w'. ground arith)

  pub do_accept-Concludes :
      Concludes
        (is_zero (v.accept w.clock))
        (v.accept w.clock)
        unless_error
        cb
        (state_on_return accepted cb.server (λ s. at_least s connected) cb.state w.script)
        (do_accept v cb w)
  unfolding do_accept call
  do_accept-Concludes =
      call-Concludes v.accept unless_error (λ s. at_least s connected) cb _ refl here
        λ a w'. ground arith
