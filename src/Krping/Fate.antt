-- ===== src/Krping/Fate.antt =====
-- What the prototype's connect_client returns, for every sequence of events.
use rpc_kern.Base.{
  ◌+◌, ◌≡◌, refl, inl, inr, Bool, true, false, not, ◌&&◌, Option, none, some, List, [], ◌∷◌, ℤ, pos,
  negsuc, is_zero, arith, if◌then◌else◌, Bool-cases, ◌==◌,
}
use rpc_kern.Kernel
use rpc_kern.Kernel.{CmEvent, World, Verbs, Run, ok, asleep, and_then, pure, call, tick}
use rpc_kern.Kernel.Owned.{alive-ok}
use rpc_kern.Kernel.Returns.{Returns, returns}
use rpc_kern.Krping.{
  TestState, Occurrence, cm_event, completed, signal, KrpingCb, KrpingVerbs, addr_resolved,
  route_resolved, connect_request, connected, error, at_least, is_state, wake_up_krping,
}
use rpc_kern.Krping.Cm.{
  krping_cma_event_handler, krping_occur, krping_sleep, krping_wait, krping_connect_client,
}

-- Only events of the connection manager and signals.
abbrev pub is_quiet : List Occurrence → Bool
is_quiet [] = true
is_quiet (completed polled last ∷ s) = false
is_quiet (x ∷ s) = is_quiet s

-- How a client's wait for its connection ends: with the code 0 or -1, or never.
abbrev pub fate : List Occurrence → Option ℤ
fate [] = none
fate (signal ∷ s) = some (pos 0)
fate (completed polled last ∷ s) = none
fate (cm_event CmEvent.addr_resolved ∷ s) = fate s
fate (cm_event CmEvent.route_resolved ∷ s) = fate s
fate (cm_event (CmEvent.connect_request id) ∷ s) = fate s
fate (cm_event CmEvent.unhandled ∷ s) = fate s
fate (cm_event CmEvent.established ∷ s) = some (pos 0)
fate (cm_event e ∷ s) = some (negsuc 0)

abbrev up : TestState → Bool
up s = at_least s connected

-- The state in which a sleep ends, by the fate of the wait.
abbrev Ends : Option ℤ → Run KrpingCb → Type 0
Ends none r = r ≡ asleep
Ends (some code) r =
    Returns (λ cb' _. (if is_state cb'.state error then negsuc 0 else pos 0) ≡ code) r

-- A function's run that never returns, or returns the given code.
abbrev pub Comes : Option ℤ → Run (KrpingCb × ℤ) → Type 0
Comes none r = r ≡ asleep
Comes (some code) r = Returns (λ (out : KrpingCb × ℤ) _. out.1 ≡ code) r

module _ (v : Verbs) (u : KrpingVerbs) where
  -- An event after which the task sleeps on, and one that ends the sleep.
  goes_on :
      (cb cb' : KrpingCb) (s : List Occurrence) (w' : World) (f : Option ℤ)
      → up cb'.state ≡ false
      → Ends f (krping_sleep v u up cb' s w')
      → Ends f (
          if not (cb'.sem == cb.sem) && up cb'.state
          then ok (record cb' { to_come = s }) w'
          else krping_sleep v u up cb' s w')
  goes_on cb cb' s w' f low rest =
      let test : (not (cb'.sem == cb.sem) && up cb'.state) ≡ false = ground arith in rw test rest

  ends :
      (cb cb' : KrpingCb) (s : List Occurrence) (w' : World) (code : ℤ)
      → cb'.sem ≡ cb.sem + 1
      → up cb'.state ≡ true
      → (if is_state cb'.state error then negsuc 0 else pos 0) ≡ code
      → Ends (some code) (
          if not (cb'.sem == cb.sem) && up cb'.state
          then ok (record cb' { to_come = s }) w'
          else krping_sleep v u up cb' s w')
  ends cb cb' s w' code woken high c =
      let test : (not (cb'.sem == cb.sem) && up cb'.state) ≡ true = ground arith in
      rw test (returns c)

  krping_sleep-fate :
      (cb : KrpingCb) (s : List Occurrence) (w : World)
      → is_zero cb.server ≡ true
      → up cb.state ≡ false
      → is_quiet s ≡ true
      → Ends (fate s) (krping_sleep v u up cb s w)
  unfolding krping_sleep krping_occur krping_cma_event_handler call
  krping_sleep-fate cb [] w client low q = refl
  krping_sleep-fate cb (signal ∷ s) w client low q = returns (ground arith)
  krping_sleep-fate cb (completed polled last ∷ s) w client low q = cc
  krping_sleep-fate cb (cm_event CmEvent.addr_resolved ∷ s) w client low q =
      elim (Bool-cases (is_zero (v.resolve_route w.clock))) [
        | inl y ↦ rw y (
            goes_on cb (record cb { state = addr_resolved }) s (tick w) (fate s) refl
              (krping_sleep-fate (record cb { state = addr_resolved }) s (tick w) client refl q))
        | inr n ↦ rw n (
            goes_on cb (wake_up_krping (record cb { state = addr_resolved })) s (tick w) (fate s)
              refl
              (krping_sleep-fate (wake_up_krping (record cb { state = addr_resolved })) s (tick w)
                client refl q))
      ]
  krping_sleep-fate cb (cm_event CmEvent.route_resolved ∷ s) w client low q =
      let cb' = wake_up_krping (record cb { state = route_resolved }) in
      goes_on cb cb' s w (fate s) refl (krping_sleep-fate cb' s w client refl q)
  krping_sleep-fate cb (cm_event (CmEvent.connect_request id) ∷ s) w client low q =
      let cb' = wake_up_krping (record cb { state = connect_request; child_cm_id = id }) in
      goes_on cb cb' s w (fate s) refl (krping_sleep-fate cb' s w client refl q)
  krping_sleep-fate cb (cm_event CmEvent.unhandled ∷ s) w client low q =
      goes_on cb (wake_up_krping cb) s w (fate s) low
        (krping_sleep-fate (wake_up_krping cb) s w client low q)
  krping_sleep-fate cb (cm_event CmEvent.established ∷ s) w client low q =
      let cb' =
        wake_up_krping (if is_zero cb.server then record cb { state = connected } else cb) in
      let woken : cb'.sem ≡ cb.sem + 1 = ground arith in
      let high : up cb'.state ≡ true = ground arith in
      let code : (if is_state cb'.state error then negsuc 0 else pos 0) ≡ pos 0 = ground arith in
      ends cb cb' s w (pos 0) woken high code
  krping_sleep-fate cb (cm_event e ∷ s) w client low q =
      ends cb (wake_up_krping (record cb { state = error })) s w (negsuc 0) refl refl refl

  answer :
      (f : Option ℤ) (r : Run KrpingCb)
      → Ends f r
      → Comes f (
          and_then r
            λ cb'. if is_state cb'.state error then pure (cb', negsuc 0) else pure (cb', pos 0))
  answer none r e = rw e refl
  answer (some code) r (returns {a} {w} c) = go a w (is_state a.state error) code c
    where
      go :
          (a : KrpingCb) (w : World) (b : Bool) (code : ℤ)
          → (if b then negsuc 0 else pos 0) ≡ code
          → Returns
              (λ (out : KrpingCb × ℤ) _. out.1 ≡ code)
              ((if b then pure (a, negsuc 0) else pure (a, pos 0)) w)
      go a w true code c = returns c
      go a w false code c = returns c

  -- A client's krping_connect_client in a state below CONNECTED, whose rdma_connect is accepted and
  -- whose id is alive, for every sequence of the connection manager's events and signals: the first
  -- of them that is a signal, a failure, a disconnection, the removal of the device or the event
  -- that the connection is established ends the wait, and the code is 0 for a signal or that event,
  -- and -1 for the others; if there is none, it never returns.
  pub krping_connect_client-fate :
      (cb : KrpingCb) (w : World)
      → w.live cb.cm_id ≡ some Kernel.cm_id
      → is_zero cb.server ≡ true
      → at_least cb.state connected ≡ false
      → is_zero (v.connect w.clock) ≡ true
      → is_quiet cb.to_come ≡ true
      → Comes (fate cb.to_come) (krping_connect_client v u cb w)
  unfolding krping_connect_client krping_wait call
  krping_connect_client-fate cb w id client low accepted quiet =
      rw (alive-ok Kernel.cm_id cb.cm_id w id, accepted, low)
        (answer (fate cb.to_come) (krping_sleep v u up cb cb.to_come (tick w))
          (krping_sleep-fate cb cb.to_come (tick w) client low quiet))
