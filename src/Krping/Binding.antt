-- ===== src/Krping/Binding.antt =====
-- bind_client of the prototype, whatever happens while the address and the route are resolved.
use rpc_kern.Base.{
  ℕ, ◌+◌, ◌≡◌, refl, inl, inr, Bool, true, false, not, ◌&&◌, some, List, [], ◌∷◌, ℤ, pos, is_zero,
  arith, if◌then◌else◌, Bool-cases, ◌==◌,
}
use rpc_kern.Kernel
use rpc_kern.Kernel.{CmEvent, World, Verbs, Run, ok, pure, call, tick}
use rpc_kern.Kernel.Owned.{alive-ok}
use rpc_kern.Kernel.Safe.{Safe, stops, sleeps, chain-Safe, weaken-Safe}
use rpc_kern.Rdma.{Sockaddr}
use rpc_kern.Krping.{
  TestState, Occurrence, cm_event, completed, signal, KrpingCb, KrpingVerbs, error, is_state,
  at_least, route_resolved, connected, addr_resolved, wake_up_krping, connect_request,
}
use rpc_kern.Krping.Cm.{
  krping_occur, krping_sleep, krping_wait, krping_bind_client, krping_cma_event_handler,
  krping_fill_sockaddr, reg_supported, eintr, einval,
}
use rpc_kern.Krping.Keeps.{Keeps, Keeps-trans, pointers, is_clean}
use rpc_kern.Krping.Sleeps.{Slept}

-- What can come while the address and the route are resolved: the completion queue is made only after
-- that. What ends the sleep is followed by what is clean.
abbrev pub is_binding : List Occurrence → Bool
is_binding [] = true
is_binding (signal ∷ s) = is_clean s
is_binding (completed polled last ∷ s) = false
is_binding (cm_event CmEvent.addr_resolved ∷ s) = is_binding s
is_binding (cm_event (CmEvent.connect_request id) ∷ s) = is_binding s
is_binding (cm_event CmEvent.unhandled ∷ s) = is_binding s
is_binding (cm_event e ∷ s) = is_clean s

abbrev pub resolved : TestState → Bool
resolved s = at_least s route_resolved

module _ (v : Verbs) (u : KrpingVerbs) where
  -- An event that ends the sleep, and one that does not.
  ends-Slept :
      (cb cb' : KrpingCb) (s : List Occurrence) (w w' : World)
      → Keeps cb w cb' w'
      → cb'.sem ≡ cb.sem + 1
      → resolved cb'.state ≡ true
      → is_clean s ≡ true
      → Safe (Slept cb w) (
          if not (cb'.sem == cb.sem) && resolved cb'.state
          then ok (record cb' { to_come = s }) w'
          else krping_sleep v u resolved cb' s w')
  ends-Slept cb cb' s w w' k up high clean =
      let test : (not (cb'.sem == cb.sem) && resolved cb'.state) ≡ true = ground arith in
      rw test (stops (record { same = k.same; live = k.live; next = k.next }, clean))

  goes_on-Slept :
      (cb cb' : KrpingCb) (s : List Occurrence) (w w' : World)
      → Keeps cb w cb' w'
      → resolved cb'.state ≡ false
      → Safe (Slept cb' w') (krping_sleep v u resolved cb' s w')
      → Safe (Slept cb w) (
          if not (cb'.sem == cb.sem) && resolved cb'.state
          then ok (record cb' { to_come = s }) w'
          else krping_sleep v u resolved cb' s w')
  goes_on-Slept cb cb' s w w' k low rest =
      let test : (not (cb'.sem == cb.sem) && resolved cb'.state) ≡ false = ground arith in
      rw test (weaken-Safe rest λ out w'' (k', c). (Keeps-trans k k', c))

  krping_sleep-binding :
      (cb : KrpingCb) (s : List Occurrence) (w : World)
      → is_zero cb.server ≡ true
      → resolved cb.state ≡ false
      → is_binding s ≡ true
      → Safe (Slept cb w) (krping_sleep v u resolved cb s w)
  unfolding krping_sleep krping_occur krping_cma_event_handler call
  krping_sleep-binding cb [] w client low b = sleeps
  krping_sleep-binding cb (signal ∷ s) w client low b =
      stops (record { same = refl; live = refl; next = refl }, b)
  krping_sleep-binding cb (completed polled last ∷ s) w client low b = cc
  krping_sleep-binding cb (cm_event CmEvent.addr_resolved ∷ s) w client low b =
      elim (Bool-cases (is_zero (v.resolve_route w.clock))) [
        | inl y ↦ rw y (
            goes_on-Slept cb (record cb { state = addr_resolved }) s w (tick w)
              (record { same = refl; live = refl; next = refl }) refl
              (krping_sleep-binding (record cb { state = addr_resolved }) s (tick w) client refl b))
        | inr n ↦ rw n (
            goes_on-Slept cb (wake_up_krping (record cb { state = addr_resolved })) s w (tick w)
              (record { same = refl; live = refl; next = refl }) refl
              (krping_sleep-binding (wake_up_krping (record cb { state = addr_resolved })) s
                (tick w) client refl b))
      ]
  krping_sleep-binding cb (cm_event (CmEvent.connect_request id) ∷ s) w client low b =
      let cb' = wake_up_krping (record cb { state = connect_request; child_cm_id = id }) in
      goes_on-Slept cb cb' s w w (record { same = refl; live = refl; next = refl }) refl
        (krping_sleep-binding cb' s w client refl b)
  krping_sleep-binding cb (cm_event CmEvent.unhandled ∷ s) w client low b =
      goes_on-Slept cb (wake_up_krping cb) s w w (record { same = refl; live = refl; next = refl })
        low (krping_sleep-binding (wake_up_krping cb) s w client low b)
  krping_sleep-binding cb (cm_event CmEvent.established ∷ s) w client low b =
      let cb' =
        wake_up_krping (if is_zero cb.server then record cb { state = connected } else cb) in
      let same : pointers cb' ≡ pointers cb = ground arith in
      let up : cb'.sem ≡ cb.sem + 1 = ground arith in
      let high : resolved cb'.state ≡ true = ground arith in
      ends-Slept cb cb' s w w (record { same = same; live = refl; next = refl }) up high b
  krping_sleep-binding cb (cm_event CmEvent.route_resolved ∷ s) w client low b =
      ends-Slept cb (wake_up_krping (record cb { state = route_resolved })) s w w
        (record { same = refl; live = refl; next = refl }) refl refl b
  krping_sleep-binding cb (cm_event e ∷ s) w client low b =
      ends-Slept cb (wake_up_krping (record cb { state = error })) s w w
        (record { same = refl; live = refl; next = refl }) refl refl b

  pub krping_bind_client-Slept :
      (resolve : Sockaddr → ℕ → ℤ) (cb : KrpingCb) (w : World)
      → w.live cb.cm_id ≡ some Kernel.cm_id
      → is_zero cb.server ≡ true
      → resolved cb.state ≡ false
      → is_binding cb.to_come ≡ true
      → Safe
          (λ out w'. Keeps cb w out.0 w' × (is_zero out.1 ≡ true → is_clean out.0.to_come ≡ true))
          (krping_bind_client v u resolve cb w)
  unfolding krping_bind_client krping_wait call
  krping_bind_client-Slept resolve cb w id client low b =
      elim (Bool-cases (is_zero (resolve (krping_fill_sockaddr cb) w.clock))) [
        | inr n ↦
            rw (alive-ok Kernel.cm_id cb.cm_id w id, n)
              (stops (record { same = refl; live = refl; next = refl }, λ z. cc))
        | inl y ↦
            rw (alive-ok Kernel.cm_id cb.cm_id w id, y, low)
              (chain-Safe (krping_sleep-binding cb cb.to_come (tick w) client low b)
                λ cb' w' (k, c).
                  answer cb' (is_state cb'.state route_resolved) (reg_supported u) w'
                    (record { same = k.same; live = k.live; next = k.next }) c)
      ]
    where
      answer :
          (cb' : KrpingCb) (b1 b2 : Bool) (w' : World)
          → Keeps cb w cb' w'
          → is_clean cb'.to_come ≡ true
          → Safe
              (λ (out : KrpingCb × ℤ) w''.
                Keeps cb w out.0 w'' × (is_zero out.1 ≡ true → is_clean out.0.to_come ≡ true))
              ((if not b1
                  then pure (cb', eintr)
                  else if not b2
                  then pure (cb', einval)
                  else pure (cb', pos 0))
                w')
      answer cb' false b2 w' k c = stops (k, λ z. c)
      answer cb' true false w' k c = stops (k, λ z. c)
      answer cb' true true w' k c = stops (k, λ z. c)
