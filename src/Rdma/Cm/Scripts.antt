-- ===== src/Rdma/Cm/Scripts.antt =====
-- wait_event_interruptible over every sequence of events: the sleep misses no event that makes its
-- condition true, and ends for no other reason than that or a signal.
use rpc_kern.Base.{
  ℕ, ◌+◌, ◌≡◌, refl, ◌∙◌, ap, subst, &&-false, ◌⊎◌, inl, inr, Bool, true, false, not, ◌&&◌, is_zero,
  arith, List, [], ◌∷◌, Option, none, some, if◌then◌else◌, Bool-cases, ◌==◌,
}
use rpc_kern.Kernel
use rpc_kern.Kernel.{
  CmEvent, Wakeup, event, interrupted, cq_failed, cq_received, World, Verbs, Run, ok, asleep, M,
  and_then, call, destroy, tick, put,
}
use rpc_kern.Kernel.Returns.{Returns, returns, weaken}
use rpc_kern.Rdma.{
  RdmaChState, RdmaChCb, addr_resolved, route_resolved, connect_request, connected, disconnected,
  error, wake_up_cb,
}
use rpc_kern.Rdma.Cm.{cma_event_handler, deliver, sleep}
use rpc_kern.Rdma.Cm.Events.{is_failure}
use rpc_kern.Rdma.Cm.Sleep.{deliver-failure}

-- Whether the handler answers an event with a code other than 0, when rdma_resolve_route is accepted
-- or not.
abbrev pub ends_id : Bool → CmEvent → Bool
ends_id accepted CmEvent.addr_resolved = not accepted
ends_id accepted CmEvent.device_removal = true
ends_id accepted e = is_failure e

-- What can come: no event once the connection manager has destroyed the id, and no message.
abbrev pub is_orderly : (accepted alive : Bool) → List Wakeup → Bool
is_orderly accepted alive [] = true
is_orderly accepted alive (interrupted ∷ s) = is_orderly accepted alive s
is_orderly accepted alive (cq_failed ∷ s) = is_orderly accepted alive s
is_orderly accepted alive (cq_received ∷ s) = false
is_orderly accepted true (event e ∷ s) = is_orderly accepted (not (ends_id accepted e)) s
is_orderly accepted false (event e ∷ s) = false

-- The state after an event, without wake-ups.
abbrev pub state_after : (accepted server : Bool) → RdmaChState → CmEvent → RdmaChState
state_after accepted server st CmEvent.addr_resolved = if accepted then addr_resolved else error
state_after accepted server st CmEvent.route_resolved = route_resolved
state_after accepted server st (CmEvent.connect_request id) = connect_request
state_after accepted server st CmEvent.established = if server then st else connected
state_after accepted server st CmEvent.disconnected = disconnected
state_after accepted server st e = st

-- The state in which a task that looks at its condition after every event, woken or not, goes on;
-- `none` if it never does.
abbrev pub first_state :
    (accepted server : Bool) → (RdmaChState → Bool) → RdmaChState → List Wakeup → Option RdmaChState
first_state accepted server condition st [] = none
first_state accepted server condition st (interrupted ∷ s) = some st
first_state accepted server condition st (cq_received ∷ s) = none
first_state accepted server condition st (cq_failed ∷ s) =
    let rest = first_state accepted server condition error s in
    if condition error then some error else rest
first_state accepted server condition st (event e ∷ s) =
    let rest = first_state accepted server condition (state_after accepted server st e) s in
    if condition (state_after accepted server st e)
    then some (state_after accepted server st e)
    else rest

-- The run sleeps for ever, or returns a block in the given state.
abbrev pub Ends : RdmaChCb → Option RdmaChState → Run RdmaChCb → Type 0
Ends cb none r = r ≡ asleep
Ends cb (some st) r =
    Returns (λ cb' w'. cb' ≡ record cb { state = st; sem = cb'.sem; child_cm_id = cb'.child_cm_id })
      r

record Delivered (accepted : Bool) (cb : RdmaChCb) (e : CmEvent) (cb' : RdmaChCb) (w' : World)
    : Type 0 where
  pub frame : cb' ≡ record cb {
    state = state_after accepted cb.server cb.state e;
    sem = cb'.sem;
    child_cm_id = cb'.child_cm_id;
  }
  pub woken : (cb'.state ≡ cb.state) ⊎ (cb'.state ≡ addr_resolved) ⊎ (cb'.sem ≡ cb.sem + 1)
  pub id : w'.live cb.cm_id ≡ (if ends_id accepted e then none else some Kernel.cm_id)

module _ (v : Verbs) (cb : RdmaChCb) (w : World) where
  deliver-routing :
      is_zero (v.resolve_route w.clock) ≡ true
      → deliver v cb CmEvent.addr_resolved w ≡ ok (record cb { state = addr_resolved }) (tick w)
  unfolding deliver call
  deliver-routing y = rw (y, y)

  deliver-unrouted :
      is_zero (v.resolve_route w.clock) ≡ false
      → w.live cb.cm_id ≡ some Kernel.cm_id
      → deliver v cb CmEvent.addr_resolved w
        ≡ ok
            (wake_up_cb (record cb { state = error }))
            (record (tick w) { live = put w.live cb.cm_id none })
  unfolding deliver call destroy
  deliver-unrouted n here = ground arith

  deliver-removed :
      w.live cb.cm_id ≡ some Kernel.cm_id
      → deliver v cb CmEvent.device_removal w ≡ ok cb (record w { live = put w.live cb.cm_id none })
  unfolding deliver destroy
  deliver-removed here = ground arith

not-if :
    (b : Bool)
    → (if b then none else some Kernel.cm_id) ≡ (if not b then some Kernel.cm_id else none)
not-if true = refl
not-if false = refl

Ends-chain :
    {P : RdmaChCb → World → Type 0} {r : Run RdmaChCb} (cb : RdmaChCb) (o : Option RdmaChState)
    (f : RdmaChCb → M RdmaChCb)
    → Returns P r
    → ((a : RdmaChCb) (w : World) → P a w → Ends cb o (f a w))
    → Ends cb o (and_then r f)
Ends-chain cb o f (returns p) rest = rest _ _ p

Ends-frame :
    (cb cb' : RdmaChCb) (st : RdmaChState) (o : Option RdmaChState) (r : Run RdmaChCb)
    → cb' ≡ record cb { state = st; sem = cb'.sem; child_cm_id = cb'.child_cm_id }
    → Ends cb' o r
    → Ends cb o r
Ends-frame cb cb' st none r frame e = e
Ends-frame cb cb' st (some st') r frame e = weaken e λ out w' p.
    p
    ∙ ap (λ (c : RdmaChCb). record c { state = st'; sem = out.sem; child_cm_id = out.child_cm_id })
        frame

module _ (v : Verbs) (accepted : Bool)
    (route : (t : ℕ) → is_zero (v.resolve_route t) ≡ accepted) where
  deliver-Delivered :
      (cb : RdmaChCb) (e : CmEvent) (w : World)
      → w.live cb.cm_id ≡ some Kernel.cm_id
      → Returns (Delivered accepted cb e) (deliver v cb e w)
  unfolding deliver cma_event_handler call destroy
  deliver-Delivered cb CmEvent.addr_resolved w here = elim (Bool-cases accepted) [
    | inl y ↦
        rw (y, deliver-routing v cb w (route w.clock ∙ y))
          (returns (record { frame = refl; woken = inr (inl refl); id = here }))
    | inr n ↦
        rw (n, deliver-unrouted v cb w (route w.clock ∙ n) here)
          (returns (record { frame = refl; woken = inr (inr refl); id = ground arith }))
  ]
  deliver-Delivered cb CmEvent.route_resolved w here =
      returns (record { frame = refl; woken = inr (inr refl); id = here })
  deliver-Delivered cb (CmEvent.connect_request i) w here =
      returns (record { frame = refl; woken = inr (inr refl); id = here })
  deliver-Delivered cb CmEvent.established w here = elim (Bool-cases cb.server) [
    | inl y ↦ rw y (returns (record { frame = refl; woken = inr (inr refl); id = here }))
    | inr n ↦ rw n (returns (record { frame = refl; woken = inr (inr refl); id = here }))
  ]
  deliver-Delivered cb CmEvent.disconnected w here =
      returns (record { frame = refl; woken = inr (inr refl); id = here })
  deliver-Delivered cb CmEvent.unhandled w here =
      returns (record { frame = refl; woken = inl refl; id = here })
  deliver-Delivered cb CmEvent.device_removal w here =
      rw (deliver-removed v cb w here)
        (returns (record { frame = refl; woken = inl refl; id = ground arith }))
  deliver-Delivered cb CmEvent.addr_error w here =
      rw (deliver-failure v cb CmEvent.addr_error w refl here)
        (returns (record { frame = refl; woken = inl refl; id = ground arith }))
  deliver-Delivered cb CmEvent.route_error w here =
      rw (deliver-failure v cb CmEvent.route_error w refl here)
        (returns (record { frame = refl; woken = inl refl; id = ground arith }))
  deliver-Delivered cb e w here =
      rw (deliver-failure v cb e w refl here)
        (returns (record { frame = refl; woken = inl refl; id = ground arith }))

  module _ (condition : RdmaChState → Bool) (c : condition addr_resolved ≡ false) where
    -- An event that makes the condition true has woken the sleeper.
    woken-Ends :
        (cb : RdmaChCb) (e : CmEvent) (s : List Wakeup) (cb' : RdmaChCb) (w' : World)
        → condition cb.state ≡ false
        → Delivered accepted cb e cb' w'
        → condition (state_after accepted cb.server cb.state e) ≡ true
        → Ends cb (first_state accepted cb.server condition cb.state (event e ∷ s)) (
            if not (cb'.sem == cb.sem) && condition cb'.state
            then ok cb' (record w' { script = s })
            else sleep v condition cb' s w')
    woken-Ends cb e s cb' w' f d y =
        let now : condition cb'.state ≡ true = ap condition (ap RdmaChCb.state d.frame) ∙ y in
        let up : cb'.sem ≡ cb.sem + 1 = elim d.woken [
          | inl same ↦ cc
          | inr (inl resolved) ↦ cc
          | inr (inr up) ↦ up
        ] in
        let test : (not (cb'.sem == cb.sem) && condition cb'.state) ≡ true = ground arith in
        rw (y, test) (returns d.frame)

    asleep-Ends :
        (cb : RdmaChCb) (e : CmEvent) (s : List Wakeup) (cb' : RdmaChCb) (w' : World)
        → Delivered accepted cb e cb' w'
        → condition (state_after accepted cb.server cb.state e) ≡ false
        → Ends cb'
            (first_state accepted cb'.server condition cb'.state s)
            (sleep v condition cb' s w')
        → Ends cb (first_state accepted cb.server condition cb.state (event e ∷ s)) (
            if not (cb'.sem == cb.sem) && condition cb'.state
            then ok cb' (record w' { script = s })
            else sleep v condition cb' s w')
    asleep-Ends cb e s cb' w' d n rest =
        let now : condition cb'.state ≡ false = ap condition (ap RdmaChCb.state d.frame) ∙ n in
        let test : (not (cb'.sem == cb.sem) && condition cb'.state) ≡ false = rw (now, &&-false) in
        let same =
          ap (λ (c : RdmaChCb). first_state accepted c.server condition c.state s) d.frame in
        rw (n, test)
          (Ends-frame cb cb' _ _ _ d.frame
            (subst (λ o. Ends cb' o (sleep v condition cb' s w')) same rest))

    -- wait_event_interruptible after its first look at the condition.
    pub sleep-first_state :
        (cb : RdmaChCb) (alive : Bool) (s : List Wakeup) (w : World)
        → condition cb.state ≡ false
        → is_orderly accepted alive s ≡ true
        → w.live cb.cm_id ≡ (if alive then some Kernel.cm_id else none)
        → Ends cb (first_state accepted cb.server condition cb.state s) (sleep v condition cb s w)
    unfolding sleep
    sleep-first_state cb alive [] w f o here = refl
    sleep-first_state cb alive (interrupted ∷ s) w f o here = returns refl
    sleep-first_state cb alive (cq_received ∷ s) w f o here = cc
    sleep-first_state cb alive (cq_failed ∷ s) w f o here = elim (Bool-cases (condition error)) [
      | inl y ↦ rw y (returns refl)
      | inr n ↦ rw n (
          Ends-frame cb (wake_up_cb (record cb { state = error })) error
            (first_state accepted cb.server condition error s) _ refl
            (sleep-first_state (wake_up_cb (record cb { state = error })) alive s w n o here))
    ]
    sleep-first_state cb false (event e ∷ s) w f o here = cc
    sleep-first_state cb true (event e ∷ s) w f o here =
        Ends-chain cb _ _ (deliver-Delivered cb e w here) λ cb' w' d.
          elim (Bool-cases (condition (state_after accepted cb.server cb.state e))) [
            | inl y ↦ woken-Ends cb e s cb' w' f d y
            | inr n ↦ asleep-Ends cb e s cb' w' d n (
                sleep-first_state cb' (not (ends_id accepted e)) s w'
                  (ap condition (ap RdmaChCb.state d.frame) ∙ n) o
                  (ap w'.live (ap RdmaChCb.cm_id d.frame) ∙ d.id ∙ not-if (ends_id accepted e)))
          ]
