-- ===== src/Rdma/Cm/Hang.antt =====
-- For exactly which sequences of events connect_client never returns.
use rpc_kern.Base.{
  ℕ, ◌≡◌, refl, ◌↔◌, Bool, true, false, ◌||◌, is_zero, arith, List, [], ◌∷◌, none, some, Option, ℤ,
  subst,
}
use rpc_kern.Kernel
use rpc_kern.Kernel.{
  CmEvent, Wakeup, event, interrupted, cq_failed, cq_received, World, Verbs, Run, asleep,
}
use rpc_kern.Kernel.Returns.{Returns, returns}
use rpc_kern.Rdma.{RdmaChState, RdmaChCb, at_least, connected}
use rpc_kern.Rdma.Cm.{connect_client}
use rpc_kern.Rdma.Cm.Scripts.{first_state, is_orderly}
use rpc_kern.Rdma.Cm.Outcomes.{Concludes, state_on_return, unless, connect_client-Concludes}

-- What ends a client's wait for its connection: a signal, an error of the completion handler, or one
-- of two events.
abbrev pub ends_wait : Wakeup → Bool
ends_wait interrupted = true
ends_wait cq_failed = true
ends_wait (event CmEvent.established) = true
ends_wait (event CmEvent.disconnected) = true
ends_wait _ = false

abbrev pub any_ends : List Wakeup → Bool
any_ends [] = false
any_ends (x ∷ s) = ends_wait x || any_ends s

first_state-any_ends :
    (st : RdmaChState) (alive : Bool) (s : List Wakeup)
    → is_orderly true alive s ≡ true
    → at_least st connected ≡ false
    → (first_state true false (λ st. at_least st connected) st s ≡ none) ↔ (any_ends s ≡ false)
first_state-any_ends st alive [] o f = ground arith
first_state-any_ends st alive (interrupted ∷ s) o f = ground arith
first_state-any_ends st alive (cq_failed ∷ s) o f = ground arith
first_state-any_ends st alive (cq_received ∷ s) o f = cc
first_state-any_ends st false (event e ∷ s) o f = cc
first_state-any_ends st true (event CmEvent.addr_resolved ∷ s) o f =
    first_state-any_ends _ _ s o refl
first_state-any_ends st true (event CmEvent.route_resolved ∷ s) o f =
    first_state-any_ends _ _ s o refl
first_state-any_ends st true (event (CmEvent.connect_request i) ∷ s) o f =
    first_state-any_ends _ _ s o refl
first_state-any_ends st true (event CmEvent.established ∷ s) o f = ground arith
first_state-any_ends st true (event CmEvent.disconnected ∷ s) o f = ground arith
first_state-any_ends st true (event e ∷ s) o f = rw f (first_state-any_ends st _ s o f)

Returns-awake :
    {P : RdmaChCb × ℤ → World → Type 0} {r : Run (RdmaChCb × ℤ)} → Returns P r → r ≡ asleep → ⊥
Returns-awake (returns p) e = cc

Concludes-asleep :
    (ret : ℤ) (code : RdmaChState → ℤ) (cb : RdmaChCb) (o : Option RdmaChState)
    (r : Run (RdmaChCb × ℤ))
    → Concludes true ret code cb o r
    → (r ≡ asleep) ↔ (o ≡ none)
Concludes-asleep ret code cb none r e = (λ _. refl, λ _. e)
Concludes-asleep ret code cb (some st) r e = (λ a. absurd (Returns-awake e a), λ n. cc)

-- A client's connect_client, in a state below CONNECTED, whose rdma_connect is accepted, whose id is
-- alive and with an adapter that accepts every rdma_resolve_route, for every sequence of events,
-- signals and errors of the completion handler in which no event follows one that destroys the id,
-- and where no message is received meanwhile: it never returns exactly when there is neither a
-- signal, nor an error of the completion handler, nor the event that the connection is established or
-- is gone. No other event ends the wait, however often it wakes the task.
pub connect_client-hangs_iff :
    (v : Verbs) (cb : RdmaChCb) (w : World)
    → ((t : ℕ) → is_zero (v.resolve_route t) ≡ true)
    → cb.server ≡ false
    → at_least cb.state connected ≡ false
    → is_zero (v.connect w.clock) ≡ true
    → w.live cb.cm_id ≡ some Kernel.cm_id
    → is_orderly true true w.script ≡ true
    → (connect_client v cb w ≡ asleep) ↔ (any_ends w.script ≡ false)
connect_client-hangs_iff v cb w route client below accepted here orderly =
    let first = first_state true false (λ st. at_least st connected) cb.state w.script in
    let same : state_on_return true cb.server (λ st. at_least st connected) cb.state w.script
        ≡ first =
      rw (below, client) refl in
    let never =
      Concludes-asleep (v.connect w.clock) (unless connected) cb first (connect_client v cb w) (
        subst
          (λ b. Concludes b (v.connect w.clock) (unless connected) cb first (connect_client v cb w))
          accepted
          (subst
            (λ o.
              Concludes (is_zero (v.connect w.clock)) (v.connect w.clock) (unless connected) cb o
                (connect_client v cb w))
            same (connect_client-Concludes v true route cb w orderly here))) in
    let any = first_state-any_ends cb.state true w.script orderly below in
    (λ e. any.0 (never.0 e), λ e. never.1 (any.1 e))
