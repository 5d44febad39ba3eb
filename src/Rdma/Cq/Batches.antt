-- ===== src/Rdma/Cq/Batches.antt =====
-- Completions polled in one run of the handler or in two.
use rpc_kern.Base.{
  ◌≡◌, refl, ◌∙◌, sym, inl, inr, Bool, true, false, List, [], ◌∷◌, ◌++◌, if◌then◌else◌, ℤ, pos,
  is_zero, Bool-cases,
}
use rpc_kern.Message.{ByteOrder}
use rpc_kern.Kernel.{World, Run, Verbs, M, ok, fault, asleep, and_then, pure}
use rpc_kern.Kernel.Returns.{and_then_assoc}
use rpc_kern.Rdma.{RdmaChCb, is_state, error, wake_up_cb}
use rpc_kern.Rdma.Receive.{Invoke}
use rpc_kern.Rdma.Cq.{
  Completion, land, Next, flushed, continue, goto_error, on_completion, poll_loop, cq_event_handler,
}
use rpc_kern.Rdma.Cq.Calm.{Calm, calm_ok, calm_fault, calm_asleep, on_completion-Calm, land-Calm}

-- Two continuations that agree on channels not in state ERROR.
same_after :
    {B C : Type 0} (r : Run (RdmaChCb × B)) (f g : RdmaChCb × B → M C)
    → Calm r
    → ((out : RdmaChCb × B) (w : World) → is_state out.0.state error ≡ false → f out w ≡ g out w)
    → and_then r f ≡ and_then r g
same_after _ f g (calm_ok c) h = h _ _ c
same_after _ f g calm_fault h = refl
same_after _ f g calm_asleep h = refl

same_any :
    {B C : Type 0} (r : Run B) (f g : B → M C)
    → ((b : B) (w : World) → f b w ≡ g b w)
    → and_then r f ≡ and_then r g
same_any (ok b w) f g h = h b w
same_any fault f g h = refl
same_any asleep f g h = refl

abbrev drop_result : RdmaChCb × ℤ → M RdmaChCb
drop_result (cb, ret) w = ok cb w

-- The channel and the world that a run of the handler leaves.
abbrev pub channel_after : Run (RdmaChCb × ℤ) → Run RdmaChCb
channel_after r = and_then r drop_result

module _ (order : ByteOrder) (v : Verbs) (invoke : Invoke) where
  -- What the loop does after one completion.
  abbrev go_on : List Completion → ℤ → Bool → RdmaChCb × Next → M (RdmaChCb × ℤ)
  go_on cs last was_flushed (cb, next) = elim next [
    | flushed ↦ poll_loop order v invoke cb cs last true
    | continue ↦ poll_loop order v invoke cb cs last was_flushed
    | goto_error ret ↦ pure (wake_up_cb (record cb { state = error }), ret)
  ]

  -- A run of the handler again, unless the first has left the channel in state ERROR.
  abbrev pub and_again : List Completion → ℤ → RdmaChCb × ℤ → M RdmaChCb
  and_again ys last (cb, ret) w =
      if is_state cb.state error
      then ok cb w
      else channel_after (cq_event_handler order v invoke cb ys last w)

  flag_next :
      (cs : List Completion) (last : ℤ) (a b : Bool) (cb : RdmaChCb) (w : World)
      → channel_after (poll_loop order v invoke cb cs last a w)
        ≡ channel_after (poll_loop order v invoke cb cs last b w)
      → (next : Next)
      → channel_after (go_on cs last a (cb, next) w) ≡ channel_after (go_on cs last b (cb, next) w)
  flag_next cs last a b cb w more flushed = refl
  flag_next cs last a b cb w more continue = more
  flag_next cs last a b cb w more (goto_error ret) = refl

  split_next :
      (xs ys : List Completion) (last : ℤ) (a b : Bool) (cb : RdmaChCb) (w : World)
      → ((a' b' : Bool)
          → channel_after (poll_loop order v invoke cb (xs ++ ys) last a' w)
            ≡ and_then (poll_loop order v invoke cb xs (pos 0) b' w) (and_again ys last))
      → (next : Next)
      → channel_after (go_on (xs ++ ys) last a (cb, next) w)
        ≡ and_then (go_on xs (pos 0) b (cb, next) w) (and_again ys last)
  split_next xs ys last a b cb w more flushed = more true true
  split_next xs ys last a b cb w more continue = more a b
  split_next xs ys last a b cb w more (goto_error ret) = refl

  -- Only the result depends on whether a completion was flushed.
  any_flag :
      (cs : List Completion) (last : ℤ) (a b : Bool) (cb : RdmaChCb) (w : World)
      → channel_after (poll_loop order v invoke cb cs last a w)
        ≡ channel_after (poll_loop order v invoke cb cs last b w)
  unfolding poll_loop
  any_flag [] last a b cb w = elim (Bool-cases (is_zero last)) [
    | inl e ↦ rw e refl
    | inr e ↦ rw e refl
  ]
  any_flag (c ∷ cs) last a b cb w =
      let r = on_completion order v invoke (land cb c) c.wc c.wc.status w in
      and_then_assoc r (go_on cs last a) drop_result
      ∙ same_any r (λ o w1. channel_after (go_on cs last a o w1))
          (λ o w1. channel_after (go_on cs last b o w1))
          (λ (cb1, next) w1. flag_next cs last a b cb1 w1 (any_flag cs last a b cb1 w1) next)
      ∙ sym (and_then_assoc r (go_on cs last b) drop_result)

  split_loop :
      (xs ys : List Completion) (last : ℤ) (a b : Bool) (cb : RdmaChCb) (w : World)
      → is_state cb.state error ≡ false
      → channel_after (poll_loop order v invoke cb (xs ++ ys) last a w)
        ≡ and_then (poll_loop order v invoke cb xs (pos 0) b w) (and_again ys last)
  unfolding cq_event_handler poll_loop
  split_loop [] ys last a b cb w calm = rw calm (any_flag ys last a false cb w)
  split_loop (c ∷ xs) ys last a b cb w calm =
      let r = on_completion order v invoke (land cb c) c.wc c.wc.status w in
      and_then_assoc r (go_on (xs ++ ys) last a) drop_result
      ∙ same_after r (λ o w1. channel_after (go_on (xs ++ ys) last a o w1))
          (λ o w1. and_then (go_on xs (pos 0) b o w1) (and_again ys last))
          (on_completion-Calm order v invoke (land cb c) c.wc c.wc.status w (land-Calm cb c calm))
          (λ (cb1, next) w1 calm1.
            split_next xs ys last a b cb1 w1 (λ a' b'. split_loop xs ys last a' b' cb1 w1 calm1)
              next)
      ∙ sym (and_then_assoc r (go_on xs (pos 0) b) (and_again ys last))

  -- On a channel that is not in state ERROR, with any handler and whatever the calls into the
  -- kernel answer, completions polled by one run of cq_event_handler leave the same channel and the
  -- same world, or the same fault, as when any first part of them is polled by one run and the rest
  -- by a second, which is left out if the first has set the state ERROR.
  pub cq_event_handler-append :
      (xs ys : List Completion) (last : ℤ) (cb : RdmaChCb) (w : World)
      → is_state cb.state error ≡ false
      → channel_after (cq_event_handler order v invoke cb (xs ++ ys) last w)
        ≡ and_then (cq_event_handler order v invoke cb xs (pos 0) w) (and_again ys last)
  unfolding cq_event_handler
  cq_event_handler-append xs ys last cb w calm = split_loop xs ys last false false cb w calm
