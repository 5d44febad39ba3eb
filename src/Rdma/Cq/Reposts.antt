-- ===== src/Rdma/Cq/Reposts.antt =====
-- What the completion handler does with each kind of completion.
use rpc_kern.Base.{
  ℕ, ◌+◌, ◌≡◌, ◌≢◌, refl, ◌∙◌, sym, ap, ◌⊎◌, inl, inr, Bool, true, false, not, ◌&&◌, some, List, [],
  ◌∷◌, ◌++◌, if◌then◌else◌, arith, ℤ, negsuc, is_zero, get_elem?, Bool-cases,
}
use rpc_kern.Message.{ByteOrder}
use rpc_kern.Kernel
use rpc_kern.Kernel.{World, Run, Verbs, M, ok, fault, asleep, and_then, pure, alive, post_recv}
use rpc_kern.Kernel.Owned.{alive-ok}
use rpc_kern.Kernel.Returns.{Returns, returns, weaken}
use rpc_kern.Rdma.{MsgbufCtx, RdmaChCb, wake_up_cb, error}
use rpc_kern.Rdma.Receive.{
  WcStatus, success, flush_err, failure, WcOpcode, send, rdma_write, rdma_read, recv, unknown, Wc,
  Invoke, receive_msg,
}
use rpc_kern.Rdma.Cq.{
  Completion, land, Next, flushed, continue, goto_error, on_recv, on_completion, poll_loop,
  cq_event_handler, as_int,
}

-- What a completion that is no message does to the loop.
pub data Verdict : Type 0 where
  passes flushes breaks message : Verdict

abbrev pub verdict : WcStatus → WcOpcode → Verdict
verdict failure op = breaks
verdict flush_err op = flushes
verdict success send = passes
verdict success rdma_write = passes
verdict success rdma_read = passes
verdict success unknown = breaks
verdict success recv = message

abbrev pub verdict_of : Completion → Verdict
verdict_of c = verdict c.wc.status c.wc.opcode

abbrev pub next_of : Verdict → Next
next_of breaks = goto_error (negsuc 0)
next_of flushes = flushed
next_of passes = continue
next_of message = continue

Verdict-cases : (x : Verdict) → (x ≡ passes) ⊎ ((x ≡ flushes) ⊎ ((x ≡ breaks) ⊎ (x ≡ message)))
Verdict-cases passes = inl refl
Verdict-cases flushes = inr (inl refl)
Verdict-cases breaks = inr (inr (inl refl))
Verdict-cases message = inr (inr (inr refl))

-- The result of polling completions of which none is a message: -1 at the first that breaks the
-- loop; else the code of the last poll, if that is an error; else whether one was flushed.
abbrev pub outcome : List Completion → ℤ → Bool → ℤ
outcome [] last was_flushed = if is_zero last then as_int was_flushed else last
outcome (c ∷ cs) last was_flushed = elim (verdict_of c) [
  | breaks ↦ negsuc 0
  | flushes ↦ outcome cs last true
  | passes ↦ outcome cs last was_flushed
  | message ↦ outcome cs last was_flushed
]

-- Whether that comes from the label `error`.
abbrev pub is_error : List Completion → ℤ → Bool
is_error [] last = not (is_zero last)
is_error (c ∷ cs) last = elim (verdict_of c) [
  | breaks ↦ true
  | flushes ↦ is_error cs last
  | passes ↦ is_error cs last
  | message ↦ is_error cs last
]

abbrev pub NoMessage : List Completion → Type 0
NoMessage [] = Unit {0}
NoMessage (c ∷ cs) = (verdict_of c ≢ message) × NoMessage cs

-- The adapter's write changes no field but the contexts.
land-state :
    (cb : RdmaChCb) (c : Completion) → ((land cb c).state ≡ cb.state) × ((land cb c).sem ≡ cb.sem)
unfolding land
land-state cb c = ground arith

abbrev pub Polled : List Completion → ℤ → Bool → RdmaChCb → World → RdmaChCb × ℤ → World → Type 0
Polled cs last was_flushed cb w out w' =
    (out.1 ≡ outcome cs last was_flushed)
    × (out.0.state ≡ (if is_error cs last then error else cb.state))
    × (out.0.sem ≡ (if is_error cs last then cb.sem + 1 else cb.sem))
    × (w' ≡ w)

-- A completion that does not end the loop adds nothing but what it says of the flag.
Polled-step :
    (cb : RdmaChCb) (c : Completion) (cs : List Completion) (last : ℤ) (was_flushed now : Bool)
    (w : World)
    → outcome (c ∷ cs) last was_flushed ≡ outcome cs last now
    → is_error (c ∷ cs) last ≡ is_error cs last
    → (out : RdmaChCb × ℤ) (w' : World) → Polled cs last now (land cb c) w out w'
    → Polled (c ∷ cs) last was_flushed cb w out w'
Polled-step cb c cs last was_flushed now w oe ie out w' (r, s, t, u) =
    let (same_state, same_sem) = land-state cb c in
    (r ∙ sym oe, rw (ie, ← same_state) s, rw (ie, ← same_sem) t, u)

module _ (order : ByteOrder) (v : Verbs) (invoke : Invoke) where
  on_completion-verdict :
      (cb : RdmaChCb) (wc : Wc) (status : WcStatus) (op : WcOpcode) (w : World)
      → wc.opcode ≡ op
      → verdict status op ≢ message
      → on_completion order v invoke cb wc status w ≡ ok (cb, next_of (verdict status op)) w
  unfolding on_completion
  on_completion-verdict cb wc failure op w e n = refl
  on_completion-verdict cb wc flush_err op w e n = refl
  on_completion-verdict cb wc success send w e n = rw e
  on_completion-verdict cb wc success rdma_write w e n = rw e
  on_completion-verdict cb wc success rdma_read w e n = rw e
  on_completion-verdict cb wc success unknown w e n = rw e
  on_completion-verdict cb wc success recv w e n = absurd (n refl)

  poll_loop-Polled :
      (cs : List Completion) (last : ℤ) (was_flushed : Bool) (cb : RdmaChCb) (w : World)
      → NoMessage cs
      → Returns
          (Polled cs last was_flushed cb w)
          (poll_loop order v invoke cb cs last was_flushed w)
  unfolding poll_loop
  poll_loop-Polled [] last was_flushed cb w quiet = elim (Bool-cases (is_zero last)) [
    | inl e ↦ rw e (returns {a = (cb, as_int was_flushed)} (rw e, rw e, rw e, refl))
    | inr e ↦
        rw e
          (returns {a = (wake_up_cb (record cb { state = error }), last)} (rw e, rw e, rw e, refl))
  ]
  poll_loop-Polled (c ∷ cs) last was_flushed cb w (n, ns) =
      rw (on_completion-verdict (land cb c) c.wc c.wc.status c.wc.opcode w refl n)
        (elim (Verdict-cases (verdict_of c)) [
          | inl e ↦ rw e (
              weaken (poll_loop-Polled cs last was_flushed (land cb c) w ns) (
                Polled-step cb c cs last was_flushed was_flushed w (rw (e, outcome))
                  (rw (e, is_error))))
          | inr (inl e) ↦ rw e (
              weaken (poll_loop-Polled cs last true (land cb c) w ns)
                (Polled-step cb c cs last was_flushed true w (rw (e, outcome)) (rw (e, is_error))))
          | inr (inr (inl e)) ↦
              let ie : is_error (c ∷ cs) last ≡ true = rw (e, is_error) in
              rw e (
                returns {a = (wake_up_cb (record (land cb c) { state = error }), negsuc 0)}
                  (rw (e, outcome), rw ie, rw ie (ap (λ (k : ℕ). k + 1) (land-state cb c).1), refl))
          | inr (inr (inr e)) ↦ absurd (n e)
        ])

  -- cq_event_handler on completions of which none is a message returns, with the world unchanged:
  -- -1 if one failed for another reason than a flush or had an unknown opcode, else the code of the
  -- last poll if that is an error, else 1 if one was flushed and 0 if none was. It sets the state
  -- ERROR and wakes the sleeper, once, in the first two cases, and in the others it changes
  -- neither.
  pub cq_event_handler-Polled :
      (cs : List Completion) (last : ℤ) (cb : RdmaChCb) (w : World)
      → NoMessage cs
      → Returns (Polled cs last false cb w) (cq_event_handler order v invoke cb cs last w)
  unfolding cq_event_handler
  cq_event_handler-Polled cs last cb w quiet = poll_loop-Polled cs last false cb w quiet

  -- If receive_msg returns, its index has a context and the queue pair is alive, then after code 0
  -- the buffer is posted for receiving again, once, and the loop goes on; if the adapter refuses
  -- that, or the code was another, nothing is posted and the loop goes to `error` with that code.
  pub on_recv-reposts :
      (cb cb' : RdmaChCb) (wc : Wc) (mb : MsgbufCtx) (ret : ℤ) (w w' : World)
      → receive_msg order v invoke cb wc w ≡ ok (cb', ret) w'
      → get_elem? cb'.buf_ctxs wc.wr_id ≡ some mb
      → w'.live cb'.qp ≡ some Kernel.qp
      → Returns
          (λ out w''.
            (out.0 ≡ cb')
            × (out.1 ≡ (
                if is_zero ret && is_zero (v.post_recv w'.clock)
                then continue
                else goto_error (if is_zero ret then v.post_recv w'.clock else ret)))
            × (w''.posted ≡ (
                if is_zero ret && is_zero (v.post_recv w'.clock)
                then w'.posted ++ mb.rq_wr.wr_id ∷ []
                else w'.posted)))
          (on_recv order v invoke cb wc w)
  unfolding on_recv post_recv
  on_recv-reposts cb cb' wc mb ret w w' got ctx queue = rw got (elim (Bool-cases (is_zero ret)) [
    | inr e ↦ rw e (returns (refl, refl, refl))
    | inl e ↦
        rw (e, ctx, alive-ok _ _ w' queue)
          (elim (Bool-cases (is_zero (v.post_recv w'.clock))) [
            | inl f ↦ rw f (returns (refl, refl, refl))
            | inr f ↦ rw f (returns (refl, refl, refl))
          ])
  ])
