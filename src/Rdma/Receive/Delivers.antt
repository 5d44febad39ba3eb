-- ===== src/Rdma/Receive/Delivers.antt =====
-- What receive_msg hands to the handler, and what it leaves alive.
use rpc_kern.Base.{
  ℕ, ◌+◌, ◌-◌, ◌%◌, ◌^◌, ◌<◌, ◌≤◌, ◌≡◌, refl, ◌⊎◌, inl, inr, Bool, ◌&&◌, true, false, none, some,
  get_elem?, ◌==◌, leb, if◌then◌else◌, arith, length, take, replicate, drop-replicate,
  length-replicate, append-nil, ℤ, pos, ==_false, Bool-cases,
}
use rpc_kern.Message.{RdmaMsg, ByteOrder, decode_header, memcpy-some, msgheader_size}
use rpc_kern.Kernel
use rpc_kern.Kernel.{
  World, Run, Verbs, M, ok, fault, and_then, pure, null, alive, kzalloc, kfree, create, destroy,
  put, tick,
}
use rpc_kern.Kernel.Owned.{alive-ok, kfree-ok}
use rpc_kern.Kernel.Returns.{Returns, returns}
use rpc_kern.Rdma.{MsgbufCtx, RdmaChCb, value, connected, working}
use rpc_kern.Rdma.Receive.{
  Wc, RpcMsgHandlerParam, Invoke, enomem, handler_param, dispatch_msg, receive_msg,
}

-- A channel whose sizes fit together, and a completed receive into one of its live buffers.
pub record CanReceive (cb : RdmaChCb) (w : World) (wc : Wc) (mb : MsgbufCtx) : Type 0 where
  pub sizes : cb.msgbuf_size ≡ cb.msgdata_size + msgheader_size
  pub small : cb.msgbuf_size < 2 ^ 31
  pub full : wc.byte_len ≡ cb.msgbuf_size
  pub context : get_elem? cb.buf_ctxs wc.wr_id ≡ some mb
  pub buffer : w.live mb.recv_buf ≡ some Kernel.memory
  pub room : length mb.recv_msg.bytes ≡ cb.msgdata_size

-- The parameter that the handler gets, with its three objects at the given addresses.
abbrev pub delivered : ByteOrder → RdmaChCb → Wc → RdmaMsg → (a b c : ℕ) → RpcMsgHandlerParam
delivered order cb wc m a b c = record {
  self = a;
  msgbuf_id = wc.wr_id;
  client_rpc_ch = (decode_header order m).client_rpc_ch;
  param = record {
    self = b;
    client_id = 0;
    msgbuf_id = wc.wr_id;
    ch_cb = cb.self;
    msg_addr = c;
    msg = record { header = decode_header order m; bytes = take cb.msgdata_size m.bytes };
  };
  user_msg_handler_cb = cb.user_msg_handler_cb;
}

pub handler_param-delivered :
    (order : ByteOrder) (cb : RdmaChCb) (wc : Wc) (m : RdmaMsg) (a b c : ℕ)
    → cb.msgbuf_size ≡ cb.msgdata_size + msgheader_size
    → length m.bytes ≡ cb.msgdata_size
    → handler_param order cb wc.wr_id m a b c ≡ some (delivered order cb wc m a b c)
unfolding handler_param
handler_param-delivered order cb wc m a b c sizes room =
    let n = cb.msgdata_size in
    let same : cb.msgbuf_size - msgheader_size ≡ n = omega arith in
    rw (
      handler_param,
      same,
      memcpy-some (replicate n 0) m.bytes n (omega (arith, length-replicate {0} {A = ℕ} n 0))
          (omega arith),
      drop-replicate {0} {A = ℕ} n 0,
      append-nil,
    )

module _ (order : ByteOrder) (v : Verbs) (invoke : Invoke) (cb : RdmaChCb) (wc : Wc)
    (mb : MsgbufCtx) (w : World) (ready : CanReceive cb w wc mb)
    (unused : (a : ℕ) → w.next ≤ a → w.live a ≡ none) (not_null : 0 < w.next) where
  right_size : (wc.byte_len == cb.msgbuf_size % 2 ^ 32) ≡ true
  right_size = ground (arith, ready.full, ready.small)

  -- After the three allocations have succeeded.
  abbrev pub allocated : World
  allocated = record w {
    next = w.next + 1 + 1 + 1;
    clock = w.clock + 1 + 1 + 1;
    live =
        put (put (put w.live w.next (some Kernel.memory)) (w.next + 1) (some Kernel.memory))
          (w.next + 1 + 1) (some Kernel.memory);
  }

  buffer_allocated : allocated.live mb.recv_buf ≡ some Kernel.memory
  buffer_allocated = ground (arith, ready.buffer, unused mb.recv_buf)

  next_not_null : (w.next == null) ≡ false
  next_not_null = ground arith

  abbrev pub after : RdmaChCb
  after = if leb (value cb.state) (value connected) then record cb { state = working } else cb

  pub receive_msg-run :
      v.kzalloc_ok w.clock ≡ true
      → v.kzalloc_ok (w.clock + 1) ≡ true
      → v.kzalloc_ok (w.clock + 1 + 1) ≡ true
      → receive_msg order v invoke cb wc w
        ≡ and_then
            (invoke cb.rpc_msg_handler_cb
              (delivered order cb wc mb.recv_msg w.next (w.next + 1) (w.next + 1 + 1))
              allocated)
            (λ _. pure (after, pos 0))
  unfolding receive_msg dispatch_msg kzalloc create
  receive_msg-run a b c = rw (
    right_size,
    a,
    next_not_null,
    b,
    (==_false (w.next + 1) 0 (omega arith)),
    c,
    (==_false (w.next + 1 + 1) 0 (omega arith)),
    ready.context,
    alive-ok _ _ allocated buffer_allocated,
    handler_param-delivered order cb wc mb.recv_msg _ _ _ ready.sizes ready.room,
  )

  -- The result of a receive for which an allocation failed: -ENOMEM, with the control block as it
  -- was, everything freed that was allocated, and no handler called.
  abbrev pub Unwound : RdmaChCb × ℤ → World → Type 0
  Unwound out w' =
      (out ≡ (cb, enomem))
      × ((a : ℕ) → w'.live a ≡ w.live a)
      × (w'.posted ≡ w.posted)
      × (w'.sent ≡ w.sent)
      × (w'.bitmaps ≡ w.bitmaps)
      × (w'.woken ≡ w.woken)

  abbrev one : World
  one = record w {
    next = w.next + 1;
    clock = w.clock + 1;
    live = put w.live w.next (some Kernel.memory);
  }

  abbrev two : World
  two = record w {
    next = w.next + 1 + 1;
    clock = w.clock + 1 + 1;
    live = put (put w.live w.next (some Kernel.memory)) (w.next + 1) (some Kernel.memory);
  }

  second_not_null : (w.next + 1 == null) ≡ false
  second_not_null = ground arith

  first_fails : v.kzalloc_ok w.clock ≡ false → Returns Unwound (receive_msg order v invoke cb wc w)
  unfolding receive_msg kzalloc
  first_fails a = rw (right_size, a) (returns (refl, λ a. refl, refl, refl, refl, refl))

  second_fails :
      v.kzalloc_ok w.clock ≡ true
      → v.kzalloc_ok (w.clock + 1) ≡ false
      → Returns Unwound (receive_msg order v invoke cb wc w)
  unfolding receive_msg kzalloc create
  second_fails a b =
      let freed = kfree-ok w.next (tick one) next_not_null (ground arith) in
      rw (right_size, a, next_not_null, b, freed)
        (returns (refl, λ a. ground (arith, unused a), refl, refl, refl, refl))

  third_fails :
      v.kzalloc_ok w.clock ≡ true
      → v.kzalloc_ok (w.clock + 1) ≡ true
      → v.kzalloc_ok (w.clock + 1 + 1) ≡ false
      → Returns Unwound (receive_msg order v invoke cb wc w)
  unfolding receive_msg kzalloc create
  third_fails a b c =
      let freed = kfree-ok (w.next + 1) (tick two) second_not_null (ground arith) in
      let both =
        kfree-ok w.next (record (tick two) { live = put two.live (w.next + 1) none }) next_not_null
          (ground arith) in
      rw (right_size, a, next_not_null, b, second_not_null, c, freed, both)
        (returns (refl, λ a. ground (arith, unused a, unused (w.next + 1)), refl, refl, refl, refl))

  -- Whether the three allocations succeed.
  abbrev pub all_allocated : Bool
  all_allocated =
      v.kzalloc_ok w.clock && (v.kzalloc_ok (w.clock + 1) && v.kzalloc_ok (w.clock + 1 + 1))

  -- receive_msg on a full-size receive into a live buffer: if one of the three allocations fails, it
  -- returns -ENOMEM with the block unchanged, what was alive before and no handler called; if none
  -- does, it calls the channel's handler once, with three new objects, the decoded header and the
  -- data of the message, and returns 0 with a state up to CONNECTED changed to WORKING.
  pub receive_msg-delivers :
      ((all_allocated ≡ false) × Returns Unwound (receive_msg order v invoke cb wc w))
      ⊎ ((all_allocated ≡ true)
          × (receive_msg order v invoke cb wc w
              ≡ and_then
                  (invoke cb.rpc_msg_handler_cb
                    (delivered order cb wc mb.recv_msg w.next (w.next + 1) (w.next + 1 + 1))
                    allocated)
                  (λ _. pure (after, pos 0))))
  receive_msg-delivers = elim (Bool-cases (v.kzalloc_ok w.clock)) [
    | inr a ↦ inl (ground (arith, a), first_fails a)
    | inl a ↦ elim (Bool-cases (v.kzalloc_ok (w.clock + 1))) [
      | inr b ↦ inl (ground (arith, a, b), second_fails a b)
      | inl b ↦ elim (Bool-cases (v.kzalloc_ok (w.clock + 1 + 1))) [
        | inr c ↦ inl (ground (arith, a, b, c), third_fails a b c)
        | inl c ↦ inr (ground (arith, a, b, c), receive_msg-run a b c)
      ]
    ]
  ]
