-- ===== src/RpcClient/Handler.antt =====
-- A response on its way through the three layers: receive_msg, the handler of the RPC layer and the
-- user's handler of the test client.
use rpc_kern.Base.{
  ℕ, ◌+◌, ◌<◌, ◌≤◌, ◌≡◌, refl, ◌∙◌, true, false, none, some, List, [], ◌∷◌, ◌++◌, ◌==◌, leb,
  if◌then◌else◌, arith, ℤ, pos, ==_false, ==_refl, get_or,
}
use rpc_kern.Bitmap.{IsBitmap}
use rpc_kern.Msgbuf.Take.{clear_bit-get_or}
use rpc_kern.Msgbuf.{free_msgbuf_id}
use rpc_kern.Message.{ByteOrder, decode_header}
use rpc_kern.Kernel
use rpc_kern.Kernel.{World, Run, Verbs, M, ok, and_then, pure, alive, kfree, put, wake_up}
use rpc_kern.Kernel.Owned.{alive-ok, kfree-ok}
use rpc_kern.Kernel.Returns.{Returns, returns, weaken}
use rpc_kern.Rdma.{MsgbufCtx, RdmaChCb, value, connected, working}
use rpc_kern.Rdma.Receive.{Wc, RpcMsgHandlerParam, Invoke, receive_msg}
use rpc_kern.Rdma.Receive.Delivers.{CanReceive, allocated, delivered, receive_msg-run}
use rpc_kern.RpcClient.{client_rpc_rdma_msg_handler, free_at}
use rpc_kern.TestClient.{client_rdma_msg_handler}

-- The handlers of the test client, at whatever addresses.
abbrev pub test_handlers : Invoke
test_handlers handler p =
    client_rpc_rdma_msg_handler (λ user param. client_rdma_msg_handler param) p

-- Three live objects at distinct addresses, as the receiver allocates them.
module _ (p : RpcMsgHandlerParam) (w : World) (bitmap : List ℕ)
    (self : w.live p.self ≡ some Kernel.memory) (param : w.live p.param.self ≡ some Kernel.memory)
    (msg : w.live p.param.msg_addr ≡ some Kernel.memory) (not_null : 0 < p.self)
    (first : p.self < p.param.self) (second : p.param.self < p.param.msg_addr)
    (channel : w.live p.client_rpc_ch ≡ some Kernel.memory)
    (known : w.bitmaps p.client_rpc_ch ≡ some bitmap) where
  abbrev freed : World
  freed = record w {
    bitmaps =
        λ a. if p.client_rpc_ch == a then some (free_msgbuf_id bitmap p.msgbuf_id) else w.bitmaps a;
    woken = w.woken ++ p.param.msg.header.sem ∷ [];
    live = put (put (put w.live p.param.msg_addr none) p.param.self none) p.self none;
  }

  abbrev w1 : World
  w1 = record w {
    bitmaps =
        λ a. if p.client_rpc_ch == a then some (free_msgbuf_id bitmap p.msgbuf_id) else w.bitmaps a;
    woken = w.woken ++ p.param.msg.header.sem ∷ [];
  }

  test_handlers-run : (h : ℕ) → test_handlers h p w ≡ ok tt freed
  unfolding client_rpc_rdma_msg_handler client_rdma_msg_handler free_at wake_up
  test_handlers-run h =
      let k1 = kfree-ok p.param.msg_addr w1 (==_false _ 0 (omega arith)) msg in
      let k2 =
        kfree-ok p.param.self (record w1 { live = put w.live p.param.msg_addr none })
          (==_false _ 0 (omega arith)) (ground arith) in
      let k3 =
        kfree-ok p.self
          (record w1 { live = put (put w.live p.param.msg_addr none) p.param.self none })
          (==_false _ 0 (omega arith)) (ground arith) in
      rw (alive-ok _ _ w self, alive-ok _ _ w channel, known, k1, k2, k3)

module _ (order : ByteOrder) (v : Verbs) (cb : RdmaChCb) (wc : Wc) (mb : MsgbufCtx) (w : World)
    (bitmap : List ℕ) (ready : CanReceive cb w wc mb)
    (unused : (a : ℕ) → w.next ≤ a → w.live a ≡ none) (not_null : 0 < w.next)
    (channel : w.live (decode_header order mb.recv_msg).client_rpc_ch ≡ some Kernel.memory)
    (known : w.bitmaps (decode_header order mb.recv_msg).client_rpc_ch ≡ some bitmap) where
  abbrev ch : ℕ
  ch = (decode_header order mb.recv_msg).client_rpc_ch

  abbrev three : World
  three = allocated order v test_handlers cb wc mb w ready unused not_null

  channel_allocated : three.live ch ≡ some Kernel.memory
  channel_allocated = ground (arith, channel, unused ch)

  -- The result and the world after a response.
  pub record Answered (out : RdmaChCb × ℤ) (w' : World) : Type 0 where
    pub code : out.1 ≡ pos 0
    pub state :
        out.0
        ≡ (if leb (value cb.state) (value connected) then record cb { state = working } else cb)
    pub live : (a : ℕ) → w'.live a ≡ w.live a
    pub cleared : w'.bitmaps ch ≡ some (free_msgbuf_id bitmap wc.wr_id)
    pub others : (a : ℕ) → (ch == a) ≡ false → w'.bitmaps a ≡ w.bitmaps a
    pub woken : w'.woken ≡ w.woken ++ (decode_header order mb.recv_msg).sem ∷ []
    pub posted : w'.posted ≡ w.posted
    pub sent : w'.sent ≡ w.sent
    pub next : w'.next ≡ w.next + 1 + 1 + 1

  -- A full-size response to the test client, received into a live buffer, whose three allocations
  -- succeed and which names a live channel: receive_msg, through both handlers, returns 0 and moves
  -- the channel from a state up to CONNECTED to WORKING; what is alive is what was alive before; the
  -- bit of the receive buffer's index is cleared in the bitmap of the named channel and no other
  -- bitmap changes; and the requester that the message names is woken, once.
  pub receive_msg-Answered :
      v.kzalloc_ok w.clock ≡ true
      → v.kzalloc_ok (w.clock + 1) ≡ true
      → v.kzalloc_ok (w.clock + 1 + 1) ≡ true
      → Returns Answered (receive_msg order v test_handlers cb wc w)
  receive_msg-Answered a b c =
      rw
        (
          receive_msg-run order v test_handlers cb wc mb w ready unused not_null a b c,
          test_handlers-run (delivered order cb wc mb.recv_msg w.next (w.next + 1) (w.next + 1 + 1))
              three bitmap (ground arith) (ground arith) (ground arith) not_null (omega arith)
              (omega arith) channel_allocated known cb.rpc_msg_handler_cb,
        )
        (returns (record {
          code = refl;
          state = refl;
          live = λ a. ground (arith, unused a, unused (w.next + 1), unused (w.next + 1 + 1));
          cleared = ground (arith, ==_refl ch);
          others = λ a ne. ground arith;
          woken = refl;
          posted = refl;
          sent = refl;
          next = refl;
        }))

  -- When a full-size response to the test client is received into a live buffer, its three
  -- allocations succeed, and it names a live channel with a well-formed bitmap, then the one id that
  -- it frees is the index of the receive buffer that it arrived in: every other id, that of the
  -- request that it answers among them, is as taken afterwards as before.
  pub response_frees_receive_index :
      (valid : IsBitmap bitmap)
      → v.kzalloc_ok w.clock ≡ true
      → v.kzalloc_ok (w.clock + 1) ≡ true
      → v.kzalloc_ok (w.clock + 1 + 1) ≡ true
      → Returns
          (λ out w'.
            (bitmap' : List ℕ) × (w'.bitmaps ch ≡ some bitmap')
            × (get_or bitmap' wc.wr_id 0 ≡ 0)
            × ((id : ℕ) → (wc.wr_id == id) ≡ false → get_or bitmap' id 0 ≡ get_or bitmap id 0))
          (receive_msg order v test_handlers cb wc w)
  unfolding free_msgbuf_id
  response_frees_receive_index valid a b c = weaken (receive_msg-Answered a b c) λ out w' answered.
      (
        free_msgbuf_id bitmap wc.wr_id,
        answered.cleared,
        clear_bit-get_or bitmap valid wc.wr_id wc.wr_id ∙ rw (==_refl wc.wr_id),
        λ id ne. clear_bit-get_or bitmap valid wc.wr_id id ∙ rw ne,
      )
