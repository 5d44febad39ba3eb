-- ===== src/RpcClient/Life.antt =====
-- The life of a channel of the RPC layer, from init_rpc_client to destroy_rpc_client.
use rpc_kern.Base.{
  ℕ, ◌+◌, ◌<◌, ◌≤◌, ◌≡◌, refl, ◌∙◌, ap, true, false, Option, none, some, List, ◌==◌, if◌then◌else◌,
  arith, replicate, ==_false, ==_refl,
}
use rpc_kern.Kernel.Returns.{weaken, Returns, returns, chain}
use rpc_kern.Rdma.Channel.Life.{Opened, destroy-Opened}
use rpc_kern.RpcClient.{
  strcpy, array, ip_addr_size, rpc_msg_buf_num, rpc_ch_rdma, invalid, RpcChInfo, with_bitmap,
  init_rpc_client, destroy_channel, destroy_rpc_client,
}
use rpc_kern.Bitmap.{bit_arr_size}
use rpc_kern.Message.{ByteOrder}
use rpc_kern.Kernel
use rpc_kern.Kernel.{World, Wakeup, Run, Verbs, M, ok, and_then, pure, alive, put, tick}
use rpc_kern.Kernel.Owned.{alive-ok, kfree-ok}
use rpc_kern.Kernel.Succeed.{AllSucceed, with_new, kzalloc-new, kzalloc-made}
use rpc_kern.Rdma.{RdmaChCb}
use rpc_kern.Rdma.Channel.{RdmaChAttr}
use rpc_kern.Rdma.Channel.Running.{comes_up}
use rpc_kern.Rdma.Channel.Start.{Inited, init_rdma_ch-Inited}
use rpc_kern.RpcClient.Requests.{IsOpen}

-- After both allocations.
abbrev pub allocated : World → World
allocated w =
    with_bitmap (with_new Kernel.memory (with_new Kernel.memory w)) w.next
      (replicate bit_arr_size 0)

-- The channel of the RPC layer on an open channel.
abbrev pub channel_on : World → RdmaChCb → RpcChInfo
channel_on w cb = record {
  self = w.next;
  ch_type = rpc_ch_rdma;
  ch_cb = some cb;
  msgbuf_bitmap = w.next + 1;
}

module _ (w : World) (not_null : 0 < w.next) (unused : (a : ℕ) → w.next ≤ a → w.live a ≡ none) where
  pub allocated_unused : (a : ℕ) → w.next + 1 + 1 ≤ a → (allocated w).live a ≡ none
  allocated_unused a h = ground (arith, unused a)

  pub channel-IsOpen :
      (attr : RdmaChAttr) (rest : List Wakeup) (out : Option RdmaChCb) (w1 : World)
      (i : Inited attr rest (allocated w) out w1)
      → IsOpen (channel_on w i.cb) (replicate bit_arr_size 0) w1
  channel-IsOpen attr rest out w1 i = record {
    alive = i.opened.live w.next ∙ ground arith;
    known = ap (λ (f : ℕ → Option (List ℕ)). f w.next) i.bitmaps ∙ rw (==_refl w.next);
  }

  -- Destroying a channel of the RPC layer, on an open channel.
  pub destroy-channel :
      (n : ℕ) (cb : RdmaChCb) (w1 : World)
      → Opened n (allocated w) cb w1
      → Returns (λ _ w2. (a : ℕ) → w2.live a ≡ w.live a) (destroy_rpc_client (channel_on w cb) w1)
  unfolding destroy_rpc_client destroy_channel
  destroy-channel n cb w1 o = rw (alive-ok Kernel.memory w.next w1 (o.live w.next ∙ ground arith)) (
      chain (destroy-Opened n (allocated w) cb w1 o (omega arith) allocated_unused) λ _ w2 l.
        let w3 = record w2 { live = put w2.live (w.next + 1) none } in
        let l2 : w2.live (w.next + 1) ≡ some Kernel.memory = l (w.next + 1) ∙ ground arith in
        let l3 : w3.live w.next ≡ some Kernel.memory = ground (arith, l w.next) in
        rw (kfree-ok _ w2 (==_false _ 0 (omega arith)) l2, kfree-ok _ w3 (==_false _ 0 not_null) l3)
          (returns (λ a. ground (arith, l a, unused a))))

module _ (order : ByteOrder) (v : Verbs) (handler : ℕ) (before : ℕ → ℕ) (target : List ℕ)
    (port size msg_handler : ℕ) (w : World) (not_null : 0 < w.next)
    (unused : (a : ℕ) → w.next ≤ a → w.live a ≡ none) where
  abbrev pub client_attr : List ℕ → RdmaChAttr
  client_attr ip_addr = record {
    port = port;
    server = false;
    ip_addr = ip_addr;
    msgbuf_cnt = rpc_msg_buf_num;
    msgdata_size = size;
    rpc_msg_handler_cb = handler;
    user_msg_handler_cb = msg_handler;
  }

  -- The channel that init_rpc_client returns, on the channel that init_rdma_ch returns.
  pub init_rpc_client-Inited :
      (ip_addr : List ℕ) (rest : List Wakeup)
      → strcpy (array ip_addr_size before) target ≡ some ip_addr
      → AllSucceed v
      → w.script ≡ comes_up rest
      → Returns
          (λ out w1.
            (made : Option RdmaChCb) × (i : Inited (client_attr ip_addr) rest (allocated w) made w1)
            × (out ≡ some (channel_on w i.cb)))
          (init_rpc_client order v handler before rpc_ch_rdma target port size msg_handler w)
  unfolding init_rpc_client
  init_rpc_client-Inited ip_addr rest fits all script =
      rw
        (
          kzalloc-new v all w,
          alive-ok Kernel.memory w.next (with_new Kernel.memory w) (ground arith),
          kzalloc-new v all (with_new Kernel.memory w),
          ==_false (w.next + 1) 0 (omega arith),
          fits,
        )
        (chain
          (init_rdma_ch-Inited order v all (client_attr ip_addr) rest (allocated w) refl
            (omega arith) (allocated_unused w not_null unused) script)
          λ out w1 i. rw i.returned (returns {a = some (channel_on w i.cb)} (out, i, refl)))

  -- Where every call into the kernel succeeds, the connection comes up, addresses not yet given out
  -- are not alive, and the copy of the target fits into its array, init_rpc_client for RDMA returns
  -- a channel that is alive and whose bitmap is four clear bytes, and destroy_rpc_client on it
  -- returns and leaves alive exactly what was alive before.
  pub init_rpc_client-destroy_rpc_client :
      (ip_addr : List ℕ) (rest : List Wakeup)
      → strcpy (array ip_addr_size before) target ≡ some ip_addr
      → AllSucceed v
      → w.script ≡ comes_up rest
      → Returns
          (λ out w1.
            (ch : RpcChInfo) × (out ≡ some ch)
            × IsOpen ch (replicate bit_arr_size 0) w1
            × Returns (λ _ w2. (a : ℕ) → w2.live a ≡ w.live a) (destroy_rpc_client ch w1))
          (init_rpc_client order v handler before rpc_ch_rdma target port size msg_handler w)
  init_rpc_client-destroy_rpc_client ip_addr rest fits all script =
      weaken (init_rpc_client-Inited ip_addr rest fits all script) λ out w1 (made, i, e). (
        channel_on w i.cb,
        e,
        channel-IsOpen w not_null unused (client_attr ip_addr) rest made w1 i,
        destroy-channel w not_null unused rpc_msg_buf_num i.cb w1 i.opened,
      )

  -- For a channel type that is not RDMA, where its two allocations succeed, init_rpc_client returns
  -- NULL, and of its two objects the bitmap is still alive; all else is as before.
  pub init_rpc_client_leaks_bitmap :
      (n : ℕ)
      → v.kzalloc_ok w.clock ≡ true
      → v.kzalloc_ok (w.clock + 1) ≡ true
      → Returns
          (λ out w'.
            (out ≡ none)
            × ((a : ℕ) → w'.live a ≡ (if w.next + 1 == a then some Kernel.memory else w.live a)))
          (init_rpc_client order v handler before (invalid n) target port size msg_handler w)
  unfolding init_rpc_client
  init_rpc_client_leaks_bitmap n a b =
      rw
        (
          kzalloc-made v w a,
          alive-ok Kernel.memory w.next (with_new Kernel.memory w) (ground arith),
          kzalloc-made v (with_new Kernel.memory w) b,
          ==_false (w.next + 1) 0 (omega arith),
          kfree-ok w.next (allocated w) (==_false w.next 0 not_null) (ground arith),
        )
        (returns (refl, λ x. ground (arith, unused x)))
