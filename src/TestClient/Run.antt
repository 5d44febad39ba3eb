-- ===== src/TestClient/Run.antt =====
-- What a run of test_main does.
use rpc_kern.Base.{ℕ, ◌<◌, ◌≤◌, ◌≡◌, refl, Option, none, some, List, [], ◌∷◌, arith, length}
use rpc_kern.Message.{ByteOrder}
use rpc_kern.Kernel
use rpc_kern.Kernel.{World, Wakeup, Verbs, Run, ok, fault, and_then, alive}
use rpc_kern.Kernel.Owned.{alive-ok}
use rpc_kern.Kernel.Returns.{chain-fault}
use rpc_kern.Kernel.Succeed.{AllSucceed, with_new, kzalloc-new}
use rpc_kern.Rdma.{RdmaChCb}
use rpc_kern.Rdma.Send.Posts.{send_rdma_msg-short, CanSend}
use rpc_kern.Rdma.Channel.{RdmaChAttr}
use rpc_kern.Rdma.Channel.Ready.{Opened-CanSend}
use rpc_kern.Rdma.Channel.Running.{comes_up}
use rpc_kern.Rdma.Channel.Start.{Inited}
use rpc_kern.RpcClient.{
  strcpy, array, ip_addr_size, rpc_msg_buf_num, send_rpc_msg_to_server, with_bitmap,
}
use rpc_kern.RpcClient.Life.{allocated, channel_on, channel-IsOpen, init_rpc_client-Inited}
use rpc_kern.RpcClient.Target.{init_rpc_client-over}
use rpc_kern.RpcClient.FirstRequest.{first_id, first_taken}
use rpc_kern.TestClient.{g_port, max_msg_data_size, hello_world, test_main}

-- A request with too little data on a new channel.
request-short :
    (order : ByteOrder) (v : Verbs) (attr : RdmaChAttr) (rest : List Wakeup) (w : World)
    (not_null : 0 < w.next) (unused : (a : ℕ) → w.next ≤ a → w.live a ≡ none)
    (made : Option RdmaChCb) (w1 : World) (i : Inited attr rest (allocated w) made w1) (sem : ℕ)
    (text : List ℕ)
    → attr.msgbuf_cnt ≡ rpc_msg_buf_num
    → length text < attr.msgdata_size
    → send_rpc_msg_to_server order v
        ([] ∷ [])
        (record { rpc_ch = channel_on w i.cb; bytes = text; sem = sem })
        w1
      ≡ fault
unfolding send_rpc_msg_to_server
request-short order v attr rest w not_null unused made w1 i sem text four short =
    let up = channel-IsOpen w not_null unused attr rest made w1 i in
    let marked = with_bitmap w1 w.next first_taken in
    let (a, ready) =
      Opened-CanSend attr.msgbuf_cnt (allocated w) i.cb w1 0 i.opened (omega (arith, four)) in
    let ready' : CanSend i.cb marked 0 a.mb = record {
      in_range = ready.in_range;
      context = ready.context;
      buffer = ready.buffer;
      room = ready.room;
      queue = ready.queue;
    } in
    rw (
      alive-ok _ _ w1 up.alive,
      up.known,
      first_id,
      send_rdma_msg-short order v i.cb w.next text sem 0 0 a.mb marked ready'
          (omega (arith, i.data_size)),
    )

module _ (order : ByteOrder) (v : Verbs) (handler msg_handler : ℕ) (before : ℕ → ℕ)
    (address : List ℕ) (sem : ℕ) (rest : List Wakeup) (w : World) (not_null : 0 < w.next)
    (unused : (a : ℕ) → w.next ≤ a → w.live a ≡ none) (all : AllSucceed v)
    (script : w.script ≡ comes_up rest) where
  abbrev one : World
  one = with_new Kernel.memory w

  one_unused : (a : ℕ) → one.next ≤ a → one.live a ≡ none
  one_unused a h = ground (arith, unused a)

  runs_over :
      (ip : Option (List ℕ))
      → strcpy (array ip_addr_size before) address ≡ ip
      → test_main order v ([] ∷ []) handler msg_handler before address sem w ≡ fault
  unfolding test_main
  runs_over none over = rw (
    kzalloc-new v all w,
    alive-ok Kernel.memory w.next one (ground arith),
    init_rpc_client-over order v handler before address g_port max_msg_data_size msg_handler one
        (omega arith) one_unused all.kzalloc_ok over,
  )
  runs_over (some ip_addr) fits =
      rw (kzalloc-new v all w, alive-ok Kernel.memory w.next one (ground arith))
        (chain-fault _
          (init_rpc_client-Inited order v handler before address g_port max_msg_data_size
            msg_handler one (omega arith) one_unused ip_addr rest fits all script)
          λ out w1 (made, i, e). rw (
            e,
            request-short order v _ rest one (omega arith) one_unused made w1 i sem hello_world refl
                (omega arith),
          ))

  -- Where every call into the kernel succeeds, the connection comes up and addresses not yet given
  -- out are not alive, test_main copies past the end of an array, whatever in4_pton has left in the
  -- array for the address.
  pub test_main_overreads :
      test_main order v ([] ∷ []) handler msg_handler before address sem w ≡ fault
  test_main_overreads = runs_over (strcpy (array ip_addr_size before) address) refl
