-- ===== src/Examples/Krping.antt =====
-- The earlier prototype: a write of a command, pings, and a wait for a connection.
use rpc_kern.Base.{ℕ, ◌+◌, ◌≡◌, refl, arith, true, some, [], ◌∷◌, pos, negsuc, ℤ, List, Option}
use rpc_kern.Kernel
use rpc_kern.Kernel.{CmEvent, World, asleep}
use rpc_kern.Kernel.Returns.{Returns}
use rpc_kern.Kernel.Safe.{Safe}
use rpc_kern.TestClient.Proc.{Module, to_int}
use rpc_kern.Krping.{
  KrpingCb, KrpingVerbs, KrWc, KrWcStatus, KrWcOpcode, Occurrence, cm_event, completed, signal,
}
use rpc_kern.Krping.Doit.{opt_client, opt_count, krping_new_cb, krping_options}
use rpc_kern.Krping.Cm.{krping_connect_client}
use rpc_kern.Krping.Ping.{krping_test_client}
use rpc_kern.Krping.Proc.{krping_write_proc}
use rpc_kern.Krping.Proc.Written.{krping_write_proc-Released}
use rpc_kern.Krping.Runs.{Released}
use rpc_kern.Krping.Pings.{krping_test_client-answered, bufs}
use rpc_kern.Krping.Client.{krping_init_client}
use rpc_kern.Krping.Opened.{Opened, krping_init_client-krping_fin_client}
use rpc_kern.Krping.Fate.{krping_connect_client-fate}
use rpc_kern.Examples.{willing, empty_world}

-- Every call succeeds, and byte order is left alone.
abbrev peer : KrpingVerbs
peer = record {
  coherent_ok = λ t. true;
  alloc_mr = λ t. pos 0;
  map_mr_sg = λ t. pos 1;
  rkey_of = λ rkey key. rkey + key;
  mem_mgt_extensions = true;
  ping_text = λ ping. 112 ∷ ping ∷ [];
  htons = λ n. n;
  ntohl = λ n. n;
  ntohll = λ n. n;
  htonl = λ n. n;
  htonll = λ n. n;
}

abbrev answer : KrWc
answer = record {
  status = KrWcStatus.success;
  opcode = KrWcOpcode.recv;
  byte_len = 16;
  info = record { buf = 0; rkey = 0; size = 0 };
}

abbrev come : List Occurrence
come =
    cm_event CmEvent.addr_resolved
    ∷ cm_event CmEvent.route_resolved
    ∷ cm_event CmEvent.established
    ∷ completed (answer ∷ []) (pos 0)
    ∷ completed (answer ∷ []) (pos 0)
    ∷ []

abbrev loaded : Module
loaded = record { refs = 0; krping_proc = 1; listed = true }

krping_write_proc-Released_example :
    Safe
      (λ (res : Module × List ℕ × ℤ) w'.
        (res.1 ≡ []) × (res.2 ≡ pos 7) × Released peer (empty_world []) w')
      (krping_write_proc willing peer
        (λ sin t. pos 0)
        (λ cb w. Kernel.fault)
        []
        (opt_client ∷ opt_count 1 ∷ [])
        come
        true
        0
        7
        loaded
        (empty_world []))
unfolding to_int krping_options
krping_write_proc-Released_example =
    krping_write_proc-Released willing peer (λ t. refl) (λ sin t. pos 0) (λ cb w. Kernel.fault) []
      (opt_client ∷ opt_count 1 ∷ []) come true 0 7 loaded (empty_world []) refl refl (λ a h. refl)
      (omega arith) (omega arith) (λ t. refl)

-- A connected client with its objects at 1 to 5, which is to ping twice.
abbrev ready_world : World
ready_world = record (empty_world []) {
  next = 6;
  live =
      Kernel.put (Kernel.put (Kernel.put (λ a. Option.none) 1 (some Kernel.qp)) 2 (some Kernel.mr))
        5 (some Kernel.cm_id);
}

abbrev ready_cb : List Occurrence → ℕ → KrpingCb
ready_cb to_come count = record (krping_new_cb 9 to_come) {
  server = pos 0;
  qp = 1;
  reg_mr = 2;
  rdma_buf = 3;
  start_buf = 4;
  page_list_len = 1;
  cm_id = 5;
  count = count;
}

abbrev answered_twice : List Occurrence
answered_twice =
    completed (answer ∷ []) (pos 0)
    ∷ completed (answer ∷ []) (pos 0)
    ∷ completed (answer ∷ []) (pos 0)
    ∷ completed (answer ∷ []) (pos 0)
    ∷ signal
    ∷ []

krping_test_client-answered_example :
    Returns
      (λ out w'. (out.1 ≡ 2) × (out.0.to_come ≡ signal ∷ []) × (bufs out.0 ≡ 4 ∷ 3 ∷ 4 ∷ 3 ∷ []))
      (krping_test_client willing peer (ready_cb answered_twice 2) ready_world)
krping_test_client-answered_example =
    krping_test_client-answered willing peer (λ t. refl) (λ t. refl) 1 (λ t. refl)
      ((answer, answer) ∷ (answer, answer) ∷ []) (ready_cb answered_twice 2) (signal ∷ [])
      ready_world
      (record { client = refl; no_frtest = refl; queue = refl; region = refl; pages = refl })
      ((refl, refl, refl), (refl, refl, refl), ((refl, refl, refl), (refl, refl, refl), tt))
      (omega arith) refl refl

krping_connect_client-fate_example :
    Returns
      (λ (out : KrpingCb × ℤ) _. out.1 ≡ negsuc 0)
      (krping_connect_client willing peer
        (ready_cb (cm_event CmEvent.unhandled ∷ cm_event CmEvent.rejected ∷ []) 0)
        ready_world)
krping_connect_client-fate_example =
    krping_connect_client-fate willing peer
      (ready_cb (cm_event CmEvent.unhandled ∷ cm_event CmEvent.rejected ∷ []) 0) ready_world refl
      refl refl refl refl

-- A new block of a client at 1, whose id is at 2.
abbrev new_world : World
new_world = record (empty_world []) {
  next = 3;
  live = Kernel.put (Kernel.put (λ a. Option.none) 1 (some Kernel.memory)) 2 (some Kernel.cm_id);
}

abbrev new_client : KrpingCb
new_client = record (krping_new_cb 1 come) { server = pos 0; cm_id = 2 }

krping_init_client-krping_fin_client_example :
    Safe
      (Opened peer 1 new_world)
      (krping_init_client willing peer (λ sin t. pos 0) new_client new_world)
krping_init_client-krping_fin_client_example =
    krping_init_client-krping_fin_client willing peer (λ t. refl) (λ sin t. pos 0) new_client
      new_world refl
      (record { dma_mr = refl; rdma_mr = refl; start_mr = refl; reg_mr = refl; start_buf = refl })
      refl refl refl refl refl (omega arith) (λ a h. ground arith) (λ t. refl)

-- A connected client's world with its completion queue, at 0.
abbrev queue_world : World
queue_world = record ready_world { live = Kernel.put ready_world.live 0 (some Kernel.cq) }
