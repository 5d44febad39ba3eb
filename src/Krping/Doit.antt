-- ===== src/Krping/Doit.antt =====
-- bak/krping.c: krping_doit, which a write to /proc/krping runs.
use rpc_kern.Base.{
  ℕ, ◌+◌, ◌||◌, ◌&&◌, Bool, false, not, List, [], ◌∷◌, ◌++◌, ℤ, pos, negsuc, is_zero, ltb, ◌==◌,
  erase, if◌then◌else◌,
}
use rpc_kern.Kernel
use rpc_kern.Kernel.{
  World, Verbs, Run, ok, fault, M, pure, and_then, ◌>>=◌, ◌>>◌, null, destroy, kzalloc, kfree, make,
  made, failed, Sge,
}
use rpc_kern.Rdma.{Sockaddr}
use rpc_kern.TestClient.Proc.{to_int}
use rpc_kern.Krping.{idle, Occurrence, KrpingRdmaInfo, KrpingCb, KrpingVerbs}
use rpc_kern.Krping.Cm.{einval}
use rpc_kern.Rdma.Receive.{enomem}
use rpc_kern.Krping.Client.{krping_run_client}

-- What krping_getopt yields for one option of the command, with what in4_pton makes of an address.
pub data Opt : Type 0 where
  opt_addr : List ℕ → Opt
  opt_port : ℕ → Opt
  opt_client : Opt
  opt_size : ℕ → Opt
  opt_count : ℕ → Opt
  opt_verbose : Opt
  opt_unknown : Opt

abbrev pub no_sge : Sge
no_sge = record { addr = 0; length = 0; lkey = 0 }

abbrev pub no_info : KrpingRdmaInfo
no_info = record { buf = 0; rkey = 0; size = 0 }

abbrev pub rping_sq_depth : ℕ
rping_sq_depth = 64

abbrev pub rping_bufsize : ℕ
rping_bufsize = 131072

-- The block before the options are read.
abbrev pub krping_new_cb : (self : ℕ) → List Occurrence → KrpingCb
krping_new_cb self to_come = record {
  self = self;
  server = negsuc 0;
  cq = 0;
  pd = 0;
  qp = 0;
  dma_mr = 0;
  page_list_len = 0;
  reg_mr = 0;
  rkey = 0;
  server_invalidate = false;
  key = 0;
  recv_sgl = no_sge;
  recv_buf = no_info;
  recv_dma_addr = 0;
  recv_mapping = 0;
  send_sgl = no_sge;
  send_buf = no_info;
  send_dma_addr = 0;
  send_mapping = 0;
  rdma_buf = 0;
  rdma_mr = 0;
  remote_rkey = 0;
  remote_addr = 0;
  remote_len = 0;
  start_buf = 0;
  start_text = [];
  start_mr = 0;
  state = idle;
  sem = 0;
  stats = record {
    send_bytes = 0;
    send_msgs = 0;
    recv_bytes = 0;
    recv_msgs = 0;
    write_bytes = 0;
    write_msgs = 0;
    read_bytes = 0;
    read_msgs = 0;
  };
  port = 0;
  addr = [];
  addr_type = 0;
  verbose = 0;
  count = 0;
  size = 64;
  txdepth = rping_sq_depth;
  frtest = false;
  tos = 0;
  cm_id = 0;
  child_cm_id = 0;
  to_come = to_come;
  advertised = [];
}

-- EINVAL, which two options store without its sign.
abbrev pub plus_einval : ℤ
plus_einval = pos 22

-- A size or a count that is negative as an int is not stored: the option is refused, and the block is
-- not used then.
unfoldable pub size_opt : KrpingCb → ℤ → ℤ → KrpingCb × ℤ
size_opt cb (pos n) ret =
    (record cb { size = n }, if ltb n 1 || ltb rping_bufsize n then plus_einval else ret)
size_opt cb (negsuc n) ret = (cb, plus_einval)

unfoldable pub count_opt : KrpingCb → ℤ → ℤ → KrpingCb × ℤ
count_opt cb (pos n) ret = (record cb { count = n }, ret)
count_opt cb (negsuc n) ret = (cb, plus_einval)

-- One round of the loop over the options; `ret` is the code so far.
unfoldable pub krping_option : KrpingVerbs → KrpingCb → ℤ → Opt → KrpingCb × ℤ
unfolding size_opt count_opt to_int
krping_option u cb ret (opt_addr a) = (record cb { addr = a; addr_type = 2 }, ret)
krping_option u cb ret (opt_port n) = (record cb { port = u.htons n }, ret)
krping_option u cb ret opt_client = (record cb { server = pos 0 }, ret)
krping_option u cb ret (opt_size n) = size_opt cb (to_int n) ret
krping_option u cb ret (opt_count n) = count_opt cb (to_int n) ret
krping_option u cb ret opt_verbose = (record cb { verbose = cb.verbose + 1 }, ret)
krping_option u cb ret opt_unknown = (cb, einval)

unfoldable pub krping_options : KrpingVerbs → KrpingCb → ℤ → List Opt → KrpingCb × ℤ
unfolding krping_option
krping_options u cb ret [] = (cb, ret)
krping_options u cb ret (o ∷ os) =
    let (cb', ret') = krping_option u cb ret o in krping_options u cb' ret' os

-- Whether the server is set to -1, which is how it starts.
abbrev pub is_unset : ℤ → Bool
is_unset (pos n) = false
is_unset (negsuc n) = n == 0

-- After the options have been read. krping_run_server is called and defined nowhere: its run is an
-- argument.
unfoldable pub krping_start :
    Verbs
    → KrpingVerbs
    → (Sockaddr → ℕ → ℤ)
    → (run_server : KrpingCb → M (Unit {0})) → KrpingCb
    → M ℤ
krping_start v u resolve run_server cb =
    if is_unset cb.server
    then pure einval
    else if not (is_zero cb.server) && cb.frtest
    then pure einval
    else do
      id ← make v.create_id Kernel.cm_id
      elim id [
        | failed code ↦ pure code
        | made p ↦ do
          let cb = record cb { cm_id = p }
          if is_zero cb.server then krping_run_client v u resolve cb else run_server cb
          destroy Kernel.cm_id p
          pure (pos 0)
      ]

-- The list of running blocks, by their addresses, and the code.
unfoldable pub krping_doit :
    Verbs
    → KrpingVerbs
    → (Sockaddr → ℕ → ℤ)
    → (run_server : KrpingCb → M (Unit {0})) → (krping_cbs : List ℕ) → (cmd : List Opt)
    → (to_come : List Occurrence) → M (List ℕ × ℤ)
unfolding krping_options
krping_doit v u resolve run_server krping_cbs cmd to_come = do
  self ← kzalloc v
  if self == null then pure (krping_cbs, enomem) else do
    let cbs = krping_cbs ++ self ∷ []
    let (cb, ret) = krping_options u (krping_new_cb self to_come) (pos 0) cmd
    ret ← if not (is_zero ret) then pure ret else krping_start v u resolve run_server cb
    kfree self
    pure (erase self cbs, ret)
