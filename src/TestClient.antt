-- ===== src/TestClient.antt =====
-- rpc_client_test.c: the user's handler, which resumes the requesting thread, and test_main, which
-- opens a channel, sends one request and destroys the channel.
pub mod Proc
pub mod Run
use rpc_kern.Base.{ℕ, Option, none, some, List, [], ◌∷◌, ℤ, pos}
use rpc_kern.Msgbuf.{Other}
use rpc_kern.Message.{ByteOrder}
use rpc_kern.Kernel
use rpc_kern.Kernel.{
  World, Verbs, ok, fault, M, pure, ◌>>=◌, ◌>>◌, and_then, alive, kzalloc, wake_up, kfree,
}
use rpc_kern.Rdma.Receive.{MsgHandlerParam}
use rpc_kern.RpcClient.{
  rpc_ch_rdma, RpcChInfo, init_rpc_client, send_rpc_msg_to_server, destroy_rpc_client,
}

unfoldable pub client_rdma_msg_handler : MsgHandlerParam → M (Unit {0})
client_rdma_msg_handler param = do
  wake_up param.msg.header.sem
  kfree param.msg_addr
  kfree param.self

abbrev pub max_msg_data_size : ℕ
max_msg_data_size = 4096

abbrev pub g_port : ℕ
g_port = 7174

-- The literal "hello world", and its zero.
abbrev pub hello_world : List ℕ
hello_world = 104 ∷ 101 ∷ 108 ∷ 108 ∷ 111 ∷ 32 ∷ 119 ∷ 111 ∷ 114 ∷ 108 ∷ 100 ∷ 0 ∷ []

-- `address` is what in4_pton leaves in the array of 16 bytes, which kmalloc does not clear, `before`
-- what the bytes of the attribute's address array are at first, and `sem` the address of the wait
-- queue on the task's stack. The other threads do as `rounds` says while the request takes its id.
-- The request uses the channel before the test for NULL.
unfoldable pub test_main :
    ByteOrder
    → Verbs
    → List (List Other)
    → (handler msg_handler : ℕ) → (before : ℕ → ℕ) → (address : List ℕ) → (sem : ℕ) → M ℤ
test_main order v rounds handler msg_handler before address sem = do
  g_ip_addr_res ← kzalloc v
  alive Kernel.memory g_ip_addr_res
  rpc_cli_ch ←
      init_rpc_client order v handler before rpc_ch_rdma address g_port max_msg_data_size
        msg_handler
  elim rpc_cli_ch [
    | none ↦ λ w. fault
    | some ch ↦ do
      (ch, msgbuf_id) ←
          send_rpc_msg_to_server order v rounds
            (record { rpc_ch = ch; bytes = hello_world; sem = sem })
      destroy_rpc_client ch
      pure (pos 0)
  ]
