-- ===== src/Krping/Client.antt =====
-- bak/krping.c: the life of the prototype's client.
use rpc_kern.Base.{ℕ, not, Option, none, some, ℤ, is_zero, if◌then◌else◌, ◌==◌}
use rpc_kern.Kernel
use rpc_kern.Kernel.{
  World, Verbs, Run, ok, fault, M, pure, and_then, ◌>>=◌, ◌>>◌, alive, destroy, kfree, call,
}
use rpc_kern.Rdma.{Sockaddr}
use rpc_kern.Krping.{KrpingCb, KrpingVerbs}
use rpc_kern.Krping.Cm.{krping_bind_client, krping_connect_client}
use rpc_kern.Krping.Setup.{
  krping_setup_qp, krping_setup_buffers, krping_free_buffers, krping_free_qp,
}
use rpc_kern.Krping.Ping.{krping_test_client}

-- Type of service, if any; it does nothing else that the model sees.
abbrev pub set_service : KrpingCb → M (Unit {0})
set_service cb = if cb.tos == 0 then pure tt else alive Kernel.cm_id cb.cm_id

-- The receive of the block, whose work request has the id 0.
unfoldable pub krping_post_recv : Verbs → KrpingCb → M ℤ
krping_post_recv v cb = do alive Kernel.qp cb.qp; call v.post_recv

-- The labels of krping_run_client: `err2` falls into `err1`.
unfoldable pub krping_run_err2 : KrpingCb → M (Unit {0})
krping_run_err2 cb = do krping_free_buffers cb; krping_free_qp cb

-- After the buffers have been set up.
unfoldable pub ping_when_connected : Verbs → KrpingVerbs → KrpingCb → M (Unit {0})
ping_when_connected v u cb = do
  ret ← krping_post_recv v cb
  if not (is_zero ret) then krping_run_err2 cb else do
    (cb, ret) ← krping_connect_client v u cb
    if not (is_zero ret) then krping_run_err2 cb else do
      (cb, pings) ← krping_test_client v u cb
      alive Kernel.cm_id cb.cm_id
      krping_run_err2 cb

unfoldable pub krping_run_client :
    Verbs → KrpingVerbs → (Sockaddr → ℕ → ℤ) → KrpingCb → M (Unit {0})
krping_run_client v u resolve cb = do
  set_service cb
  (cb, ret) ← krping_bind_client v u resolve cb
  if not (is_zero ret) then pure tt else do
    (cb, ret) ← krping_setup_qp v cb cb.cm_id
    if not (is_zero ret) then pure tt else do
      (cb, ret) ← krping_setup_buffers v u cb
      if not (is_zero ret) then krping_free_qp cb else ping_when_connected v u cb

-- The labels of krping_init_client, each of which falls into the next; all end in `NULL`.
abbrev pub init_err0 : KrpingCb → M (Option KrpingCb)
init_err0 cb = kfree cb.self >> pure none

abbrev pub init_err1 : KrpingCb → M (Option KrpingCb)
init_err1 cb = krping_free_qp cb >> init_err0 cb

abbrev pub init_err2 : KrpingCb → M (Option KrpingCb)
init_err2 cb = krping_free_buffers cb >> init_err1 cb

-- After the buffers have been set up.
unfoldable pub init_connect : Verbs → KrpingVerbs → KrpingCb → M (Option KrpingCb)
init_connect v u cb = do
  ret ← krping_post_recv v cb
  if not (is_zero ret) then init_err2 cb else do
    (cb, ret) ← krping_connect_client v u cb
    if not (is_zero ret) then init_err2 cb else pure (some cb)

unfoldable pub krping_init_client :
    Verbs → KrpingVerbs → (Sockaddr → ℕ → ℤ) → KrpingCb → M (Option KrpingCb)
krping_init_client v u resolve cb = do
  set_service cb
  (cb, ret) ← krping_bind_client v u resolve cb
  if not (is_zero ret) then init_err0 cb else do
    (cb, ret) ← krping_setup_qp v cb cb.cm_id
    if not (is_zero ret) then init_err0 cb else do
      (cb, ret) ← krping_setup_buffers v u cb
      if not (is_zero ret) then init_err1 cb else init_connect v u cb

unfoldable pub krping_fin_client : KrpingCb → M (Unit {0})
krping_fin_client cb = do krping_free_buffers cb; krping_free_qp cb
