-- ===== src/Krping/Proc.antt =====
-- bak/krping.c: the prototype's file /proc/krping, a write to which is a command.
pub mod Written
use rpc_kern.Base.{
  ℕ, ◌+◌, Bool, true, false, not, List, [], ◌∷◌, ℤ, pos, is_zero, ◌==◌, if◌then◌else◌,
}
use rpc_kern.Kernel.{World, Verbs, Run, M, pure, ◌>>=◌, ◌>>◌, and_then, null, kzalloc, kfree}
use rpc_kern.Rdma.{Sockaddr}
use rpc_kern.TestClient.Proc.{Module, module_got, module_put, to_int, cut_newline, enodev, efault}
use rpc_kern.Krping.{KrpingCb, KrpingStats, KrpingVerbs, Occurrence}
use rpc_kern.Rdma.Receive.{enomem}
use rpc_kern.Krping.Doit.{Opt, krping_doit}

-- A line of what a read prints.
pub data Row : Type 0 where
  counted : (num : ℕ) → KrpingStats → Row
  listen : (num : ℕ) → Row

unfoldable pub krping_rows : (num : ℕ) → List KrpingCb → List Row
krping_rows num [] = []
krping_rows num (cb ∷ cbs) =
    (if cb.pd == null then listen num else counted num cb.stats) ∷ krping_rows (num + 1) cbs

-- `got` is what try_module_get answers.
unfoldable pub krping_read_proc : (got : Bool) → List KrpingCb → Module → Module × ℤ × List Row
unfolding krping_rows
krping_read_proc got cbs m =
    if not got then (m, enodev, []) else (module_put (module_got m), pos 0, krping_rows 1 cbs)

-- `left` is how many bytes copy_from_user does not copy, and `cmd` what krping_getopt makes of those
-- that it does.
unfoldable pub krping_write_proc :
    Verbs
    → KrpingVerbs
    → (Sockaddr → ℕ → ℤ)
    → (run_server : KrpingCb → M (Unit {0})) → (krping_cbs : List ℕ) → (cmd : List Opt)
    → (to_come : List Occurrence) → (got : Bool) → (left count : ℕ) → Module
    → M (Module × List ℕ × ℤ)
unfolding to_int
krping_write_proc v u resolve run_server krping_cbs cmd to_come got left count m =
    if not got then pure (m, krping_cbs, enodev) else do
      let m = module_got m
      buf ← kzalloc v
      if buf == null
          then pure (m, krping_cbs, enomem)
          else if not (left == 0)
          then kfree buf >> pure (m, krping_cbs, efault)
          else do
            cut_newline count
            (cbs, rc) ← krping_doit v u resolve run_server krping_cbs cmd to_come
            kfree buf
            pure (module_put m, cbs, if is_zero rc then to_int count else rc)

-- `entry` is what proc_create returns.
unfoldable pub krping_init : (entry : ℕ) → Module → Module × ℤ
krping_init entry m =
    let m = record m { krping_proc = entry; listed = not (entry == null) } in
    if m.krping_proc == null then (m, enomem) else (m, pos 0)

-- remove_proc_entry, by the name; the variable keeps its value.
unfoldable pub krping_exit : Module → Module
krping_exit m = record m { listed = false }
