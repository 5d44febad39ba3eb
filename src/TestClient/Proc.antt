-- ===== src/TestClient/Proc.antt =====
-- rpc_client_test.c: the file /proc/krping, a write to which runs test_main, and the entry points of
-- the module.
pub mod Written
use rpc_kern.Base.{
  ℕ, ◌+◌, ◌-◌, ◌%◌, ◌^◌, Bool, true, false, not, ◌==◌, ltb, if◌then◌else◌, List, ℤ, pos, negsuc,
  is_zero,
}
use rpc_kern.Msgbuf.{Other}
use rpc_kern.Message.{ByteOrder}
use rpc_kern.Kernel.{
  World, Run, Verbs, ok, fault, M, pure, ◌>>=◌, ◌>>◌, null, and_then, kzalloc, kfree,
}
use rpc_kern.Rdma.Receive.{enomem}
use rpc_kern.TestClient.{test_main}

abbrev pub enodev : ℤ
enodev = negsuc 18

abbrev pub efault : ℤ
efault = negsuc 13

-- The module: the references to it, its variable for the entry in /proc, and whether that is there.
pub record Module : Type 0 where
  pub refs : ℕ
  pub krping_proc : ℕ
  pub listed : Bool

abbrev pub module_got : Module → Module
module_got m = record m { refs = m.refs + 1 }

abbrev pub module_put : Module → Module
module_put m = record m { refs = m.refs - 1 }

-- The conversion of a size_t to int.
unfoldable pub to_int : ℕ → ℤ
to_int n = let low = n % 2 ^ 32 in if ltb low (2 ^ 31) then pos low else negsuc (2 ^ 32 - 1 - low)

-- The store of the zero: past the front of the array if `count` is 0.
abbrev pub cut_newline : ℕ → M (Unit {0})
cut_newline count w = if count == 0 then fault else ok tt w

-- `got` is what try_module_get answers, and `left` how many bytes copy_from_user does not copy.
unfoldable pub krping_write_proc :
    ByteOrder
    → Verbs
    → List (List Other)
    → (handler msg_handler : ℕ) → (before : ℕ → ℕ) → (address : List ℕ) → (sem : ℕ) → (got : Bool)
    → (left count : ℕ) → Module
    → M (Module × ℤ)
unfolding to_int
krping_write_proc order v rounds handler msg_handler before address sem got left count m =
    if not got then pure (m, enodev) else do
      let m = module_got m
      cmd ← kzalloc v
      if cmd == null
          then pure (m, enomem)
          else if not (left == 0)
          then kfree cmd >> pure (m, efault)
          else do
            cut_newline count
            rc ← test_main order v rounds handler msg_handler before address sem
            kfree cmd
            pure (module_put m, if is_zero rc then to_int count else rc)

unfoldable pub krping_read_proc : (got : Bool) → Module → Module × ℤ
krping_read_proc got m = if not got then (m, enodev) else (module_put (module_got m), pos 0)

-- `entry` is what proc_create returns.
unfoldable pub krping_init : (entry : ℕ) → Module → Module × ℤ
krping_init entry m =
    let m = record m { krping_proc = entry; listed = not (entry == null) } in
    if m.krping_proc == null then (m, enomem) else (m, pos 0)

-- remove_proc_entry, by the name; the variable keeps its value.
unfoldable pub krping_exit : Module → Module
krping_exit m = record m { listed = false }
