-- ===== src/TestClient/Proc/Written.antt =====
-- What a write to /proc/krping does on each of its branches.
use rpc_kern.Base.{
  ℕ, ◌+◌, ◌<◌, ◌≤◌, ◌≡◌, refl, none, List, [], ◌∷◌, arith, Bool, true, false, not, ◌&&◌, ◌==◌,
  if◌then◌else◌, ℤ, Bool-cases, inl, inr, ==_false,
}
use rpc_kern.Message.{ByteOrder}
use rpc_kern.Kernel
use rpc_kern.Kernel.{World, Wakeup, Run, Verbs, M, put, ok, pure, and_then, fault}
use rpc_kern.Kernel.Owned.{kfree-ok}
use rpc_kern.Kernel.Returns.{Returns, returns}
use rpc_kern.Kernel.Succeed.{AllSucceed, with_new, kzalloc-made, kzalloc-null}
use rpc_kern.Rdma.Channel.Running.{comes_up}
use rpc_kern.Rdma.Receive.{enomem}
use rpc_kern.TestClient.Run.{test_main_overreads}
use rpc_kern.TestClient.Proc.{Module, enodev, efault, krping_write_proc}

-- The code of a write that does not come to test_main.
abbrev pub code : (got allocated : Bool) → ℤ
code got allocated = if not got then enodev else if not allocated then enomem else efault

-- A write, by the answers of try_module_get, kmalloc and copy_from_user.
abbrev pub Written : (got allocated copied : Bool) → Module → World → Run (Module × ℤ) → Type 0
Written true true true m w r = r ≡ fault
Written got allocated copied m w r =
    Returns
      (λ out w'.
        (out.1 ≡ code got allocated)
        × (out.0.refs ≡ (if got then m.refs + 1 else m.refs))
        × ((a : ℕ) → w'.live a ≡ w.live a))
      r

module _ (order : ByteOrder) (v : Verbs) (handler msg_handler : ℕ) (before : ℕ → ℕ)
    (address : List ℕ) (sem : ℕ) (rest : List Wakeup) (w : World) (not_null : 0 < w.next)
    (unused : (a : ℕ) → w.next ≤ a → w.live a ≡ none) (script : w.script ≡ comes_up rest)
    (count : ℕ) (some_bytes : 0 < count) (m : Module) where
  abbrev one : World
  one = with_new Kernel.memory w

  -- A write of at least one byte to /proc/krping, where addresses not yet given out are not alive,
  -- the connection comes up and, if test_main runs, every call into the kernel succeeds: it returns
  -- -ENODEV, -ENOMEM or -EFAULT if the module, the memory or the copy fails, and leaves alive what
  -- was alive before; the module then has as many references as before in the first case, and one
  -- more than before in the two others. If none fails, test_main runs, and copies past the end of
  -- an array.
  pub krping_write_proc-Written :
      (got : Bool) (left : ℕ)
      → ((got && v.kzalloc_ok w.clock) && (left == 0) ≡ true → AllSucceed v)
      → Written got (v.kzalloc_ok w.clock) (left == 0) m w (
          krping_write_proc order v
            ([] ∷ [])
            handler
            msg_handler
            before
            address
            sem
            got
            left
            count
            m
            w)
  unfolding krping_write_proc
  krping_write_proc-Written false left works = returns (refl, refl, λ a. refl)
  krping_write_proc-Written true left works = elim (Bool-cases (v.kzalloc_ok w.clock)) [
    | inr e ↦ rw (kzalloc-null v w e, e) (returns (refl, refl, λ a. refl))
    | inl e ↦ elim (Bool-cases (left == 0)) [
      | inr f ↦
          rw
            (
              kzalloc-made v w e,
              ==_false w.next 0 not_null,
              e,
              f,
              kfree-ok w.next one (==_false _ 0 not_null) (ground arith),
            )
            (returns (refl, refl, λ a. ground (arith, unused a)))
      | inl f ↦ rw (
        kzalloc-made v w e,
        e,
        ==_false w.next 0 not_null,
        f,
        ==_false count 0 some_bytes,
        test_main_overreads order v handler msg_handler before address sem rest one (omega arith)
            (λ a h. ground (arith, unused a)) (works (rw (e, f) refl)) script,
      )
    ]
  ]
