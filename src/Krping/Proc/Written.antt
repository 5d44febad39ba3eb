-- ===== src/Krping/Proc/Written.antt =====
-- A write to the prototype's file: its code, and what it leaves.
use rpc_kern.Base.{
  ℕ, ◌+◌, ◌≤◌, ◌<◌, ◌≡◌, refl, ap, inl, inr, Bool, true, false, not, none, ◌==◌, if◌then◌else◌,
  arith, ℤ, is_zero, Bool-cases, List, has, ==_false,
}
use rpc_kern.Kernel
use rpc_kern.Kernel.{
  World, Verbs, Run, ok, M, pure, and_then, ◌>>=◌, ◌>>◌, put, kfree, kzalloc, tick,
}
use rpc_kern.Kernel.Owned.{kfree-ok}
use rpc_kern.Kernel.Safe.{Safe, stops, chain-Safe}
use rpc_kern.Kernel.Succeed.{with_new, kzalloc-made, kzalloc-null}
use rpc_kern.Rdma.{Sockaddr}
use rpc_kern.TestClient.Proc.{Module, to_int, enodev, efault}
use rpc_kern.Krping.{KrpingCb, KrpingVerbs, Occurrence}
use rpc_kern.Krping.Setup.{pages}
use rpc_kern.Rdma.Receive.{enomem}
use rpc_kern.Krping.Ping.{mapped_badly}
use rpc_kern.Krping.Binding.{is_binding}
use rpc_kern.Krping.Runs.{Released}
use rpc_kern.Krping.Doit.{Opt}
use rpc_kern.Krping.Commands.{parsed, doit_code, krping_doit-Released, gone-Released}
use rpc_kern.Krping.Proc.{krping_write_proc}

-- The world after the array for the text has been allocated.
abbrev pub with_text : World → World
with_text w = with_new Kernel.memory w

-- The code of krping_doit, which is 0 or that of what failed.
abbrev pub command_code : Verbs → KrpingVerbs → World → List Occurrence → List Opt → ℤ
command_code v u w to_come cmd =
    if v.kzalloc_ok (w.clock + 1)
    then doit_code (parsed u (with_text w) to_come cmd) (v.create_id (w.clock + 1 + 1))
    else enomem

-- The result of a write.
abbrev pub write_code : Bool → Verbs → (left count : ℕ) → World → (rc : ℤ) → ℤ
write_code got v left count w rc =
    if not got
    then enodev
    else if not (v.kzalloc_ok w.clock)
    then enomem
    else if not (left == 0)
    then efault
    else if is_zero rc
    then to_int count
    else rc

module _ (v : Verbs) (u : KrpingVerbs) (maps : (t : ℕ) → v.dma_map_ok t ≡ true)
    (resolve : Sockaddr → ℕ → ℤ) (run_server : KrpingCb → M (Unit {0})) where
  -- A write to the prototype's file, of at least one byte, whatever its command, whatever the
  -- kernel and the adapter answer but that mappings succeed and that ib_map_mr_sg covers the pages
  -- of the size, and whatever events and completions come, of which none is before the route is
  -- resolved and none an RDMA read or write; addresses not yet given out are not alive, and the
  -- next block is not in the list of running ones: it uses nothing that is not alive, never runs a
  -- server, and sleeps for ever or returns. If it returns, the list of running blocks is as before;
  -- its code is that of the first step that failed, or the number of bytes if none did before the
  -- connection; and what is alive is what was alive before, and if some allocation of a buffer or
  -- of the region fails, perhaps two mappings more.
  pub krping_write_proc-Released :
      (krping_cbs : List ℕ) (cmd : List Opt) (to_come : List Occurrence) (got : Bool)
      (left count : ℕ) (m : Module) (w : World)
      → has (w.next + 1) krping_cbs ≡ false
      → is_binding to_come ≡ true
      → ((a : ℕ) → w.next ≤ a → w.live a ≡ none)
      → 0 < w.next
      → 0 < count
      → ((t : ℕ)
          → mapped_badly (u.map_mr_sg t) (pages (parsed u (with_text w) to_come cmd).0.size)
            ≡ false)
      → Safe
          (λ (res : Module × List ℕ × ℤ) w'.
            (res.1 ≡ krping_cbs)
            × (res.2 ≡ write_code got v left count w (command_code v u w to_come cmd))
            × Released u w w')
          (krping_write_proc v u resolve run_server krping_cbs cmd to_come got left count m w)
  unfolding krping_write_proc
  krping_write_proc-Released krping_cbs cmd to_come false left count m w new binding unused low
        some_bytes mapped =
      stops (refl, refl, inl λ a. refl)
  krping_write_proc-Released krping_cbs cmd to_come true left count m w new binding unused low
        some_bytes mapped =
      elim (Bool-cases (v.kzalloc_ok w.clock)) [
        | inr bad ↦ rw (bad, kzalloc-null v w bad) (stops (refl, refl, inl λ a. refl))
        | inl y ↦ elim (Bool-cases (left == 0)) [
          | inr bad ↦
              rw
                (
                  y,
                  kzalloc-made v w y,
                  ==_false w.next 0 low,
                  bad,
                  kfree-ok w.next (with_text w) (==_false w.next 0 low) (ground arith),
                )
                (stops (refl, refl, inl λ a. ground (arith, unused a)))
          | inl z ↦
              rw (y, kzalloc-made v w y, ==_false w.next 0 low, z, ==_false count 0 some_bytes)
                (chain-Safe
                  (krping_doit-Released v u maps resolve run_server krping_cbs cmd to_come
                    (with_text w) new binding (λ a h. ground (arith, unused a)) (omega arith)
                    mapped)
                  λ out w' (cbs, rc, r).
                    let (here, r') = gone-Released u Kernel.memory w w' unused r in
                    rw (kfree-ok w.next w' (==_false w.next 0 low) here)
                      (stops (cbs, ap (λ rc. if is_zero rc then to_int count else rc) rc, r')))
        ]
      ]
