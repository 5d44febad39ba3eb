-- ===== src/Krping/Released.antt =====
-- krping_run_client gives back what it takes, on every path but one.
use rpc_kern.Base.{
  ℕ, ◌+◌, ◌≤◌, ◌≡◌, sym, ◌∙◌, ap, inl, inr, Bool, true, false, not, none, some, if◌then◌else◌,
  arith, ℤ, is_zero, Bool-cases, ==_false, Option,
}
use rpc_kern.Kernel
use rpc_kern.Kernel.{
  World, Verbs, Run, ok, M, and_then, pure, alive, destroy, put, tick, call, ◌>>=◌, ◌>>◌,
}
use rpc_kern.Kernel.Owned.{alive-ok, destroy-ok}
use rpc_kern.Kernel.Returns.{Returns, returns}
use rpc_kern.Kernel.Safe.{Safe, chain-Safe, Returns-Safe}
use rpc_kern.Krping.{KrpingCb, KrpingVerbs}
use rpc_kern.Krping.Setup.{krping_free_buffers, krping_free_qp}
use rpc_kern.Krping.Ping.{mapped_badly, krping_test_client}
use rpc_kern.Krping.Client.{krping_post_recv, krping_run_err2, ping_when_connected}
use rpc_kern.Krping.Keeps.{Keeps, Pointers, pointers, is_clean}
use rpc_kern.Krping.Sleeps.{krping_connect_client-Slept}
use rpc_kern.Krping.Rounds.{CanPing, krping_test_client-Slept}
use rpc_kern.Krping.Queues.{queued}
use rpc_kern.Krping.Buffers.{buffered}

-- The pointers of a block for which all has been made, from the address `n` on.
abbrev pub all_made : (self : ℕ) → ℤ → (cm_id size len n : ℕ) → Pointers
all_made self server cm_id size len n = record {
  self = self;
  server = server;
  pd = n;
  cq = n + 1;
  qp = n + 1 + 1;
  dma_mr = 0;
  rdma_mr = 0;
  start_mr = 0;
  reg_mr = n + 1 + 1 + 1 + 1 + 1 + 1;
  page_list_len = len;
  recv_mapping = n + 1 + 1 + 1;
  send_mapping = n + 1 + 1 + 1 + 1;
  rdma_buf = n + 1 + 1 + 1 + 1 + 1;
  start_buf = n + 1 + 1 + 1 + 1 + 1 + 1 + 1;
  cm_id = cm_id;
  size = size;
}

-- The world when all has been made.
abbrev pub full : World → World
full w0 = buffered (queued w0)

module _ (w0 : World) (unused : (a : ℕ) → w0.next ≤ a → w0.live a ≡ none) where
  krping_run_err2-frees :
      (cb : KrpingCb) (w : World) (self : ℕ) (server : ℤ) (cm_id size len : ℕ)
      → pointers cb ≡ all_made self server cm_id size len w0.next
      → w.live ≡ (full w0).live
      → Returns (λ _ w'. (a : ℕ) → w'.live a ≡ w0.live a) (krping_run_err2 cb w)
  unfolding krping_run_err2 krping_free_buffers krping_free_qp
  krping_run_err2-frees cb w self server cm_id size len p l =
      let n = w0.next in
      let w1 = record w { live = put w.live (n + 1 + 1 + 1 + 1 + 1 + 1) none } in
      let w2 = record w { live = put w1.live (n + 1 + 1 + 1) none } in
      let w3 = record w { live = put w2.live (n + 1 + 1 + 1 + 1) none } in
      let w4 = record w { live = put w3.live (n + 1 + 1 + 1 + 1 + 1) none } in
      let w5 = record w { live = put w4.live (n + 1 + 1 + 1 + 1 + 1 + 1 + 1) none } in
      let w6 = record w { live = put w5.live (n + 1 + 1) none } in
      let w7 = record w { live = put w6.live (n + 1) none } in
      let at = λ (a : ℕ). ap (λ (f : ℕ → Option Kernel.Kind). f a) l in
      rw
        (
          ap (λ (q : Pointers). q.dma_mr) p,
          ap (λ (q : Pointers). q.rdma_mr) p,
          ap (λ (q : Pointers). q.start_mr) p,
          ap (λ (q : Pointers). q.reg_mr) p,
          ==_false (n + 1 + 1 + 1 + 1 + 1 + 1) 0 (omega arith),
          destroy-ok Kernel.mr (n + 1 + 1 + 1 + 1 + 1 + 1) w (at _ ∙ ground arith),
          ap (λ (q : Pointers). q.pd) p,
          alive-ok Kernel.pd n w1 (ground (arith, at n)),
          ap (λ (q : Pointers). q.recv_mapping) p,
          destroy-ok Kernel.dma_map (n + 1 + 1 + 1) w1 (ground (arith, at (n + 1 + 1 + 1))),
          ap (λ (q : Pointers). q.send_mapping) p,
          destroy-ok Kernel.dma_map (n + 1 + 1 + 1 + 1) w2 (ground (arith, at (n + 1 + 1 + 1 + 1))),
          ap (λ (q : Pointers). q.rdma_buf) p,
          destroy-ok Kernel.coherent (n + 1 + 1 + 1 + 1 + 1) w3
              (ground (arith, at (n + 1 + 1 + 1 + 1 + 1))),
          ap (λ (q : Pointers). q.start_buf) p,
          ==_false (n + 1 + 1 + 1 + 1 + 1 + 1 + 1) 0 (omega arith),
          destroy-ok Kernel.coherent (n + 1 + 1 + 1 + 1 + 1 + 1 + 1) w4
              (ground (arith, at (n + 1 + 1 + 1 + 1 + 1 + 1 + 1))),
          ap (λ (q : Pointers). q.qp) p,
          destroy-ok Kernel.qp (n + 1 + 1) w5 (ground (arith, at (n + 1 + 1))),
          ap (λ (q : Pointers). q.cq) p,
          destroy-ok Kernel.cq (n + 1) w6 (ground (arith, at (n + 1))),
          destroy-ok Kernel.pd n w7 (ground (arith, at n)),
        )
        (returns λ a. ground (
          arith,
          at a,
          unused a,
          unused n,
          unused (n + 1),
          unused (n + 1 + 1),
          unused (n + 1 + 1 + 1),
          unused (n + 1 + 1 + 1 + 1),
          unused (n + 1 + 1 + 1 + 1 + 1),
          unused (n + 1 + 1 + 1 + 1 + 1 + 1),
          unused (n + 1 + 1 + 1 + 1 + 1 + 1 + 1),
        ))

module _ (v : Verbs) (u : KrpingVerbs) (w0 : World)
    (unused : (a : ℕ) → w0.next ≤ a → w0.live a ≡ none) where
  -- What is alive is what was alive at first.
  abbrev pub Restored : Unit {0} → World → Type 0
  Restored _ w' = (a : ℕ) → w'.live a ≡ w0.live a

  -- The block and the world while everything is there.
  pub record Whole (cb : KrpingCb) (w : World) (len : ℕ) : Type 0 where
    pub pointing : pointers cb ≡ all_made cb.self cb.server cb.cm_id cb.size len w0.next
    pub live : w.live ≡ (full w0).live
    pub id : w0.live cb.cm_id ≡ some Kernel.cm_id
    pub clean : is_clean cb.to_come ≡ true

  pub Whole-frees :
      (cb : KrpingCb) (w : World) (len : ℕ)
      → Whole cb w len
      → Returns Restored (krping_run_err2 cb w)
  Whole-frees cb w len h =
      krping_run_err2-frees w0 unused cb w cb.self cb.server cb.cm_id cb.size len h.pointing h.live

  pub Whole-Keeps :
      {cb cb' : KrpingCb} {w w' : World} {len : ℕ}
      → Whole cb w len
      → Keeps cb w cb' w'
      → is_clean cb'.to_come ≡ true
      → Whole cb' w' len
  Whole-Keeps {cb} {cb'} {w} {w'} {len} h k clean = record {
    pointing =
        k.same
        ∙ h.pointing
        ∙ ap (λ (p : Pointers). all_made p.self p.server p.cm_id p.size len w0.next) (sym k.same);
    live = k.live ∙ h.live;
    id = ap w0.live (ap (λ (p : Pointers). p.cm_id) k.same) ∙ h.id;
    clean = clean;
  }

  pub Whole-CanPing : {cb : KrpingCb} {w : World} {len : ℕ} → Whole cb w len → CanPing cb w
  Whole-CanPing {cb} {w} {len} h =
      let at = λ (a : ℕ). ap (λ (f : ℕ → Option Kernel.Kind). f a) h.live in
      let qp = ap (λ (p : Pointers). p.qp) h.pointing in
      let reg_mr = ap (λ (p : Pointers). p.reg_mr) h.pointing in
      record {
        queue = at cb.qp ∙ ap (full w0).live qp ∙ ground arith;
        region = at cb.reg_mr ∙ ap (full w0).live reg_mr ∙ ground arith;
      }

  pub Whole-id :
      {cb : KrpingCb} {w : World} {len : ℕ} → Whole cb w len → w.live cb.cm_id ≡ some Kernel.cm_id
  Whole-id {cb} {w} {len} h =
      ap (λ (f : ℕ → Option Kernel.Kind). f cb.cm_id) h.live ∙ ground (arith, h.id, unused cb.cm_id)

  module _ (len : ℕ) (mapped : (t : ℕ) → mapped_badly (u.map_mr_sg t) len ≡ false) where
    pings-Restored :
        (ret : ℤ) (cb : KrpingCb) (w : World)
        → Whole cb w len
        → Safe Restored (
            (if not (is_zero ret)
                then krping_run_err2 cb
                else krping_test_client v u cb >>= λ out.
                    alive Kernel.cm_id out.0.cm_id >> krping_run_err2 out.0)
              w)
    pings-Restored ret cb w h = go (is_zero ret)
      where
        go :
            (b : Bool)
            → Safe Restored (
                (if not b
                    then krping_run_err2 cb
                    else krping_test_client v u cb >>= λ out.
                        alive Kernel.cm_id out.0.cm_id >> krping_run_err2 out.0)
                  w)
        go false = Returns-Safe (Whole-frees cb w len h)
        go true =
            chain-Safe
              (krping_test_client-Slept v u len mapped cb w
                (ap (λ (p : Pointers). p.page_list_len) h.pointing) (Whole-CanPing h) h.clean)
              λ out w' (k, c).
                let h' = Whole-Keeps h k c in
                rw (alive-ok Kernel.cm_id out.0.cm_id w' (Whole-id h'))
                  (Returns-Safe (Whole-frees out.0 w' len h'))

    pub ping_when_connected-Restored :
        (cb : KrpingCb) (w : World) → Whole cb w len → Safe Restored (ping_when_connected v u cb w)
    unfolding ping_when_connected krping_post_recv call
    ping_when_connected-Restored cb w h =
        let h1 : Whole cb (tick w) len = record {
          pointing = h.pointing;
          live = h.live;
          id = h.id;
          clean = h.clean;
        } in
        rw (alive-ok Kernel.qp cb.qp w (Whole-CanPing h).queue)
          (elim (Bool-cases (is_zero (v.post_recv w.clock))) [
            | inr bad ↦ rw bad (Returns-Safe (Whole-frees cb (tick w) len h1))
            | inl y ↦ rw y (
                chain-Safe
                  (krping_connect_client-Slept v u cb (tick w) (Whole-id h1)
                    (Whole-CanPing h1).queue h.clean)
                  λ out w' (k, c). pings-Restored out.1 out.0 w' (Whole-Keeps h1 k c))
          ])
