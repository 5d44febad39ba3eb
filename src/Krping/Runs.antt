-- ===== src/Krping/Runs.antt =====
-- A whole run of the prototype's client, whatever the kernel answers and whatever events come.
use rpc_kern.Base.{
  ℕ, ◌+◌, ◌≤◌, ◌<◌, ◌≡◌, refl, sym, ◌∙◌, ap, ◌⊎◌, inl, inr, true, false, not, none, some, ◌==◌,
  ◌||◌, if◌then◌else◌, arith, ℤ, is_zero, Bool-cases, Option,
}
use rpc_kern.Kernel
use rpc_kern.Kernel.{World, Verbs, Run, ok, M, and_then, pure, alive, put, destroy, ◌>>=◌, ◌>>◌}
use rpc_kern.Kernel.Owned.{alive-ok, destroy-ok}
use rpc_kern.Kernel.Returns.{Returns, returns}
use rpc_kern.Kernel.Safe.{Safe, stops, chain-Safe, after-Safe, weaken-Safe, Returns-Safe}
use rpc_kern.Rdma.{Sockaddr}
use rpc_kern.Krping.{KrpingCb, KrpingVerbs, at_least, route_resolved}
use rpc_kern.Krping.Setup.{krping_setup_qp, krping_setup_buffers, krping_free_qp, pages}
use rpc_kern.Krping.Ping.{mapped_badly}
use rpc_kern.Krping.Client.{set_service, ping_when_connected, krping_run_client}
use rpc_kern.Krping.Keeps.{Keeps, Keeps-alive, Pointers, pointers, is_clean}
use rpc_kern.Krping.Binding.{krping_bind_client-Slept, is_binding}
use rpc_kern.Krping.Queues.{queued, queued_cb, krping_setup_qp-cases}
use rpc_kern.Krping.Buffers.{Fresh, buffered, Scarce, Leaked, krping_setup_buffers-cases}
use rpc_kern.Krping.Released.{Whole, all_made, ping_when_connected-Restored}

-- What is alive is what was alive before, or two mappings more if an allocation can fail.
abbrev pub Released : KrpingVerbs → World → World → Type 0
Released u w w' =
    ((a : ℕ) → w'.live a ≡ w.live a)
    ⊎ (Scarce u
        × ((n : ℕ) × (w.next ≤ n)
            × ((a : ℕ)
                → w'.live a
                  ≡ (if (a == n) || (a == n + 1) then some Kernel.dma_map else w.live a))))

-- A block for which all has been made; its segments are those of the block `out`.
abbrev pub filled : KrpingCb → World → KrpingCb → KrpingCb
filled cb w out = record (queued_cb cb w) {
  recv_dma_addr = w.next + 1 + 1 + 1;
  recv_mapping = w.next + 1 + 1 + 1;
  send_dma_addr = w.next + 1 + 1 + 1 + 1;
  send_mapping = w.next + 1 + 1 + 1 + 1;
  rdma_buf = w.next + 1 + 1 + 1 + 1 + 1;
  page_list_len = pages cb.size;
  reg_mr = w.next + 1 + 1 + 1 + 1 + 1 + 1;
  start_buf = w.next + 1 + 1 + 1 + 1 + 1 + 1 + 1;
  recv_sgl = out.recv_sgl;
  send_sgl = out.send_sgl;
}

module _ (v : Verbs) (u : KrpingVerbs) (maps : (t : ℕ) → v.dma_map_ok t ≡ true) where
  -- The end of a run whose buffers could not be set up.
  pub Leaked-Released :
      (cb cb' : KrpingCb) (ret : ℤ) (w w' : World)
      → ((a : ℕ) → w.next ≤ a → w.live a ≡ none)
      → Leaked u (queued_cb cb w) (queued w) (cb', ret) w'
      → Returns (λ _ w''. Released u w w'') (krping_free_qp cb' w')
  unfolding krping_free_qp
  Leaked-Released cb cb' ret w w' unused (bad, self, qp, cq, pd, scarce, l) =
      let n = w.next in
      let w1 = record w' { live = put w'.live (n + 1 + 1) none } in
      let w2 = record w' { live = put w1.live (n + 1) none } in
      rw
        (
          qp,
          destroy-ok Kernel.qp (n + 1 + 1) w' (ground (arith, l (n + 1 + 1))),
          cq,
          destroy-ok Kernel.cq (n + 1) w1 (ground (arith, l (n + 1))),
          pd,
          destroy-ok Kernel.pd n w2 (ground (arith, l n)),
        )
        (returns (
          inr (
            scarce,
            (
              n + 1 + 1 + 1,
              omega arith,
              λ a. ground (arith, l a, unused n, unused (n + 1), unused (n + 1 + 1)),
            ),
          )))

  module _ (cb : KrpingCb) (w : World) (client : is_zero cb.server ≡ true) (fresh : Fresh cb)
      (clean : is_clean cb.to_come ≡ true) (id : w.live cb.cm_id ≡ some Kernel.cm_id)
      (low : 0 < w.next) (unused : (a : ℕ) → w.next ≤ a → w.live a ≡ none)
      (mapped : (t : ℕ) → mapped_badly (u.map_mr_sg t) (pages cb.size) ≡ false) where
    pub filled-Whole :
        (cb' : KrpingCb) (w' : World)
        → cb' ≡ filled cb w cb'
        → w' ≡ buffered (queued w)
        → Whole v u w unused cb' w' (pages cb.size)
    filled-Whole cb' w' b e =
        let zeroed : pointers (filled cb w cb')
            ≡ all_made cb.self cb.server cb.cm_id cb.size (pages cb.size) w.next =
          rw (fresh.dma_mr, fresh.rdma_mr, fresh.start_mr) refl in
        record {
          pointing =
              ap pointers b
              ∙ zeroed
              ∙ ap
                  (λ (c : KrpingCb). all_made c.self c.server c.cm_id c.size (pages cb.size) w.next)
                  (sym b);
          live = ap World.live e;
          id = ap w.live (ap KrpingCb.cm_id b) ∙ id;
          clean = ap is_clean (ap KrpingCb.to_come b) ∙ clean;
        }

    after_buffers :
        (cb' : KrpingCb) (w' : World)
        → cb' ≡ filled cb w cb'
        → w' ≡ buffered (queued w)
        → Safe (λ _ w''. Released u w w'') (ping_when_connected v u cb' w')
    after_buffers cb' w' b e =
        weaken-Safe
          (ping_when_connected-Restored v u w unused (pages cb.size) mapped cb' w'
            (filled-Whole cb' w' b e))
          λ _ w'' r. inl r

    pub later-Fresh : Fresh (queued_cb cb w)
    later-Fresh = record {
      dma_mr = fresh.dma_mr;
      rdma_mr = fresh.rdma_mr;
      start_mr = fresh.start_mr;
      reg_mr = fresh.reg_mr;
      start_buf = fresh.start_buf;
    }

    pub unused_later : (a : ℕ) → (queued w).next ≤ a → (queued w).live a ≡ none
    unused_later a h = ground (arith, unused a)

    -- After the queues have been made.
    after_queues :
        Safe
          (λ _ w''. Released u w w'')
          ((krping_setup_buffers v u (queued_cb cb w) >>= λ out.
              if not (is_zero out.1) then krping_free_qp out.0 else ping_when_connected v u out.0)
            (queued w))
    after_queues =
        elim (krping_setup_buffers-cases v u maps (queued_cb cb w) (queued w) later-Fresh
          (ground arith) (omega arith) unused_later) [
            | inl leaked ↦
                after-Safe leaked
                  λ out w' l. rw l.0 (Returns-Safe (Leaked-Released cb out.0 out.1 w w' unused l))
            | inr made ↦ after-Safe made λ out w' (z, b, e). rw z (after_buffers out.0 w' b e)
          ]

    -- After the address and the route have been resolved.
    after_binding :
        Safe
          (λ _ w''. Released u w w'')
          ((krping_setup_qp v cb cb.cm_id >>= λ out.
              if not (is_zero out.1)
              then pure tt
              else krping_setup_buffers v u out.0 >>= λ out'.
                  if not (is_zero out'.1)
                  then krping_free_qp out'.0
                  else ping_when_connected v u out'.0)
            w)
    after_binding = elim (krping_setup_qp-cases v cb w client id unused) [
      | inl undone ↦ after-Safe undone λ out w' (bad, self, l). rw bad (stops (inl l))
      | inr made ↦ rw made after_queues
    ]

  pub set_service-none :
      (cb : KrpingCb) (w : World) → w.live cb.cm_id ≡ some Kernel.cm_id → set_service cb w ≡ ok tt w
  set_service-none cb w id = elim (Bool-cases (cb.tos == 0)) [
    | inl y ↦ rw y refl
    | inr n ↦ rw (n, alive-ok Kernel.cm_id cb.cm_id w id) refl
  ]

  pub Fresh-Keeps : {cb cb' : KrpingCb} {w w' : World} → Keeps cb w cb' w' → Fresh cb → Fresh cb'
  Fresh-Keeps k f = record {
    dma_mr = ap (λ (p : Pointers). p.dma_mr) k.same ∙ f.dma_mr;
    rdma_mr = ap (λ (p : Pointers). p.rdma_mr) k.same ∙ f.rdma_mr;
    start_mr = ap (λ (p : Pointers). p.start_mr) k.same ∙ f.start_mr;
    reg_mr = ap (λ (p : Pointers). p.reg_mr) k.same ∙ f.reg_mr;
    start_buf = ap (λ (p : Pointers). p.start_buf) k.same ∙ f.start_buf;
  }

  pub Released-Keeps :
      (w w1 w' : World) → w1.live ≡ w.live → w1.next ≡ w.next → Released u w1 w' → Released u w w'
  Released-Keeps w w1 w' l n (inl r) = inl λ a. r a ∙ ap (λ (f : ℕ → Option Kernel.Kind). f a) l
  Released-Keeps w w1 w' l n (inr (s, (p, h, r))) = inr (
    s,
    (
      p,
      omega (arith, n, h),
      λ a.
          r a
          ∙ ap
              (λ (f : ℕ → Option Kernel.Kind).
                if (a == p) || (a == p + 1) then some Kernel.dma_map else f a)
              l,
    ),
  )

  pub krping_run_client-Released :
      (resolve : Sockaddr → ℕ → ℤ) (cb : KrpingCb) (w : World)
      → is_zero cb.server ≡ true
      → Fresh cb
      → at_least cb.state route_resolved ≡ false
      → is_binding cb.to_come ≡ true
      → w.live cb.cm_id ≡ some Kernel.cm_id
      → 0 < w.next
      → ((a : ℕ) → w.next ≤ a → w.live a ≡ none)
      → ((t : ℕ) → mapped_badly (u.map_mr_sg t) (pages cb.size) ≡ false)
      → Safe (λ _ w'. Released u w w') (krping_run_client v u resolve cb w)
  unfolding krping_run_client
  krping_run_client-Released resolve cb w client fresh idle binding id low unused mapped =
      rw (set_service-none cb w id) (
        chain-Safe (krping_bind_client-Slept v u resolve cb w id client idle binding)
          λ out w1 (k, c). bound out.0 out.1 w1 k c)
    where
      bound :
          (cb1 : KrpingCb) (ret : ℤ) (w1 : World)
          → Keeps cb w cb1 w1
          → (is_zero ret ≡ true → is_clean cb1.to_come ≡ true)
          → Safe
              (λ _ w'. Released u w w')
              ((if not (is_zero ret)
                  then pure tt
                  else krping_setup_qp v cb1 cb1.cm_id >>= λ out.
                      if not (is_zero out.1)
                      then pure tt
                      else krping_setup_buffers v u out.0 >>= λ out'.
                          if not (is_zero out'.1)
                          then krping_free_qp out'.0
                          else ping_when_connected v u out'.0)
                w1)
      bound cb1 ret w1 k c = elim (Bool-cases (is_zero ret)) [
        | inr n ↦ rw n (stops (inl λ a. ap (λ (f : ℕ → Option Kernel.Kind). f a) k.live))
        | inl y ↦ rw y (
            weaken-Safe
              (after_binding cb1 w1 (ap is_zero (ap (λ (p : Pointers). p.server) k.same) ∙ client)
                (Fresh-Keeps k fresh) (c y) (Keeps-alive (λ p. p.cm_id) Kernel.cm_id k id)
                (omega (arith, k.next))
                (λ a h.
                  ap (λ (f : ℕ → Option Kernel.Kind). f a) k.live
                  ∙ unused a (omega (arith, k.next)))
                (λ t.
                  ap (λ n. mapped_badly (u.map_mr_sg t) (pages n))
                    (ap (λ (p : Pointers). p.size) k.same)
                  ∙ mapped t))
              λ _ w' r. Released-Keeps w w1 w' k.live k.next r)
      ]
