-- ===== src/Krping/Opened.antt =====
-- krping_init_client and krping_fin_client: what the one takes, the other gives back.
use rpc_kern.Base.{
  ℕ, ◌≤◌, ◌<◌, ◌≡◌, refl, sym, ◌∙◌, ap, inl, inr, true, false, not, none, some, ◌==◌, if◌then◌else◌,
  arith, ℤ, is_zero, Bool-cases, Option,
}
use rpc_kern.Kernel
use rpc_kern.Kernel.{
  World, Verbs, Run, ok, M, and_then, pure, alive, put, tick, kfree, call, ◌>>=◌, ◌>>◌,
}
use rpc_kern.Kernel.Owned.{alive-ok, kfree-ok}
use rpc_kern.Kernel.Returns.{Returns, returns, chain, weaken, and_then_assoc}
use rpc_kern.Kernel.Safe.{Safe, stops, chain-Safe, after-Safe, weaken-Safe, Returns-Safe}
use rpc_kern.Rdma.{Sockaddr}
use rpc_kern.Krping.{KrpingCb, KrpingVerbs, at_least, route_resolved}
use rpc_kern.Krping.Setup.{
  krping_setup_qp, krping_setup_buffers, krping_free_qp, krping_free_buffers, pages,
}
use rpc_kern.Krping.Ping.{mapped_badly}
use rpc_kern.Krping.Client.{
  init_err0, init_err1, init_err2, init_connect, krping_init_client, krping_fin_client,
  krping_run_err2, krping_post_recv,
}
use rpc_kern.Krping.Keeps.{Keeps, Keeps-alive, Pointers, is_clean}
use rpc_kern.Krping.Sleeps.{krping_connect_client-Slept}
use rpc_kern.Krping.Binding.{krping_bind_client-Slept, is_binding}
use rpc_kern.Krping.Queues.{queued, queued_cb, krping_setup_qp-cases}
use rpc_kern.Krping.Buffers.{Fresh, krping_setup_buffers-cases}
use rpc_kern.Krping.Released.{Whole, Whole-frees, Whole-Keeps, Whole-CanPing, Whole-id}
use rpc_kern.Krping.Runs.{
  Released, filled-Whole, later-Fresh, unused_later, Leaked-Released, set_service-none, Fresh-Keeps,
  Released-Keeps,
}

-- Without a block, the one at `self` is freed, and the rest is as after a whole run; with a block,
-- krping_fin_client on it returns and leaves what was alive.
abbrev pub Opened : KrpingVerbs → (self : ℕ) → World → Option KrpingCb → World → Type 0
Opened u self w none w' = Released u (record w { live = put w.live self none }) w'
Opened u self w (some cb) w' =
    Returns (λ _ w''. (a : ℕ) → w''.live a ≡ w.live a) (krping_fin_client cb w')

module _ (v : Verbs) (u : KrpingVerbs) (cb : KrpingCb) (w : World) (low : 0 < w.next)
    (unused : (a : ℕ) → w.next ≤ a → w.live a ≡ none) (block : w.live cb.self ≡ some Kernel.memory)
    (there : (cb.self == 0) ≡ false) where
  -- The label `err0`, when all but the block has been released.
  init_err0-Opened :
      (cb' : KrpingCb) (w' : World)
      → cb'.self ≡ cb.self
      → Released u w w'
      → Returns (Opened u cb.self w) (init_err0 cb' w')
  init_err0-Opened cb' w' self (inl r) =
      rw (self, kfree-ok cb.self w' there (r cb.self ∙ block))
        (returns (inl λ a. ground (arith, r a)))
  init_err0-Opened cb' w' self (inr (s, (n, h, r))) =
      let here : w'.live cb.self ≡ some Kernel.memory =
        ground (arith, r cb.self, block, unused cb.self) in
      rw (self, kfree-ok cb.self w' there here)
        (returns (inr (s, (n, h, λ a. ground (arith, r a, unused cb.self, block)))))

  module _ (len : ℕ) where
    init_err2-Opened :
        (cb' : KrpingCb) (w' : World)
        → Whole v u w unused cb' w' len
        → cb'.self ≡ cb.self
        → Returns (Opened u cb.self w) (init_err2 cb' w')
    unfolding krping_run_err2
    init_err2-Opened cb' w' h self =
        let e : init_err2 cb' w' ≡ and_then (krping_run_err2 cb' w') (λ _. init_err0 cb') = sym (
          and_then_assoc (krping_free_buffers cb' w') (λ _. krping_free_qp cb')
            (λ _. init_err0 cb')) in
        rw e (
          chain (Whole-frees v u w unused cb' w' len h)
            λ _ w'' r. init_err0-Opened cb' w'' self (inl r))

    connect_answer-Opened :
        (ret : ℤ) (cb' : KrpingCb) (w' : World)
        → Whole v u w unused cb' w' len
        → cb'.self ≡ cb.self
        → Safe
            (Opened u cb.self w)
            ((if not (is_zero ret) then init_err2 cb' else pure (some cb')) w')
    unfolding krping_fin_client krping_run_err2
    connect_answer-Opened ret cb' w' h self = elim (Bool-cases (is_zero ret)) [
      | inr n ↦ rw n (Returns-Safe (init_err2-Opened cb' w' h self))
      | inl y ↦ rw y (stops (Whole-frees v u w unused cb' w' len h))
    ]

    init_connect-Opened :
        (cb' : KrpingCb) (w' : World)
        → Whole v u w unused cb' w' len
        → cb'.self ≡ cb.self
        → Safe (Opened u cb.self w) (init_connect v u cb' w')
    unfolding init_connect krping_post_recv call
    init_connect-Opened cb' w' h self =
        let h1 : Whole v u w unused cb' (tick w') len = record {
          pointing = h.pointing;
          live = h.live;
          id = h.id;
          clean = h.clean;
        } in
        rw (alive-ok Kernel.qp cb'.qp w' (Whole-CanPing v u w unused h).queue)
          (elim (Bool-cases (is_zero (v.post_recv w'.clock))) [
            | inr bad ↦ rw bad (Returns-Safe (init_err2-Opened cb' (tick w') h1 self))
            | inl y ↦ rw y (
                chain-Safe
                  (krping_connect_client-Slept v u cb' (tick w') (Whole-id v u w unused h1)
                    (Whole-CanPing v u w unused h1).queue h.clean)
                  λ out w'' (k, c).
                    connect_answer-Opened out.1 out.0 w'' (Whole-Keeps v u w unused h1 k c)
                      (ap (λ (p : Pointers). p.self) k.same ∙ self))
          ])

  module _ (maps : (t : ℕ) → v.dma_map_ok t ≡ true) (client : is_zero cb.server ≡ true)
      (fresh : Fresh cb) (id : w.live cb.cm_id ≡ some Kernel.cm_id)
      (mapped : (t : ℕ) → mapped_badly (u.map_mr_sg t) (pages cb.size) ≡ false) where
    module _ (clean : is_clean cb.to_come ≡ true) where
      -- After the queues have been made.
      after_queues-Opened : Safe (Opened u cb.self w) (
          (krping_setup_buffers v u (queued_cb cb w) >>= λ out.
          if not (is_zero out.1) then init_err1 out.0 else init_connect v u out.0)
            (queued w))
      after_queues-Opened =
          elim (krping_setup_buffers-cases v u maps (queued_cb cb w) (queued w)
            (later-Fresh v u maps cb w client fresh clean id low unused mapped) (ground arith)
            (omega arith) (unused_later v u maps cb w client fresh clean id low unused mapped)) [
              | inl leaked ↦ after-Safe leaked λ out w' l. rw l.0 (
                  Returns-Safe (
                    chain (Leaked-Released v u maps cb out.0 out.1 w w' unused l)
                      λ _ w'' r. init_err0-Opened out.0 w'' l.1 r))
              | inr made ↦ after-Safe made λ out w' (z, b, e). rw z (
                  init_connect-Opened (pages cb.size) out.0 w'
                    (filled-Whole v u maps cb w client fresh clean id low unused mapped out.0 w' b
                      e)
                    (ap KrpingCb.self b))
            ]

      -- After the address and the route have been resolved.
      after_binding-Opened : Safe (Opened u cb.self w) (
          (krping_setup_qp v cb cb.cm_id >>= λ out.
          if not (is_zero out.1)
          then init_err0 out.0
          else krping_setup_buffers v u out.0 >>= λ out'.
              if not (is_zero out'.1) then init_err1 out'.0 else init_connect v u out'.0)
            w)
      after_binding-Opened = elim (krping_setup_qp-cases v cb w client id unused) [
        | inl undone ↦
            after-Safe undone λ out w' (bad, self, l).
              rw bad (Returns-Safe (init_err0-Opened out.0 w' self (inl l)))
        | inr made ↦ rw made after_queues-Opened
      ]

module _ (v : Verbs) (u : KrpingVerbs) (maps : (t : ℕ) → v.dma_map_ok t ≡ true) where
  Opened-Keeps :
      (cb cb' : KrpingCb) (w w1 : World) (out : Option KrpingCb) (w' : World)
      → Keeps cb w cb' w1
      → Opened u cb'.self w1 out w'
      → Opened u cb.self w out w'
  Opened-Keeps cb cb' w w1 none w' k r =
      let live : put w1.live cb'.self none ≡ put w.live cb.self none =
        ap (λ (l : ℕ → Option Kernel.Kind). put l cb'.self none) k.live
        ∙ ap (λ (p : Pointers). put w.live p.self none) k.same in
      Released-Keeps v u maps (record w { live = put w.live cb.self none })
        (record w1 { live = put w1.live cb'.self none }) w' live k.next r
  Opened-Keeps cb cb' w w1 (some c) w' k r =
      weaken r λ _ w'' l a. l a ∙ ap (λ (f : ℕ → Option Kernel.Kind). f a) k.live

  -- krping_init_client on a new block of a client, whatever the kernel and the adapter answer but
  -- that mappings succeed and that ib_map_mr_sg covers the pages of the size, and whatever events
  -- and completions come, of which none is before the route is resolved and none an RDMA read or
  -- write; addresses not yet given out are not alive, and the block and its id are: it uses nothing
  -- that is not alive, and sleeps for ever or returns. If it returns a block, krping_fin_client on
  -- that block returns, and leaves alive exactly what was alive before krping_init_client. If it
  -- returns `NULL`, what is alive is what was alive before without the block, and if some
  -- allocation of a buffer or of the region fails, perhaps two mappings more.
  pub krping_init_client-krping_fin_client :
      (resolve : Sockaddr → ℕ → ℤ) (cb : KrpingCb) (w : World)
      → is_zero cb.server ≡ true
      → Fresh cb
      → at_least cb.state route_resolved ≡ false
      → is_binding cb.to_come ≡ true
      → w.live cb.cm_id ≡ some Kernel.cm_id
      → w.live cb.self ≡ some Kernel.memory
      → (cb.self == 0) ≡ false
      → 0 < w.next
      → ((a : ℕ) → w.next ≤ a → w.live a ≡ none)
      → ((t : ℕ) → mapped_badly (u.map_mr_sg t) (pages cb.size) ≡ false)
      → Safe (Opened u cb.self w) (krping_init_client v u resolve cb w)
  unfolding krping_init_client
  krping_init_client-krping_fin_client resolve cb w client fresh idle binding id block there low
        unused mapped =
      rw (set_service-none v u maps cb w id) (
        chain-Safe (krping_bind_client-Slept v u resolve cb w id client idle binding)
          λ out w1 (k, c).
            weaken-Safe (bound out.0 out.1 w1 k c) λ r w'. Opened-Keeps cb out.0 w w1 r w' k)
    where
      bound :
          (cb1 : KrpingCb) (ret : ℤ) (w1 : World)
          → Keeps cb w cb1 w1
          → (is_zero ret ≡ true → is_clean cb1.to_come ≡ true)
          → Safe (Opened u cb1.self w1) (
              (if not (is_zero ret)
                  then init_err0 cb1
                  else krping_setup_qp v cb1 cb1.cm_id >>= λ out.
                      if not (is_zero out.1)
                      then init_err0 out.0
                      else krping_setup_buffers v u out.0 >>= λ out'.
                          if not (is_zero out'.1)
                          then init_err1 out'.0
                          else init_connect v u out'.0)
                w1)
      bound cb1 ret w1 k c =
          let at = λ (a : ℕ). ap (λ (f : ℕ → Option Kernel.Kind). f a) k.live in
          let low1 : 0 < w1.next = omega (arith, k.next) in
          let unused1 : (a : ℕ) → w1.next ≤ a → w1.live a ≡ none =
            λ a h. at a ∙ unused a (omega (arith, k.next)) in
          let block1 = Keeps-alive (λ p. p.self) Kernel.memory k block in
          let there1 : (cb1.self == 0) ≡ false =
            ap (λ (p : Pointers). p.self == 0) k.same ∙ there in
          elim (Bool-cases (is_zero ret)) [
            | inr n ↦ rw n (
                Returns-Safe (
                  init_err0-Opened v u cb1 w1 low1 unused1 block1 there1 cb1 w1 refl
                    (inl λ a. refl)))
            | inl y ↦ rw y (
                after_binding-Opened v u cb1 w1 low1 unused1 block1 there1 maps
                  (ap is_zero (ap (λ (p : Pointers). p.server) k.same) ∙ client)
                  (Fresh-Keeps v u maps k fresh) (Keeps-alive (λ p. p.cm_id) Kernel.cm_id k id)
                  (λ t.
                    ap (λ n. mapped_badly (u.map_mr_sg t) (pages n))
                      (ap (λ (p : Pointers). p.size) k.same)
                    ∙ mapped t)
                  (c y))
          ]
