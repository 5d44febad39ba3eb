-- ===== src/Krping/Sleeps.antt =====
-- The sleep and the functions that sleep until a connection is up, whatever happens meanwhile.
use rpc_kern.Base.{
  ◌≡◌, refl, inl, inr, Bool, true, false, List, [], ◌∷◌, ℤ, pos, negsuc, is_zero, arith, some,
  if◌then◌else◌, Bool-cases,
}
use rpc_kern.Kernel
use rpc_kern.Kernel.{CmEvent, World, Verbs, Run, ok, M, and_then, pure, call, tick, ◌>>=◌, ◌>>◌}
use rpc_kern.Kernel.Owned.{alive-ok}
use rpc_kern.Kernel.Returns.{Returns, returns, chain}
use rpc_kern.Kernel.Safe.{Safe, stops, sleeps, chain-Safe, after-Safe, weaken-Safe}
use rpc_kern.Krping.{
  TestState, Occurrence, cm_event, completed, signal, KrpingCb, KrpingVerbs, error, is_state,
  at_least, connected,
}
use rpc_kern.Krping.Cm.{krping_occur, krping_sleep, krping_wait, krping_connect_client}
use rpc_kern.Krping.Keeps.{
  Keeps, Keeps-trans, Keeps-alive, is_clean, krping_cma_event_handler-Keeps,
  krping_cq_event_handler-Keeps,
}

-- What is still to come holds no RDMA write or read.
abbrev pub Slept : KrpingCb → World → KrpingCb → World → Type 0
Slept cb w cb' w' = Keeps cb w cb' w' × (is_clean cb'.to_come ≡ true)

module _ (v : Verbs) (u : KrpingVerbs) where
  krping_occur-Keeps :
      (cb : KrpingCb) (x : Occurrence) (s : List Occurrence) (w : World)
      → w.live cb.qp ≡ some Kernel.qp
      → is_clean (x ∷ s) ≡ true
      → Returns (λ cb' w'. Keeps cb w cb' w') (krping_occur v u cb x w)
  unfolding krping_occur
  krping_occur-Keeps cb (cm_event e) s w queue clean =
      chain (krping_cma_event_handler-Keeps v u cb e w) λ out w' k. returns k
  krping_occur-Keeps cb (completed polled last) s w queue clean =
      krping_cq_event_handler-Keeps v u cb polled last w queue (ground arith)
  krping_occur-Keeps cb signal s w queue clean =
      returns (record { same = refl; live = refl; next = refl })

  is_clean-tail :
      (x : Occurrence) (s : List Occurrence) → is_clean (x ∷ s) ≡ true → is_clean s ≡ true
  is_clean-tail x s h = ground arith

  module _ (condition : TestState → Bool) where
    woken-Slept :
        (cb cb' : KrpingCb) (b : Bool) (s : List Occurrence) (w w' : World)
        → Keeps cb w cb' w'
        → is_clean s ≡ true
        → Safe (Slept cb' w') (krping_sleep v u condition cb' s w')
        → Safe
            (Slept cb w)
            (if b then ok (record cb' { to_come = s }) w' else krping_sleep v u condition cb' s w')
    woken-Slept cb cb' true s w w' k clean rest =
        stops (record { same = k.same; live = k.live; next = k.next }, clean)
    woken-Slept cb cb' false s w w' k clean rest =
        weaken-Safe rest λ out w'' (k', c). (Keeps-trans k k', c)

    krping_sleep-Slept :
        (cb : KrpingCb) (s : List Occurrence) (w : World)
        → w.live cb.qp ≡ some Kernel.qp
        → is_clean s ≡ true
        → Safe (Slept cb w) (krping_sleep v u condition cb s w)
    unfolding krping_sleep
    krping_sleep-Slept cb [] w queue clean = sleeps
    krping_sleep-Slept cb (signal ∷ s) w queue clean =
        stops (record { same = refl; live = refl; next = refl }, clean)
    krping_sleep-Slept cb (x ∷ s) w queue clean =
        after-Safe (krping_occur-Keeps cb x s w queue clean) λ cb' w' k.
          woken-Slept cb cb' _ s w w' k (is_clean-tail x s clean) (
            krping_sleep-Slept cb' s w' (Keeps-alive (λ p. p.qp) Kernel.qp k queue)
              (is_clean-tail x s clean))

    pub krping_wait-Slept :
        (cb : KrpingCb) (w : World)
        → w.live cb.qp ≡ some Kernel.qp
        → is_clean cb.to_come ≡ true
        → Safe (Slept cb w) (krping_wait v u condition cb w)
    unfolding krping_wait
    krping_wait-Slept cb w queue clean = elim (Bool-cases (condition cb.state)) [
      | inl y ↦ rw y (stops (record { same = refl; live = refl; next = refl }, clean))
      | inr n ↦ rw n (krping_sleep-Slept cb cb.to_come w queue clean)
    ]

  pub krping_connect_client-Slept :
      (cb : KrpingCb) (w : World)
      → w.live cb.cm_id ≡ some Kernel.cm_id
      → w.live cb.qp ≡ some Kernel.qp
      → is_clean cb.to_come ≡ true
      → Safe (λ out w'. Slept cb w out.0 w') (krping_connect_client v u cb w)
  unfolding krping_connect_client call
  krping_connect_client-Slept cb w id queue clean =
      elim (Bool-cases (is_zero (v.connect w.clock))) [
        | inr n ↦
            rw (alive-ok Kernel.cm_id cb.cm_id w id, n)
              (stops (record { same = refl; live = refl; next = refl }, clean))
        | inl y ↦
            rw (alive-ok Kernel.cm_id cb.cm_id w id, y)
              (chain-Safe (krping_wait-Slept (λ s. at_least s connected) cb (tick w) queue clean)
                λ cb' w' (k, c).
                  answer cb' (is_state cb'.state error) w'
                    (record { same = k.same; live = k.live; next = k.next }) c)
      ]
    where
      answer :
          (cb' : KrpingCb) (b : Bool) (w' : World)
          → Keeps cb w cb' w'
          → is_clean cb'.to_come ≡ true
          → Safe
              (λ (out : KrpingCb × ℤ) w''. Slept cb w out.0 w'')
              ((if b then pure (cb', negsuc 0) else pure (cb', pos 0)) w')
      answer cb' true w' k c = stops (k, c)
      answer cb' false w' k c = stops (k, c)
