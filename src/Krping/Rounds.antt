-- ===== src/Krping/Rounds.antt =====
-- The ping loop changes no object and none of the block's pointers, whatever happens meanwhile.
use rpc_kern.Base.{
  ℕ, zero, suc, ◌+◌, ◌≡◌, refl, ◌∙◌, ap, inl, inr, Bool, true, false, not, is_zero, some,
  if◌then◌else◌, Bool-cases,
}
use rpc_kern.Kernel
use rpc_kern.Kernel.{World, Verbs, Run, ok, M, and_then, pure, alive, call, tick, ◌>>=◌, ◌>>◌}
use rpc_kern.Kernel.Owned.{alive-ok}
use rpc_kern.Kernel.Returns.{Returns, returns}
use rpc_kern.Kernel.Safe.{Safe, stops, chain-Safe, after-Safe, weaken-Safe}
use rpc_kern.Krping.{
  TestState, KrpingCb, KrpingVerbs, error, is_state, at_least, rdma_read_adv, rdma_write_adv,
  rdma_write_complete,
}
use rpc_kern.Krping.Ping.{
  mapped_badly, krping_rdma_rkey, krping_format_send, krping_post_send, fill_text, ping_back,
  ping_round, ping_rounds, krping_test_client, complete, broken, next_char, Ping, rounds,
}
use rpc_kern.Krping.Cm.{krping_wait}
use rpc_kern.Krping.Keeps.{Keeps, Keeps-trans, Keeps-alive, Pointers, is_clean}
use rpc_kern.Krping.Sleeps.{Slept, krping_wait-Slept}

-- What a ping uses.
pub record CanPing (cb : KrpingCb) (w : World) : Type 0 where
  pub queue : w.live cb.qp ≡ some Kernel.qp
  pub region : w.live cb.reg_mr ≡ some Kernel.mr

pub Keeps-CanPing :
    {cb cb' : KrpingCb} {w w' : World} → Keeps cb w cb' w' → CanPing cb w → CanPing cb' w'
Keeps-CanPing k c = record {
  queue = Keeps-alive (λ p. p.qp) Kernel.qp k c.queue;
  region = Keeps-alive (λ p. p.reg_mr) Kernel.mr k c.region;
}

module _ (v : Verbs) (u : KrpingVerbs) (len : ℕ)
    (mapped : (t : ℕ) → mapped_badly (u.map_mr_sg t) len ≡ false) where
  -- The keys are renewed, which changes no pointer.
  krping_format_send-Keeps :
      (cb : KrpingCb) (buf : ℕ) (w : World)
      → cb.page_list_len ≡ len
      → CanPing cb w
      → Returns
          (λ cb' w'. Keeps cb w cb' w' × (cb'.to_come ≡ cb.to_come))
          (krping_format_send v u cb buf w)
  unfolding krping_format_send krping_rdma_rkey call
  krping_format_send-Keeps cb buf w l c =
      let m : mapped_badly (u.map_mr_sg w.clock) cb.page_list_len ≡ false = rw l (mapped w.clock) in
      elim (Bool-cases (is_zero (v.post_send (w.clock + 1)))) [
        | inl y ↦
            rw (alive-ok _ _ w c.region, m, alive-ok _ _ (tick w) c.queue, y)
              (returns (record { same = refl; live = refl; next = refl }, refl))
        | inr n ↦
            rw (alive-ok _ _ w c.region, m, alive-ok _ _ (tick w) c.queue, n)
              (returns (record { same = refl; live = refl; next = refl }, refl))
      ]

  krping_post_send-Keeps :
      (cb : KrpingCb) (w : World)
      → CanPing cb w
      → Returns
          (λ out w'. Keeps cb w out.0 w' × (out.0.to_come ≡ cb.to_come))
          (krping_post_send v cb w)
  unfolding krping_post_send call
  krping_post_send-Keeps cb w c = elim (Bool-cases (is_zero (v.post_send w.clock))) [
    | inl y ↦
        rw (alive-ok _ _ w c.queue, y)
          (returns (record { same = refl; live = refl; next = refl }, refl))
    | inr n ↦
        rw (alive-ok _ _ w c.queue, n)
          (returns (record { same = refl; live = refl; next = refl }, refl))
  ]

  abbrev Pinged : KrpingCb → World → KrpingCb × Ping → World → Type 0
  Pinged cb w out w' = Slept cb w out.0 w'

  -- After a send: the peer's answer is awaited, and then something else done.
  await-Pinged :
      (sent : Bool) (condition : TestState → Bool) (good : TestState) (cb : KrpingCb) (w : World)
      (cb' : KrpingCb) (w' : World) (next : KrpingCb → M (KrpingCb × Ping))
      → Keeps cb w cb' w'
      → is_clean cb'.to_come ≡ true
      → w'.live cb'.qp ≡ some Kernel.qp
      → ((cb'' : KrpingCb) (w'' : World) → Slept cb w cb'' w'' → Safe (Pinged cb w) (next cb'' w''))
      → Safe (Pinged cb w) (
          (if not sent
              then pure (cb', broken)
              else krping_wait v u condition cb' >>= λ cb''.
                  if not (is_state cb''.state good) then pure (cb'', broken) else next cb'')
            w')
  await-Pinged false condition good cb w cb' w' next k clean queue rest = stops (k, clean)
  await-Pinged true condition good cb w cb' w' next k clean queue rest =
      chain-Safe (krping_wait-Slept v u condition cb' w' queue clean)
        λ cb'' w'' (k', c). go cb'' w'' (is_state cb''.state good) (Keeps-trans k k', c)
    where
      go :
          (cb'' : KrpingCb) (w'' : World) (b : Bool)
          → Slept cb w cb'' w''
          → Safe (Pinged cb w) ((if not b then pure (cb'', broken) else next cb'') w'')
      go cb'' w'' false s = stops s
      go cb'' w'' true s = rest cb'' w'' s

  ping_back-Pinged :
      (cb : KrpingCb) (w : World)
      → cb.page_list_len ≡ len
      → CanPing cb w
      → is_clean cb.to_come ≡ true
      → Safe (Pinged cb w) (ping_back v u cb w)
  unfolding ping_back
  ping_back-Pinged cb w l c clean =
      after-Safe (krping_format_send-Keeps cb cb.rdma_buf w l c) λ cb1 w1 (k1, s1).
        after-Safe (krping_post_send-Keeps cb1 w1 (Keeps-CanPing k1 c)) λ out w2 (k2, s2).
          let k = Keeps-trans k1 k2 in
          await-Pinged (is_zero out.1) (λ s. at_least s rdma_write_complete) rdma_write_complete cb
            w out.0 w2 (λ cb3. pure (cb3, complete)) k (ap is_clean (s2 ∙ s1) ∙ clean)
            (Keeps-CanPing k c).queue λ cb3 w3 s. stops s

  unless_error :
      (b : Bool) (cb : KrpingCb) (w : World) (cb' : KrpingCb) (w' : World)
      (next : M (KrpingCb × Ping))
      → Slept cb w cb' w'
      → Safe (Pinged cb w) (next w')
      → Safe (Pinged cb w) ((if b then pure (cb', broken) else next) w')
  unless_error true cb w cb' w' next s rest = stops s
  unless_error false cb w cb' w' next s rest = rest

  ping_round-Pinged :
      (cb : KrpingCb) (ping start : ℕ) (w : World)
      → cb.page_list_len ≡ len
      → CanPing cb w
      → is_clean cb.to_come ≡ true
      → Safe (Pinged cb w) (ping_round v u cb ping start w)
  unfolding ping_round
  ping_round-Pinged cb ping start w l c clean =
      let text = fill_text (u.ping_text ping) start cb.size in
      let cb0 = record cb { state = rdma_read_adv; start_text = text } in
      let c0 : CanPing cb0 w = record { queue = c.queue; region = c.region } in
      after-Safe (krping_format_send-Keeps cb0 cb.start_buf w l c0) λ cb1 w1 (k1, s1).
        let k1 : Keeps cb w cb1 w1 = record { same = k1.same; live = k1.live; next = k1.next } in
        unless_error (is_state cb1.state error) cb w cb1 w1 _ (k1, ap is_clean s1 ∙ clean)
          (after-Safe (krping_post_send-Keeps cb1 w1 (Keeps-CanPing k1 c)) λ out w2 (k2, s2).
            let k = Keeps-trans k1 k2 in
            await-Pinged (is_zero out.1) (λ s. at_least s rdma_write_adv) rdma_write_adv cb w out.0
              w2 (ping_back v u) k (ap is_clean (s2 ∙ s1) ∙ clean) (Keeps-CanPing k c).queue
              λ cb3 w3 (k3, c3).
                weaken-Safe
                  (ping_back-Pinged cb3 w3 (ap (λ (p : Pointers). p.page_list_len) k3.same ∙ l)
                    (Keeps-CanPing k3 c) c3)
                  λ o w' (k', c'). (Keeps-trans k3 k', c'))

  next_round :
      (cb cb' : KrpingCb) (w w' : World) (out : Ping) (left ping start : ℕ)
      → Slept cb w cb' w'
      → Safe
          (λ (o : KrpingCb × ℕ) w''. Slept cb' w' o.0 w'')
          (ping_rounds v u left cb' (ping + 1) (next_char start) w')
      → Safe
          (λ (o : KrpingCb × ℕ) w''. Slept cb w o.0 w'')
          ((elim out as (λ _. M (KrpingCb × ℕ)) [
            | complete ↦ ping_rounds v u left cb' (ping + 1) (next_char start)
            | broken ↦ pure (cb', ping)
          ])
            w')
  next_round cb cb' w w' complete left ping start (k, c) rest =
      weaken-Safe rest λ o w'' (k', c'). (Keeps-trans k k', c')
  next_round cb cb' w w' broken left ping start s rest = stops s

  ping_rounds-Slept :
      (left : ℕ) (cb : KrpingCb) (ping start : ℕ) (w : World)
      → cb.page_list_len ≡ len
      → CanPing cb w
      → is_clean cb.to_come ≡ true
      → Safe (λ (o : KrpingCb × ℕ) w'. Slept cb w o.0 w') (ping_rounds v u left cb ping start w)
  unfolding ping_rounds
  ping_rounds-Slept zero cb ping start w l c clean =
      stops (record { same = refl; live = refl; next = refl }, clean)
  ping_rounds-Slept (suc left) cb ping start w l c clean =
      chain-Safe (ping_round-Pinged cb ping start w l c clean) λ out w' (k, c').
        next_round cb out.0 w w' out.1 left ping start (k, c')
          (ping_rounds-Slept left out.0 (ping + 1) (next_char start) w'
            (ap (λ (p : Pointers). p.page_list_len) k.same ∙ l) (Keeps-CanPing k c) c')

  pub krping_test_client-Slept :
      (cb : KrpingCb) (w : World)
      → cb.page_list_len ≡ len
      → CanPing cb w
      → is_clean cb.to_come ≡ true
      → Safe (λ (o : KrpingCb × ℕ) w'. Slept cb w o.0 w') (krping_test_client v u cb w)
  unfolding krping_test_client
  krping_test_client-Slept cb w l c clean = ping_rounds-Slept (rounds cb) cb 0 65 w l c clean
