-- ===== src/Krping/Endless.antt =====
-- The ping loop without a count: the rounds that the model gives it are enough, since each ping that
-- goes through uses up some of what is to come.
use rpc_kern.Base.{
  ℕ, zero, suc, ◌+◌, ◌<◌, ◌≤◌, ◌≡◌, refl, ◌∙◌, ap, inl, inr, Bool, true, false, not, List, [], ◌∷◌,
  arith, is_zero, if◌then◌else◌, Bool-cases, ◌==◌, length, ℤ,
}
use rpc_kern.Kernel
use rpc_kern.Kernel.{
  World, Verbs, Run, ok, fault, asleep, M, and_then, pure, alive, call, tick, ◌>>=◌, ◌>>◌,
}
use rpc_kern.Kernel.Safe.{Post, gives, hangs, chain-Post, and_then-agree, trivially, weaken-Post}
use rpc_kern.Krping.{
  TestState, Occurrence, signal, KrpingCb, KrpingVerbs, error, is_state, at_least, rdma_write_adv,
  rdma_write_complete, rdma_read_adv,
}
use rpc_kern.Krping.Cm.{krping_sleep, krping_wait, krping_occur}
use rpc_kern.Krping.Ping.{
  krping_format_send, krping_post_send, ping_back, ping_round, ping_rounds, krping_test_client,
  complete, broken, next_char, Ping, fill_text, krping_rdma_rkey, bug_on, mapped_badly,
}

module _ (v : Verbs) (u : KrpingVerbs) where
  module _ (condition : TestState → Bool) where
    woken-shorter :
        (b : Bool) (cb : KrpingCb) (s : List Occurrence) (w : World)
        → Post
            (λ (out : KrpingCb) w'. length out.to_come < length s)
            (krping_sleep v u condition cb s w)
        → Post
            (λ (out : KrpingCb) w'. length out.to_come < suc (length s))
            (if b then ok (record cb { to_come = s }) w else krping_sleep v u condition cb s w)
    woken-shorter true cb s w rest = gives (omega arith)
    woken-shorter false cb s w rest = weaken-Post rest λ out w' h. omega arith

    krping_sleep-shorter :
        (cb : KrpingCb) (s : List Occurrence) (w : World)
        → Post
            (λ (out : KrpingCb) w'. length out.to_come < length s)
            (krping_sleep v u condition cb s w)
    unfolding krping_sleep
    krping_sleep-shorter cb [] w = hangs
    krping_sleep-shorter cb (signal ∷ s) w = gives (omega arith)
    krping_sleep-shorter cb (x ∷ s) w =
        chain-Post (trivially (krping_occur v u cb x w))
          λ cb' w' _. woken-shorter _ cb' s w' (krping_sleep-shorter cb' s w')

    -- At most as much is to come after a wait, and less if the condition did not hold.
    krping_wait-uses :
        (cb : KrpingCb) (w : World)
        → Post
            (λ (out : KrpingCb) w'.
              (length out.to_come ≤ length cb.to_come)
              × (condition cb.state ≡ false → length out.to_come < length cb.to_come))
            (krping_wait v u condition cb w)
    unfolding krping_wait
    krping_wait-uses cb w = elim (Bool-cases (condition cb.state)) [
      | inl y ↦ rw y (gives (omega arith, λ n. cc))
      | inr n ↦
          rw n
            (weaken-Post (krping_sleep-shorter cb cb.to_come w) λ out w' h. (omega arith, λ _. h))
    ]

  -- The state is as it was, or ERROR.
  krping_rdma_rkey-state :
      (cb : KrpingCb) (buf : ℕ) (post_inv : Bool) (w : World)
      → Post
          (λ (out : KrpingCb × ℕ) w'.
            (out.0.to_come ≡ cb.to_come)
            × (is_state out.0.state error ≡ false → out.0.state ≡ cb.state))
          (krping_rdma_rkey v u cb buf post_inv w)
  unfolding krping_rdma_rkey call
  krping_rdma_rkey-state cb buf post_inv w =
      chain-Post (trivially (alive Kernel.mr cb.reg_mr w)) λ _ w1 _.
        chain-Post
          (trivially (bug_on (mapped_badly (u.map_mr_sg w1.clock) cb.page_list_len) (tick w1)))
          λ _ w2 _. chain-Post (trivially (alive Kernel.qp cb.qp w2)) λ _ w3 _.
            elim (Bool-cases (is_zero (v.post_send w3.clock))) [
              | inl y ↦ rw y (gives (refl, λ n. refl))
              | inr n ↦ rw n (gives (refl, λ n. cc))
            ]

  krping_format_send-state :
      (cb : KrpingCb) (buf : ℕ) (w : World)
      → Post
          (λ (out : KrpingCb) w'.
            (out.to_come ≡ cb.to_come) × (is_state out.state error ≡ false → out.state ≡ cb.state))
          (krping_format_send v u cb buf w)
  unfolding krping_format_send
  krping_format_send-state cb buf w =
      chain-Post (krping_rdma_rkey-state cb buf (not cb.server_invalidate) w) λ out w' h. gives h

  krping_post_send-state :
      (cb : KrpingCb) (w : World)
      → Post
          (λ (out : KrpingCb × ℤ) w'. (out.0.to_come ≡ cb.to_come) × (out.0.state ≡ cb.state))
          (krping_post_send v cb w)
  unfolding krping_post_send call
  krping_post_send-state cb w = chain-Post (trivially (alive Kernel.qp cb.qp w)) λ _ w1 _.
      elim (Bool-cases (is_zero (v.post_send w1.clock))) [
        | inl y ↦ rw y (gives (refl, refl))
        | inr n ↦ rw n (gives (refl, refl))
      ]

  -- A ping that goes through has used up some of what was to come.
  abbrev Used : KrpingCb → KrpingCb × Ping → World → Type 0
  Used cb out w' = out.1 ≡ complete → length out.0.to_come < length cb.to_come

  await-uses :
      (sent : Bool) (condition : TestState → Bool) (good : TestState) (n : ℕ) (cb : KrpingCb)
      (w : World) (next : KrpingCb → M (KrpingCb × Ping))
      → ((cb' : KrpingCb) (w' : World)
          → (length cb'.to_come ≤ length cb.to_come)
            × (condition cb.state ≡ false → length cb'.to_come < length cb.to_come)
          → Post
              (λ (out : KrpingCb × Ping) _. out.1 ≡ complete → length out.0.to_come < n)
              (next cb' w'))
      → Post
          (λ (out : KrpingCb × Ping) _. out.1 ≡ complete → length out.0.to_come < n)
          ((if not sent
              then pure (cb, broken)
              else krping_wait v u condition cb >>= λ cb'.
                  if not (is_state cb'.state good) then pure (cb', broken) else next cb')
            w)
  await-uses false condition good n cb w next rest = gives λ e. cc
  await-uses true condition good n cb w next rest =
      chain-Post (krping_wait-uses condition cb w)
        λ cb' w' h. go (is_state cb'.state good) cb' w' (rest cb' w' h)
    where
      go :
          (b : Bool) (cb' : KrpingCb) (w' : World)
          → Post
              (λ (out : KrpingCb × Ping) _. out.1 ≡ complete → length out.0.to_come < n)
              (next cb' w')
          → Post
              (λ (out : KrpingCb × Ping) _. out.1 ≡ complete → length out.0.to_come < n)
              ((if not b then pure (cb', broken) else next cb') w')
      go false cb' w' p = gives λ e. cc
      go true cb' w' p = p

  ping_back-uses :
      (n : ℕ) (cb : KrpingCb) (w : World)
      → length cb.to_come < n
      → Post
          (λ (out : KrpingCb × Ping) _. out.1 ≡ complete → length out.0.to_come < n)
          (ping_back v u cb w)
  unfolding ping_back
  ping_back-uses n cb w h =
      chain-Post (krping_format_send-state cb cb.rdma_buf w) λ cb1 w1 (s1, e1).
        chain-Post (krping_post_send-state cb1 w1) λ out w2 (s2, e2).
          await-uses (is_zero out.1) (λ s. at_least s rdma_write_complete) rdma_write_complete n
            out.0 w2 (λ cb3. pure (cb3, complete))
            λ cb3 w3 (le, lt). gives λ e. omega (arith, le, ap length s2, ap length s1, h)

  ping_round-uses :
      (cb : KrpingCb) (ping start : ℕ) (w : World) → Post (Used cb) (ping_round v u cb ping start w)
  unfolding ping_round
  ping_round-uses cb ping start w =
      let text = fill_text (u.ping_text ping) start cb.size in
      let cb0 = record cb { state = rdma_read_adv; start_text = text } in
      chain-Post (krping_format_send-state cb0 cb.start_buf w) λ cb1 w1 (s1, e1). go cb1 w1 s1 e1
    where
      go :
          (cb1 : KrpingCb) (w1 : World)
          → cb1.to_come ≡ cb.to_come
          → (is_state cb1.state error ≡ false → cb1.state ≡ rdma_read_adv)
          → Post (Used cb) (
              (if is_state cb1.state error
                  then pure (cb1, broken)
                  else krping_post_send v cb1 >>= λ out.
                      if not (is_zero out.1)
                      then pure (out.0, broken)
                      else krping_wait v u (λ s. at_least s rdma_write_adv) out.0 >>= λ cb'.
                          if not (is_state cb'.state rdma_write_adv)
                          then pure (cb', broken)
                          else ping_back v u cb')
                w1)
      go cb1 w1 s1 e1 = elim (Bool-cases (is_state cb1.state error)) [
        | inl y ↦ rw y (gives λ e. cc)
        | inr n ↦ rw n (
            chain-Post (krping_post_send-state cb1 w1) λ out w2 (s2, e2).
              await-uses (is_zero out.1) (λ s. at_least s rdma_write_adv) rdma_write_adv
                (length cb.to_come) out.0 w2 (ping_back v u)
                λ cb3 w3 (le, lt). ping_back-uses (length cb.to_come) cb3 w3 (
                  omega (
                    arith,
                    lt (ap (λ s. at_least s rdma_write_adv) (e2 ∙ e1 n)),
                    ap length s2,
                    ap length s1,
                  )))
      ]

  next_round-agree :
      (a b : ℕ) (cb : KrpingCb) (w : World) (out : Ping) (ping start : ℕ)
      → (out ≡ complete
          → ping_rounds v u a cb (ping + 1) (next_char start) w
            ≡ ping_rounds v u b cb (ping + 1) (next_char start) w)
      → (elim out as (λ _. M (KrpingCb × ℕ)) [
        | complete ↦ ping_rounds v u a cb (ping + 1) (next_char start)
        | broken ↦ pure (cb, ping)
      ])
          w
        ≡ (elim out as (λ _. M (KrpingCb × ℕ)) [
          | complete ↦ ping_rounds v u b cb (ping + 1) (next_char start)
          | broken ↦ pure (cb, ping)
        ])
            w
  next_round-agree a b cb w complete ping start same = same refl
  next_round-agree a b cb w broken ping start same = refl

  -- Any two bounds on the rounds of the loop, both above the number of things to come, give the same
  -- run of it, from any ping on.
  pub ping_rounds-agree :
      (a b : ℕ) (cb : KrpingCb) (ping start : ℕ) (w : World)
      → length cb.to_come < a
      → length cb.to_come < b
      → ping_rounds v u a cb ping start w ≡ ping_rounds v u b cb ping start w
  unfolding ping_rounds
  ping_rounds-agree zero b cb ping start w h k = elim h [ ]
  ping_rounds-agree (suc a) zero cb ping start w h k = elim k [ ]
  ping_rounds-agree (suc a) (suc b) cb ping start w h k =
      and_then-agree _ _ (ping_round-uses cb ping start w) λ out w' used.
        next_round-agree a b out.0 w' out.1 ping start λ e.
          ping_rounds-agree a b out.0 (ping + 1) (next_char start) w' (omega (arith, used e))
            (omega (arith, used e))

-- krping_test_client without a count, whatever the calls answer: whatever bound above the number of
-- things to come is set on its rounds, the loop runs as without that bound; so the rounds of the
-- model cut nothing off.
pub krping_test_client-endless :
    (v : Verbs) (u : KrpingVerbs) (b : ℕ) (cb : KrpingCb) (w : World)
    → cb.count ≡ 0
    → length cb.to_come < b
    → krping_test_client v u cb w ≡ ping_rounds v u b cb 0 65 w
unfolding krping_test_client
krping_test_client-endless v u b cb w none h =
    let unbounded : (cb.count == 0) ≡ true = ap (λ n. n == 0) none in
    rw unbounded (ping_rounds-agree v u (length cb.to_come + 1) b cb 0 65 w (omega arith) h)
