-- ===== src/Krping/Pings.antt =====
-- The ping loop with a peer that answers: every ping goes through.
use rpc_kern.Base.{
  ℕ, zero, suc, ◌+◌, ◌%◌, ◌<◌, ◌≡◌, refl, ◌∙◌, ap, Bool, true, false, List, [], ◌∷◌, ◌++◌, arith,
  is_zero, some, Option, length, ℤ, pos, append-nil, map, sym,
}
use rpc_kern.Kernel
use rpc_kern.Kernel.{World, Verbs, Run, ok, M, and_then, pure, alive, call, tick}
use rpc_kern.Kernel.Owned.{alive-ok}
use rpc_kern.Kernel.Returns.{Returns, returns, weaken}
use rpc_kern.Krping.{
  KrWc, Occurrence, completed, KrpingCb, KrpingVerbs, KrpingRdmaInfo, error, is_state, at_least,
  rdma_read_adv, rdma_write_adv, rdma_write_complete,
}
use rpc_kern.Krping.Ping.{
  krping_rdma_rkey, krping_format_send, krping_post_send, ping_back, ping_round, ping_rounds,
  krping_test_client, complete, next_char, rounds, fill_text, mapped_badly,
}
use rpc_kern.Krping.Answered.{IsAnswer, next_state, answered, wait-answered}

-- The block with a buffer in its message, and after the message has been sent.
abbrev formatted : KrpingVerbs → KrpingCb → (buf : ℕ) → KrpingCb
formatted u cb buf =
    let key = (cb.key + 1) % 256 in
    let rkey = u.rkey_of cb.rkey key in
    record cb {
      key = key;
      rkey = rkey;
      send_buf = record { buf = u.htonll buf; rkey = u.htonl rkey; size = u.htonl cb.size };
    }

abbrev sent : KrpingCb → KrpingCb
sent cb = record cb { advertised = cb.advertised ++ cb.send_buf ∷ [] }

abbrev tick5 : World → World
tick5 w = tick (tick (tick (tick (tick w))))

-- A client's block that can ping, by the fields that this depends on.
pub record ReadyAt (len : ℕ) (server : ℤ) (frtest : Bool) (qp reg_mr page_list_len : ℕ)
    (live : ℕ → Option Kernel.Kind) : Type 0 where
  pub client : is_zero server ≡ true
  pub no_frtest : frtest ≡ false
  pub queue : live qp ≡ some Kernel.qp
  pub region : live reg_mr ≡ some Kernel.mr
  pub pages : page_list_len ≡ len

abbrev pub Ready : ℕ → KrpingCb → World → Type 0
Ready len cb w = ReadyAt len cb.server cb.frtest cb.qp cb.reg_mr cb.page_list_len w.live

-- The block after a half of a ping.
abbrev half : KrpingVerbs → KrpingCb → (buf : ℕ) → KrWc → List Occurrence → KrpingCb
half u cb buf wc s = answered (sent (formatted u cb buf)) wc s

-- The block at the start of a ping.
abbrev textual : KrpingVerbs → KrpingCb → (ping start : ℕ) → KrpingCb
textual u cb ping start = record cb {
  state = rdma_read_adv;
  start_text = fill_text (u.ping_text ping) start cb.size;
}

-- The block after a ping.
abbrev pinged : KrpingVerbs → KrpingCb → (ping start : ℕ) → KrWc → KrWc → List Occurrence → KrpingCb
pinged u cb ping start wc wc' s =
    let rest = completed (wc' ∷ []) (pos 0) ∷ s in
    half u (half u (textual u cb ping start) cb.start_buf wc rest) cb.rdma_buf wc' s

-- What the peer is told in one ping after another: two buffers in turn.
abbrev pub turns : ℕ → (start rdma : ℕ) → List ℕ
turns zero start rdma = []
turns (suc n) start rdma = start ∷ rdma ∷ turns n start rdma

abbrev pub answers : List (KrWc × KrWc) → List Occurrence → List Occurrence
answers [] s = s
answers ((wc, wc') ∷ pairs) s =
    completed (wc ∷ []) (pos 0) ∷ completed (wc' ∷ []) (pos 0) ∷ answers pairs s

abbrev pub AreAnswers : List (KrWc × KrWc) → Type 0
AreAnswers [] = Unit
AreAnswers ((wc, wc') ∷ pairs) = IsAnswer wc × IsAnswer wc' × AreAnswers pairs

abbrev pub bufs : KrpingCb → List ℕ
bufs cb = map (λ (i : KrpingRdmaInfo). i.buf) cb.advertised

told-twice :
    (xs : List KrpingRdmaInfo) (i j : KrpingRdmaInfo) (ts : List ℕ)
    → map (λ (i : KrpingRdmaInfo). i.buf) (xs ++ i ∷ [] ++ j ∷ []) ++ ts
      ≡ map (λ (i : KrpingRdmaInfo). i.buf) xs ++ i.buf ∷ j.buf ∷ ts
told-twice [] i j ts = refl
told-twice (x ∷ xs) i j ts = ap (λ t. x.buf ∷ t) (told-twice xs i j ts)

module _ (v : Verbs) (u : KrpingVerbs) (posts : (t : ℕ) → v.post_send t ≡ pos 0)
    (receives : (t : ℕ) → v.post_recv t ≡ pos 0) where
  module _ (len : ℕ) (mapped : (t : ℕ) → mapped_badly (u.map_mr_sg t) len ≡ false) where
    format-sent :
        (cb : KrpingCb) (buf : ℕ) (w : World)
        → Ready len cb w
        → krping_format_send v u cb buf w ≡ ok (formatted u cb buf) (tick (tick w))
    unfolding krping_format_send krping_rdma_rkey call
    format-sent cb buf w r =
        let m : mapped_badly (u.map_mr_sg w.clock) cb.page_list_len ≡ false =
          rw r.pages (mapped w.clock) in
        rw (alive-ok _ _ w r.region, m, alive-ok _ _ (tick w) r.queue, posts (w.clock + 1)) refl

    post-sent :
        (cb : KrpingCb) (w : World)
        → Ready len cb w
        → krping_post_send v cb w ≡ ok (sent cb, pos 0) (tick w)
    unfolding krping_post_send call
    post-sent cb w r = rw (alive-ok _ _ w r.queue, posts w.clock) refl

    ping_back-answered :
        (cb : KrpingCb) (wc : KrWc) (s : List Occurrence) (w : World)
        → Ready len cb w
        → cb.state ≡ rdma_write_adv
        → IsAnswer wc
        → cb.to_come ≡ completed (wc ∷ []) (pos 0) ∷ s
        → ping_back v u cb w ≡ ok (half u cb cb.rdma_buf wc s, complete) (tick5 w)
    unfolding ping_back
    ping_back-answered cb wc s w r st good script =
        let cb1 = formatted u cb cb.rdma_buf in
        let done : is_state (next_state cb.state) rdma_write_complete ≡ true =
          ap (λ t. is_state (next_state t) rdma_write_complete) st in
        rw
          (
            format-sent cb cb.rdma_buf w r,
            post-sent cb1 (tick (tick w)) r,
            wait-answered v u receives (λ t. at_least t rdma_write_complete) (sent cb1) wc s
                (tick (tick (tick w))) good r.client r.no_frtest (ap (λ t. is_state t error) st)
                (ap (λ t. at_least t rdma_write_complete) st)
                (ap (λ t. at_least (next_state t) rdma_write_complete) st) script r.queue,
            done,
          )
          refl

    ping_round-answered :
        (cb : KrpingCb) (ping start : ℕ) (wc wc' : KrWc) (s : List Occurrence) (w : World)
        → Ready len cb w
        → IsAnswer wc
        → IsAnswer wc'
        → cb.to_come ≡ completed (wc ∷ []) (pos 0) ∷ completed (wc' ∷ []) (pos 0) ∷ s
        → ping_round v u cb ping start w
          ≡ ok (pinged u cb ping start wc wc' s, complete) (tick5 (tick5 w))
    unfolding ping_round
    ping_round-answered cb ping start wc wc' s w r good good' script =
        let cb0 = textual u cb ping start in
        let cb1 = formatted u cb0 cb.start_buf in
        let rest = completed (wc' ∷ []) (pos 0) ∷ s in
        let cb2 = half u cb0 cb.start_buf wc rest in
        rw
          (
            format-sent cb0 cb.start_buf w r,
            post-sent cb1 (tick (tick w)) r,
            wait-answered v u receives (λ t. at_least t rdma_write_adv) (sent cb1) wc rest
                (tick (tick (tick w))) good r.client r.no_frtest refl refl refl script r.queue,
            ping_back-answered cb2 wc' s (tick5 w) r refl good' refl,
          )
          refl

    ping_rounds-answered :
        (pairs : List (KrWc × KrWc)) (cb : KrpingCb) (ping start : ℕ) (s : List Occurrence)
        (w : World)
        → Ready len cb w
        → AreAnswers pairs
        → cb.to_come ≡ answers pairs s
        → Returns
            (λ out w'.
              (out.1 ≡ ping + length pairs)
              × (out.0.to_come ≡ s)
              × (bufs out.0
                  ≡ bufs cb ++ turns (length pairs) (u.htonll cb.start_buf) (u.htonll cb.rdma_buf)))
            (ping_rounds v u (length pairs) cb ping start w)
    unfolding ping_rounds
    ping_rounds-answered [] cb ping start s w r good script =
        returns (omega arith, script, sym (append-nil _))
    ping_rounds-answered ((wc, wc') ∷ pairs) cb ping start s w r (good, good', all) script =
        rw (ping_round-answered cb ping start wc wc' (answers pairs s) w r good good' script) (
          weaken
            (ping_rounds-answered pairs (pinged u cb ping start wc wc' (answers pairs s)) (ping + 1)
              (next_char start) s (tick5 (tick5 w)) r all refl)
            λ out w' (count, left, told).
              (omega (arith, count), left, told ∙ told-twice cb.advertised _ _ _))

    -- krping_test_client on a client's block that can ping, whose count is not 0, where every post
    -- is accepted and the region can be mapped: if the peer answers each ping twice, with a message
    -- of the right size, it returns after as many pings as the count says; the answers have been
    -- used up, and what comes after them has not; and the peer has been told of the two buffers in
    -- turn, once each in every ping.
    pub krping_test_client-answered :
        (pairs : List (KrWc × KrWc)) (cb : KrpingCb) (s : List Occurrence) (w : World)
        → Ready len cb w
        → AreAnswers pairs
        → 0 < length pairs
        → cb.count ≡ length pairs
        → cb.to_come ≡ answers pairs s
        → Returns
            (λ out w'.
              (out.1 ≡ cb.count)
              × (out.0.to_come ≡ s)
              × (bufs out.0
                  ≡ bufs cb ++ turns cb.count (u.htonll cb.start_buf) (u.htonll cb.rdma_buf)))
            (krping_test_client v u cb w)
    unfolding krping_test_client
    krping_test_client-answered pairs cb s w r all some_left count script =
        let bounded : rounds cb ≡ length pairs = ground arith in
        rw bounded (
          weaken (ping_rounds-answered pairs cb 0 65 s w r all script) λ out w' (n, left, told). (
            omega (arith, n, count),
            left,
            told
                ∙ ap (λ k. bufs cb ++ turns k (u.htonll cb.start_buf) (u.htonll cb.rdma_buf))
                    (sym count),
          ))
