-- ===== src/RpcClient/Session/Refused.antt =====
-- A session in which the adapter refuses every request.
use rpc_kern.Base.{
  ℕ, ◌+◌, ◌^◌, ◌<◌, ◌≤◌, ◌≡◌, ◌≢◌, refl, ◌∙◌, ap, false, inl, inr, none, some, List, [], ◌∷◌, arith,
  is_zero, length, map, set, sum, replicate, count,
}
use rpc_kern.Bitmap.{bit_arr_size, IsBitmap}
use rpc_kern.Bitmap.First.{AllSet}
use rpc_kern.Message.{ByteOrder}
use rpc_kern.Msgbuf.{allocates, alloc_attempt}
use rpc_kern.Msgbuf.Take.{alloc_attempt-Taken, set_bit-IsBitmap, sum-set_bit, get_or-default}
use rpc_kern.Msgbuf.Holders.{initial-IsExact}
use rpc_kern.Kernel.{Sent, World, Wakeup, Verbs, asleep}
use rpc_kern.Kernel.Returns.{Returns, returns, chain, weaken}
use rpc_kern.Kernel.Succeed.{AllSucceed}
use rpc_kern.Rdma.{RdmaChCb}
use rpc_kern.Rdma.Channel.Running.{comes_up}
use rpc_kern.Rdma.Channel.Ready.{At, Opened-CanSend, Opened-set, sent-Kept}
use rpc_kern.Rdma.Send.Posts.{CanSend}
use rpc_kern.RpcClient.{
  strcpy, array, ip_addr_size, rpc_msg_buf_num, rpc_ch_rdma, RpcChInfo, init_rpc_client,
  send_rpc_msg_to_server,
}
use rpc_kern.RpcClient.Requests.{
  IsOpen, send_rpc_msg_to_server-Leaked, send_rpc_msg_to_server_spins,
}
use rpc_kern.RpcClient.Exchange.{Exchange, start}
use rpc_kern.RpcClient.Exchange.Flow.{get_or-full, unblocked}
use rpc_kern.RpcClient.Life.{allocated, channel_on, init_rpc_client-Inited}
use rpc_kern.RpcClient.Session.{Event, asks, arrives, play, play_all, Implements, In}
use rpc_kern.RpcClient.Session.Request.{one_round}
use rpc_kern.RpcClient.Session.New.{start-Implements}

-- An id is taken, and no request waits under it.
abbrev after_refusal : Exchange → Exchange
after_refusal s = record s { bitmap = (alloc_attempt s.bitmap 0).bitmap }

-- Requests, each with a word for the wait queue and enough data.
abbrev pub AllAsk : ℕ → List Event → Type 0
AllAsk size [] = Unit {0}
AllAsk size (asks sem bytes ∷ es) = (sem < 2 ^ 64) × (size ≤ length bytes) × AllAsk size es
AllAsk size (arrives c ∷ es) = ⊥

-- A well-formed array of which four bytes are set is full.
full_of_four : (bitmap : List ℕ) → IsBitmap bitmap → sum bitmap ≡ 4 → AllSet bitmap 0 bit_arr_size
full_of_four bitmap valid four k low lt e = absurd (
    omega (
      arith,
      get_or-full bitmap k valid.bits (omega (arith, valid.size)) (omega (arith, valid.size)),
      get_or-default bitmap k 1 0 (omega (arith, valid.size)),
    ))

module _ (order : ByteOrder) (v : Verbs) (refuses : (t : ℕ) → is_zero (v.post_send t) ≡ false)
    (size : ℕ) (w0 : World) (ch_word : w0.next < 2 ^ 64) where
  asks-refused :
      (s : Exchange) (cb : RdmaChCb) (w : World) (sem : ℕ) (bytes : List ℕ)
      (a : At (w0.next + 1 + 1 + 6) cb.msgdata_size 0 (alloc_attempt s.bitmap 0).bit_id cb.buf_ctxs)
      → CanSend cb w (alloc_attempt s.bitmap 0).bit_id a.mb
      → Implements size w0 s cb w
      → (alloc_attempt s.bitmap 0).ret ≢ 0
      → IsOpen (channel_on w0 cb) s.bitmap w
      → sem < 2 ^ 64
      → size ≤ length bytes
      → Returns
          (λ ch' w'. In size w0 (after_refusal s) ch' w' × (w'.sent ≡ w.sent))
          (play order v (channel_on w0 cb) (asks sem bytes) w)
  unfolding play
  asks-refused s cb w sem bytes a ready i got up sem_word enough =
      let id = (alloc_attempt s.bitmap 0).bit_id in
      chain
        (send_rpc_msg_to_server-Leaked order v ([] ∷ [])
          (record { rpc_ch = channel_on w0 cb; bytes = bytes; sem = sem }) cb s.bitmap
          (alloc_attempt s.bitmap 0).bitmap id a.mb w up refl refl (one_round s.bitmap got) ready
          sem_word ch_word (omega (arith, i.data_size)) (refuses w.clock))
        λ out w' r. returns (
          (
            record cb { buf_ctxs = set cb.buf_ctxs id r.mb' },
            r.stored,
            record {
              opened =
                  Opened-set rpc_msg_buf_num (allocated w0) cb w w' id a.mb r.mb' i.opened
                    ready.context (sent-Kept cb.msgdata_size a.mb r.mb' a.recv_size r.frame r.size)
                    r.live;
              next = omega (arith, i.next, r.next);
              data_size = i.data_size;
              fit = i.fit;
              bitmap = r.marked_taken;
              used = i.used;
              posted = r.posted ∙ i.posted;
              answered = i.answered;
              answers = i.answers;
              sent = λ k. ap (λ ts. count k (map (λ (x : Sent). x.wr_id) ts)) r.sent ∙ i.sent k;
            },
          ),
          r.sent,
        )

  asks-Refused :
      (s : Exchange) (cb : RdmaChCb) (w : World) (sem : ℕ) (bytes : List ℕ)
      → IsBitmap s.bitmap
      → sum s.bitmap < 4
      → Implements size w0 s cb w
      → sem < 2 ^ 64
      → size ≤ length bytes
      → IsBitmap (after_refusal s).bitmap
        × (sum (after_refusal s).bitmap ≡ sum s.bitmap + 1)
        × Returns
            (λ ch' w'. In size w0 (after_refusal s) ch' w' × (w'.sent ≡ w.sent))
            (play order v (channel_on w0 cb) (asks sem bytes) w)
  asks-Refused s cb w sem bytes valid few i sem_word enough =
      elim (alloc_attempt-Taken s.bitmap 0 valid) [
        | inr r ↦ absurd (omega (arith, r.ret, unblocked s.bitmap valid few))
        | inl t ↦
            let (a, ready) =
              Opened-CanSend rpc_msg_buf_num (allocated w0) cb w (alloc_attempt s.bitmap 0).bit_id
                i.opened t.in_range in
            let up : IsOpen (channel_on w0 cb) s.bitmap w = record {
              alive = i.opened.live w0.next ∙ ground arith;
              known = i.bitmap;
            } in
            (
              rw t.now (set_bit-IsBitmap s.bitmap valid _ t.in_range),
              rw t.now (omega (arith, t.was_clear, sum-set_bit s.bitmap valid _ t.in_range)),
              asks-refused s cb w sem bytes a ready i (λ e. absurd (omega (arith, t.ret))) up
                  sem_word enough,
            )
      ]

  -- The channel in a state in which every id is taken, with nothing sent.
  abbrev Blocked : World → RpcChInfo → World → Type 0
  Blocked w ch' w' =
      (s : Exchange) × In size w0 s ch' w'
      × IsBitmap s.bitmap
      × (sum s.bitmap ≡ 4)
      × (w'.sent ≡ w.sent)

  play_all-Blocked :
      (es : List Event) (s : Exchange) (cb : RdmaChCb) (w : World)
      → IsBitmap s.bitmap
      → sum s.bitmap + length es ≡ 4
      → AllAsk size es
      → Implements size w0 s cb w
      → Returns (Blocked w) (play_all order v (channel_on w0 cb) es w)
  unfolding play_all
  play_all-Blocked [] s cb w valid four asked i =
      returns (s, (cb, refl, i), valid, omega arith, refl)
  play_all-Blocked (arrives c ∷ es) s cb w valid four asked i = absurd asked
  play_all-Blocked (asks sem bytes ∷ es) s cb w valid four (sem_word, enough, asked) i =
      let (valid', more, run) =
        asks-Refused s cb w sem bytes valid (omega arith) i sem_word enough in
      chain run λ ch w1 ((cb1, same, i1), unsent). rw same (
        weaken (play_all-Blocked es (after_refusal s) cb1 w1 valid' (omega arith) asked i1)
          λ ch' w2 (s', into, valid'', full, unsent'). (s', into, valid'', full, unsent' ∙ unsent))

  -- Where every other call into the kernel succeeds, the connection comes up, addresses not yet
  -- given out are not alive, words have 64 bits, the copy of the target fits into its array and the
  -- adapter refuses every request: on the channel that init_rpc_client has returned, any four
  -- requests with at least the channel's data size return, one after the other, and nothing has
  -- been sent; and after them a request never returns, however many rounds of the loop there are
  -- and however often the other threads try to take ids meanwhile.
  pub refused_requests_block :
      (all : AllSucceed v) (not_null : 0 < w0.next)
      (unused : (a : ℕ) → w0.next ≤ a → w0.live a ≡ none) (handler : ℕ) (before : ℕ → ℕ)
      (target ip_addr : List ℕ) (port msg_handler : ℕ) (rest : List Wakeup) (es : List Event)
      (tries : List ℕ) (sem : ℕ) (bytes : List ℕ)
      → strcpy (array ip_addr_size before) target ≡ some ip_addr
      → w0.script ≡ comes_up rest
      → length es ≡ 4
      → AllAsk size es
      → Returns
          (λ out w1.
            (ch : RpcChInfo) × (out ≡ some ch)
            × Returns
                (λ ch' w2.
                  (w2.sent ≡ w0.sent)
                  × (send_rpc_msg_to_server order v
                        (map (λ n. replicate n allocates) tries)
                        (record { rpc_ch = ch'; bytes = bytes; sem = sem })
                        w2
                      ≡ asleep))
                (play_all order v ch es w1))
          (init_rpc_client order v handler before rpc_ch_rdma target port size msg_handler w0)
  refused_requests_block all not_null unused handler before target ip_addr port msg_handler rest es
        tries sem bytes fits script four asked =
      weaken
        (init_rpc_client-Inited order v handler before target port size msg_handler w0 not_null
          unused ip_addr rest fits all script)
        λ out w1 (made, i, e). (
          channel_on w0 i.cb,
          e,
          weaken
              (play_all-Blocked es start i.cb w1 initial-IsExact.valid (omega arith) asked (
                start-Implements order v size w0 not_null unused handler before target ip_addr port
                  msg_handler rest made w1 i))
              λ ch' w2 (s, (cb, same, i'), valid, full, unsent). (
                unsent ∙ i.sent,
                send_rpc_msg_to_server_spins order v tries
                    (record { rpc_ch = ch'; bytes = bytes; sem = sem }) s.bitmap w2
                    (rw same
                      (record { alive = i'.opened.live w0.next ∙ ground arith; known = i'.bitmap }))
                    valid (full_of_four s.bitmap valid full),
              ),
        )
