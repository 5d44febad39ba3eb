-- ===== src/RpcClient/Session/Response.antt =====
-- A response of a session takes the step of the exchange.
use rpc_kern.Base.{
  ℕ, ◌+◌, ◌^◌, ◌<◌, ◌≤◌, ◌≡◌, refl, ◌∙◌, sym, ap, append_assoc, leb, none, List, [], ◌∷◌, ◌++◌,
  arith, pos, length, map, count, erase, count-erase,
}
use rpc_kern.Message.{decode_header, ByteOrder, msgheader_size}
use rpc_kern.Msgbuf.{free_msgbuf_id}
use rpc_kern.Kernel.{World, Sent, Verbs}
use rpc_kern.Kernel.Returns.{Returns, returns, chain}
use rpc_kern.Kernel.Succeed.{AllSucceed}
use rpc_kern.Rdma.{RdmaChCb, value, connected}
use rpc_kern.Rdma.Channel.Ready.{At, Opened-At, Opened-set, Opened-working}
use rpc_kern.Rdma.Cq.{Completion, land, poll_loop, cq_event_handler}
use rpc_kern.RpcClient.{rpc_msg_buf_num}
use rpc_kern.RpcClient.Exchange.{Exchange, after_response}
use rpc_kern.RpcClient.Exchange.Flow.{length-append}
use rpc_kern.Rdma.Channel.Life.{Opened}
use rpc_kern.RpcClient.Handler.{test_handlers}
use rpc_kern.RpcClient.Life.{allocated, channel_on}
use rpc_kern.RpcClient.Responses.{Leaves, on_recv-Step, on_completion-recv}
use rpc_kern.RpcClient.Serving.{Serving, IsResponse, land-Serving}
use rpc_kern.RpcClient.Session.{arrives, play, Implements, Heard}
use rpc_kern.RpcClient.Session.Heard.{arrives-Told}

-- One receive more has been used, and its buffer is posted again.
one_used :
    (before used receives rest posted posted' : List ℕ) (buffer : ℕ)
    → posted' ≡ posted ++ buffer ∷ []
    → posted ≡ before ++ used ++ receives
    → receives ≡ buffer ∷ rest
    → posted' ≡ before ++ (used ++ buffer ∷ []) ++ (rest ++ buffer ∷ [])
one_used before used receives rest posted posted' buffer again known e =
    again
    ∙ ap (λ l. l ++ buffer ∷ []) (known ∙ ap (λ l. before ++ used ++ l) e)
    ∙ append_assoc (before ++ used) (buffer ∷ rest) (buffer ∷ [])
    ∙ sym (append_assoc (before ++ used) (buffer ∷ []) (rest ++ buffer ∷ []))
    ∙ ap (λ l. l ++ (rest ++ buffer ∷ [])) (append_assoc before used (buffer ∷ []))

-- One request less waits, and it is answered.
one_answered :
    (k id sent before : ℕ) (answered waiting : List ℕ)
    → 0 < count id waiting
    → sent ≡ before + count k answered + count k waiting
    → sent ≡ before + count k (id ∷ answered) + count k (erase id waiting)
one_answered k id sent before answered waiting mine known =
    ground (arith, count-erase id k waiting mine, known)

module _ (order : ByteOrder) (v : Verbs) (all : AllSucceed v) (size : ℕ)
    (small : size + msgheader_size < 2 ^ 31) (w0 : World) (not_null : 0 < w0.next)
    (unused : (a : ℕ) → w0.next ≤ a → w0.live a ≡ none) where
  -- A channel of a session serves.
  Implements-Serving :
      (s : Exchange) (cb : RdmaChCb) (w : World)
      → Implements size w0 s cb w
      → Serving (size + msgheader_size) size rpc_msg_buf_num w0.next s.bitmap cb w
  Implements-Serving s cb w i = record {
    size_is = i.fit;
    data_is = i.data_size;
    contexts = λ k lt.
        let a = Opened-At rpc_msg_buf_num (allocated w0) cb w k i.opened lt in
        (
          a.mb,
          a.here,
          i.opened.live a.mb.recv_buf ∙ ground (arith, a.recv_buf),
          omega (arith, a.rq_id),
        );
    len = i.opened.len;
    queue = i.opened.live cb.qp ∙ ground (arith, i.opened.qp);
    unused = λ a h. i.opened.live a ∙ ground (arith, i.next, unused a);
    not_null = omega (arith, i.next);
    channel = i.opened.live w0.next ∙ ground arith;
    known = i.bitmap;
  }

  -- What one response does to the channel.
  abbrev Answers : Exchange → RdmaChCb → World → Completion → RdmaChCb → World → Type 0
  Answers s cb w c out w' =
      Serving (size + msgheader_size) size rpc_msg_buf_num w0.next
        (free_msgbuf_id s.bitmap c.wc.wr_id) out w'
      × ((a : ℕ) → w'.live a ≡ w.live a)
      × (w'.posted ≡ w.posted ++ c.wc.wr_id ∷ [])
      × (w'.woken ≡ w.woken ++ (decode_header order c.arrived).sem ∷ [])
      × Leaves order v all (size + msgheader_size) size rpc_msg_buf_num w0.next refl small
          (land cb c) w out w'

  one_response :
      (s : Exchange) (cb : RdmaChCb) (w : World) (c : Completion)
      → Implements size w0 s cb w
      → IsResponse order (size + msgheader_size) size rpc_msg_buf_num w0.next c
      → Returns
          (λ out w'. Answers s cb w c out.0 w')
          (cq_event_handler order v test_handlers cb (c ∷ []) (pos 0) w)
  unfolding cq_event_handler poll_loop
  one_response s cb w c i r =
      let (landed, (mb, here, msg, buffer, id)) =
        land-Serving (size + msgheader_size) size rpc_msg_buf_num w0.next s.bitmap cb w c
          (Implements-Serving s cb w i) r.in_range in
      rw
        (on_completion-recv order v all (size + msgheader_size) size rpc_msg_buf_num w0.next refl
          small (land cb c) c w r.status r.opcode)
        (chain
          (on_recv-Step order v all (size + msgheader_size) size rpc_msg_buf_num w0.next refl small
            s.bitmap (land cb c) w c mb landed r here msg buffer id)
          λ out w1 ((next, s1, l1, k1, p1), leaves). rw next (returns (s1, l1, p1, k1, leaves)))

  land-Opened :
      (cb : RdmaChCb) (w : World) (c : Completion)
      (a : At (w0.next + 1 + 1 + 6) cb.msgdata_size 0 c.wc.wr_id cb.buf_ctxs)
      → Opened rpc_msg_buf_num (allocated w0) cb w
      → length c.arrived.bytes ≡ cb.msgdata_size
      → Opened rpc_msg_buf_num (allocated w0) (land cb c) w
        × ((land cb c).msgdata_size ≡ cb.msgdata_size)
        × ((land cb c).msgbuf_size ≡ cb.msgbuf_size)
  unfolding land
  land-Opened cb w c a o room =
      rw (land, a.here)
        (
          Opened-set rpc_msg_buf_num (allocated w0) cb w w c.wc.wr_id a.mb
              (record a.mb { recv_msg = c.arrived }) o a.here
              (record {
                recv_buf = refl;
                send_buf = refl;
                recv_mapping = refl;
                send_mapping = refl;
                rq_wr = refl;
                sq_wr = refl;
                recv_size = room;
                send_size = a.send_size;
              })
              refl,
          refl,
          refl,
        )

  pub arrives-Implements :
      (s : Exchange) (cb : RdmaChCb) (w : World) (c : Completion) (id : ℕ) (rest : List ℕ)
      → Implements size w0 s cb w
      → 0 < count id s.waiting
      → s.receives ≡ c.wc.wr_id ∷ rest
      → IsResponse order (size + msgheader_size) size rpc_msg_buf_num w0.next c
      → Returns
          (Heard order size w0 (after_response s id c.wc.wr_id rest) (arrives c ∷ []) w)
          (play order v (channel_on w0 cb) (arrives c) w)
  unfolding play
  arrives-Implements s cb w c id rest i mine oldest r =
      let a = Opened-At rpc_msg_buf_num (allocated w0) cb w c.wc.wr_id i.opened r.in_range in
      let (landed, same, whole) = land-Opened cb w c a i.opened (r.room ∙ sym i.data_size) in
      chain (one_response s cb w c i r)
        λ out w' (serving, live, posted, woken, (state, sent, next)). returns (
          (
            out.0,
            refl,
            record {
              opened =
                  Opened-working rpc_msg_buf_num (allocated w0) (land cb c) out.0 w w'
                    (leb (value (land cb c).state) (value connected)) landed state live;
              next = omega (arith, i.next);
              data_size = serving.data_is;
              fit = serving.size_is;
              bitmap = serving.known;
              used = i.used ++ c.wc.wr_id ∷ [];
              posted =
                  one_used w0.posted i.used s.receives rest w.posted w'.posted c.wc.wr_id posted
                    i.posted oldest;
              answered = id ∷ i.answered;
              answers = omega (arith, i.answers, length-append i.used (c.wc.wr_id ∷ []));
              sent = λ k.
                  ap (λ ts. count k (map (λ (x : Sent). x.wr_id) ts)) sent
                  ∙ one_answered k id _ (count k (map (λ (x : Sent). x.wr_id) w0.sent)) i.answered
                      s.waiting mine (i.sent k);
            },
          ),
          arrives-Told order size w0.next c w w' sent woken,
        )
