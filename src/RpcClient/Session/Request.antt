-- ===== src/RpcClient/Session/Request.antt =====
-- A request of a session takes the step of the exchange.
use rpc_kern.Base.{
  ◌%◌, subst, ℕ, ◌+◌, ◌^◌, ◌<◌, ◌≤◌, ◌≡◌, ◌≢◌, refl, ◌∙◌, sym, ap, ==_false, true, inl, inr, some,
  List, [], ◌∷◌, ◌++◌, arith, is_zero, length, map, set, count,
}
use rpc_kern.Message.{ByteOrder, RdmaMsg}
use rpc_kern.Msgbuf.{alloc_attempt, alloc_msgbuf_id}
use rpc_kern.Msgbuf.Take.{alloc_attempt-Taken}
use rpc_kern.Kernel.{World, Sent, Verbs}
use rpc_kern.Kernel.Returns.{Returns, returns, chain}
use rpc_kern.Rdma.{RdmaChCb}
use rpc_kern.Rdma.Channel.Ready.{At, Opened-CanSend, Opened-set, sent-Kept}
use rpc_kern.RpcClient.{rpc_msg_buf_num}
use rpc_kern.Rdma.Send.Posts.{CanSend, Carries, header_of}
use rpc_kern.RpcClient.Requests.{IsOpen, send_rpc_msg_to_server-Requested}
use rpc_kern.RpcClient.Exchange.{Exchange, after_request, request, requests, Step}
use rpc_kern.RpcClient.Exchange.Flow.{Flow, count-append}
use rpc_kern.RpcClient.Life.{allocated, channel_on}
use rpc_kern.RpcClient.Session.{asks, play, Implements, Heard}
use rpc_kern.RpcClient.Session.Heard.{map-append_one, asks-Told}

-- With no other thread, the loop takes what its first attempt takes.
pub one_round :
    (bitmap : List ℕ)
    → (alloc_attempt bitmap 0).ret ≢ 0
    → alloc_msgbuf_id ([] ∷ []) bitmap 0
      ≡ some ((alloc_attempt bitmap 0).bit_id, (alloc_attempt bitmap 0).bitmap)
unfolding alloc_msgbuf_id
one_round bitmap got = rw (==_false (alloc_attempt bitmap 0).ret 0 (omega arith))

-- One request more is sent, and waits.
one_more :
    (k id : ℕ) (before : List ℕ) (ts ts' : List Sent) (t : Sent) (answered waiting : List ℕ)
    → ts' ≡ ts ++ t ∷ []
    → t.wr_id ≡ id
    → count k (map (λ (x : Sent). x.wr_id) ts) ≡ count k before + count k answered + count k waiting
    → count k (map (λ (x : Sent). x.wr_id) ts')
      ≡ count k before + count k answered + count k (id ∷ waiting)
one_more k id before ts ts' t answered waiting appended named known =
    ap (λ l. count k (map (λ (x : Sent). x.wr_id) l)) appended
    ∙ ap (count k) (map-append_one (λ (x : Sent). x.wr_id) ts t)
    ∙ count-append k (map (λ (x : Sent). x.wr_id) ts) (t.wr_id ∷ [])
    ∙ rw named (ground (arith, known))

module _ (order : ByteOrder) (v : Verbs) (accepts : (t : ℕ) → is_zero (v.post_send t) ≡ true)
    (size : ℕ) (w0 : World) (ch_word : w0.next < 2 ^ 64) where
  asks-At :
      (s : Exchange) (cb : RdmaChCb) (w : World) (sem : ℕ) (bytes : List ℕ)
      (a : At (w0.next + 1 + 1 + 6) cb.msgdata_size 0 (alloc_attempt s.bitmap 0).bit_id cb.buf_ctxs)
      → CanSend cb w (alloc_attempt s.bitmap 0).bit_id a.mb
      → Implements size w0 s cb w
      → (alloc_attempt s.bitmap 0).ret ≢ 0
      → IsOpen (channel_on w0 cb) s.bitmap w
      → sem < 2 ^ 64
      → size ≤ length bytes
      → Returns
          (Heard order size w0 (after_request s) (asks sem bytes ∷ []) w)
          (play order v (channel_on w0 cb) (asks sem bytes) w)
  unfolding play
  asks-At s cb w sem bytes a ready i got up sem_word enough =
      let id = (alloc_attempt s.bitmap 0).bit_id in
      chain
        (send_rpc_msg_to_server-Requested order v ([] ∷ [])
          (record { rpc_ch = channel_on w0 cb; bytes = bytes; sem = sem }) cb s.bitmap
          (alloc_attempt s.bitmap 0).bitmap id a.mb w up refl refl (one_round s.bitmap got) ready
          sem_word ch_word (omega (arith, i.data_size)) (accepts w.clock))
        λ out w' r. returns (
          (
            record cb { buf_ctxs = set cb.buf_ctxs id r.mb' },
            r.stored,
            record {
              opened =
                  Opened-set rpc_msg_buf_num (allocated w0) cb w w' id a.mb r.mb' i.opened
                    ready.context
                    (sent-Kept cb.msgdata_size a.mb r.mb' a.recv_size r.frame
                      (ap (λ (m : RdmaMsg). length m.bytes) (sym r.content) ∙ r.carries.size))
                    r.live;
              next = omega (arith, i.next, r.next);
              data_size = i.data_size;
              fit = i.fit;
              bitmap = r.marked_taken;
              used = i.used;
              posted = r.posted ∙ i.posted;
              answered = i.answered;
              answers = i.answers;
              sent = λ k.
                  one_more k id (map (λ (x : Sent). x.wr_id) w0.sent) w.sent w'.sent r.sent
                    i.answered s.waiting r.appended (r.request_id ∙ omega (arith, a.sq_id))
                    (i.sent k);
            },
          ),
          asks-Told order size w0.next sem ((a.mb.seqn + 1) % 2 ^ 64) bytes r.sent w w' r.appended
              (subst
                (λ n.
                  Carries order n (header_of ((a.mb.seqn + 1) % 2 ^ 64) sem w0.next) bytes
                    r.sent.msg)
                i.data_size r.carries)
              r.woken,
        )

  pub asks-Implements :
      (s t : Exchange) (cb : RdmaChCb) (w : World) (sem : ℕ) (bytes : List ℕ)
      → Flow s
      → Implements size w0 s cb w
      → Step s request t
      → sem < 2 ^ 64
      → size ≤ length bytes
      → Returns
          (Heard order size w0 t (asks sem bytes ∷ []) w)
          (play order v (channel_on w0 cb) (asks sem bytes) w)
  asks-Implements s _ cb w sem bytes f i (requests got) sem_word enough =
      let lt : (alloc_attempt s.bitmap 0).bit_id < rpc_msg_buf_num =
        elim (alloc_attempt-Taken s.bitmap 0 f.valid) [
          | inr r ↦ absurd (got r.ret)
          | inl t ↦ t.in_range
        ] in
      let (a, ready) =
        Opened-CanSend rpc_msg_buf_num (allocated w0) cb w (alloc_attempt s.bitmap 0).bit_id
          i.opened lt in
      let up : IsOpen (channel_on w0 cb) s.bitmap w = record {
        alive = i.opened.live w0.next ∙ ground arith;
        known = i.bitmap;
      } in
      asks-At s cb w sem bytes a ready i got up sem_word enough
