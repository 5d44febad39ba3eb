-- ===== src/Rdma/Channel/Ready.antt =====
-- Every message buffer of an open channel can be used for sending.
use rpc_kern.Base.{
  ℕ, zero, suc, ◌+◌, ◌*◌, ◌<◌, ◌≡◌, refl, ◌∙◌, some, List, [], ◌∷◌, length, get_elem?, arith, ap,
  set, length-set, Option, Bool, true, false, if◌then◌else◌,
}
use rpc_kern.Kernel.{Kind, World}
use rpc_kern.Rdma.Setup.Buffers.{HasMaps, Numbered, HasBufs, Sized}
use rpc_kern.Rdma.{RdmaChState, MsgbufCtx, RdmaChCb, working}
use rpc_kern.Rdma.Send.Posts.{CanSend}
use rpc_kern.Rdma.Channel.Life.{Opened}

-- The context with index `i`, of which the first has the index `k`.
pub record At (p s k i : ℕ) (mbs : List MsgbufCtx) : Type 0 where
  pub mb : MsgbufCtx
  pub here : get_elem? mbs i ≡ some mb
  pub recv_buf : mb.recv_buf ≡ p + 2 * i
  pub send_buf : mb.send_buf ≡ p + 2 * i + 1
  pub recv_size : length mb.recv_msg.bytes ≡ s
  pub send_size : length mb.send_msg.bytes ≡ s
  pub rq_id : mb.rq_wr.wr_id ≡ k + i
  pub sq_id : mb.sq_wr.wr_id ≡ k + i

HasBufs-At :
    (p s k i : ℕ) (mbs : List MsgbufCtx)
    → HasBufs p mbs
    → Sized s mbs
    → Numbered k mbs
    → i < length mbs
    → At p s k i mbs
HasBufs-At p s k i [] bufs sized ids h = elim h [ ]
HasBufs-At p s k zero (mb ∷ mbs) (b0, b1, bufs) (s0, s1, sized) (r, t, ids) h = record {
  mb = mb;
  here = refl;
  recv_buf = omega arith;
  send_buf = omega arith;
  recv_size = s0;
  send_size = s1;
  rq_id = omega arith;
  sq_id = omega arith;
}
HasBufs-At p s k (suc i) (mb ∷ mbs) (b0, b1, bufs) (s0, s1, sized) (r, t, ids) h =
    let a = HasBufs-At (p + 1 + 1) s (k + 1) i mbs bufs sized ids (omega arith) in
    record {
      mb = a.mb;
      here = a.here;
      recv_buf = omega (arith, a.recv_buf);
      send_buf = omega (arith, a.send_buf);
      recv_size = a.recv_size;
      send_size = a.send_size;
      rq_id = omega (arith, a.rq_id);
      sq_id = omega (arith, a.sq_id);
    }

pub Opened-At :
    (n : ℕ) (w : World) (cb : RdmaChCb) (w' : World) (i : ℕ)
    → Opened n w cb w'
    → i < n
    → At (w.next + 6) cb.msgdata_size 0 i cb.buf_ctxs
Opened-At n w cb w' i o h =
    HasBufs-At (w.next + 6) cb.msgdata_size 0 i cb.buf_ctxs o.bufs o.sized o.numbered
      (omega (arith, o.len))

-- The buffer with any index in range can send, on a channel that is open.
pub Opened-CanSend :
    (n : ℕ) (w : World) (cb : RdmaChCb) (w' : World) (id : ℕ)
    → Opened n w cb w'
    → id < n
    → (a : At (w.next + 6) cb.msgdata_size 0 id cb.buf_ctxs) × CanSend cb w' id a.mb
Opened-CanSend n w cb w' id o h =
    let a = Opened-At n w cb w' id o h in
    (
      a,
      record {
        in_range = omega (arith, o.count);
        context = a.here;
        buffer = o.live a.mb.send_buf ∙ ground (arith, a.send_buf);
        room = a.send_size;
        queue = o.live cb.qp ∙ ground (arith, o.qp);
      },
    )

-- What a context keeps when messages are written into its buffers.
pub record Kept (s : ℕ) (mb mb' : MsgbufCtx) : Type 0 where
  pub recv_buf : mb'.recv_buf ≡ mb.recv_buf
  pub send_buf : mb'.send_buf ≡ mb.send_buf
  pub recv_mapping : mb'.recv_mapping ≡ mb.recv_mapping
  pub send_mapping : mb'.send_mapping ≡ mb.send_mapping
  pub rq_wr : mb'.rq_wr ≡ mb.rq_wr
  pub sq_wr : mb'.sq_wr ≡ mb.sq_wr
  pub recv_size : length mb'.recv_msg.bytes ≡ s
  pub send_size : length mb'.send_msg.bytes ≡ s

-- A context through which a message has been sent.
pub sent-Kept :
    (s : ℕ) (mb mb' : MsgbufCtx)
    → length mb.recv_msg.bytes ≡ s
    → mb' ≡ record mb { seqn = mb'.seqn; send_msg = mb'.send_msg }
    → length mb'.send_msg.bytes ≡ s
    → Kept s mb mb'
sent-Kept s mb mb' size frame filled = record {
  recv_buf = ap (λ (m : MsgbufCtx). m.recv_buf) frame;
  send_buf = ap (λ (m : MsgbufCtx). m.send_buf) frame;
  recv_mapping = ap (λ (m : MsgbufCtx). m.recv_mapping) frame;
  send_mapping = ap (λ (m : MsgbufCtx). m.send_mapping) frame;
  rq_wr = ap (λ (m : MsgbufCtx). m.rq_wr) frame;
  sq_wr = ap (λ (m : MsgbufCtx). m.sq_wr) frame;
  recv_size = ap (λ (m : MsgbufCtx). length m.recv_msg.bytes) frame ∙ size;
  send_size = filled;
}

set-Numbered :
    (k s i : ℕ) (mb mb' : MsgbufCtx) (mbs : List MsgbufCtx)
    → get_elem? mbs i ≡ some mb
    → Kept s mb mb'
    → Numbered k mbs
    → Numbered k (set mbs i mb')
set-Numbered k s i mb mb' [] here kept ids = tt
set-Numbered k s zero mb mb' (x ∷ mbs) here kept (r, t, ids) =
    let same : mb ≡ x = cc in
    (
      ap (λ q. q.wr_id) kept.rq_wr ∙ ap (λ (m : MsgbufCtx). m.rq_wr.wr_id) same ∙ r,
      ap (λ q. q.wr_id) kept.sq_wr ∙ ap (λ (m : MsgbufCtx). m.sq_wr.wr_id) same ∙ t,
      ids,
    )
set-Numbered k s (suc i) mb mb' (x ∷ mbs) here kept (r, t, ids) =
    (r, t, set-Numbered (k + 1) s i mb mb' mbs here kept ids)

set-HasBufs :
    (p q s i : ℕ) (mb mb' : MsgbufCtx) (mbs : List MsgbufCtx)
    → get_elem? mbs i ≡ some mb
    → Kept s mb mb'
    → HasBufs p mbs
    → HasMaps q mbs
    → Sized s mbs
    → HasBufs p (set mbs i mb') × HasMaps q (set mbs i mb') × Sized s (set mbs i mb')
set-HasBufs p q s i mb mb' [] here kept bufs maps sized = (tt, tt, tt)
set-HasBufs p q s zero mb mb' (x ∷ mbs) here kept (b0, b1, bufs) (m0, m1, maps) (s0, s1, sized) =
    let same : mb ≡ x = cc in
    (
      (
        kept.recv_buf ∙ ap (λ (m : MsgbufCtx). m.recv_buf) same ∙ b0,
        kept.send_buf ∙ ap (λ (m : MsgbufCtx). m.send_buf) same ∙ b1,
        bufs,
      ),
      (
        kept.recv_mapping ∙ ap (λ (m : MsgbufCtx). m.recv_mapping) same ∙ m0,
        kept.send_mapping ∙ ap (λ (m : MsgbufCtx). m.send_mapping) same ∙ m1,
        maps,
      ),
      (kept.recv_size, kept.send_size, sized),
    )
set-HasBufs p q s (suc i) mb mb' (x ∷ mbs) here kept (b0, b1, bufs) (m0, m1, maps) (s0, s1, sized) =
    let (b, m, z) = set-HasBufs (p + 1 + 1) (q + 1 + 1) s i mb mb' mbs here kept bufs maps sized in
    ((b0, b1, b), (m0, m1, m), (s0, s1, z))

-- An open channel is open after messages have been written into one of its contexts.
pub Opened-set :
    (n : ℕ) (w : World) (cb : RdmaChCb) (w' w'' : World) (id : ℕ) (mb mb' : MsgbufCtx)
    → Opened n w cb w'
    → get_elem? cb.buf_ctxs id ≡ some mb
    → Kept cb.msgdata_size mb mb'
    → w''.live ≡ w'.live
    → Opened n w (record cb { buf_ctxs = set cb.buf_ctxs id mb' }) w''
Opened-set n w cb w' w'' id mb mb' o here kept live =
    let (b, m, z) =
      set-HasBufs (w.next + 6) (w.next + 6 + 2 * n) cb.msgdata_size id mb mb' cb.buf_ctxs here kept
        o.bufs o.maps o.sized in
    record {
      server = o.server;
      self = o.self;
      buf_ctxs_addr = o.buf_ctxs_addr;
      cm_id = o.cm_id;
      pd = o.pd;
      cq = o.cq;
      qp = o.qp;
      count = o.count;
      len = length-set cb.buf_ctxs id mb' ∙ o.len;
      bufs = b;
      sized = z;
      numbered = set-Numbered 0 cb.msgdata_size id mb mb' cb.buf_ctxs here kept o.numbered;
      maps = m;
      live = λ a. ap (λ (f : ℕ → Option Kind). f a) live ∙ o.live a;
    }

-- An open channel is open in any state of the connection.
Opened-state :
    (n : ℕ) (w : World) (cb : RdmaChCb) (w' w'' : World) (s : RdmaChState)
    → Opened n w cb w'
    → ((a : ℕ) → w''.live a ≡ w'.live a)
    → Opened n w (record cb { state = s }) w''
Opened-state n w cb w' w'' s o live = record {
  server = o.server;
  self = o.self;
  buf_ctxs_addr = o.buf_ctxs_addr;
  cm_id = o.cm_id;
  pd = o.pd;
  cq = o.cq;
  qp = o.qp;
  count = o.count;
  len = o.len;
  bufs = o.bufs;
  sized = o.sized;
  numbered = o.numbered;
  maps = o.maps;
  live = λ a. live a ∙ o.live a;
}

-- It is open after a message has been handled.
pub Opened-working :
    (n : ℕ) (w : World) (cb out : RdmaChCb) (w' w'' : World) (b : Bool)
    → Opened n w cb w'
    → out ≡ (if b then record cb { state = working } else cb)
    → ((a : ℕ) → w''.live a ≡ w'.live a)
    → Opened n w out w''
Opened-working n w cb out w' w'' true o e live = rw e (Opened-state n w cb w' w'' working o live)
Opened-working n w cb out w' w'' false o e live = rw e (Opened-state n w cb w' w'' cb.state o live)
