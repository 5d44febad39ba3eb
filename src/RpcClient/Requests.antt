-- ===== src/RpcClient/Requests.antt =====
-- What send_rpc_msg_to_server does with the id that it takes, and with the message.
use rpc_kern.Base.{
  ℕ, ◌+◌, ◌%◌, ◌^◌, ◌<◌, ◌≤◌, ◌≡◌, refl, ◌∙◌, ap, true, false, Option, some, List, [], ◌∷◌, ◌++◌,
  ◌==◌, arith, is_zero, length, map, replicate, ==_refl, set,
}
use rpc_kern.Bitmap.{bit_arr_size, IsBitmap}
use rpc_kern.Bitmap.First.{AllSet}
use rpc_kern.Msgbuf.{Other, allocates, alloc_msgbuf_id}
use rpc_kern.Msgbuf.Spin.{alloc_msgbuf_id_spins}
use rpc_kern.Message.{ByteOrder}
use rpc_kern.Kernel
use rpc_kern.Kernel.{World, Sent, Run, Verbs, M, ok, asleep, and_then, pure, alive}
use rpc_kern.Kernel.Owned.{alive-ok}
use rpc_kern.Kernel.Returns.{Returns, returns, chain, weaken, and_then_assoc}
use rpc_kern.Rdma.{MsgbufCtx, RdmaChCb}
use rpc_kern.Rdma.Send.{choose_seqn, send_rdma_msg}
use rpc_kern.Rdma.Send.Posts.{
  CanSend, Carries, header_of, send_rdma_msg-Posted, send_rdma_msg-Unsent,
}
use rpc_kern.RpcClient.{rpc_ch_rdma, RpcChInfo, RpcReqParam, with_bitmap, send_rpc_msg_to_server}

-- A channel that is alive, with its bitmap.
pub record IsOpen (rpc_ch : RpcChInfo) (bitmap : List ℕ) (w : World) : Type 0 where
  pub alive : w.live rpc_ch.self ≡ some Kernel.memory
  pub known : w.bitmaps rpc_ch.self ≡ some bitmap

-- If every id of an open channel is taken, and the other threads only try to take ids too, a request
-- never returns, however many rounds of the loop there are.
pub send_rpc_msg_to_server_spins :
    (order : ByteOrder) (v : Verbs) (tries : List ℕ) (req : RpcReqParam) (bitmap : List ℕ)
    (w : World)
    → IsOpen req.rpc_ch bitmap w
    → IsBitmap bitmap
    → AllSet bitmap 0 bit_arr_size
    → send_rpc_msg_to_server order v (map (λ n. replicate n allocates) tries) req w ≡ asleep
unfolding send_rpc_msg_to_server
send_rpc_msg_to_server_spins order v tries req bitmap w is_open valid full =
    rw
      (alive-ok _ _ w is_open.alive, is_open.known, alloc_msgbuf_id_spins tries bitmap 0 valid full)

module _ (order : ByteOrder) (v : Verbs) (rounds : List (List Other)) (req : RpcReqParam)
    (cb : RdmaChCb) (bitmap bitmap' : List ℕ) (id : ℕ) (mb : MsgbufCtx) (w : World)
    (is_open : IsOpen req.rpc_ch bitmap w) (is_rdma : req.rpc_ch.ch_type ≡ rpc_ch_rdma)
    (has_cb : req.rpc_ch.ch_cb ≡ some cb)
    (taken : alloc_msgbuf_id rounds bitmap 0 ≡ some (id, bitmap')) (ready : CanSend cb w id mb)
    (sem_word : req.sem < 2 ^ 64) (ch_word : req.rpc_ch.self < 2 ^ 64)
    (enough : cb.msgdata_size ≤ length req.bytes) where
  abbrev marked : World
  marked = with_bitmap w req.rpc_ch.self bitmap'

  abbrev ready' : CanSend cb marked id mb
  ready' = record {
    in_range = ready.in_range;
    context = ready.context;
    buffer = ready.buffer;
    room = ready.room;
    queue = ready.queue;
  }

  own_bitmap : marked.bitmaps req.rpc_ch.self ≡ some bitmap'
  own_bitmap = rw (==_refl req.rpc_ch.self)

  request-run :
      send_rpc_msg_to_server order v rounds req w
      ≡ and_then
          (send_rdma_msg order v cb req.rpc_ch.self req.bytes req.sem id 0 marked)
          (λ (cb', n) w'. ok (record req.rpc_ch { ch_cb = some cb' }, id) w')
  unfolding send_rpc_msg_to_server
  request-run =
      rw (alive-ok _ _ w is_open.alive, is_open.known, taken, is_rdma, has_cb)
        (and_then_assoc (send_rdma_msg order v cb req.rpc_ch.self req.bytes req.sem id 0 marked) _
          _)

  -- The result and the world after a request that is sent.
  pub record Requested (out : RpcChInfo × ℕ) (w' : World) : Type 0 where
    pub id_used : out.1 ≡ id
    pub marked_taken : w'.bitmaps req.rpc_ch.self ≡ some bitmap'
    pub other_bitmaps : (a : ℕ) → (req.rpc_ch.self == a) ≡ false → w'.bitmaps a ≡ w.bitmaps a
    pub sent : Sent
    pub appended : w'.sent ≡ w.sent ++ sent ∷ []
    pub carries :
        Carries order cb.msgdata_size
          (header_of ((mb.seqn + 1) % 2 ^ 64) req.sem req.rpc_ch.self)
          req.bytes
          sent.msg
    pub live : w'.live ≡ w.live
    pub posted : w'.posted ≡ w.posted
    pub next : w'.next ≡ w.next
    pub woken : w'.woken ≡ w.woken
    pub request_id : sent.wr_id ≡ mb.sq_wr.wr_id
    pub mb' : MsgbufCtx
    pub content : sent.msg ≡ mb'.send_msg
    pub frame : mb' ≡ record mb { seqn = mb'.seqn; send_msg = mb'.send_msg }
    pub stored :
        out.0 ≡ record req.rpc_ch { ch_cb = some (record cb { buf_ctxs = set cb.buf_ctxs id mb' }) }

  -- A request on an open RDMA channel that takes an id whose buffer can send, and that the adapter
  -- accepts, returns that id and leaves it taken in the channel's bitmap and the other bitmaps as
  -- they were; one message is appended to what is sent, which carries a new number for the buffer,
  -- the addresses of the requester's wait queue and of its channel, and the data; no object
  -- changes.
  pub send_rpc_msg_to_server-Requested :
      is_zero (v.post_send w.clock) ≡ true
      → Returns Requested (send_rpc_msg_to_server order v rounds req w)
  unfolding choose_seqn
  send_rpc_msg_to_server-Requested accepted = rw request-run (
      chain
        (send_rdma_msg-Posted order v cb req.rpc_ch.self req.bytes req.sem id 0 mb marked ready'
          sem_word ch_word (omega arith) enough accepted)
        λ out w' p. returns (record {
          id_used = refl;
          marked_taken =
              ap (λ (f : ℕ → Option (List ℕ)). f req.rpc_ch.self) p.untouched.2 ∙ own_bitmap;
          other_bitmaps = λ a ne. ap (λ (f : ℕ → Option (List ℕ)). f a) p.untouched.2 ∙ rw ne;
          sent = p.sent;
          appended = p.appended;
          carries = p.carries;
          live = p.untouched.0;
          posted = p.untouched.1;
          next = p.next;
          woken = p.woken;
          request_id = p.request_id;
          mb' = p.mb';
          content = p.content;
          frame = p.frame;
          stored = ap (λ (c : RdmaChCb). record req.rpc_ch { ch_cb = some c }) p.stored;
        }))

  -- The result and the world after a request that the adapter refuses.
  pub record Leaked (out : RpcChInfo × ℕ) (w' : World) : Type 0 where
    pub id_used : out.1 ≡ id
    pub marked_taken : w'.bitmaps req.rpc_ch.self ≡ some bitmap'
    pub sent : w'.sent ≡ w.sent
    pub live : w'.live ≡ w.live
    pub posted : w'.posted ≡ w.posted
    pub next : w'.next ≡ w.next
    pub mb' : MsgbufCtx
    pub frame : mb' ≡ record mb { seqn = mb'.seqn; send_msg = mb'.send_msg }
    pub size : length mb'.send_msg.bytes ≡ cb.msgdata_size
    pub stored :
        out.0 ≡ record req.rpc_ch { ch_cb = some (record cb { buf_ctxs = set cb.buf_ctxs id mb' }) }

  pub send_rpc_msg_to_server-Leaked :
      is_zero (v.post_send w.clock) ≡ false
      → Returns Leaked (send_rpc_msg_to_server order v rounds req w)
  send_rpc_msg_to_server-Leaked refused = rw request-run (
      chain
        (send_rdma_msg-Unsent order v cb req.rpc_ch.self req.bytes req.sem id 0 mb marked ready'
          sem_word ch_word (omega arith) enough refused)
        λ out w' u. returns (record {
          id_used = refl;
          marked_taken = ap (λ (f : ℕ → Option (List ℕ)). f req.rpc_ch.self) u.bitmaps ∙ own_bitmap;
          sent = u.sent;
          live = u.live;
          posted = u.posted;
          next = u.next;
          mb' = u.mb';
          frame = u.frame;
          size = u.size;
          stored = ap (λ (c : RdmaChCb). record req.rpc_ch { ch_cb = some c }) u.stored;
        }))

  -- A request on an open RDMA channel that takes an id whose buffer can send, with enough data, and
  -- that the adapter refuses: nothing is sent, the id stays taken in the channel's bitmap, and the
  -- result is that id all the same.
  pub send_rpc_msg_to_server_leaks :
      is_zero (v.post_send w.clock) ≡ false
      → Returns
          (λ out w'.
            (out.1 ≡ id) × (w'.bitmaps req.rpc_ch.self ≡ some bitmap') × (w'.sent ≡ w.sent))
          (send_rpc_msg_to_server order v rounds req w)
  send_rpc_msg_to_server_leaks refused =
      weaken (send_rpc_msg_to_server-Leaked refused) λ out w' l. (l.id_used, l.marked_taken, l.sent)
