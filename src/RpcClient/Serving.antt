-- ===== src/RpcClient/Serving.antt =====
-- A channel that can receive responses, and what keeps it so: the adapter's write into a buffer, and
-- a message handled.
use rpc_kern.Base.{
  ℕ, ◌<◌, ◌≤◌, ◌≡◌, refl, ◌∙◌, sym, ap, inl, inr, Bool, true, false, none, some, List, [], ◌∷◌,
  ◌==◌, if◌then◌else◌, arith, map, length, get_elem?, set, get_elem?-set_self, get_elem?-set_ne,
  length-set, Bool-cases,
}
use rpc_kern.Msgbuf.{free_msgbuf_id}
use rpc_kern.Message.{ByteOrder, decode_header}
use rpc_kern.Kernel
use rpc_kern.Kernel.{World, Run, Verbs, post_recv, M, ok, and_then, pure, alive, tick}
use rpc_kern.Rdma.{MsgbufCtx, RdmaChCb, working}
use rpc_kern.Rdma.Receive.{success, recv}
use rpc_kern.Rdma.Cq.{Completion, land}

-- A channel that can receive into each of its `n` buffers, for the channel of the RPC layer at `ch`.
pub record Serving (size bytes n ch : ℕ) (bitmap : List ℕ) (cb : RdmaChCb) (w : World)
    : Type 0 where
  pub size_is : cb.msgbuf_size ≡ size
  pub data_is : cb.msgdata_size ≡ bytes
  pub contexts :
      (i : ℕ)
      → i < n
      → (mb : MsgbufCtx) × (get_elem? cb.buf_ctxs i ≡ some mb)
        × (w.live mb.recv_buf ≡ some Kernel.memory)
        × (mb.rq_wr.wr_id ≡ i)
  pub len : length cb.buf_ctxs ≡ n
  pub queue : w.live cb.qp ≡ some Kernel.qp
  pub unused : (a : ℕ) → w.next ≤ a → w.live a ≡ none
  pub not_null : 0 < w.next
  pub channel : w.live ch ≡ some Kernel.memory
  pub known : w.bitmaps ch ≡ some bitmap

-- A completed receive of a full-size message that names the channel at `ch`.
pub record IsResponse (order : ByteOrder) (size bytes n ch : ℕ) (c : Completion) : Type 0 where
  pub status : c.wc.status ≡ success
  pub opcode : c.wc.opcode ≡ recv
  pub full : c.wc.byte_len ≡ size
  pub in_range : c.wc.wr_id < n
  pub room : length c.arrived.bytes ≡ bytes
  pub names : (decode_header order c.arrived).client_rpc_ch ≡ ch

abbrev pub AllResponses : ByteOrder → (size bytes n ch : ℕ) → List Completion → Type 0
AllResponses order size bytes n ch [] = Unit {0}
AllResponses order size bytes n ch (c ∷ cs) =
    IsResponse order size bytes n ch c × AllResponses order size bytes n ch cs

-- The bitmap after the responses, each of which frees the index of its buffer.
abbrev pub freed_by : List ℕ → List Completion → List ℕ
freed_by bitmap [] = bitmap
freed_by bitmap (c ∷ cs) = freed_by (free_msgbuf_id bitmap c.wc.wr_id) cs

-- The wait queues that the responses name.
abbrev pub sems : ByteOrder → List Completion → List ℕ
sems order = map (λ c. (decode_header order c.arrived).sem)

abbrev pub buffers_used : List Completion → List ℕ
buffers_used = map (λ c. c.wc.wr_id)

-- receive_msg changes no field of the block but the state.
pub working-frame :
    (b : Bool) (cb out : RdmaChCb)
    → out ≡ (if b then record cb { state = working } else cb)
    → (out.buf_ctxs ≡ cb.buf_ctxs)
      × (out.qp ≡ cb.qp)
      × (out.msgbuf_size ≡ cb.msgbuf_size)
      × (out.msgdata_size ≡ cb.msgdata_size)
working-frame true cb out e = rw e (refl, refl, refl, refl)
working-frame false cb out e = rw e (refl, refl, refl, refl)

module _ (size bytes n ch : ℕ) where
  pub land-Serving :
      (bitmap : List ℕ) (cb : RdmaChCb) (w : World) (c : Completion)
      → Serving size bytes n ch bitmap cb w
      → c.wc.wr_id < n
      → Serving size bytes n ch bitmap (land cb c) w
        × ((mb : MsgbufCtx) × (get_elem? (land cb c).buf_ctxs c.wc.wr_id ≡ some mb)
            × (mb.recv_msg ≡ c.arrived)
            × (w.live mb.recv_buf ≡ some Kernel.memory)
            × (mb.rq_wr.wr_id ≡ c.wc.wr_id))
  unfolding land
  land-Serving bitmap cb w c s h =
      let (mb, here, buffer, id) = s.contexts c.wc.wr_id h in
      let stored = record mb { recv_msg = c.arrived } in
      let read = get_elem?-set_self cb.buf_ctxs c.wc.wr_id stored (omega (arith, s.len)) in
      rw (land, here)
        (
          record {
            size_is = s.size_is;
            data_is = s.data_is;
            contexts = λ i lt. elim (Bool-cases (c.wc.wr_id == i)) [
              | inl e ↦
                  let same : c.wc.wr_id ≡ i = ground arith in
                  (
                    stored,
                    ap (get_elem? (set cb.buf_ctxs c.wc.wr_id stored)) (sym same) ∙ read,
                    buffer,
                    id ∙ same,
                  )
              | inr ne ↦
                  let (other, there, b, k) = s.contexts i lt in
                  (
                    other,
                    get_elem?-set_ne cb.buf_ctxs c.wc.wr_id i stored (λ e. ground arith) ∙ there,
                    b,
                    k,
                  )
            ];
            len = length-set cb.buf_ctxs c.wc.wr_id stored ∙ s.len;
            queue = s.queue;
            unused = s.unused;
            not_null = s.not_null;
            channel = s.channel;
            known = s.known;
          },
          (stored, read, refl, buffer, id),
        )

  -- The world after the buffer has been posted again still serves.
  pub reposted-Serving :
      (bitmap bitmap' : List ℕ) (cb out : RdmaChCb) (w w' : World) (posted : List ℕ)
      → Serving size bytes n ch bitmap cb w
      → (b : Bool) → out ≡ (if b then record cb { state = working } else cb)
      → ((a : ℕ) → w'.live a ≡ w.live a)
      → w.next ≤ w'.next
      → w'.bitmaps ch ≡ some bitmap'
      → Serving size bytes n ch bitmap' out (record (tick w') { posted = posted })
  reposted-Serving bitmap bitmap' cb out w w' posted s b e live more known =
      let (ctxs, qp, big, small) = working-frame b cb out e in
      record {
        size_is = big ∙ s.size_is;
        data_is = small ∙ s.data_is;
        contexts = λ i lt.
            let (mb, here, buffer, id) = s.contexts i lt in
            (mb, ap (λ t. get_elem? t i) ctxs ∙ here, live mb.recv_buf ∙ buffer, id);
        len = ap length ctxs ∙ s.len;
        queue = live out.qp ∙ ap w.live qp ∙ s.queue;
        unused = λ a h. live a ∙ s.unused a (omega arith);
        not_null = omega (arith, s.not_null);
        channel = live ch ∙ s.channel;
        known = known;
      }
