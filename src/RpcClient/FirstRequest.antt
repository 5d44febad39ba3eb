-- ===== src/RpcClient/FirstRequest.antt =====
-- The first request on a channel of the RPC layer.
use rpc_kern.Base.{
  ℕ, ◌+◌, ◌%◌, ◌^◌, ◌<◌, ◌≤◌, ◌≡◌, refl, subst, true, Option, none, some, List, [], ◌∷◌, ◌++◌,
  arith, length, replicate, is_zero, set, sym, ap, ◌∙◌,
}
use rpc_kern.Bitmap.{bit_arr_size, find_from, bit_array_find_first_clear_bit, bit_array_set_bit}
use rpc_kern.Msgbuf.{alloc_attempt, others, alloc_msgbuf_id}
use rpc_kern.Message.{ByteOrder, RdmaMsg}
use rpc_kern.Rdma.Send.Posts.{CanSend, Carries, header_of}
use rpc_kern.Rdma.Channel.Life.{Opened}
use rpc_kern.Rdma.Channel.Ready.{Opened-set, sent-Kept, At, Opened-CanSend}
use rpc_kern.RpcClient.Life.{init_rpc_client-Inited, allocated, channel_on, channel-IsOpen}
use rpc_kern.Kernel.{World, Wakeup, Sent, Verbs}
use rpc_kern.Kernel.Returns.{Returns, weaken}
use rpc_kern.Kernel.Succeed.{AllSucceed}
use rpc_kern.Rdma.{RdmaChCb}
use rpc_kern.Rdma.Channel.{RdmaChAttr}
use rpc_kern.Rdma.Channel.Running.{comes_up}
use rpc_kern.Rdma.Channel.Start.{Inited}
use rpc_kern.RpcClient.{
  strcpy, array, ip_addr_size, rpc_ch_rdma, rpc_msg_buf_num, RpcChInfo, RpcReqParam,
  init_rpc_client, send_rpc_msg_to_server,
}
use rpc_kern.RpcClient.Requests.{send_rpc_msg_to_server-Requested}

abbrev pub first_taken : List ℕ
first_taken = 1 ∷ 0 ∷ 0 ∷ 0 ∷ []

pub first_id : alloc_msgbuf_id ([] ∷ []) (replicate bit_arr_size 0) 0 ≡ some (0, first_taken)
unfolding alloc_msgbuf_id alloc_attempt find_from bit_array_find_first_clear_bit bit_array_set_bit
    others
first_id = refl

-- One message more is sent, through the buffer with id 0.
abbrev pub SentFirst :
    ByteOrder
    → (size sem : ℕ) → (bytes : List ℕ) → RpcChInfo
    → World
    → RpcChInfo × ℕ
    → World
    → Type 0
SentFirst order size sem bytes ch w1 out w2 =
    (sent : Sent) × (seqn : ℕ) × (w2.sent ≡ w1.sent ++ sent ∷ [])
    × Carries order size (header_of seqn sem ch.self) bytes sent.msg
    × (out.1 ≡ 0)
    × (w2.bitmaps ch.self ≡ some first_taken)

module _ (order : ByteOrder) (v : Verbs) (attr : RdmaChAttr) (rest : List Wakeup) (w : World)
    (not_null : 0 < w.next) (unused : (a : ℕ) → w.next ≤ a → w.live a ≡ none)
    (out : Option RdmaChCb) (w1 : World) (i : Inited attr rest (allocated w) out w1)
    (four : attr.msgbuf_cnt ≡ rpc_msg_buf_num) (ch_word : w.next < 2 ^ 64) (sem : ℕ)
    (bytes : List ℕ) (sem_word : sem < 2 ^ 64) (enough : attr.msgdata_size ≤ length bytes)
    (accepted : is_zero (v.post_send w1.clock) ≡ true) where
  abbrev req : RpcReqParam
  req = record { rpc_ch = channel_on w i.cb; bytes = bytes; sem = sem }

  -- The buffer with id 0 can send.
  first_ready :
      (a : At (w.next + 1 + 1 + 6) i.cb.msgdata_size 0 0 i.cb.buf_ctxs) × CanSend i.cb w1 0 a.mb
  first_ready =
      Opened-CanSend attr.msgbuf_cnt (allocated w) i.cb w1 0 i.opened (omega (arith, four))

  -- The channel is still open after the request.
  pub request-Opened :
      Returns
        (λ out w2.
          SentFirst order attr.msgdata_size sem bytes (channel_on w i.cb) w1 out w2
          × ((cb : RdmaChCb) × (out.0 ≡ channel_on w cb)
              × Opened attr.msgbuf_cnt (allocated w) cb w2))
        (send_rpc_msg_to_server order v ([] ∷ []) req w1)
  request-Opened =
      let (a, ready) = first_ready in
      let mb = a.mb in
      let number = (mb.seqn + 1) % 2 ^ 64 in
      weaken
        (send_rpc_msg_to_server-Requested order v ([] ∷ []) req i.cb (replicate bit_arr_size 0)
          first_taken 0 mb w1 (channel-IsOpen w not_null unused attr rest out w1 i) refl refl
          first_id ready sem_word ch_word (omega (arith, i.data_size)) accepted)
        λ res w2 r. (
          (
            r.sent,
            number,
            r.appended,
            subst (λ n. Carries order n (header_of number sem w.next) bytes r.sent.msg) i.data_size
                r.carries,
            r.id_used,
            r.marked_taken,
          ),
          (
            record i.cb { buf_ctxs = set i.cb.buf_ctxs 0 r.mb' },
            r.stored,
            Opened-set attr.msgbuf_cnt (allocated w) i.cb w1 w2 0 mb r.mb' i.opened ready.context
                (sent-Kept i.cb.msgdata_size mb r.mb' a.recv_size r.frame
                  (ap (λ (m : RdmaMsg). length m.bytes) (sym r.content) ∙ r.carries.size))
                r.live,
          ),
        )

-- Where every call into the kernel succeeds, the connection comes up, the adapter accepts requests
-- addresses not yet given out are not alive, and the copy of the target fits into its array,
-- init_rpc_client for RDMA returns a channel on which a request with at least the channel's data
-- size, while no other thread takes an id, returns: it appends one message to what is sent, with
-- the requester's wait queue, the channel's address and the data in it, its result is 0, and id 0
-- is the one taken in the channel's bitmap.
pub init_rpc_client-send_rpc_msg_to_server :
    (order : ByteOrder) (v : Verbs) (handler : ℕ) (before : ℕ → ℕ) (target ip_addr : List ℕ)
    (port size msg_handler : ℕ) (w : World) (rest : List Wakeup) (sem : ℕ) (bytes : List ℕ)
    → strcpy (array ip_addr_size before) target ≡ some ip_addr
    → 0 < w.next
    → w.next < 2 ^ 64
    → ((a : ℕ) → w.next ≤ a → w.live a ≡ none)
    → AllSucceed v
    → ((t : ℕ) → is_zero (v.post_send t) ≡ true)
    → w.script ≡ comes_up rest
    → sem < 2 ^ 64
    → size ≤ length bytes
    → Returns
        (λ out w1.
          (ch : RpcChInfo) × (out ≡ some ch)
          × Returns (SentFirst order size sem bytes ch w1) (
              send_rpc_msg_to_server order v
                ([] ∷ [])
                (record { rpc_ch = ch; bytes = bytes; sem = sem })
                w1))
        (init_rpc_client order v handler before rpc_ch_rdma target port size msg_handler w)
init_rpc_client-send_rpc_msg_to_server order v handler before target ip_addr port size msg_handler w
      rest sem bytes fits nn low unused all post script sw enough =
    weaken
      (init_rpc_client-Inited order v handler before target port size msg_handler w nn unused
        ip_addr rest fits all script)
      λ out w1 (made, i, e). (
        channel_on w i.cb,
        e,
        weaken
            (request-Opened order v _ rest w nn unused made w1 i refl low sem bytes sw enough
              (post w1.clock))
            λ res w2 (sent, still_up). sent,
      )
