-- ===== src/RpcClient/Session/Refines.antt =====
-- Every session that the exchange allows, on a new channel, is run by the code as the exchange says.
use rpc_kern.Base.{[], ◌∷◌, ℕ, ◌+◌, ◌^◌, ◌<◌, ◌≤◌, ◌≡◌, refl, true, none, some, List, is_zero}
use rpc_kern.Message.{ByteOrder, msgheader_size}
use rpc_kern.Kernel.{World, Wakeup, Verbs}
use rpc_kern.Kernel.Returns.{Returns, returns, chain, weaken}
use rpc_kern.Kernel.Succeed.{AllSucceed}
use rpc_kern.Rdma.{RdmaChCb}
use rpc_kern.Rdma.Channel.Running.{comes_up}
use rpc_kern.RpcClient.{
  strcpy, array, ip_addr_size, rpc_msg_buf_num, rpc_ch_rdma, RpcChInfo, init_rpc_client,
  destroy_rpc_client,
}
use rpc_kern.RpcClient.Exchange.{
  Exchange, start, Action, request, respond, Step, responds, Reach, here, next,
}
use rpc_kern.RpcClient.Exchange.Flow.{Flow, start-Flow, Step-Flow}
use rpc_kern.RpcClient.Life.{channel_on, destroy-channel, init_rpc_client-Inited}
use rpc_kern.RpcClient.Session.{
  Event, play, play_all, Allowed, asking, arriving, AllAllowed, done, then_next, Heard, Implements,
}
use rpc_kern.RpcClient.Session.New.{start-Implements}
use rpc_kern.RpcClient.Session.Heard.{done-Told, then-Told}
use rpc_kern.RpcClient.Session.Request.{asks-Implements}
use rpc_kern.RpcClient.Session.Response.{arrives-Implements}

Allowed-Step :
    {order : ByteOrder} {size ch : ℕ} {s t : Exchange} {e : Event}
    → Allowed order size ch s e t
    → (a : Action) × Step s a t
Allowed-Step (asking sem bytes t st sw enough) = (request, st)
Allowed-Step (arriving c id rest mine oldest r) =
    (respond id, responds id c.wc.wr_id rest mine oldest)

AllAllowed-Reach :
    {order : ByteOrder} {size ch : ℕ} {r s t : Exchange} {es : List Event}
    → Reach r s
    → AllAllowed order size ch s es t
    → Reach r t
AllAllowed-Reach before done = before
AllAllowed-Reach before (then_next one more) =
    let (a, st) = Allowed-Step one in AllAllowed-Reach (next a before st) more

module _ (order : ByteOrder) (v : Verbs) (all : AllSucceed v)
    (accepts : (t : ℕ) → is_zero (v.post_send t) ≡ true) (size : ℕ)
    (small : size + msgheader_size < 2 ^ 31) (w0 : World) (not_null : 0 < w0.next)
    (ch_word : w0.next < 2 ^ 64) (unused : (a : ℕ) → w0.next ≤ a → w0.live a ≡ none) where
  play-Implements :
      (s t : Exchange) (e : Event) (cb : RdmaChCb) (w : World)
      → Allowed order size w0.next s e t
      → Flow s
      → Implements size w0 s cb w
      → Returns (Heard order size w0 t (e ∷ []) w) (play order v (channel_on w0 cb) e w)
  play-Implements s t _ cb w (asking sem bytes _ st sw enough) f i =
      asks-Implements order v accepts size w0 ch_word s t cb w sem bytes f i st sw enough
  play-Implements s _ _ cb w (arriving c id rest mine oldest r) f i =
      arrives-Implements order v all size small w0 not_null unused s cb w c id rest i mine oldest r

  play_all-Implements :
      {s u : Exchange} {es : List Event} (cb : RdmaChCb) (w : World)
      → AllAllowed order size w0.next s es u
      → Flow s
      → Implements size w0 s cb w
      → Returns (Heard order size w0 u es w) (play_all order v (channel_on w0 cb) es w)
  unfolding play_all
  play_all-Implements cb w done f i = returns ((cb, refl, i), done-Told order size w0.next w)
  play_all-Implements {s} cb w (then_next {t} {e} {es} one more) f i =
      chain (play-Implements s t e cb w one f i) λ ch w1 ((cb1, same, i1), told). rw same (
        weaken (play_all-Implements cb1 w1 more (Step-Flow (Allowed-Step one).1 f) i1)
          λ ch' w2 (into, told'). (into, then-Told order size w0.next e es w w1 w2 told told'))

  -- Where every call into the kernel succeeds, the connection comes up, the adapter accepts
  -- requests, addresses not yet given out are not alive and have 64 bits, the buffer size is below
  -- 2 ^ 31, and the copy of the target fits into its array: init_rpc_client for RDMA returns a
  -- channel on which every sequence of requests and responses that the exchange allows runs, one
  -- after the other, without a fault or a hang. Each request adds one message to what is sent,
  -- which carries its wait queue, the channel's address and its data, and each response wakes the
  -- wait queue that it names, in order. The channel is then in the state that the exchange says:
  -- the bitmap is that of the exchange, the receives posted and not yet used are its receives in
  -- order, and the requests sent are, by id, those that wait and those that were answered, of which
  -- there are as many as receives used; and that state is one that requests and responses reach
  -- from a new channel. destroy_rpc_client then returns and leaves alive exactly what was alive
  -- before.
  pub session-Implements :
      (handler : ℕ) (before : ℕ → ℕ) (target ip_addr : List ℕ) (port msg_handler : ℕ)
      (rest : List Wakeup) (es : List Event) (s : Exchange)
      → strcpy (array ip_addr_size before) target ≡ some ip_addr
      → w0.script ≡ comes_up rest
      → AllAllowed order size w0.next start es s
      → Returns
          (λ out w1.
            (ch : RpcChInfo) × (out ≡ some ch)
            × Returns
                (λ ch' w2.
                  Heard order size w0 s es w1 ch' w2
                  × Reach start s
                  × Returns (λ _ w3. (a : ℕ) → w3.live a ≡ w0.live a) (destroy_rpc_client ch' w2))
                (play_all order v ch es w1))
          (init_rpc_client order v handler before rpc_ch_rdma target port size msg_handler w0)
  session-Implements handler before target ip_addr port msg_handler rest es s fits script allowed =
      weaken
        (init_rpc_client-Inited order v handler before target port size msg_handler w0 not_null
          unused ip_addr rest fits all script)
        λ out w1 (made, i, e). (
          channel_on w0 i.cb,
          e,
          weaken
              (play_all-Implements i.cb w1 allowed start-Flow (
                start-Implements order v size w0 not_null unused handler before target ip_addr port
                  msg_handler rest made w1 i))
              λ ch' w2 ((cb', same, i'), told). (
                ((cb', same, i'), told),
                AllAllowed-Reach here allowed,
                rw same (destroy-channel w0 not_null unused rpc_msg_buf_num cb' w2 i'.opened),
              ),
        )
