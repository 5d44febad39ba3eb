-- ===== src/RpcClient/Session/New.antt =====
-- A new channel implements the first state of the exchange.
use rpc_kern.Base.{
  ℕ, ◌+◌, ◌<◌, ◌≤◌, ◌≡◌, refl, ◌∙◌, none, sym, append-nil, ap, Option, List, [], ◌++◌, arith, map,
  count,
}
use rpc_kern.Message.{ByteOrder, msgheader_size}
use rpc_kern.Kernel.{World, Wakeup, Sent, Verbs}
use rpc_kern.Rdma.{RdmaChCb}
use rpc_kern.Rdma.Channel.Start.{Inited}
use rpc_kern.Rdma.Setup.Buffers.{indices}
use rpc_kern.RpcClient.{rpc_msg_buf_num}
use rpc_kern.RpcClient.Exchange.{start}
use rpc_kern.RpcClient.Life.{allocated, channel-IsOpen, client_attr}
use rpc_kern.RpcClient.Session.{Implements}

four_indices : indices 0 rpc_msg_buf_num ≡ start.receives
four_indices = refl

module _ (order : ByteOrder) (v : Verbs) (size : ℕ) (w0 : World) (not_null : 0 < w0.next)
    (unused : (a : ℕ) → w0.next ≤ a → w0.live a ≡ none) where
  -- A new channel is in the first state.
  pub start-Implements :
      (handler : ℕ) (before : ℕ → ℕ) (target ip_addr : List ℕ) (port msg_handler : ℕ)
      (rest : List Wakeup) (made : Option RdmaChCb) (w1 : World)
      (i : Inited
        (client_attr order v handler before target port size msg_handler w0 not_null unused ip_addr)
        rest
        (allocated w0)
        made
        w1)
      → Implements size w0 start i.cb w1
  start-Implements handler before target ip_addr port msg_handler rest made w1 i = record {
    opened = i.opened;
    next = omega (arith, i.next);
    data_size = i.data_size;
    fit = i.fit ∙ ap (λ n. n + msgheader_size) i.data_size;
    bitmap = (channel-IsOpen w0 not_null unused _ rest made w1 i).known;
    used = [];
    posted = i.posted ∙ ap (λ l. l ++ start.receives) (sym (append-nil w0.posted));
    answered = [];
    answers = refl;
    sent = λ k. ap (λ ts. count k (map (λ (x : Sent). x.wr_id) ts)) i.sent ∙ omega arith;
  }
