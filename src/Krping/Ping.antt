-- ===== src/Krping/Ping.antt =====
-- bak/krping.c: the prototype's ping loop.
use rpc_kern.Base.{
  ℕ, zero, suc, ◌+◌, ◌-◌, ◌%◌, Bool, true, not, ◌||◌, List, [], ◌∷◌, ◌++◌, ℤ, pos, is_zero, ◌==◌,
  ltb, if◌then◌else◌, length, set,
}
use rpc_kern.Kernel
use rpc_kern.Kernel.{World, Verbs, Run, ok, fault, M, pure, and_then, ◌>>=◌, ◌>>◌, alive, call}
use rpc_kern.Krping.{
  rdma_read_adv, rdma_write_adv, rdma_write_complete, error, at_least, is_state, KrpingCb,
  KrpingVerbs,
}
use rpc_kern.Krping.Cm.{krping_wait}

-- BUG_ON(ret <= 0 || ret > cb->page_list_len)
abbrev pub bug_on : Bool → M (Unit {0})
bug_on b w = if b then fault else ok tt w

abbrev pub mapped_badly : ℤ → ℕ → Bool
mapped_badly (pos n) len = (n == 0) || ltb len n
mapped_badly (ℤ.negsuc n) len = true

-- The key of the region is renewed, and the region registered for the buffer. The access and the
-- segment of the request are left out.
unfoldable pub krping_rdma_rkey :
    Verbs → KrpingVerbs → KrpingCb → (buf : ℕ) → (post_inv : Bool) → M (KrpingCb × ℕ)
krping_rdma_rkey v u cb buf post_inv = do
  alive Kernel.mr cb.reg_mr
  let key = (cb.key + 1) % 256
  let cb = record cb { key = key; rkey = u.rkey_of cb.rkey key }
  mapped ← call u.map_mr_sg
  bug_on (mapped_badly mapped cb.page_list_len)
  alive Kernel.qp cb.qp
  ret ← call v.post_send
  pure (if is_zero ret then cb else record cb { state = error }, cb.rkey)

unfoldable pub krping_format_send : Verbs → KrpingVerbs → KrpingCb → (buf : ℕ) → M KrpingCb
unfolding krping_rdma_rkey
krping_format_send v u cb buf = do
  (cb, rkey) ← krping_rdma_rkey v u cb buf (not cb.server_invalidate)
  pure (record cb {
    send_buf = record { buf = u.htonll buf; rkey = u.htonl rkey; size = u.htonl cb.size };
  })

-- The ib_post_send of what `send_buf` holds.
unfoldable pub krping_post_send : Verbs → KrpingCb → M (KrpingCb × ℤ)
krping_post_send v cb = do
  alive Kernel.qp cb.qp
  ret ← call v.post_send
  pure (
      if is_zero ret
      then (record cb { advertised = cb.advertised ++ cb.send_buf ∷ [] }, ret)
      else (cb, ret))

-- The character after `c` in a ping's text: up to 122 ('z'), then 65 ('A') again.
abbrev pub next_char : ℕ → ℕ
next_char c = if ltb 122 (c + 1) then 65 else c + 1

unfoldable pub chars : ℕ → ℕ → List ℕ
chars zero c = []
chars (suc n) c = c ∷ chars n (next_char c)

-- What a ping puts into `start_buf`: what sprintf writes, characters up to the size, and a zero as
-- the last of them. Where sprintf writes more than the size, the rest of that follows the zero, in
-- the page that the buffer has.
unfoldable pub fill_text : (written : List ℕ) → (start size : ℕ) → List ℕ
fill_text written start size = set (written ++ chars (size - length written) start) (size - 1) 0

-- Whether a ping went through; if not, the loop ends.
pub data Ping : Type 0 where
  complete broken : Ping

-- The second half of a ping, after the peer has read the buffer.
unfoldable pub ping_back : Verbs → KrpingVerbs → KrpingCb → M (KrpingCb × Ping)
ping_back v u cb = do
  cb ← krping_format_send v u cb cb.rdma_buf
  (cb, ret) ← krping_post_send v cb
  if not (is_zero ret) then pure (cb, broken) else do
    cb ← krping_wait v u (λ s. at_least s rdma_write_complete) cb
    if not (is_state cb.state rdma_write_complete) then pure (cb, broken) else pure (cb, complete)

-- One round of the loop.
unfoldable pub ping_round : Verbs → KrpingVerbs → KrpingCb → (ping start : ℕ) → M (KrpingCb × Ping)
unfolding fill_text
ping_round v u cb ping start = do
  let cb = record cb {
    state = rdma_read_adv;
    start_text = fill_text (u.ping_text ping) start cb.size;
  }
  cb ← krping_format_send v u cb cb.start_buf
  if is_state cb.state error then pure (cb, broken) else do
    (cb, ret) ← krping_post_send v cb
    if not (is_zero ret) then pure (cb, broken) else do
      cb ← krping_wait v u (λ s. at_least s rdma_write_adv) cb
      if not (is_state cb.state rdma_write_adv) then pure (cb, broken) else ping_back v u cb

-- `left` rounds, from the given ping on: the blocks after them, and how many went through.
unfoldable pub ping_rounds :
    Verbs → KrpingVerbs → (left : ℕ) → KrpingCb → (ping start : ℕ) → M (KrpingCb × ℕ)
ping_rounds v u zero cb ping start w = ok (cb, ping) w
ping_rounds v u (suc left) cb ping start w = and_then (ping_round v u cb ping start w) λ (cb', out).
    elim out [
      | complete ↦ ping_rounds v u left cb' (ping + 1) (next_char start)
      | broken ↦ pure (cb', ping)
    ]

-- Without a count the loop goes on until something breaks it: each round sleeps, and so uses up one
-- of the things that are to come.
abbrev pub rounds : KrpingCb → ℕ
rounds cb = if cb.count == 0 then length cb.to_come + 1 else cb.count

unfoldable pub krping_test_client : Verbs → KrpingVerbs → KrpingCb → M (KrpingCb × ℕ)
unfolding ping_rounds
krping_test_client v u cb = ping_rounds v u (rounds cb) cb 0 65

-- One ping, whose number is read before anything is stored in it: `garbage` is what it happens to be.
unfoldable pub krping_test_rpc_client : Verbs → KrpingVerbs → (garbage : ℕ) → KrpingCb → M KrpingCb
unfolding ping_round
krping_test_rpc_client v u garbage cb = do (cb, out) ← ping_round v u cb garbage 65; pure cb
