-- ===== src/Rdma/Setup/Layout.antt =====
-- How the contexts of a channel name their buffers, mappings and requests.
use rpc_kern.Base.{
  ℕ, zero, suc, map, ◌+◌, ◌*◌, ◌≡◌, refl, ◌∙◌, ap, some, List, [], ◌∷◌, if◌then◌else◌, arith,
  length,
}
use rpc_kern.Kernel
use rpc_kern.Kernel.{
  World, Run, Verbs, M, ok, fault, and_then, pure, alive, put, kzalloc, kfree, destroy,
  dma_map_single,
}
use rpc_kern.Kernel.Succeed.{within, SameRest, with_new}
use rpc_kern.Rdma.{MsgbufCtx, RdmaChCb}
use rpc_kern.Rdma.Setup.{set_wr, set_wrs}

-- The buffers of the contexts lie at consecutive addresses from `p`.
abbrev pub HasBufs : ℕ → List MsgbufCtx → Type 0
HasBufs p [] = Unit {0}
HasBufs p (mb ∷ mbs) = (mb.recv_buf ≡ p) × (mb.send_buf ≡ p + 1) × HasBufs (p + 1 + 1) mbs

-- Their mappings lie at consecutive addresses from `q`.
abbrev pub HasMaps : ℕ → List MsgbufCtx → Type 0
HasMaps q [] = Unit {0}
HasMaps q (mb ∷ mbs) = (mb.recv_mapping ≡ q) × (mb.send_mapping ≡ q + 1) × HasMaps (q + 1 + 1) mbs

-- The messages in both buffers of every context have `n` bytes of data.
abbrev pub Sized : ℕ → List MsgbufCtx → Type 0
Sized n [] = Unit {0}
Sized n (mb ∷ mbs) = (length mb.recv_msg.bytes ≡ n) × (length mb.send_msg.bytes ≡ n) × Sized n mbs

-- Two new objects of a kind for each of `n` contexts.
pub record Grown (k : Kernel.Kind) (n : ℕ) (w w' : World) : Type 0 where
  pub next : w'.next ≡ w.next + 2 * n
  pub live : (a : ℕ) → w'.live a ≡ (if within w.next (w.next + 2 * n) a then some k else w.live a)
  pub rest : SameRest w w'

pub Grown-none : (k : Kernel.Kind) (w : World) → Grown k 0 w w
Grown-none k w = record {
  next = omega arith;
  live = λ a. ground arith;
  rest = record { posted = refl; sent = refl; bitmaps = refl; woken = refl; script = refl };
}

pub Grown-two :
    (k : Kernel.Kind) (n : ℕ) (w w' : World)
    → Grown k n (with_new k (with_new k w)) w'
    → Grown k (suc n) w w'
Grown-two k n w w' g = record {
  next = omega (arith, g.next);
  live = λ a. g.live a ∙ ground arith;
  rest = record {
    posted = g.rest.posted;
    sent = g.rest.sent;
    bitmaps = g.rest.bitmaps;
    woken = g.rest.woken;
    script = g.rest.script;
  };
}

pub set_wrs-keeps :
    (v : Verbs) (cb : RdmaChCb) (i p q s : ℕ) (mbs : List MsgbufCtx)
    → HasBufs p mbs
    → Sized s mbs
    → HasMaps q mbs
    → HasBufs p (set_wrs v cb i mbs)
      × Sized s (set_wrs v cb i mbs)
      × HasMaps q (set_wrs v cb i mbs)
      × (length (set_wrs v cb i mbs) ≡ length mbs)
unfolding set_wrs
set_wrs-keeps v cb i p q s [] bufs sized maps = (tt, tt, tt, refl)
set_wrs-keeps v cb i p q s (mb ∷ mbs) (b0, b1, bufs) (s0, s1, sized) (m0, m1, maps) =
    let (b, z, m, l) = set_wrs-keeps v cb (i + 1) (p + 1 + 1) (q + 1 + 1) s mbs bufs sized maps in
    ((b0, b1, b), (s0, s1, z), (m0, m1, m), ap suc l)

abbrev pub wr_ids : List MsgbufCtx → List ℕ
wr_ids = map (λ mb. mb.rq_wr.wr_id)

-- `n` numbers from `i` on.
abbrev pub indices : ℕ → ℕ → List ℕ
indices i zero = []
indices i (suc n) = i ∷ indices (i + 1) n

pub set_wrs-wr_ids :
    (v : Verbs) (cb : RdmaChCb) (i : ℕ) (mbs : List MsgbufCtx)
    → wr_ids (set_wrs v cb i mbs) ≡ indices i (length mbs)
unfolding set_wrs set_wr
set_wrs-wr_ids v cb i [] = refl
set_wrs-wr_ids v cb i (mb ∷ mbs) = ap (λ t. i ∷ t) (set_wrs-wr_ids v cb (i + 1) mbs)

-- Both requests of each context carry its index, from `i` on.
abbrev pub Numbered : ℕ → List MsgbufCtx → Type 0
Numbered i [] = Unit {0}
Numbered i (mb ∷ mbs) = (mb.rq_wr.wr_id ≡ i) × (mb.sq_wr.wr_id ≡ i) × Numbered (i + 1) mbs

pub set_wrs-Numbered :
    (v : Verbs) (cb : RdmaChCb) (i : ℕ) (mbs : List MsgbufCtx) → Numbered i (set_wrs v cb i mbs)
unfolding set_wrs set_wr
set_wrs-Numbered v cb i [] = tt
set_wrs-Numbered v cb i (mb ∷ mbs) = (refl, refl, set_wrs-Numbered v cb (i + 1) mbs)
