-- ===== src/Kernel/Succeed.antt =====
-- A kernel in which every call succeeds, and what a run leaves alone.
use rpc_kern.Base.{ℕ, ◌+◌, ◌≡◌, ◌∙◌, Bool, true, false, ◌&&◌, ℤ, pos, is_zero, some, leb, ltb}
use rpc_kern.Kernel.{
  Kind, memory, dma_map, World, Verbs, ok, create, kzalloc, dma_map_single, make, made, failed,
  tick, put,
}

pub record AllSucceed (v : Verbs) : Type 0 where
  pub kzalloc_ok : (t : ℕ) → v.kzalloc_ok t ≡ true
  pub alloc_pd : (t : ℕ) → v.alloc_pd t ≡ pos 0
  pub create_cq : (t : ℕ) → v.create_cq t ≡ pos 0
  pub req_notify_cq : (t : ℕ) → v.req_notify_cq t ≡ pos 0
  pub create_qp : (t : ℕ) → v.create_qp t ≡ pos 0
  pub dma_map_ok : (t : ℕ) → v.dma_map_ok t ≡ true
  pub post_recv : (t : ℕ) → v.post_recv t ≡ pos 0
  pub create_id : (t : ℕ) → v.create_id t ≡ pos 0
  pub resolve_addr : (t : ℕ) → v.resolve_addr t ≡ pos 0
  pub resolve_route : (t : ℕ) → v.resolve_route t ≡ pos 0
  pub connect : (t : ℕ) → v.connect t ≡ pos 0

-- The range of addresses from `lo` up to but not including `hi`.
abbrev pub within : ℕ → ℕ → ℕ → Bool
within lo hi a = leb lo a && ltb a hi

-- Nothing changed but what is alive, the clock and the next address.
pub record SameRest (w w' : World) : Type 0 where
  pub posted : w'.posted ≡ w.posted
  pub sent : w'.sent ≡ w.sent
  pub bitmaps : w'.bitmaps ≡ w.bitmaps
  pub woken : w'.woken ≡ w.woken
  pub script : w'.script ≡ w.script

pub SameRest-trans : {w w' w'' : World} → SameRest w w' → SameRest w' w'' → SameRest w w''
SameRest-trans a b = record {
  posted = b.posted ∙ a.posted;
  sent = b.sent ∙ a.sent;
  bitmaps = b.bitmaps ∙ a.bitmaps;
  woken = b.woken ∙ a.woken;
  script = b.script ∙ a.script;
}

-- The world after a new object.
abbrev pub with_new : Kind → World → World
with_new k w = record w {
  next = w.next + 1;
  clock = w.clock + 1;
  live = put w.live w.next (some k);
}

pub kzalloc-made :
    (v : Verbs) (w : World)
    → v.kzalloc_ok w.clock ≡ true
    → kzalloc v w ≡ ok w.next (with_new memory w)
unfolding kzalloc create
kzalloc-made v w e = rw e

pub kzalloc-null :
    (v : Verbs) (w : World) → v.kzalloc_ok w.clock ≡ false → kzalloc v w ≡ ok 0 (tick w)
unfolding kzalloc
kzalloc-null v w e = rw e

module _ (v : Verbs) (all : AllSucceed v) (w : World) where
  pub kzalloc-new : kzalloc v w ≡ ok w.next (with_new memory w)
  kzalloc-new = kzalloc-made v w (all.kzalloc_ok w.clock)

  pub dma_map_single-new : dma_map_single v w ≡ ok w.next (with_new dma_map w)
  unfolding dma_map_single create
  dma_map_single-new = rw (all.dma_map_ok w.clock)

pub make-new :
    (f : ℕ → ℤ) (k : Kind) (w : World)
    → f w.clock ≡ pos 0
    → make f k w ≡ ok (made w.next) (with_new k w)
unfolding make create
make-new f k w e = rw e

pub make-failed :
    (f : ℕ → ℤ) (k : Kind) (w : World) (t : ℤ)
    → f w.clock ≡ t
    → is_zero t ≡ false
    → make f k w ≡ ok (failed t) (tick w)
unfolding make
make-failed f k w t e bad = rw (e, bad)
