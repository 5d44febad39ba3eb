-- ===== src/Krping/Buffers.antt =====
-- The prototype's setup_buffers, where the mappings succeed, for every other answer: it makes the two
-- mappings, the two buffers and the region, or leaves the two mappings.
use rpc_kern.Base.{
  ℕ, ◌+◌, ◌≤◌, ◌<◌, ◌≡◌, refl, ◌⊎◌, inl, inr, true, false, none, some, if◌then◌else◌, arith, ℤ, pos,
  is_zero, eq_of_is_zero, Bool-cases, ◌==◌, ◌||◌, ==_false,
}
use rpc_kern.Kernel
use rpc_kern.Kernel.{
  Kind, World, Run, Verbs, ok, fault, alive, destroy, create, make, made, failed, call, put, tick,
  dma_map_single,
}
use rpc_kern.Kernel.Owned.{alive-ok, destroy-ok}
use rpc_kern.Kernel.Returns.{Returns, returns}
use rpc_kern.Kernel.Succeed.{with_new, make-new, make-failed}
use rpc_kern.Krping.{KrpingCb, KrpingVerbs}
use rpc_kern.Krping.Setup.{
  alloc_coherent, bail, alloc_start, alloc_region, krping_setup_wr, krping_setup_buffers, pages,
}

-- The pointers that a new block has not stored yet.
pub record Fresh (cb : KrpingCb) : Type 0 where
  pub dma_mr : cb.dma_mr ≡ 0
  pub rdma_mr : cb.rdma_mr ≡ 0
  pub start_mr : cb.start_mr ≡ 0
  pub reg_mr : cb.reg_mr ≡ 0
  pub start_buf : cb.start_buf ≡ 0

alloc_coherent-made :
    (u : KrpingVerbs) (w : World)
    → u.coherent_ok w.clock ≡ true
    → alloc_coherent u w ≡ ok w.next (with_new Kernel.coherent w)
unfolding alloc_coherent create
alloc_coherent-made u w e = rw e

alloc_coherent-null :
    (u : KrpingVerbs) (w : World)
    → u.coherent_ok w.clock ≡ false
    → alloc_coherent u w ≡ ok 0 (tick w)
unfolding alloc_coherent
alloc_coherent-null u w e = rw e

dma_map_single-made :
    (v : Verbs) (w : World)
    → v.dma_map_ok w.clock ≡ true
    → dma_map_single v w ≡ ok w.next (with_new Kernel.dma_map w)
unfolding dma_map_single create
dma_map_single-made v w e = rw e

-- After both mappings.
abbrev mapped : World → World
mapped w = with_new Kernel.dma_map (with_new Kernel.dma_map w)

-- The world and the block when all has been made.
abbrev pub buffered : World → World
buffered w = with_new Kernel.coherent (with_new Kernel.mr (with_new Kernel.coherent (mapped w)))

abbrev pub IsBuffered : KrpingCb → World → KrpingCb → Type 0
IsBuffered cb w out = out ≡ record cb {
  recv_dma_addr = w.next;
  recv_mapping = w.next;
  send_dma_addr = w.next + 1;
  send_mapping = w.next + 1;
  rdma_buf = w.next + 1 + 1;
  page_list_len = pages cb.size;
  reg_mr = w.next + 1 + 1 + 1;
  start_buf = w.next + 1 + 1 + 1 + 1;
  recv_sgl = out.recv_sgl;
  send_sgl = out.send_sgl;
}

-- Some allocation of a buffer or of the region fails.
abbrev pub Scarce : KrpingVerbs → Type 0
Scarce u = (t : ℕ) × ((u.coherent_ok t ≡ false) ⊎ (is_zero (u.alloc_mr t) ≡ false))

-- A failed allocation, after which the two mappings are left.
abbrev pub Leaked : KrpingVerbs → KrpingCb → World → KrpingCb × ℤ → World → Type 0
Leaked u cb w out w' =
    (is_zero out.1 ≡ false)
    × (out.0.self ≡ cb.self)
    × (out.0.qp ≡ cb.qp)
    × (out.0.cq ≡ cb.cq)
    × (out.0.pd ≡ cb.pd)
    × Scarce u
    × ((a : ℕ)
        → w'.live a
          ≡ (if (a == w.next) || (a == w.next + 1) then some Kernel.dma_map else w.live a))

module _ (v : Verbs) (u : KrpingVerbs) (maps : (t : ℕ) → v.dma_map_ok t ≡ true) (cb : KrpingCb)
    (w : World) (fresh : Fresh cb) (domain : w.live cb.pd ≡ some Kernel.pd) (low : 0 < w.next)
    (unused : (a : ℕ) → w.next ≤ a → w.live a ≡ none) where
  no_rdma_buf :
      u.coherent_ok (w.clock + 1 + 1) ≡ false
      → Returns (Leaked u cb w) (krping_setup_buffers v u cb w)
  unfolding krping_setup_buffers bail
  no_rdma_buf bad =
      let w1 = with_new Kernel.dma_map w in
      rw
        (
          alive-ok _ _ w domain,
          dma_map_single-made v w (maps _),
          dma_map_single-made v w1 (maps _),
          alloc_coherent-null u (mapped w) bad,
          fresh.reg_mr,
          fresh.rdma_mr,
          fresh.dma_mr,
          fresh.start_buf,
        )
        (returns
          (refl, refl, refl, refl, refl, (w.clock + 1 + 1, inl bad), λ a. ground (arith, unused a)))

  no_region :
      u.coherent_ok (w.clock + 1 + 1) ≡ true
      → is_zero (u.alloc_mr (w.clock + 1 + 1 + 1)) ≡ false
      → Returns (Leaked u cb w) (krping_setup_buffers v u cb w)
  unfolding krping_setup_buffers alloc_region bail
  no_region a bad =
      let w1 = with_new Kernel.dma_map w in
      let w3 = with_new Kernel.coherent (mapped w) in
      rw
        (
          alive-ok _ _ w domain,
          dma_map_single-made v w (maps _),
          dma_map_single-made v w1 (maps _),
          alloc_coherent-made u (mapped w) a,
          ==_false (w.next + 1 + 1) 0 (omega arith),
          make-failed u.alloc_mr Kernel.mr w3 _ refl bad,
          fresh.rdma_mr,
          fresh.dma_mr,
          ==_false (w.next + 1 + 1) 0 (omega arith),
          destroy-ok Kernel.coherent (w.next + 1 + 1) (tick w3) (ground arith),
          fresh.start_buf,
        )
        (returns (
          bad,
          refl,
          refl,
          refl,
          refl,
          (w.clock + 1 + 1 + 1, inr bad),
          λ a. ground (arith, unused a, unused (w.next + 1 + 1)),
        ))

  no_start_buf :
      u.coherent_ok (w.clock + 1 + 1) ≡ true
      → is_zero (u.alloc_mr (w.clock + 1 + 1 + 1)) ≡ true
      → u.coherent_ok (w.clock + 1 + 1 + 1 + 1) ≡ false
      → Returns (Leaked u cb w) (krping_setup_buffers v u cb w)
  unfolding krping_setup_buffers alloc_region alloc_start bail
  no_start_buf a b bad =
      let w1 = with_new Kernel.dma_map w in
      let w3 = with_new Kernel.coherent (mapped w) in
      let w4 = with_new Kernel.mr w3 in
      let w5 = record (tick w4) { live = put w4.live (w.next + 1 + 1 + 1) none } in
      rw
        (
          alive-ok _ _ w domain,
          dma_map_single-made v w (maps _),
          dma_map_single-made v w1 (maps _),
          alloc_coherent-made u (mapped w) a,
          ==_false (w.next + 1 + 1) 0 (omega arith),
          make-new u.alloc_mr Kernel.mr w3 (eq_of_is_zero _ b),
          alloc_coherent-null u w4 bad,
          ==_false (w.next + 1 + 1 + 1) 0 (omega arith),
          destroy-ok Kernel.mr (w.next + 1 + 1 + 1) (tick w4) (ground arith),
          fresh.rdma_mr,
          fresh.dma_mr,
          ==_false (w.next + 1 + 1) 0 (omega arith),
          destroy-ok Kernel.coherent (w.next + 1 + 1) w5 (ground arith),
        )
        (returns (
          refl,
          refl,
          refl,
          refl,
          refl,
          (w.clock + 1 + 1 + 1 + 1, inl bad),
          λ a. ground (arith, unused a, unused (w.next + 1 + 1), unused (w.next + 1 + 1 + 1)),
        ))

  all_made :
      u.coherent_ok (w.clock + 1 + 1) ≡ true
      → is_zero (u.alloc_mr (w.clock + 1 + 1 + 1)) ≡ true
      → u.coherent_ok (w.clock + 1 + 1 + 1 + 1) ≡ true
      → Returns
          (λ out w'. (out.1 ≡ pos 0) × IsBuffered cb w out.0 × (w' ≡ (buffered w)))
          (krping_setup_buffers v u cb w)
  unfolding krping_setup_buffers alloc_region alloc_start krping_setup_wr
  all_made a b c =
      let w1 = with_new Kernel.dma_map w in
      let w3 = with_new Kernel.coherent (mapped w) in
      let w4 = with_new Kernel.mr w3 in
      rw
        (
          alive-ok _ _ w domain,
          dma_map_single-made v w (maps _),
          dma_map_single-made v w1 (maps _),
          alloc_coherent-made u (mapped w) a,
          ==_false (w.next + 1 + 1) 0 (omega arith),
          make-new u.alloc_mr Kernel.mr w3 (eq_of_is_zero _ b),
          alloc_coherent-made u w4 c,
          ==_false (w.next + 1 + 1 + 1 + 1) 0 (omega arith),
          alive-ok Kernel.pd cb.pd (buffered w) (ground (arith, domain, unused cb.pd)),
        )
        (returns (refl, refl, refl))

  pub krping_setup_buffers-cases :
      Returns (Leaked u cb w) (krping_setup_buffers v u cb w)
      ⊎ Returns
          (λ out w'. (out.1 ≡ pos 0) × IsBuffered cb w out.0 × (w' ≡ (buffered w)))
          (krping_setup_buffers v u cb w)
  krping_setup_buffers-cases = elim (Bool-cases (u.coherent_ok (w.clock + 1 + 1))) [
    | inr bad ↦ inl (no_rdma_buf bad)
    | inl a ↦ elim (Bool-cases (is_zero (u.alloc_mr (w.clock + 1 + 1 + 1)))) [
      | inr bad ↦ inl (no_region a bad)
      | inl b ↦ elim (Bool-cases (u.coherent_ok (w.clock + 1 + 1 + 1 + 1))) [
        | inr bad ↦ inl (no_start_buf a b bad)
        | inl c ↦ inr (all_made a b c)
      ]
    ]
  ]
