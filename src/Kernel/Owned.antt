-- ===== src/Kernel/Owned.antt =====
-- What the kernel's operations do to the objects that are alive.
use rpc_kern.Base.{ℕ, ◌≡◌, refl, true, false, none, some, ◌==◌}
use rpc_kern.Kernel.{
  Kind, memory, pd, cq, qp, cm_id, dma_map, mr, coherent, same_kind, World, ok, fault, alive, put,
  destroy, kfree,
}

pub same_kind_refl : (k : Kind) → same_kind k k ≡ true
same_kind_refl memory = refl
same_kind_refl pd = refl
same_kind_refl cq = refl
same_kind_refl qp = refl
same_kind_refl cm_id = refl
same_kind_refl dma_map = refl
same_kind_refl mr = refl
same_kind_refl coherent = refl

module _ (k : Kind) (p : ℕ) (w : World) (here : w.live p ≡ some k) where
  pub alive-ok : alive k p w ≡ ok tt w
  unfolding alive
  alive-ok = rw (alive, here, same_kind_refl k)

  pub destroy-ok : destroy k p w ≡ ok tt (record w { live = put w.live p none })
  unfolding destroy
  destroy-ok = rw (destroy, here, same_kind_refl k)

pub kfree-ok :
    (p : ℕ) (w : World)
    → (p == 0) ≡ false
    → w.live p ≡ some memory
    → kfree p w ≡ ok tt (record w { live = put w.live p none })
unfolding kfree
kfree-ok p w ne here = rw (ne, destroy-ok memory p w here)

module _ (k : Kind) (p : ℕ) (w : World) (dead : w.live p ≡ none) where
  pub alive-dead : alive k p w ≡ fault
  unfolding alive
  alive-dead = rw (alive, dead)

  pub destroy-dead : destroy k p w ≡ fault
  unfolding destroy
  destroy-dead = rw (destroy, dead)
