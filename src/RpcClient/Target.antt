-- ===== src/RpcClient/Target.antt =====
-- The target that init_rpc_client copies into its attribute.
use rpc_kern.Base.{
  ℕ, zero, suc, ◌+◌, ◌<◌, ◌≤◌, ◌≡◌, refl, ◌∙◌, ap, inl, inr, Bool, true, false, Option, none, some,
  List, [], ◌∷◌, ◌||◌, ◌==◌, arith, length, take, Bool-cases, ==_false,
}
use rpc_kern.Message.{ByteOrder}
use rpc_kern.Kernel
use rpc_kern.Kernel.{World, Verbs, Run, ok, fault, and_then, or_fault}
use rpc_kern.Kernel.Owned.{alive-ok}
use rpc_kern.Kernel.Succeed.{with_new, kzalloc-made}
use rpc_kern.RpcClient.{strcpy, array, ip_addr_size, rpc_ch_rdma, init_rpc_client}

abbrev pub has_zero : List ℕ → Bool
has_zero [] = false
has_zero (b ∷ bs) = (b == 0) || has_zero bs

abbrev pub is_some : Option (List ℕ) → Bool
is_some none = false
is_some (some bs) = true

kept_some :
    (s : ℕ) (o : Option (List ℕ))
    → is_some (elim o as (λ _. Option (List ℕ)) [ none ↦ none | some l ↦ some (s ∷ l) ]) ≡ is_some o
kept_some s none = refl
kept_some s (some l) = refl

-- The copy stays within both arrays exactly if the source has a zero where the array still has room.
pub strcpy_fits :
    (before src : List ℕ) → is_some (strcpy before src) ≡ has_zero (take (length before) src)
unfolding strcpy
strcpy_fits [] src = refl
strcpy_fits (b ∷ before) [] = refl
strcpy_fits (b ∷ before) (s ∷ src) = elim (Bool-cases (s == 0)) [
  | inl y ↦ rw y refl
  | inr n ↦ rw n (kept_some s (strcpy before src) ∙ strcpy_fits before src)
]

none-is_some : (o : Option (List ℕ)) → is_some o ≡ false → o ≡ none
none-is_some none e = refl
none-is_some (some bs) e = cc

length-array : (n : ℕ) (byte : ℕ → ℕ) → length (array n byte) ≡ n
length-array zero byte = refl
length-array (suc n) byte = ap suc (length-array n (λ i. byte (i + 1)))

module _ (order : ByteOrder) (v : Verbs) (handler : ℕ) (before : ℕ → ℕ) (target : List ℕ)
    (port size msg_handler : ℕ) (w : World) (not_null : 0 < w.next)
    (unused : (a : ℕ) → w.next ≤ a → w.live a ≡ none)
    (allocates : (t : ℕ) → v.kzalloc_ok t ≡ true) where
  pub init_rpc_client-over :
      strcpy (array ip_addr_size before) target ≡ none
      → init_rpc_client order v handler before rpc_ch_rdma target port size msg_handler w ≡ fault
  unfolding init_rpc_client
  init_rpc_client-over over = rw (
    kzalloc-made v w (allocates _),
    alive-ok Kernel.memory w.next (with_new Kernel.memory w) (ground arith),
    kzalloc-made v (with_new Kernel.memory w) (allocates _),
    ==_false (w.next + 1) 0 (omega arith),
    over,
  )

  -- Where every allocation succeeds and addresses not yet given out are not alive, init_rpc_client
  -- for RDMA copies past the end of an array if the target has no zero among its first 16 bytes,
  -- whatever the attribute's array held before.
  pub init_rpc_client_overruns :
      has_zero (take ip_addr_size target) ≡ false
      → init_rpc_client order v handler before rpc_ch_rdma target port size msg_handler w ≡ fault
  init_rpc_client_overruns unterminated = init_rpc_client-over (
      none-is_some (strcpy (array ip_addr_size before) target) (
        strcpy_fits (array ip_addr_size before) target
        ∙ ap (λ n. has_zero (take n target)) (length-array ip_addr_size before)
        ∙ unterminated))
