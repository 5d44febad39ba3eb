-- ===== src/RpcClient/Exchange/Shared.antt =====
-- How two requests that wait come to share an id.
use rpc_kern.Base.{
  ℕ, ◌+◌, ◌<◌, ◌≡◌, ◌≢◌, ◌∙◌, ap, inl, inr, List, ◌∷◌, arith, get_or, count, count-erase, ==_refl,
  Nat-cases,
}
use rpc_kern.Bitmap.{bit_arr_size, IsBitmap}
use rpc_kern.Msgbuf.{alloc_attempt, free_msgbuf_id}
use rpc_kern.Msgbuf.Take.{alloc_attempt-Taken, clear_bit-IsBitmap, clear_bit-get_or, get_or-default}
use rpc_kern.RpcClient.Exchange.{
  Exchange, start, respond, request, after_request, after_response, Step, requests, responds, Reach,
}
use rpc_kern.RpcClient.Exchange.Flow.{Reach-Flow}

-- The first clear byte is the one that an attempt takes.
attempt_at_first :
    (bitmap : List ℕ) (i : ℕ)
    → IsBitmap bitmap
    → i < bit_arr_size
    → get_or bitmap i 0 ≡ 0
    → ((k : ℕ) → k < i → get_or bitmap k 0 ≡ 1)
    → ((alloc_attempt bitmap 0).ret ≡ 1) × ((alloc_attempt bitmap 0).bit_id ≡ i)
attempt_at_first bitmap i valid lt clear below = elim (alloc_attempt-Taken bitmap 0 valid) [
  | inr r ↦
      absurd
        (r.all i (omega arith) lt (get_or-default bitmap i 1 0 (omega (arith, valid.size)) ∙ clear))
  | inl t ↦ (
    t.ret,
    elim (Nat-cases (alloc_attempt bitmap 0).bit_id i) [
      | inr later ↦ absurd (
          t.first i (omega arith) later
            (get_or-default bitmap i 1 0 (omega (arith, valid.size)) ∙ clear))
      | inl no_later ↦ elim (Nat-cases i (alloc_attempt bitmap 0).bit_id) [
        | inl same ↦ omega arith
        | inr sooner ↦
            absurd (omega (arith, below (alloc_attempt bitmap 0).bit_id sooner, t.was_clear))
      ]
    ],
  )
]

-- In every state that requests and responses reach, if the requests with ids i and j wait, the oldest
-- posted receive is that of buffer i, and every id below i is taken, then after the response to j and
-- one more request two requests wait under the id i.
pub Reach-shares :
    {s : Exchange} (i j : ℕ) (rest : List ℕ)
    → Reach start s
    → i ≢ j
    → 0 < count i s.waiting
    → 0 < count j s.waiting
    → s.receives ≡ i ∷ rest
    → ((k : ℕ) → k < i → get_or s.bitmap k 0 ≡ 1)
    → (t u : Exchange) × Step s (respond j) t × Step t request u × (1 < count i u.waiting)
unfolding free_msgbuf_id
Reach-shares {s} i j rest r ne wi wj e below =
    let f = Reach-Flow r in
    let bitmap = free_msgbuf_id s.bitmap i in
    let known : count i s.receives ≡ 1 + count i rest =
      ap (count i) e ∙ rw (==_refl i) (omega arith) in
    let lt : i < bit_arr_size = ground (arith, f.each i, known) in
    let at = clear_bit-get_or s.bitmap f.valid i in
    let (ret, id) =
      attempt_at_first bitmap i (clear_bit-IsBitmap s.bitmap f.valid i) lt (at i ∙ rw (==_refl i))
        (λ k h. ground (arith, at k, below k h)) in
    (
      after_response s j i rest,
      after_request (after_response s j i rest),
      responds j i rest wj e,
      requests (λ z. absurd (omega (arith, ret))),
      rw (id, ==_refl i) (ground (arith, count-erase j i s.waiting wj)),
    )
