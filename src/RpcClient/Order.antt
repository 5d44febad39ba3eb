-- ===== src/RpcClient/Order.antt =====
-- The order in which responses arrive, which the bitmap forgets.
use mathlib.Core.Quot
use mathlib.Core.Quot.{Quot, Quot-set}
use rpc_kern.Base.{
  ℕ, suc, ◌+◌, ◌<◌, ◌≡◌, refl, ◌∙◌, sym, ap, ltb, if◌then◌else◌, some, List, [], ◌∷◌, ◌^◌, arith,
  pos, length, count, get_or,
}
use rpc_kern.Bitmap.{IsBitmap}
use rpc_kern.Msgbuf.{free_msgbuf_id}
use rpc_kern.Msgbuf.Take.{clear_bit-IsBitmap, clear_bit-get_or}
use rpc_kern.Message.{ByteOrder, msgheader_size}
use rpc_kern.Kernel.{World, Verbs}
use rpc_kern.Kernel.Returns.{Returns, weaken}
use rpc_kern.Kernel.Succeed.{AllSucceed}
use rpc_kern.Rdma.{RdmaChCb}
use rpc_kern.Rdma.Cq.{Completion, cq_event_handler}
use rpc_kern.RpcClient.Handler.{test_handlers}
use rpc_kern.RpcClient.Serving.{Serving, AllResponses, freed_by, buffers_used}
use rpc_kern.RpcClient.Responses.{cq_event_handler-Serving}

-- Two lists hold the same numbers, as often.
abbrev pub SameItems : List ℕ → List ℕ → Type 0
SameItems xs ys = (a : ℕ) → count a xs ≡ count a ys

-- A list without its order.
abbrev pub Bag : Type 0
Bag = Quot SameItems

abbrev pub bag : List ℕ → Bag
bag xs = Quot.mk xs

-- Lists of one length with the same entries.
same_entries :
    (xs ys : List ℕ) → length xs ≡ length ys → ((j : ℕ) → get_or xs j 0 ≡ get_or ys j 0) → xs ≡ ys
same_entries [] [] len same = refl
same_entries [] (y ∷ ys) len same = absurd (omega arith)
same_entries (x ∷ xs) [] len same = absurd (omega arith)
same_entries (x ∷ xs) (y ∷ ys) len same =
    let first : x ≡ y = same 0 in
    let rest : xs ≡ ys = same_entries xs ys (omega arith) (λ j. same (suc j)) in cc

-- The bitmap after ids have been freed, one after the other.
abbrev pub freed_all : List ℕ → List ℕ → List ℕ
freed_all bitmap [] = bitmap
freed_all bitmap (id ∷ ids) = freed_all (free_msgbuf_id bitmap id) ids

freed_by-freed_all :
    (bitmap : List ℕ) (cs : List Completion)
    → freed_by bitmap cs ≡ freed_all bitmap (buffers_used cs)
freed_by-freed_all bitmap [] = refl
freed_by-freed_all bitmap (c ∷ cs) = freed_by-freed_all (free_msgbuf_id bitmap c.wc.wr_id) cs

freed_all-IsBitmap : (bitmap ids : List ℕ) → IsBitmap bitmap → IsBitmap (freed_all bitmap ids)
unfolding free_msgbuf_id
freed_all-IsBitmap bitmap [] valid = valid
freed_all-IsBitmap bitmap (id ∷ ids) valid =
    freed_all-IsBitmap (free_msgbuf_id bitmap id) ids (clear_bit-IsBitmap bitmap valid id)

freed_all-get_or :
    (bitmap ids : List ℕ) (j : ℕ)
    → IsBitmap bitmap
    → get_or (freed_all bitmap ids) j 0 ≡ (if ltb 0 (count j ids) then 0 else get_or bitmap j 0)
unfolding free_msgbuf_id
freed_all-get_or bitmap [] j valid = refl
freed_all-get_or bitmap (id ∷ ids) j valid =
    freed_all-get_or (free_msgbuf_id bitmap id) ids j (clear_bit-IsBitmap bitmap valid id)
    ∙ ground (arith, clear_bit-get_or bitmap valid id j)

freed_all-same :
    (bitmap ids ids' : List ℕ)
    → IsBitmap bitmap
    → SameItems ids ids'
    → freed_all bitmap ids ≡ freed_all bitmap ids'
freed_all-same bitmap ids ids' valid same =
    same_entries (freed_all bitmap ids) (freed_all bitmap ids')
      ((freed_all-IsBitmap bitmap ids valid).size ∙ sym (freed_all-IsBitmap bitmap ids' valid).size)
      (λ j.
        freed_all-get_or bitmap ids j valid
        ∙ ground (arith, same j)
        ∙ sym (freed_all-get_or bitmap ids' j valid))

module _ (bitmap : List ℕ) (valid : IsBitmap bitmap) where
  -- What is left depends on the bag of ids only.
  pub freed : Bag → List ℕ
  freed =
      Quot.lift (hlevel) (freed_all bitmap)
        (λ ids ids' same. freed_all-same bitmap ids ids' valid same)

-- On a channel that serves, where every call succeeds and the bitmap is well-formed: two sequences
-- of full-size responses that name the channel's rpc_ch_info, in any order and for any wait queues,
-- that use each buffer as often as one another, are handled by cq_event_handler with the same result;
-- what is alive afterwards is the same, and so is the bitmap, which depends on the bag of buffers
-- used only, and in which exactly the ids of those buffers are clear besides those that were.
pub cq_event_handler-any_order :
    (order : ByteOrder) (v : Verbs) (all : AllSucceed v) (size bytes n ch : ℕ)
    (fit : size ≡ bytes + msgheader_size) (small : size < 2 ^ 31) (cs ds : List Completion)
    (bitmap : List ℕ) (cb : RdmaChCb) (w : World) (valid : IsBitmap bitmap)
    → AllResponses order size bytes n ch cs
    → AllResponses order size bytes n ch ds
    → Serving size bytes n ch bitmap cb w
    → SameItems (buffers_used cs) (buffers_used ds)
    → Returns
        (λ out w1.
          Returns
            (λ out' w2.
              (out.1 ≡ out'.1)
              × ((a : ℕ) → w1.live a ≡ w2.live a)
              × (w1.bitmaps ch ≡ some (freed bitmap valid (bag (buffers_used cs))))
              × (w2.bitmaps ch ≡ w1.bitmaps ch)
              × ((j : ℕ)
                  → get_or (freed bitmap valid (bag (buffers_used cs))) j 0
                    ≡ (if ltb 0 (count j (buffers_used cs)) then 0 else get_or bitmap j 0)))
            (cq_event_handler order v test_handlers cb ds (pos 0) w))
        (cq_event_handler order v test_handlers cb cs (pos 0) w)
unfolding freed
cq_event_handler-any_order order v all size bytes n ch fit small cs ds bitmap cb w valid rs ts s
      same_buffers =
    weaken (cq_event_handler-Serving order v all size bytes n ch fit small cs bitmap cb w rs s)
      λ out w1 (code, s1, l1, k1, p1).
        let known = s1.known ∙ ap some (freed_by-freed_all bitmap cs) in
        weaken (cq_event_handler-Serving order v all size bytes n ch fit small ds bitmap cb w ts s)
          λ out' w2 (code', s2, l2, k2, p2). (
            code ∙ sym code',
            λ a. l1 a ∙ sym (l2 a),
            known,
            s2.known
                ∙ ap some (
                    freed_by-freed_all bitmap ds
                    ∙ sym (
                        freed_all-same bitmap (buffers_used cs) (buffers_used ds) valid
                          same_buffers))
                ∙ sym known,
            λ j. freed_all-get_or bitmap (buffers_used cs) j valid,
          )
