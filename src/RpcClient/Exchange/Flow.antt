-- ===== src/RpcClient/Exchange/Flow.antt =====
-- The ids as flow control: what holds in every state that requests and responses reach.
use rpc_kern.Base.{
  ℕ, zero, suc, ◌+◌, ◌<◌, ◌≤◌, ◌≡◌, ◌≢◌, refl, ◌∙◌, ap, ==_refl, Nat-cases, inl, inr, ◌⊎◌, List, [],
  ◌∷◌, ◌++◌, arith, get_or, length, sum, count, length-erase, ltb, if◌then◌else◌,
}
use rpc_kern.Bitmap.{bit_arr_size, IsBitmap}
use rpc_kern.Msgbuf.{alloc_attempt, free_msgbuf_id}
use rpc_kern.Msgbuf.Take.{
  alloc_attempt-Taken, set_bit-IsBitmap, clear_bit-IsBitmap, sum-set_bit, sum-clear_bit,
}
use rpc_kern.Msgbuf.Holders.{sum-le-length, initial-IsExact}
use rpc_kern.RpcClient.Exchange.{
  Exchange, start, Action, respond, after_request, after_response, Step, requests, responds, Reach,
  here, next,
}

pub record Flow (s : Exchange) : Type 0 where
  pub valid : IsBitmap s.bitmap
  pub covered : length s.waiting ≤ sum s.bitmap
  pub open_ended : bit_arr_size ≤ sum s.bitmap → 0 < length s.waiting
  pub posted : length s.receives ≡ bit_arr_size
  pub each : (i : ℕ) → count i s.receives ≡ (if ltb i bit_arr_size then 1 else 0)

pub start-Flow : Flow start
start-Flow = record {
  valid = initial-IsExact.valid;
  covered = omega arith;
  open_ended = λ h. absurd (omega arith);
  posted = refl;
  each = λ i. ground arith;
}

-- Of a full array every byte is set.
pub get_or-full :
    (bs : List ℕ) (i : ℕ)
    → ((j : ℕ) → get_or bs j 0 < 2)
    → length bs ≤ sum bs
    → i < length bs
    → get_or bs i 0 ≡ 1
get_or-full [] i bits full h = elim h [ ]
get_or-full (b ∷ bs) zero bits full h = omega (arith, bits 0, sum-le-length bs (λ j. bits (suc j)))
get_or-full (b ∷ bs) (suc i) bits full h =
    get_or-full bs i (λ j. bits (suc j)) (omega (arith, bits 0)) (omega arith)

pub count-append : (i : ℕ) (xs ys : List ℕ) → count i (xs ++ ys) ≡ count i xs + count i ys
count-append i [] ys = omega arith
count-append i (x ∷ xs) ys = ground (arith, count-append i xs ys)

pub length-append : (xs ys : List ℕ) → length (xs ++ ys) ≡ length xs + length ys
length-append [] ys = omega arith
length-append (x ∷ xs) ys = omega (arith, length-append xs ys)

request-Flow : (s : Exchange) → Flow s → (alloc_attempt s.bitmap 0).ret ≢ 0 → Flow (after_request s)
request-Flow s f got = elim (alloc_attempt-Taken s.bitmap 0 f.valid) [
  | inr r ↦ absurd (got r.ret)
  | inl t ↦ rw t.now (record {
    valid = set_bit-IsBitmap s.bitmap f.valid _ t.in_range;
    covered = omega (arith, f.covered, t.was_clear, sum-set_bit s.bitmap f.valid _ t.in_range);
    open_ended = λ h. omega arith;
    posted = f.posted;
    each = f.each;
  })
]

-- A response in a posted buffer: if every id is taken, it frees one.
response-Flow :
    (s : Exchange) (id buffer : ℕ) (rest : List ℕ)
    → Flow s
    → 0 < count id s.waiting
    → s.receives ≡ buffer ∷ rest
    → Flow (after_response s id buffer rest) × (sum (free_msgbuf_id s.bitmap buffer) < bit_arr_size)
unfolding free_msgbuf_id
response-Flow s id buffer rest f mine e =
    let known : count buffer s.receives ≡ 1 + count buffer rest =
      ap (count buffer) e ∙ rw (==_refl buffer) (omega arith) in
    let in_range : buffer < bit_arr_size = ground (arith, f.each buffer, known) in
    let small = f.valid.bits buffer in
    let freed = sum-clear_bit s.bitmap f.valid buffer in
    let most : sum s.bitmap ≤ 4 =
      omega (arith, f.valid.size, sum-le-length s.bitmap f.valid.bits) in
    let full : 4 ≤ sum s.bitmap → get_or s.bitmap buffer 0 ≡ 1 = λ h.
      get_or-full s.bitmap buffer f.valid.bits (omega (arith, f.valid.size))
        (omega (arith, f.valid.size)) in
    let frees : sum (free_msgbuf_id s.bitmap buffer) < bit_arr_size =
      elim (Nat-cases 4 (sum s.bitmap)) [ inl h ↦ omega (arith, full h) | inr h ↦ omega arith ] in
    let fewer = length-erase id s.waiting mine in
    (
      record {
        valid = clear_bit-IsBitmap s.bitmap f.valid buffer;
        covered = omega (arith, f.covered);
        open_ended = λ h. absurd (omega (arith, frees));
        posted = length-append rest (buffer ∷ []) ∙ omega (arith, f.posted, ap length e);
        each = λ i. ground (arith, f.each i, ap (count i) e, count-append i rest (buffer ∷ []));
      },
      frees,
    )

pub Step-Flow : {s t : Exchange} {a : Action} → Step s a t → Flow s → Flow t
Step-Flow {s} (requests got) f = request-Flow s f got
Step-Flow {s} (responds id buffer rest mine e) f = (response-Flow s id buffer rest f mine e).0

pub Reach-Flow : {s : Exchange} → Reach start s → Flow s
Reach-Flow here = start-Flow
Reach-Flow (next a r st) = Step-Flow st (Reach-Flow r)

sum_of_all_set : (bs : List ℕ) → ((k : ℕ) → k < length bs → get_or bs k 1 ≢ 0) → length bs ≤ sum bs
sum_of_all_set [] all = omega arith
sum_of_all_set (b ∷ bs) all =
    omega (arith, all 0 (omega arith), sum_of_all_set bs (λ k lt. all (suc k) (omega arith)))

-- An array with a clear byte lets the next attempt succeed.
pub unblocked :
    (bitmap : List ℕ)
    → IsBitmap bitmap
    → sum bitmap < bit_arr_size
    → (alloc_attempt bitmap 0).ret ≡ 1
unblocked bitmap valid h = elim (alloc_attempt-Taken bitmap 0 valid) [
  | inl t ↦ t.ret
  | inr r ↦ absurd (
      omega (
        arith,
        valid.size,
        sum_of_all_set bitmap (λ k lt. r.all k (omega arith) (omega (arith, valid.size))),
      ))
]

-- In every state that requests and responses reach from a new channel, in any order of the
-- responses, there are at most as many requests waiting as ids taken, and at most as many ids taken
-- as receives posted, of which there are four at all times, one for each buffer.
pub Reach-covered :
    {s : Exchange}
    → Reach start s
    → (length s.waiting ≤ sum s.bitmap)
      × (sum s.bitmap ≤ length s.receives)
      × (length s.receives ≡ bit_arr_size)
      × ((i : ℕ) → count i s.receives ≡ (if ltb i bit_arr_size then 1 else 0))
Reach-covered {s} r =
    let f = Reach-Flow r in
    (
      f.covered,
      omega (arith, f.valid.size, f.posted, sum-le-length s.bitmap f.valid.bits),
      f.posted,
      f.each,
    )

blocked-full :
    (bitmap : List ℕ)
    → IsBitmap bitmap
    → (alloc_attempt bitmap 0).ret ≡ 0
    → bit_arr_size ≤ sum bitmap
blocked-full bitmap valid blocked = elim (Nat-cases 4 (sum bitmap)) [
  | inl h ↦ h
  | inr h ↦ absurd (omega (arith, unblocked bitmap valid h))
]

-- A list that is not empty has a first entry.
first_entry : (xs : List ℕ) → 0 < length xs → (x : ℕ) × (rest : List ℕ) × (xs ≡ x ∷ rest)
first_entry [] h = absurd (omega arith)
first_entry (x ∷ xs) h = (x, xs, refl)

-- In every state that requests and responses reach from a new channel in which no id can be taken,
-- some request waits; and for every id that a request waits under, its response can come next, and
-- after it an id can be taken.
pub Reach-unblocks :
    {s : Exchange} (id : ℕ)
    → Reach start s
    → (alloc_attempt s.bitmap 0).ret ≡ 0
    → (0 < length s.waiting)
      × ((count id s.waiting ≡ 0)
          ⊎ ((t : Exchange) × Step s (respond id) t × ((alloc_attempt t.bitmap 0).ret ≡ 1)))
Reach-unblocks {s} id r blocked =
    let f = Reach-Flow r in
    let (buffer, rest, e) = first_entry s.receives (omega (arith, f.posted)) in
    (
      f.open_ended (blocked-full s.bitmap f.valid blocked),
      elim (Nat-cases 1 (count id s.waiting)) [
        | inr none_waits ↦ inl (omega arith)
        | inl mine ↦
            let (g, h) = response-Flow s id buffer rest f mine e in
            inr (
              after_response s id buffer rest,
              responds id buffer rest mine e,
              unblocked (free_msgbuf_id s.bitmap buffer) g.valid h,
            )
      ],
    )
