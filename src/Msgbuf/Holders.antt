-- ===== src/Msgbuf/Holders.antt =====
-- The ids of one channel as its threads hold them: any number of threads, interleaved at the lock.
use rpc_kern.Base.{
  ℕ, zero, suc, ◌<◌, ◌≤◌, ◌≡◌, ◌≢◌, refl, inl, inr, List, [], ◌∷◌, get_or, arith, length, replicate,
  sum, count, erase, count-erase, length-erase,
}
use rpc_kern.Bitmap.{bit_arr_size, IsBitmap, bit_array_set_bit}
use rpc_kern.Msgbuf.{alloc_attempt, free_msgbuf_id}
use rpc_kern.Msgbuf.Take.{
  alloc_attempt-Taken, set_bit-IsBitmap, clear_bit-IsBitmap, clear_bit-get_or, set_bit-get_or,
  get_or_outside, sum-set_bit, sum-clear_bit,
}

-- The bitmap, and the ids that some thread has been given and has not freed.
pub record Ids : Type 0 where
  pub bitmap : List ℕ
  pub held : List ℕ

-- `init_rpc_client` allocates a zeroed bitmap.
abbrev pub initial : Ids
initial = record { bitmap = replicate bit_arr_size 0; held = [] }

-- A thread's locked round of alloc_msgbuf_id, which succeeds or not, or the release of a held id.
pub data Step (s : Ids) : Ids → Type 0 where
  take :
      (bit_id : ℕ)
      → (alloc_attempt s.bitmap bit_id).ret ≢ 0
      → Step s (record {
        bitmap = (alloc_attempt s.bitmap bit_id).bitmap;
        held = (alloc_attempt s.bitmap bit_id).bit_id ∷ s.held;
      })
  spin :
      (bit_id : ℕ)
      → (alloc_attempt s.bitmap bit_id).ret ≡ 0
      → Step s (record { bitmap = (alloc_attempt s.bitmap bit_id).bitmap; held = s.held })
  give_back :
      (id : ℕ)
      → 0 < count id s.held
      → Step s (record { bitmap = free_msgbuf_id s.bitmap id; held = erase id s.held })

pub data Reach (s : Ids) : Ids → Type 0 where
  here : Reach s s
  next : {t u : Ids} → Reach s t → Step t u → Reach s u

-- The bitmap says exactly which ids are held, each by one thread.
pub record IsExact (s : Ids) : Type 0 where
  pub valid : IsBitmap s.bitmap
  pub exact : (id : ℕ) → count id s.held ≡ get_or s.bitmap id 0
  pub total : length s.held ≡ sum s.bitmap

zeros : (id : ℕ) → get_or initial.bitmap id 0 ≡ 0
zeros zero = refl
zeros (suc zero) = refl
zeros (suc (suc zero)) = refl
zeros (suc (suc (suc zero))) = refl
zeros (suc (suc (suc (suc id)))) = refl

pub initial-IsExact : IsExact initial
initial-IsExact = record {
  valid = record { size = refl; bits = λ i. ground (arith, zeros i) };
  exact = λ id. ground (arith, zeros id);
  total = refl;
}

take-IsExact :
    (s : Ids) (id : ℕ)
    → IsExact s
    → id < bit_arr_size
    → get_or s.bitmap id 0 ≡ 0
    → IsExact (record { bitmap = bit_array_set_bit s.bitmap id; held = id ∷ s.held })
take-IsExact s id x lt clear = record {
  valid = set_bit-IsBitmap s.bitmap x.valid id lt;
  exact = λ j. ground (arith, set_bit-get_or s.bitmap x.valid id j, x.exact j);
  total = omega (arith, sum-set_bit s.bitmap x.valid id lt, x.total);
}

give_back-IsExact :
    (s : Ids) (id : ℕ)
    → IsExact s
    → 0 < count id s.held
    → IsExact (record { bitmap = free_msgbuf_id s.bitmap id; held = erase id s.held })
unfolding free_msgbuf_id
give_back-IsExact s id x mine = record {
  valid = clear_bit-IsBitmap s.bitmap x.valid id;
  exact = λ j. ground (
    arith,
    clear_bit-get_or s.bitmap x.valid id j,
    x.exact j,
    x.exact id,
    x.valid.bits id,
    count-erase id j s.held,
  );
  total = omega (
    arith,
    sum-clear_bit s.bitmap x.valid id,
    x.total,
    x.exact id,
    x.valid.bits id,
    length-erase id s.held mine,
  );
}

Step-IsExact : {s t : Ids} → Step s t → IsExact s → IsExact t
Step-IsExact {s} (take bit_id got) x = elim (alloc_attempt-Taken s.bitmap bit_id x.valid) [
  | inl t ↦ rw t.now (take-IsExact s _ x t.in_range t.was_clear)
  | inr r ↦ absurd (got r.ret)
]
Step-IsExact {s} (spin bit_id full) x = elim (alloc_attempt-Taken s.bitmap bit_id x.valid) [
  | inl t ↦ cc (t.ret)
  | inr r ↦ rw r.same x
]
Step-IsExact {s} (give_back id mine) x = give_back-IsExact s id x mine

in_range : {s : Ids} (id : ℕ) → IsExact s → 0 < count id s.held → id < bit_arr_size
in_range {s} id x mine = ground (arith, x.exact id, x.valid.size, get_or_outside s.bitmap id 0)

-- In every reachable state the bitmap says exactly which ids are held.
pub Reach-IsExact : {s : Ids} → Reach initial s → IsExact s
Reach-IsExact here = initial-IsExact
Reach-IsExact (next r st) = Step-IsExact st (Reach-IsExact r)

pub sum-le-length : (bs : List ℕ) → ((i : ℕ) → get_or bs i 0 < 2) → sum bs ≤ length bs
sum-le-length [] small = omega arith
sum-le-length (b ∷ bs) small = omega (arith, small 0, sum-le-length bs (λ i. small (suc i)))

-- In every state that the threads reach from a new channel, by any interleaving of locked rounds
-- of alloc_msgbuf_id and releases of held ids, no id is held twice, an id's byte is set exactly
-- when it is held, every id held is below four, and at most four ids are held.
pub Reach-exclusive :
    {s : Ids}
    → Reach initial s
    → ((id : ℕ) → count id s.held < 2)
      × ((id : ℕ) → count id s.held ≡ get_or s.bitmap id 0)
      × ((id : ℕ) → 0 < count id s.held → id < bit_arr_size)
      × (length s.held ≤ bit_arr_size)
Reach-exclusive {s} r =
    let x = Reach-IsExact r in
    (
      λ id. omega (arith, x.exact id, x.valid.bits id),
      λ id. x.exact id,
      λ id mine. in_range id x mine,
      omega (arith, x.total, x.valid.size, sum-le-length s.bitmap x.valid.bits),
    )
