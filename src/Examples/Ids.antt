-- ===== src/Examples/Ids.antt =====
-- Bitmaps and ids: the theorems on bitmap.c and rpc_common.c at concrete arrays.
use rpc_kern.Base.{
  ℕ, zero, suc, ◌<◌, ◌≤◌, ◌≡◌, ◌≢◌, refl, arith, List, [], ◌∷◌, get_or, count, length,
}
use rpc_kern.Bitmap.{
  IsBitmap, bit_arr_size, find_from, bit_array_find_first_clear_bit, bit_array_set_bit,
}
use rpc_kern.Bitmap.First.{AllSet, Search, find_first_clear_bit-Search}
use rpc_kern.Msgbuf.{allocates, frees, alloc_attempt, alloc_msgbuf_id}
use rpc_kern.Msgbuf.Spin.{Allocated, alloc_msgbuf_id-Allocated}
use rpc_kern.Msgbuf.Holders.{Ids, initial, Step, take, here, next, Reach-exclusive}
use rpc_kern.Examples.{taken_first}

pub taken_first-IsBitmap : IsBitmap taken_first
taken_first-IsBitmap = record { size = refl; bits = bits }
  where
    bits : (i : ℕ) → get_or taken_first i 0 < 2
    bits zero = omega arith
    bits (suc zero) = omega arith
    bits (suc (suc zero)) = omega arith
    bits (suc (suc (suc zero))) = omega arith
    bits (suc (suc (suc (suc i)))) = omega arith

abbrev pub full_bitmap : List ℕ
full_bitmap = 1 ∷ 1 ∷ 1 ∷ 1 ∷ []

full_bits : (i : ℕ) → (get_or full_bitmap i 0 < 2) × (get_or full_bitmap i 1 ≢ 0)
full_bits zero = (omega arith, λ e. absurd (omega arith))
full_bits (suc zero) = (omega arith, λ e. absurd (omega arith))
full_bits (suc (suc zero)) = (omega arith, λ e. absurd (omega arith))
full_bits (suc (suc (suc zero))) = (omega arith, λ e. absurd (omega arith))
full_bits (suc (suc (suc (suc i)))) = (omega arith, λ e. absurd (omega arith))

pub full_bitmap-IsBitmap : IsBitmap full_bitmap
full_bitmap-IsBitmap = record { size = refl; bits = λ i. (full_bits i).0 }

pub full_bitmap-AllSet : AllSet full_bitmap 0 bit_arr_size
full_bitmap-AllSet k lo hi = (full_bits k).1

find_first_clear_bit-Search_example :
    Search taken_first 0 bit_arr_size 9 (bit_array_find_first_clear_bit taken_first 9)
find_first_clear_bit-Search_example = find_first_clear_bit-Search taken_first 9

-- The bitmap is full; another thread tries once, and then one frees 2.
alloc_msgbuf_id-Allocated_example :
    Allocated
      ((allocates ∷ []) ∷ (frees 2 ∷ []) ∷ [])
      full_bitmap
      (alloc_msgbuf_id ((allocates ∷ []) ∷ (frees 2 ∷ []) ∷ []) full_bitmap 0)
alloc_msgbuf_id-Allocated_example =
    alloc_msgbuf_id-Allocated ((allocates ∷ []) ∷ []) [] 2 full_bitmap 0 (omega arith)
      full_bitmap-IsBitmap

abbrev one_taken : Ids
one_taken = record { bitmap = 1 ∷ 0 ∷ 0 ∷ 0 ∷ []; held = 0 ∷ [] }

took_one : Step initial one_taken
unfolding alloc_attempt find_from bit_array_find_first_clear_bit bit_array_set_bit
took_one = take 0 (λ e. absurd (omega arith))

Reach-exclusive_example :
    ((id : ℕ) → count id one_taken.held < 2)
    × ((id : ℕ) → count id one_taken.held ≡ get_or one_taken.bitmap id 0)
    × ((id : ℕ) → 0 < count id one_taken.held → id < bit_arr_size)
    × (length one_taken.held ≤ bit_arr_size)
Reach-exclusive_example = Reach-exclusive (next here took_one)
