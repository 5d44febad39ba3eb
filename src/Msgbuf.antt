-- ===== src/Msgbuf.antt =====
-- rpc_common.c: message buffer ids, taken from and given back to the bitmap of a channel under its
-- spinlock. A critical section is one step; what other threads do between two rounds of the loop is
-- a list of such steps.
pub mod Take
pub mod Spin
pub mod Holders
use rpc_kern.Base.{ℕ, Bool, Option, none, some, List, [], ◌∷◌, ◌==◌, if◌then◌else◌}
use rpc_kern.Bitmap.{bit_array_find_first_clear_bit, bit_array_set_bit, bit_array_clear_bit}

-- The locked part of a round: `ret`, `bit_id` and the bitmap after it.
pub record Attempt : Type 0 where
  pub ret : ℕ
  pub bit_id : ℕ
  pub bitmap : List ℕ

unfoldable pub alloc_attempt : List ℕ → ℕ → Attempt
alloc_attempt bitmap bit_id =
    let (ret, id) = bit_array_find_first_clear_bit bitmap bit_id in
    record {
      ret = ret;
      bit_id = id;
      bitmap = if ret == 0 then bitmap else bit_array_set_bit bitmap id;
    }

unfoldable pub free_msgbuf_id : List ℕ → ℕ → List ℕ
free_msgbuf_id bitmap bit_id = bit_array_clear_bit bitmap bit_id

-- What another thread can do to the bitmap while this one does not hold the lock.
pub data Other : Type 0 where
  allocates : Other
  frees : ℕ → Other

unfoldable pub other_step : List ℕ → Other → List ℕ
unfolding alloc_attempt free_msgbuf_id
other_step bitmap allocates = (alloc_attempt bitmap 0).bitmap
other_step bitmap (frees id) = free_msgbuf_id bitmap id

unfoldable pub others : List ℕ → List Other → List ℕ
unfolding other_step
others bitmap [] = bitmap
others bitmap (o ∷ os) = others (other_step bitmap o) os

-- `while (1)`: each round waits for the lock, while the other threads take the listed steps, and
-- then makes its attempt. `none` means that the listed rounds are over and the loop still spins.
unfoldable pub alloc_msgbuf_id : List (List Other) → List ℕ → ℕ → Option (ℕ × List ℕ)
unfolding others alloc_attempt
alloc_msgbuf_id [] bitmap bit_id = none
alloc_msgbuf_id (os ∷ rounds) bitmap bit_id =
    let a = alloc_attempt (others bitmap os) bit_id in
    let again = alloc_msgbuf_id rounds a.bitmap a.bit_id in
    if a.ret == 0 then again else some (a.bit_id, a.bitmap)
