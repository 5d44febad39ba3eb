-- ===== src/Bitmap.antt =====
-- bitmap.c: the array of RPC_MSG_BUF_NUM bytes that says which message buffers are taken.
-- The array is the list of its bytes; it is allocated with `bit_arr_size` bytes by `init_rpc_client`.
pub mod First
use rpc_kern.Base.{
  ℕ, zero, suc, ◌+◌, ◌<◌, ◌≡◌, Bool, true, false, List, length, get_or, set, leb, ltb, ◌&&◌, ◌==◌,
  if◌then◌else◌,
}

abbrev pub bit_arr_size : ℕ
bit_arr_size = 4

-- A byte past the end, which the C code never reads at a well-formed array, is taken as set.
-- `left` rounds of the `for` loop are left, at index `i`; `result` is the caller's variable.
unfoldable pub find_from : (left i : ℕ) → List ℕ → ℕ → ℕ × ℕ
find_from zero i bitarr result = (0, result)
find_from (suc left) i bitarr result =
    let rest = find_from left (i + 1) bitarr result in
    if get_or bitarr i 1 == 0 then (1, i) else rest

-- The returned char, and what `*result` holds afterwards.
unfoldable pub bit_array_find_first_clear_bit : List ℕ → ℕ → ℕ × ℕ
unfolding find_from
bit_array_find_first_clear_bit bitarr result = find_from bit_arr_size 0 bitarr result

unfoldable pub bit_array_set_bit : List ℕ → ℕ → List ℕ
bit_array_set_bit bitarr b = if leb 0 b && ltb b bit_arr_size then set bitarr b 1 else bitarr

unfoldable pub bit_array_clear_bit : List ℕ → ℕ → List ℕ
bit_array_clear_bit bitarr b = if leb 0 b && ltb b bit_arr_size then set bitarr b 0 else bitarr

-- The array that `init_rpc_client` allocates: four bytes, each 0 or 1.
pub record IsBitmap (bitarr : List ℕ) : Type 0 where
  pub size : length bitarr ≡ bit_arr_size
  pub bits : (i : ℕ) → get_or bitarr i 0 < 2
