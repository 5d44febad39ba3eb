-- ===== src/Msgbuf/Take.antt =====
-- What one locked attempt, and one release, do to the bitmap.
use rpc_kern.Base.{
  ℕ, zero, suc, ◌+◌, ◌<◌, ◌≤◌, ◌≡◌, refl, ◌⊎◌, inl, inr, List, [], ◌∷◌, get_or, length, sum, ◌∙◌,
  arith, ◌==◌, if◌then◌else◌, get_or-set, length-set, sum-set,
}
use rpc_kern.Bitmap.{
  bit_arr_size, IsBitmap, bit_array_set_bit, bit_array_clear_bit, bit_array_find_first_clear_bit,
}
use rpc_kern.Bitmap.First.{AllSet, find_first_clear_bit-Search}
use rpc_kern.Msgbuf.{Attempt, alloc_attempt}

pub get_or-default : (xs : List ℕ) (i d e : ℕ) → i < length xs → get_or xs i d ≡ get_or xs i e
get_or-default [] i d e h = elim h [ ]
get_or-default (x ∷ xs) zero d e h = refl
get_or-default (x ∷ xs) (suc i) d e h = get_or-default xs i d e (omega arith)

pub get_or_outside : (xs : List ℕ) (i d : ℕ) → length xs ≤ i → get_or xs i d ≡ d
get_or_outside [] i d h = refl
get_or_outside (x ∷ xs) zero d h = absurd (omega arith)
get_or_outside (x ∷ xs) (suc i) d h = get_or_outside xs i d (omega arith)

module _ (bitmap : List ℕ) (ok : IsBitmap bitmap) where
  pub set_bit-get_or :
      (i j : ℕ)
      → i < bit_arr_size
      → get_or (bit_array_set_bit bitmap i) j 0 ≡ (if i == j then 1 else get_or bitmap j 0)
  unfolding bit_array_set_bit
  set_bit-get_or i j h = ground (arith, ok.size, get_or-set bitmap i j 1 0)

  pub length-set_bit : (i : ℕ) → length (bit_array_set_bit bitmap i) ≡ bit_arr_size
  unfolding bit_array_set_bit
  length-set_bit i = ground (arith, ok.size, length-set bitmap i 1)

  pub length-clear_bit : (i : ℕ) → length (bit_array_clear_bit bitmap i) ≡ bit_arr_size
  unfolding bit_array_clear_bit
  length-clear_bit i = ground (arith, ok.size, length-set bitmap i 0)

  pub clear_bit-get_or :
      (i j : ℕ)
      → get_or (bit_array_clear_bit bitmap i) j 0 ≡ (if i == j then 0 else get_or bitmap j 0)
  unfolding bit_array_clear_bit
  clear_bit-get_or i j =
      ground (arith, ok.size, get_or-set bitmap i j 0 0, get_or_outside bitmap j 0)

  pub set_bit-IsBitmap : (i : ℕ) → i < bit_arr_size → IsBitmap (bit_array_set_bit bitmap i)
  set_bit-IsBitmap i h = record {
    size = length-set_bit i;
    bits = λ j. ground (arith, set_bit-get_or i j h, ok.bits j);
  }

  pub clear_bit-IsBitmap : (i : ℕ) → IsBitmap (bit_array_clear_bit bitmap i)
  clear_bit-IsBitmap i = record {
    size = length-clear_bit i;
    bits = λ j. ground (arith, clear_bit-get_or i j, ok.bits j);
  }

  pub sum-set_bit :
      (i : ℕ)
      → i < bit_arr_size
      → sum (bit_array_set_bit bitmap i) + get_or bitmap i 0 ≡ sum bitmap + 1
  unfolding bit_array_set_bit
  sum-set_bit i h = ground (arith, ok.size, sum-set bitmap i 1)

  pub sum-clear_bit : (i : ℕ) → sum (bit_array_clear_bit bitmap i) + get_or bitmap i 0 ≡ sum bitmap
  unfolding bit_array_clear_bit
  sum-clear_bit i = ground (arith, ok.size, sum-set bitmap i 0, get_or_outside bitmap i 0)

-- The attempt took a byte that was clear, the first such, and set it and no other.
pub record Taken (bitmap : List ℕ) (a : Attempt) : Type 0 where
  pub ret : a.ret ≡ 1
  pub in_range : a.bit_id < bit_arr_size
  pub was_clear : get_or bitmap a.bit_id 0 ≡ 0
  pub first : AllSet bitmap 0 a.bit_id
  pub now : a.bitmap ≡ bit_array_set_bit bitmap a.bit_id

-- The attempt failed: every byte was set, and nothing changed.
pub record Refused (bitmap : List ℕ) (bit_id : ℕ) (a : Attempt) : Type 0 where
  pub ret : a.ret ≡ 0
  pub kept : a.bit_id ≡ bit_id
  pub all : AllSet bitmap 0 bit_arr_size
  pub same : a.bitmap ≡ bitmap

pub alloc_attempt-Taken :
    (bitmap : List ℕ) (bit_id : ℕ)
    → IsBitmap bitmap
    → Taken bitmap (alloc_attempt bitmap bit_id)
      ⊎ Refused bitmap bit_id (alloc_attempt bitmap bit_id)
unfolding alloc_attempt
alloc_attempt-Taken bitmap bit_id ok =
    let out = bit_array_find_first_clear_bit bitmap bit_id in
    elim (find_first_clear_bit-Search bitmap bit_id) [
      | inl f ↦ inl (record {
        ret = f.found;
        in_range = f.high;
        was_clear = get_or-default bitmap out.1 0 1 (omega (arith, ok.size, f.high)) ∙ f.clear;
        first = f.first;
        now = rw f.found;
      })
      | inr f ↦ inr (record { ret = f.full; kept = f.kept; all = f.all; same = rw f.full })
    ]
