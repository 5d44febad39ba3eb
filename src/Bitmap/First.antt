-- ===== src/Bitmap/First.antt =====
-- What the search of bitmap.c for a clear byte finds.
use rpc_kern.Base.{
  ℕ, zero, suc, ◌+◌, ◌<◌, ◌≤◌, ◌≡◌, ◌≢◌, refl, ◌⊎◌, inl, inr, List, get_or, arith, Bool-cases, ◌==◌,
}
use rpc_kern.Bitmap.{bit_arr_size, find_from, bit_array_find_first_clear_bit}

-- Every byte from `i` up to but not including `j` is set.
abbrev pub AllSet : List ℕ → ℕ → ℕ → Type 0
AllSet bitarr i j = (k : ℕ) → i ≤ k → k < j → get_or bitarr k 1 ≢ 0

-- Found: the result is the least clear index from `i` on, and lies below `end`.
pub record Found (bitarr : List ℕ) (i end : ℕ) (out : ℕ × ℕ) : Type 0 where
  pub found : out.0 ≡ 1
  pub low : i ≤ out.1
  pub high : out.1 < end
  pub clear : get_or bitarr out.1 1 ≡ 0
  pub first : AllSet bitarr i out.1

-- Not found: every byte is set, and the caller's variable keeps its value.
pub record Full (bitarr : List ℕ) (i end old : ℕ) (out : ℕ × ℕ) : Type 0 where
  pub full : out.0 ≡ 0
  pub kept : out.1 ≡ old
  pub all : AllSet bitarr i end

abbrev pub Search : List ℕ → ℕ → ℕ → ℕ → ℕ × ℕ → Type 0
Search bitarr i end old out = Found bitarr i end out ⊎ Full bitarr i end old out

module _ (bitarr : List ℕ) (i : ℕ) (taken : get_or bitarr i 1 ≢ 0) where
  AllSet-extend : (j : ℕ) → AllSet bitarr (i + 1) j → AllSet bitarr i j
  AllSet-extend j rest k lo hi = elim (Bool-cases (k == i)) [
    | inl e ↦ λ z. taken (ground arith)
    | inr ne ↦ rest k (ground arith) hi
  ]

  skip :
      (left old : ℕ) (out : ℕ × ℕ)
      → Search bitarr (i + 1) (i + 1 + left) old out
      → Search bitarr i (i + suc left) old out
  skip left old out (inl f) = inl (record {
    found = f.found;
    low = omega arith;
    high = omega arith;
    clear = f.clear;
    first = AllSet-extend out.1 f.first;
  })
  skip left old out (inr f) = inr (record {
    full = f.full;
    kept = f.kept;
    all = λ k lo hi. AllSet-extend (i + 1 + left) f.all k lo (omega arith);
  })

find_from-Search :
    (left i : ℕ) (bitarr : List ℕ) (old : ℕ)
    → Search bitarr i (i + left) old (find_from left i bitarr old)
unfolding find_from
find_from-Search zero i bitarr old =
    inr (record { full = refl; kept = refl; all = λ k lo hi. absurd (omega arith) })
find_from-Search (suc left) i bitarr old = elim (Bool-cases (get_or bitarr i 1 == 0)) [
  | inl e ↦ rw e (
      inl (record {
        found = refl;
        low = omega arith;
        high = omega arith;
        clear = ground arith;
        first = λ k lo hi. absurd (omega arith);
      }))
  | inr ne ↦ rw ne (
      skip bitarr i (ground arith) left old (find_from left (i + 1) bitarr old)
        (find_from-Search left (i + 1) bitarr old))
]

-- bit_array_find_first_clear_bit either returns 1 with the least clear index, which is in range, or
-- returns 0 with every byte set and the caller's variable unchanged.
pub find_first_clear_bit-Search :
    (bitarr : List ℕ) (old : ℕ)
    → Search bitarr 0 bit_arr_size old (bit_array_find_first_clear_bit bitarr old)
unfolding bit_array_find_first_clear_bit
find_first_clear_bit-Search bitarr old = find_from-Search bit_arr_size 0 bitarr old
