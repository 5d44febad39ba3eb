-- ===== src/Msgbuf/Spin.antt =====
-- Whether the loop of `alloc_msgbuf_id` ends.
use rpc_kern.Base.{
  ℕ, zero, suc, ◌<◌, ◌≡◌, refl, ◌∙◌, ◌⊎◌, inl, inr, Bool, true, false, not, ◌&&◌, &&-false,
  ==_false, ◌==◌, if◌then◌else◌, List, [], ◌∷◌, ◌++◌, get_or, arith, Option, none, some, length,
  replicate, map, ap,
}
use rpc_kern.Bitmap.{bit_arr_size, IsBitmap, bit_array_set_bit, bit_array_clear_bit}
use rpc_kern.Bitmap.First.{AllSet}
use rpc_kern.Msgbuf.{
  Attempt, Other, allocates, frees, other_step, others, alloc_attempt, free_msgbuf_id,
  alloc_msgbuf_id,
}
use rpc_kern.Msgbuf.Take.{
  Taken, Refused, alloc_attempt-Taken, set_bit-IsBitmap, clear_bit-IsBitmap, clear_bit-get_or,
  get_or-default,
}

pub alloc_attempt-IsBitmap :
    (bitmap : List ℕ) (bit_id : ℕ) → IsBitmap bitmap → IsBitmap (alloc_attempt bitmap bit_id).bitmap
alloc_attempt-IsBitmap bitmap bit_id ok = elim (alloc_attempt-Taken bitmap bit_id ok) [
  | inl t ↦ rw t.now (set_bit-IsBitmap bitmap ok _ t.in_range)
  | inr r ↦ rw r.same ok
]

other_step-IsBitmap :
    (bitmap : List ℕ) (o : Other) → IsBitmap bitmap → IsBitmap (other_step bitmap o)
unfolding other_step
other_step-IsBitmap bitmap allocates ok = alloc_attempt-IsBitmap bitmap 0 ok
other_step-IsBitmap bitmap (frees id) ok = clear_bit-IsBitmap bitmap ok id

pub others-IsBitmap :
    (os : List Other) (bitmap : List ℕ) → IsBitmap bitmap → IsBitmap (others bitmap os)
unfolding others
others-IsBitmap [] bitmap ok = ok
others-IsBitmap (o ∷ os) bitmap ok =
    others-IsBitmap os (other_step bitmap o) (other_step-IsBitmap bitmap o ok)

others-append :
    (os ps : List Other) (bitmap : List ℕ) → others bitmap (os ++ ps) ≡ others (others bitmap os) ps
unfolding others
others-append [] ps bitmap = refl
others-append (o ∷ os) ps bitmap = others-append os ps (other_step bitmap o)

-- Whether no byte is clear.
abbrev pub is_full : List ℕ → Bool
is_full [] = true
is_full (b ∷ bs) = not (b == 0) && is_full bs

-- The first bitmap with a clear byte among those that the rounds leave one after the other, while
-- the loop itself changes none.
abbrev pub first_open : List (List Other) → List ℕ → Option (List ℕ)
first_open [] bitmap = none
first_open (os ∷ rounds) bitmap =
    let rest = first_open rounds (others bitmap os) in
    if is_full (others bitmap os) then rest else some (others bitmap os)

is_full-false : (bs : List ℕ) (i : ℕ) → i < length bs → get_or bs i 0 ≡ 0 → is_full bs ≡ false
is_full-false [] i lt e = absurd (omega arith)
is_full-false (b ∷ bs) zero lt e = ground arith
is_full-false (b ∷ bs) (suc i) lt e =
    let rest : is_full bs ≡ false = is_full-false bs i (omega arith) e in rw (rest, &&-false)

is_full-true : (bs : List ℕ) → ((i : ℕ) → i < length bs → get_or bs i 1 ≡ 0 → ⊥) → is_full bs ≡ true
is_full-true [] all = refl
is_full-true (zero ∷ bs) all = absurd (all 0 (omega arith) refl)
is_full-true (suc b ∷ bs) all =
    let first : (suc b == 0) ≡ false = ==_false (suc b) 0 (omega arith) in
    let rest : is_full bs ≡ true = is_full-true bs (λ i lt e. all (suc i) (omega arith) e) in
    rw (first, rest) refl

-- A result of the loop: the least id that is clear in the first bitmap with a clear byte, which is
-- well-formed, and that bitmap with its byte set.
pub record Allocated (rounds : List (List Other)) (bitmap : List ℕ) (out : Option (ℕ × List ℕ))
    : Type 0 where
  pub id : ℕ
  pub before : List ℕ
  pub found : first_open rounds bitmap ≡ some before
  pub out_eq : out ≡ some (id, bit_array_set_bit before id)
  pub in_range : id < bit_arr_size
  pub was_clear : get_or before id 0 ≡ 0
  pub least : AllSet before 0 id
  pub valid : IsBitmap before

module _ (os : List Other) (rounds : List (List Other)) (bitmap : List ℕ) (bit_id : ℕ)
    (ok : IsBitmap bitmap) where
  abbrev here : List ℕ
  here = others bitmap os

  alloc-round :
      (Taken here (alloc_attempt here bit_id)
        × (alloc_msgbuf_id (os ∷ rounds) bitmap bit_id
            ≡ some ((alloc_attempt here bit_id).bit_id, (alloc_attempt here bit_id).bitmap)))
      ⊎ (Refused here bit_id (alloc_attempt here bit_id)
          × (alloc_msgbuf_id (os ∷ rounds) bitmap bit_id ≡ alloc_msgbuf_id rounds here bit_id))
  unfolding alloc_msgbuf_id
  alloc-round = elim (alloc_attempt-Taken here bit_id (others-IsBitmap os bitmap ok)) [
    | inl t ↦ inl (t, rw t.ret)
    | inr r ↦ inr (r, rw (r.ret, r.kept))
  ]

  Taken-Allocated :
      Taken here (alloc_attempt here bit_id)
      → alloc_msgbuf_id (os ∷ rounds) bitmap bit_id
        ≡ some ((alloc_attempt here bit_id).bit_id, (alloc_attempt here bit_id).bitmap)
      → Allocated (os ∷ rounds) bitmap (alloc_msgbuf_id (os ∷ rounds) bitmap bit_id)
  Taken-Allocated t e =
      let valid : IsBitmap here = others-IsBitmap os bitmap ok in
      let not_full : is_full here ≡ false =
        is_full-false here (alloc_attempt here bit_id).bit_id
          (omega (arith, valid.size, t.in_range)) t.was_clear in
      record {
        id = (alloc_attempt here bit_id).bit_id;
        before = here;
        found = rw not_full refl;
        out_eq = e ∙ rw t.now;
        in_range = t.in_range;
        was_clear = t.was_clear;
        least = t.first;
        valid = valid;
      }

  Refused-Allocated :
      Refused here bit_id (alloc_attempt here bit_id)
      → alloc_msgbuf_id (os ∷ rounds) bitmap bit_id ≡ alloc_msgbuf_id rounds here bit_id
      → Allocated rounds here (alloc_msgbuf_id rounds here bit_id)
      → Allocated (os ∷ rounds) bitmap (alloc_msgbuf_id (os ∷ rounds) bitmap bit_id)
  Refused-Allocated r e later =
      let valid : IsBitmap here = others-IsBitmap os bitmap ok in
      let full : is_full here ≡ true =
        is_full-true here (λ i lt c. r.all i (omega arith) (omega (arith, valid.size)) c) in
      record {
        id = later.id;
        before = later.before;
        found = rw full later.found;
        out_eq = e ∙ later.out_eq;
        in_range = later.in_range;
        was_clear = later.was_clear;
        least = later.least;
        valid = later.valid;
      }

clear-others-frees :
    (os : List Other) (id : ℕ) (bitmap : List ℕ)
    → id < bit_arr_size
    → IsBitmap bitmap
    → get_or (others bitmap (os ++ frees id ∷ [])) id 1 ≡ 0
unfolding others free_msgbuf_id
clear-others-frees os id bitmap lt ok =
    let mid = others bitmap os in
    let valid : IsBitmap mid = others-IsBitmap os bitmap ok in
    let size : length (bit_array_clear_bit mid id) ≡ 4 = (clear_bit-IsBitmap mid valid id).size in
    rw (others-append os (frees id ∷ []) bitmap) (
      get_or-default (bit_array_clear_bit mid id) id 1 0 (omega arith)
      ∙ ground (arith, clear_bit-get_or mid valid id id))

-- On a well-formed bitmap, whatever the other threads do, alloc_msgbuf_id returns within the listed
-- rounds if an id in range is freed right before the last attempt. While every byte is set it changes
-- nothing; of the bitmaps that the other threads leave for its attempts, one after the other, the
-- first with a clear byte is well-formed, and the id returned is the least that is clear in it; it is
-- in range, and the bitmap left is that one with the id's byte set.
pub alloc_msgbuf_id-Allocated :
    (rounds : List (List Other)) (os : List Other) (id : ℕ) (bitmap : List ℕ) (bit_id : ℕ)
    → id < bit_arr_size
    → IsBitmap bitmap
    → Allocated
        (rounds ++ (os ++ frees id ∷ []) ∷ [])
        bitmap
        (alloc_msgbuf_id (rounds ++ (os ++ frees id ∷ []) ∷ []) bitmap bit_id)
alloc_msgbuf_id-Allocated [] os id bitmap bit_id lt ok =
    elim (alloc-round (os ++ frees id ∷ []) [] bitmap bit_id ok) [
      | inl (t, e) ↦ Taken-Allocated (os ++ frees id ∷ []) [] bitmap bit_id ok t e
      | inr (r, e) ↦ absurd (r.all id (omega arith) lt (clear-others-frees os id bitmap lt ok))
    ]
alloc_msgbuf_id-Allocated (r ∷ rounds) os id bitmap bit_id lt ok =
    let later = rounds ++ (os ++ frees id ∷ []) ∷ [] in
    elim (alloc-round r later bitmap bit_id ok) [
      | inl (t, e) ↦ Taken-Allocated r later bitmap bit_id ok t e
      | inr (f, e) ↦ Refused-Allocated r later bitmap bit_id ok f e (
          alloc_msgbuf_id-Allocated rounds os id (others bitmap r) bit_id lt
            (others-IsBitmap r bitmap ok))
    ]

Taken-not-full :
    (bitmap : List ℕ) (a : Attempt)
    → Taken bitmap a
    → IsBitmap bitmap
    → AllSet bitmap 0 bit_arr_size
    → ⊥
Taken-not-full bitmap a t ok full =
    full a.bit_id (omega arith) t.in_range
      (get_or-default bitmap a.bit_id 1 0 (omega (arith, ok.size, t.in_range)) ∙ t.was_clear)

attempt_on_full :
    (bitmap : List ℕ) (bit_id : ℕ)
    → IsBitmap bitmap
    → AllSet bitmap 0 bit_arr_size
    → Refused bitmap bit_id (alloc_attempt bitmap bit_id)
attempt_on_full bitmap bit_id ok full = elim (alloc_attempt-Taken bitmap bit_id ok) [
  | inl t ↦ absurd (Taken-not-full bitmap _ t ok full)
  | inr r ↦ r
]

others_on_full :
    (n : ℕ) (bitmap : List ℕ)
    → IsBitmap bitmap
    → AllSet bitmap 0 bit_arr_size
    → others bitmap (replicate n allocates) ≡ bitmap
unfolding others
others_on_full zero bitmap ok full = refl
others_on_full (suc n) bitmap ok full =
    ap (λ b. others b (replicate n allocates)) (attempt_on_full bitmap 0 ok full).same
    ∙ others_on_full n bitmap ok full

-- On a full well-formed bitmap, while the other threads try to allocate, any number of times in each
-- round, and none of them frees, alloc_msgbuf_id has not returned after any number of rounds.
pub alloc_msgbuf_id_spins :
    (tries : List ℕ) (bitmap : List ℕ) (bit_id : ℕ)
    → IsBitmap bitmap
    → AllSet bitmap 0 bit_arr_size
    → alloc_msgbuf_id (map (λ n. replicate n allocates) tries) bitmap bit_id ≡ none
unfolding alloc_msgbuf_id
alloc_msgbuf_id_spins [] bitmap bit_id ok full = refl
alloc_msgbuf_id_spins (n ∷ tries) bitmap bit_id ok full =
    elim (alloc-round (replicate n allocates) (map (λ n. replicate n allocates) tries) bitmap bit_id
      ok) [
        | inl (t, e) ↦
            let same = others_on_full n bitmap ok full in
            absurd (
              Taken-not-full (others bitmap (replicate n allocates)) _ t (rw same ok)
                (rw same full))
        | inr (r, e) ↦
            e
            ∙ rw (others_on_full n bitmap ok full)
                (alloc_msgbuf_id_spins tries bitmap bit_id ok full)
      ]
