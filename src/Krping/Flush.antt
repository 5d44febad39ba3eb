-- ===== src/Krping/Flush.antt =====
-- bak/krping.c: flush_qp, which waits until what is posted on the queue pair has been flushed.
use rpc_kern.Base.{
  ℕ, ◌+◌, ◌<◌, ◌≡◌, refl, Bool, true, false, not, ◌||◌, List, [], ◌∷◌, is_zero, leb, ◌==◌, arith,
  if◌then◌else◌, Bool-cases, inl, inr,
}
use rpc_kern.Kernel
use rpc_kern.Kernel.{
  World, Verbs, Run, ok, fault, asleep, M, pure, and_then, ◌>>=◌, ◌>>◌, alive, call,
}
use rpc_kern.Krping.{KrpingCb}

-- What ib_poll_cq answers: a negative code, 0, or 1 with a completion.
pub data Poll : Type 0 where
  poll_failed poll_empty : Poll
  poll_wc : (wr_id : ℕ) → Poll

-- The ids of the send and of the receive that are posted to be flushed.
abbrev pub deadbeef : ℕ
deadbeef = 16045690984503098046

abbrev pub cafebabe : ℕ
cafebabe = 14627333968688430831

abbrev pub is_flush : ℕ → Bool
is_flush wr_id = (wr_id == deadbeef) || (wr_id == cafebabe)

-- The loop. Once `polls` have come and it has not ended it goes on without end: its task is as one
-- that sleeps for ever.
unfoldable pub flush_loop : (flushed : ℕ) → List Poll → M (Unit {0})
flush_loop flushed [] = λ w. asleep
flush_loop flushed (poll_failed ∷ polls) = pure tt
flush_loop flushed (poll_empty ∷ polls) = flush_loop flushed polls
flush_loop flushed (poll_wc wr_id ∷ polls) =
    let now = if is_flush wr_id then flushed + 1 else flushed in
    if now == 2 then pure tt else flush_loop now polls

unfoldable pub flush_qp : Verbs → KrpingCb → List Poll → M (Unit {0})
unfolding flush_loop
flush_qp v cb polls = do
  alive Kernel.cm_id cb.cm_id
  alive Kernel.qp cb.qp
  ret ← call v.post_send
  if not (is_zero ret) then pure tt else do
    ret ← call v.post_recv
    if not (is_zero ret) then pure tt else do alive Kernel.cq cb.cq; flush_loop 0 polls

-- How many of the polls yield one of the two.
abbrev pub flushes : List Poll → ℕ
flushes [] = 0
flushes (poll_wc wr_id ∷ polls) =
    let rest = flushes polls in if is_flush wr_id then rest + 1 else rest
flushes (p ∷ polls) = flushes polls

abbrev pub fails : List Poll → Bool
fails [] = false
fails (poll_failed ∷ polls) = true
fails (p ∷ polls) = fails polls

-- The loop ends exactly if some poll fails or enough of them yield one of the two.
pub flush_loop_ends :
    (flushed : ℕ) (polls : List Poll) (w : World)
    → flushed < 2
    → flush_loop flushed polls w
      ≡ (if fails polls || leb 2 (flushed + flushes polls) then ok tt w else asleep)
unfolding flush_loop
flush_loop_ends flushed [] w low = ground arith
flush_loop_ends flushed (poll_failed ∷ polls) w low = refl
flush_loop_ends flushed (poll_empty ∷ polls) w low = flush_loop_ends flushed polls w low
flush_loop_ends flushed (poll_wc wr_id ∷ polls) w low = elim (Bool-cases (is_flush wr_id)) [
  | inr n ↦
      let other : (flushed == 2) ≡ false = ground arith in
      rw (n, other) (flush_loop_ends flushed polls w low)
  | inl y ↦ elim (Bool-cases (flushed + 1 == 2)) [
    | inl e ↦
        let enough : leb 2 (flushed + (flushes polls + 1)) ≡ true = ground arith in
        rw (y, e) (ground arith)
    | inr n ↦
        let more : flushed + 1 < 2 = ground arith in
        let sum : flushed + (flushes polls + 1) ≡ flushed + 1 + flushes polls = omega arith in
        rw (y, n, sum) (flush_loop_ends (flushed + 1) polls w more)
  ]
]
