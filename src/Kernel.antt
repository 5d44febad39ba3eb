-- ===== src/Kernel.antt =====
-- The kernel around the channel: which objects are alive, what the adapter has been given, and what
-- still is to arrive. None of it is code of this repository: the outcome of each call into the
-- kernel, the connection manager and the verbs is an argument (`Verbs`), as a function of how many
-- such calls were made before.
pub mod Returns
pub mod Safe
pub mod Owned
pub mod Succeed
use rpc_kern.Base.{
  ℕ, ◌+◌, ◌-◌, ◌^◌, Bool, true, false, ℤ, pos, Option, none, some, List, [], ◌∷◌, ◌++◌, ◌==◌,
  if◌then◌else◌, is_zero,
}
use rpc_kern.Message.{RdmaMsg}

-- What a handle can stand for.
pub data Kind : Type 0 where
  memory pd cq qp cm_id dma_map mr coherent : Kind

abbrev pub same_kind : Kind → Kind → Bool
same_kind memory memory = true
same_kind pd pd = true
same_kind cq cq = true
same_kind qp qp = true
same_kind cm_id cm_id = true
same_kind dma_map dma_map = true
same_kind mr mr = true
same_kind coherent coherent = true
same_kind _ _ = false

-- What the connection manager reports (enum rdma_cm_event_type); a connect request brings the id
-- of the new connection.
pub data CmEvent : Type 0 where
  addr_resolved addr_error route_resolved route_error : CmEvent
  connect_request : ℕ → CmEvent
  connect_error unreachable rejected established disconnected device_removal : CmEvent
  unhandled : CmEvent

-- What can happen to a task in wait_event_interruptible: an event of the connection manager, a
-- signal, and a run of the completion handler that comes to its label `error`, or that receives
-- messages.
pub data Wakeup : Type 0 where
  event : CmEvent → Wakeup
  interrupted cq_failed cq_received : Wakeup

pub record Sge : Type 0 where
  pub addr : ℕ
  pub length : ℕ
  pub lkey : ℕ

-- A send request that the adapter has accepted, and the bytes it will send.
pub record Sent : Type 0 where
  pub wr_id : ℕ
  pub sg_list : Sge
  pub msg : RdmaMsg

pub record World : Type 0 where
  pub next : ℕ  -- the next address to be given out
  pub clock : ℕ  -- calls made so far
  pub live : ℕ → Option Kind
  pub posted : List ℕ  -- wr_id of each posted receive, oldest first
  pub sent : List Sent  -- oldest first
  pub bitmaps : ℕ → Option (List ℕ)  -- msgbuf_bitmap of the rpc_ch_info at an address
  pub woken : List ℕ  -- addresses of the wait queues woken by handlers of messages, oldest first
  pub script : List Wakeup  -- what will happen while the task sleeps

pub record Verbs : Type 0 where
  pub kzalloc_ok : ℕ → Bool
  pub alloc_pd : ℕ → ℤ
  pub create_cq : ℕ → ℤ
  pub req_notify_cq : ℕ → ℤ
  pub create_qp : ℕ → ℤ
  pub dma_map_ok : ℕ → Bool
  pub post_recv : ℕ → ℤ
  pub post_send : ℕ → ℤ
  pub create_id : ℕ → ℤ
  pub resolve_addr : ℕ → ℤ
  pub resolve_route : ℕ → ℤ
  pub connect : ℕ → ℤ
  pub accept : ℕ → ℤ
  pub local_dma_lkey : ℕ → ℕ  -- of a protection domain

-- `fault` is a use of a dead or wrong object; `asleep` a task that nothing will wake any more.
pub data Run {ℓ} (A : Type ℓ) : Type ℓ where
  ok : A → World → Run A
  fault : Run A
  asleep : Run A

abbrev pub M {ℓ} : Type ℓ → Type ℓ
M A = World → Run A

abbrev pub pure {ℓ} : {A : Type ℓ} → A → M A
pure a w = ok a w

abbrev pub and_then {ℓ κ} : {A : Type ℓ} {B : Type κ} → Run A → (A → M B) → Run B
and_then (ok a w) f = f a w
and_then fault f = fault
and_then asleep f = asleep

-- A value that is there, or a fault: a read past the end of an array.
abbrev pub or_fault {ℓ} : {A : Type ℓ} → Option A → M A
or_fault none w = fault
or_fault (some a) w = ok a w

infixl 5 ◌>>=◌ ◌>>◌
abbrev pub ◌>>=◌ {ℓ κ} : {A : Type ℓ} {B : Type κ} → M A → (A → M B) → M B
◌>>=◌ m f w = and_then (m w) f

abbrev pub ◌>>◌ {ℓ} : {B : Type ℓ} → M (Unit {0}) → M B → M B
m >> k = m >>= λ _. k

abbrev pub null : ℕ
null = 0

abbrev pub put : (ℕ → Option Kind) → ℕ → Option Kind → ℕ → Option Kind
put live p k a = if p == a then k else live a

abbrev pub tick : World → World
tick w = record w { clock = w.clock + 1 }

-- A new object; addresses are never given out twice.
unfoldable pub create : Kind → M ℕ
create k w =
    ok w.next
      (record w { next = w.next + 1; clock = w.clock + 1; live = put w.live w.next (some k) })

-- The end of an object's life; a fault unless it is alive and of that kind.
unfoldable pub destroy : Kind → ℕ → M (Unit {0})
destroy k p w = elim (w.live p) [
  | none ↦ fault
  | some j ↦ if same_kind k j then ok tt (record w { live = put w.live p none }) else fault
]

-- A use of an object through its handle; a fault unless it is alive and of that kind.
unfoldable pub alive : Kind → ℕ → M (Unit {0})
alive k p w = elim (w.live p) [ none ↦ fault | some j ↦ if same_kind k j then ok tt w else fault ]

-- kzalloc; `NULL` on failure.
unfoldable pub kzalloc : Verbs → M ℕ
unfolding create
kzalloc v w = if v.kzalloc_ok w.clock then create memory w else ok null (tick w)

-- kfree, which ignores `NULL`.
unfoldable pub kfree : ℕ → M (Unit {0})
unfolding destroy
kfree p w = if p == null then ok tt w else destroy memory p w

-- A call that answers with a code and does nothing else that the model sees.
unfoldable pub call : (ℕ → ℤ) → M ℤ
call f w = ok (f w.clock) (tick w)

-- A pointer, or its PTR_ERR.
pub data Made : Type 0 where
  made : ℕ → Made
  failed : ℤ → Made

unfoldable pub make : (ℕ → ℤ) → Kind → M Made
unfolding create
make f k w =
    if is_zero (f w.clock)
    then and_then (create k w) (λ p. pure (made p))
    else ok (failed (f w.clock)) (tick w)

-- What ib_dma_map_single returns on failure: DMA_MAPPING_ERROR, all bits of which are set.
abbrev pub dma_mapping_error : ℕ
dma_mapping_error = 2 ^ 64 - 1

-- ib_dma_map_single: an address, or that.
unfoldable pub dma_map_single : Verbs → M ℕ
unfolding create
dma_map_single v w =
    if v.dma_map_ok w.clock then create dma_map w else ok dma_mapping_error (tick w)

unfoldable pub post_recv : Verbs → ℕ → M ℤ
post_recv v wr_id w = ok (v.post_recv w.clock) (record (tick w) {
  posted = if is_zero (v.post_recv w.clock) then w.posted ++ wr_id ∷ [] else w.posted;
})

unfoldable pub post_send : Verbs → Sent → M ℤ
post_send v s w =
    ok (v.post_send w.clock) (record (tick w) {
      sent = if is_zero (v.post_send w.clock) then w.sent ++ s ∷ [] else w.sent;
    })

-- wake_up_interruptible on the wait queue of a requester.
unfoldable pub wake_up : ℕ → M (Unit {0})
wake_up sem w = ok tt (record w { woken = w.woken ++ sem ∷ [] })
