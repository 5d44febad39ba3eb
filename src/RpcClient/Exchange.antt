-- ===== src/RpcClient/Exchange.antt =====
-- What rpc_client.c and rpc_common.c amount to, seen from the wire: ids are taken by requests, and
-- each response arrives in the oldest receive buffer that is posted, whose index is the id that is
-- freed. The server answers the requests that wait in any order.
pub mod Flow
pub mod Shared
use rpc_kern.Base.{ℕ, ◌<◌, ◌≡◌, ◌≢◌, List, [], ◌∷◌, ◌++◌, replicate, count, erase}
use rpc_kern.Bitmap.{bit_arr_size}
use rpc_kern.Msgbuf.{alloc_attempt, free_msgbuf_id}

pub record Exchange : Type 0 where
  pub bitmap : List ℕ
  pub receives : List ℕ  -- the posted receive buffers, oldest first
  pub waiting : List ℕ  -- the ids of the requests that are not answered yet

-- A new channel, with a receive posted for each buffer.
abbrev pub start : Exchange
start = record { bitmap = replicate bit_arr_size 0; receives = 0 ∷ 1 ∷ 2 ∷ 3 ∷ []; waiting = [] }

-- `respond id` answers the request with that id.
pub data Action : Type 0 where
  request : Action
  respond : (id : ℕ) → Action

abbrev pub after_request : Exchange → Exchange
after_request s = record s {
  bitmap = (alloc_attempt s.bitmap 0).bitmap;
  waiting = (alloc_attempt s.bitmap 0).bit_id ∷ s.waiting;
}

abbrev pub after_response : Exchange → (id buffer : ℕ) → List ℕ → Exchange
after_response s id buffer rest = record {
  bitmap = free_msgbuf_id s.bitmap buffer;
  receives = rest ++ buffer ∷ [];
  waiting = erase id s.waiting;
}

pub data Step (s : Exchange) : Action → Exchange → Type 0 where
  requests : (alloc_attempt s.bitmap 0).ret ≢ 0 → Step s request (after_request s)
  responds :
      (id buffer : ℕ) (rest : List ℕ)
      → 0 < count id s.waiting
      → s.receives ≡ buffer ∷ rest
      → Step s (respond id) (after_response s id buffer rest)

pub data Reach (s : Exchange) : Exchange → Type 0 where
  here : Reach s s
  next : {t u : Exchange} (a : Action) → Reach s t → Step t a u → Reach s u
