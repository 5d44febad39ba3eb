-- ===== src/RpcClient/Session/Heard.antt =====
-- What one event of a session adds to what is sent and to who is woken.
use rpc_kern.Base.{
  ℕ, ◌≡◌, refl, ◌∙◌, sym, ap, append_assoc, append-nil, List, [], ◌∷◌, ◌++◌, take, map,
}
use rpc_kern.Message.{ByteOrder, decode_header}
use rpc_kern.Kernel.{World, Sent}
use rpc_kern.Rdma.Cq.{Completion}
use rpc_kern.Rdma.Send.Posts.{Carries, header_of}
use rpc_kern.RpcClient.Session.{Event, asks, arrives, on_wire, asked, woken_by, Told}

pub map-append_one {ℓ} :
    {A : Type ℓ} (f : Sent → A) (ts : List Sent) (t : Sent)
    → map f (ts ++ t ∷ []) ≡ map f ts ++ f t ∷ []
map-append_one f [] t = refl
map-append_one f (x ∷ ts) t = ap (λ r. f x ∷ r) (map-append_one f ts t)

module _ (order : ByteOrder) (size ch : ℕ) where
  pub done-Told : (w : World) → Told order size ch [] w w
  done-Told w = record {
    wire = sym (append-nil (map (on_wire order size) w.sent));
    woken = sym (append-nil w.woken);
  }

  -- A request has been sent, in a message that carries it.
  pub asks-Told :
      (sem seqn : ℕ) (bytes : List ℕ) (t : Sent) (w w' : World)
      → w'.sent ≡ w.sent ++ t ∷ []
      → Carries order size (header_of seqn sem ch) bytes t.msg
      → w'.woken ≡ w.woken
      → Told order size ch (asks sem bytes ∷ []) w w'
  asks-Told sem seqn bytes t w w' appended carries woken =
      let same : on_wire order size t ≡ (sem, ch, take size bytes) =
        rw (carries.words, carries.front) refl in
      record {
        wire =
            ap (map (on_wire order size)) appended
            ∙ map-append_one (on_wire order size) w.sent t
            ∙ ap (λ r. map (on_wire order size) w.sent ++ r ∷ []) same;
        woken = woken ∙ sym (append-nil w.woken);
      }

  -- A response has woken the requester that it names.
  pub arrives-Told :
      (c : Completion) (w w' : World)
      → w'.sent ≡ w.sent
      → w'.woken ≡ w.woken ++ (decode_header order c.arrived).sem ∷ []
      → Told order size ch (arrives c ∷ []) w w'
  arrives-Told c w w' sent woken = record {
    wire = ap (map (on_wire order size)) sent ∙ sym (append-nil (map (on_wire order size) w.sent));
    woken = woken;
  }

  pub then-Told :
      (e : Event) (es : List Event) (w w1 w2 : World)
      → Told order size ch (e ∷ []) w w1
      → Told order size ch es w1 w2
      → Told order size ch (e ∷ es) w w2
  then-Told (asks sem bytes) es w w1 w2 a b = record {
    wire =
        b.wire
        ∙ ap (λ r. r ++ asked size ch es) a.wire
        ∙ append_assoc (map (on_wire order size) w.sent) ((sem, ch, take size bytes) ∷ [])
            (asked size ch es);
    woken = b.woken ∙ ap (λ r. r ++ woken_by order es) (a.woken ∙ append-nil w.woken);
  }
  then-Told (arrives c) es w w1 w2 a b = record {
    wire =
        b.wire
        ∙ ap (λ r. r ++ asked size ch es) (a.wire ∙ append-nil (map (on_wire order size) w.sent));
    woken =
        b.woken
        ∙ ap (λ r. r ++ woken_by order es) a.woken
        ∙ append_assoc w.woken ((decode_header order c.arrived).sem ∷ []) (woken_by order es);
  }
