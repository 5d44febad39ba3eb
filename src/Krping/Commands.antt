-- ===== src/Krping/Commands.antt =====
-- krping_doit on every command: it gives back what it takes, and never runs a server.
use rpc_kern.Base.{
  ℕ, ◌+◌, ◌≤◌, ◌<◌, ◌≡◌, refl, ◌∙◌, ap, ◌⊎◌, inl, inr, Bool, true, false, not, none, some,
  if◌then◌else◌, arith, ℤ, pos, negsuc, is_zero, Bool-cases, List, [], ◌∷◌, ◌++◌, erase, has,
  ==_false, eq_of_is_zero,
}
use rpc_kern.Kernel
use rpc_kern.Kernel.{
  World, Verbs, Run, ok, M, and_then, pure, alive, put, destroy, kfree, kzalloc, make, made, failed,
  tick, ◌>>=◌, ◌>>◌,
}
use rpc_kern.Kernel.Owned.{destroy-ok, kfree-ok}
use rpc_kern.Kernel.Safe.{Safe, stops, chain-Safe}
use rpc_kern.Kernel.Succeed.{with_new, make-new, make-failed, kzalloc-made, kzalloc-null}
use rpc_kern.Rdma.{Sockaddr}
use rpc_kern.TestClient.Proc.{to_int}
use rpc_kern.Krping.{KrpingCb, KrpingVerbs, Occurrence, at_least, route_resolved}
use rpc_kern.Krping.Cm.{einval}
use rpc_kern.Krping.Setup.{pages}
use rpc_kern.Rdma.Receive.{enomem}
use rpc_kern.Krping.Ping.{mapped_badly}
use rpc_kern.Krping.Binding.{is_binding}
use rpc_kern.Krping.Buffers.{Fresh}
use rpc_kern.Krping.Runs.{Released, krping_run_client-Released}
use rpc_kern.Krping.Doit.{
  Opt, opt_addr, opt_port, opt_client, opt_size, opt_count, opt_verbose, opt_unknown, size_opt,
  count_opt, krping_option, krping_options, krping_new_cb, krping_start, krping_doit, is_unset,
}

erase-last : (xs : List ℕ) (a : ℕ) → has a xs ≡ false → erase a (xs ++ a ∷ []) ≡ xs
erase-last [] a h = ground arith
erase-last (x ∷ xs) a h = ground (arith, erase-last xs a)

-- What of a block no option changes.
record Core : Type 0 where
  pub self : ℕ
  pub dma_mr : ℕ
  pub rdma_mr : ℕ
  pub start_mr : ℕ
  pub reg_mr : ℕ
  pub start_buf : ℕ
  pub low : Bool
  pub to_come : List Occurrence
  pub frtest : Bool

abbrev core : KrpingCb → Core
core cb = record {
  self = cb.self;
  dma_mr = cb.dma_mr;
  rdma_mr = cb.rdma_mr;
  start_mr = cb.start_mr;
  reg_mr = cb.reg_mr;
  start_buf = cb.start_buf;
  low = at_least cb.state route_resolved;
  to_come = cb.to_come;
  frtest = cb.frtest;
}

-- A block whose options have been read, at least in part.
record Optioned (self : ℕ) (to_come : List Occurrence) (cb : KrpingCb) : Type 0 where
  pub same : core cb ≡ core (krping_new_cb self to_come)
  pub side : (cb.server ≡ pos 0) ⊎ (cb.server ≡ negsuc 0)

module _ (u : KrpingVerbs) (self : ℕ) (to_come : List Occurrence) where
  size_opt-Optioned :
      (cb : KrpingCb) (n ret : ℤ)
      → Optioned self to_come cb
      → Optioned self to_come (size_opt cb n ret).0
  unfolding size_opt
  size_opt-Optioned cb (pos n) ret o = record { same = o.same; side = o.side }
  size_opt-Optioned cb (negsuc n) ret o = o

  count_opt-Optioned :
      (cb : KrpingCb) (n ret : ℤ)
      → Optioned self to_come cb
      → Optioned self to_come (count_opt cb n ret).0
  unfolding count_opt
  count_opt-Optioned cb (pos n) ret o = record { same = o.same; side = o.side }
  count_opt-Optioned cb (negsuc n) ret o = o

  krping_option-Optioned :
      (cb : KrpingCb) (ret : ℤ) (x : Opt)
      → Optioned self to_come cb
      → Optioned self to_come (krping_option u cb ret x).0
  unfolding krping_option
  krping_option-Optioned cb ret (opt_addr a) o = record { same = o.same; side = o.side }
  krping_option-Optioned cb ret (opt_port n) o = record { same = o.same; side = o.side }
  krping_option-Optioned cb ret opt_client o = record { same = o.same; side = inl refl }
  krping_option-Optioned cb ret (opt_size n) o = size_opt-Optioned cb (to_int n) ret o
  krping_option-Optioned cb ret (opt_count n) o = count_opt-Optioned cb (to_int n) ret o
  krping_option-Optioned cb ret opt_verbose o = record { same = o.same; side = o.side }
  krping_option-Optioned cb ret opt_unknown o = o

  krping_options-Optioned :
      (cb : KrpingCb) (ret : ℤ) (cmd : List Opt)
      → Optioned self to_come cb
      → Optioned self to_come (krping_options u cb ret cmd).0
  unfolding krping_options
  krping_options-Optioned cb ret [] o = o
  krping_options-Optioned cb ret (x ∷ cmd) o =
      let out = krping_option u cb ret x in
      krping_options-Optioned out.0 out.1 cmd (krping_option-Optioned cb ret x o)

-- The code of a command, by the answer of rdma_create_id.
abbrev pub start_code : KrpingCb → ℤ → ℤ
start_code cb created =
    if is_unset cb.server then einval else if is_zero created then pos 0 else created

abbrev pub doit_code : KrpingCb × ℤ → ℤ → ℤ
doit_code (cb, ret) created = if not (is_zero ret) then ret else start_code cb created

-- The block and the code when a command's options have been read, for a block at the next address.
abbrev pub parsed : KrpingVerbs → World → List Occurrence → List Opt → KrpingCb × ℤ
parsed u w to_come cmd = krping_options u (krping_new_cb w.next to_come) (pos 0) cmd

-- What a command leaves alive, and its code.
abbrev Ended : KrpingVerbs → World → ℤ → ℤ → World → Type 0
Ended u w code ret w' = (ret ≡ code) × Released u w w'

Optioned-Fresh :
    {self : ℕ} {to_come : List Occurrence} {cb : KrpingCb} (id : ℕ)
    → Optioned self to_come cb
    → Fresh (record cb { cm_id = id })
Optioned-Fresh id o = record {
  dma_mr = ap (λ (c : Core). c.dma_mr) o.same;
  rdma_mr = ap (λ (c : Core). c.rdma_mr) o.same;
  start_mr = ap (λ (c : Core). c.start_mr) o.same;
  reg_mr = ap (λ (c : Core). c.reg_mr) o.same;
  start_buf = ap (λ (c : Core). c.start_buf) o.same;
}

-- An object that was made before the run is destroyed after it.
pub gone-Released :
    (u : KrpingVerbs) (k : Kernel.Kind) (w w' : World)
    → ((a : ℕ) → w.next ≤ a → w.live a ≡ none)
    → Released u (with_new k w) w'
    → (w'.live w.next ≡ some k) × Released u w (record w' { live = put w'.live w.next none })
gone-Released u k w w' unused (inl r) =
    (ground (arith, r w.next), inl λ a. ground (arith, r a, unused a))
gone-Released u k w w' unused (inr (s, (n, h, r))) =
    (ground (arith, r w.next), inr (s, (n, omega arith, λ a. ground (arith, r a, unused a))))

module _ (v : Verbs) (u : KrpingVerbs) (maps : (t : ℕ) → v.dma_map_ok t ≡ true)
    (resolve : Sockaddr → ℕ → ℤ) (run_server : KrpingCb → M (Unit {0})) where
  krping_start-Released :
      (self : ℕ) (to_come : List Occurrence) (cb : KrpingCb) (w : World)
      → Optioned self to_come cb
      → is_binding to_come ≡ true
      → ((a : ℕ) → w.next ≤ a → w.live a ≡ none)
      → 0 < w.next
      → ((t : ℕ) → mapped_badly (u.map_mr_sg t) (pages cb.size) ≡ false)
      → Safe
          (Ended u w (start_code cb (v.create_id w.clock)))
          (krping_start v u resolve run_server cb w)
  unfolding krping_start
  krping_start-Released self to_come cb w o binding unused low mapped = elim o.side [
    | inr unset ↦ rw unset (stops (refl, inl λ a. refl))
    | inl client ↦
        let z : is_zero cb.server ≡ true = ap is_zero client in
        let set : is_unset cb.server ≡ false = ap is_unset client in
        elim (Bool-cases (is_zero (v.create_id w.clock))) [
          | inr bad ↦
              rw (set, z, bad, make-failed v.create_id Kernel.cm_id w _ refl bad)
                (stops (refl, inl λ a. refl))
          | inl y ↦
              rw (set, z, y, make-new v.create_id Kernel.cm_id w (eq_of_is_zero _ y), z)
                (chain-Safe
                  (krping_run_client-Released v u maps resolve (record cb { cm_id = w.next })
                    (with_new Kernel.cm_id w) z (Optioned-Fresh w.next o)
                    (ap (λ (c : Core). c.low) o.same)
                    (ap is_binding (ap (λ (c : Core). c.to_come) o.same) ∙ binding) (ground arith)
                    (omega arith) (λ a h. ground (arith, unused a)) mapped)
                  λ _ w' r.
                    let (here, r') = gone-Released u Kernel.cm_id w w' unused r in
                    rw (destroy-ok Kernel.cm_id w.next w' here) (stops (refl, r')))
        ]
  ]

  start_or_refuse :
      (self : ℕ) (to_come : List Occurrence) (cb : KrpingCb) (ret : ℤ) (w : World)
      → Optioned self to_come cb
      → is_binding to_come ≡ true
      → ((a : ℕ) → w.next ≤ a → w.live a ≡ none)
      → 0 < w.next
      → ((t : ℕ) → mapped_badly (u.map_mr_sg t) (pages cb.size) ≡ false)
      → Safe
          (Ended u w (doit_code (cb, ret) (v.create_id w.clock)))
          ((if not (is_zero ret) then pure ret else krping_start v u resolve run_server cb) w)
  start_or_refuse self to_come cb ret w o binding unused low mapped =
      elim (Bool-cases (is_zero ret)) [
        | inr bad ↦ rw bad (stops (refl, inl λ a. refl))
        | inl y ↦ rw y (krping_start-Released self to_come cb w o binding unused low mapped)
      ]

  pub krping_doit-Released :
      (krping_cbs : List ℕ) (cmd : List Opt) (to_come : List Occurrence) (w : World)
      → has w.next krping_cbs ≡ false
      → is_binding to_come ≡ true
      → ((a : ℕ) → w.next ≤ a → w.live a ≡ none)
      → 0 < w.next
      → ((t : ℕ) → mapped_badly (u.map_mr_sg t) (pages (parsed u w to_come cmd).0.size) ≡ false)
      → Safe
          (λ (res : List ℕ × ℤ) w'.
            (res.0 ≡ krping_cbs)
            × (res.1 ≡ (
                if v.kzalloc_ok w.clock
                then doit_code (parsed u w to_come cmd) (v.create_id (w.clock + 1))
                else enomem))
            × Released u w w')
          (krping_doit v u resolve run_server krping_cbs cmd to_come w)
  unfolding krping_doit
  krping_doit-Released krping_cbs cmd to_come w new binding unused low mapped =
      let out = parsed u w to_come cmd in
      let o =
        krping_options-Optioned u w.next to_come (krping_new_cb w.next to_come) (pos 0) cmd
          (record { same = refl; side = inr refl }) in
      elim (Bool-cases (v.kzalloc_ok w.clock)) [
        | inr bad ↦ rw (bad, kzalloc-null v w bad) (stops (refl, refl, inl λ a. refl))
        | inl y ↦
            rw (y, kzalloc-made v w y, ==_false w.next 0 low)
              (chain-Safe
                (start_or_refuse w.next to_come out.0 out.1 (with_new Kernel.memory w) o binding
                  (λ a h. ground (arith, unused a)) (omega arith) mapped)
                λ ret w' (code, r).
                  let (here, r') = gone-Released u Kernel.memory w w' unused r in
                  rw
                    (
                      kfree-ok w.next w' (==_false w.next 0 low) here,
                      erase-last krping_cbs w.next new,
                    )
                    (stops (refl, code, r')))
      ]
