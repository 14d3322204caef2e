-- ===== src/LoadBalancer/Proxy/Threads/Health.antt =====
-- What a round of the heartbeat finds.
use load_balancer_with_wal.Base.{
  ℕ, zero, suc, ◌+◌, ◌<◌, ==_iff, ne→==_false, ◌≡◌, refl, ◌∙◌, ap, sym, Bool, true, false, not,
  Option, none, some, List, [], ◌∷◌, get_elem?, if◌then◌else◌, arith,
}
use load_balancer_with_wal.Base.Int.{ℤ, pos, negsuc}
use load_balancer_with_wal.Platform.{Platform}
use load_balancer_with_wal.RobotFactory.{OrderInf, CRec}
use load_balancer_with_wal.RobotFactory.Wire.{memory, c_rec_at}
use load_balancer_with_wal.ServerStub.{failed, send_struct, recv_struct}
use load_balancer_with_wal.LoadBalancer.Proxy.{Proxy, set_health, struct_read_record, heartbeat}
use load_balancer_with_wal.LoadBalancer.Proxy.Threads.{probe_nodes}

abbrev answered : Option CRec → Bool
answered none = false
answered (some r) = true

failed-negsuc : (n : ℕ) → failed (negsuc n) ≡ true
failed-negsuc n = ground arith

failed-pos : (n : ℕ) → failed (pos n) ≡ false
failed-pos n = ground arith

abbrev probe : OrderInf
probe = record { customer_id = pos 3000; order_number = pos 0; request_type = pos 2 }

module _ {W : Type 0} (p : Platform W) where
  abbrev pub received : ℤ × List ℕ × W → Bool × W
  received (negsuc n, bytes, w) = (false, w)
  received (pos n, bytes, w) = (true, w)

  abbrev pub then_receive : ℤ → ℤ × W → Bool × W
  then_receive sock (negsuc n, w) = (false, w)
  then_receive sock (pos n, w) = received (p.recv sock 8 w)

  -- A probe of the node behind a socket: the read of the record of customer 3000 is sent, and, where this has
  -- not failed, the eight bytes of a record are asked for. The probe succeeds where neither call gives a
  -- negative number, so also where `recv` gives 0, as it does from a node that has closed.
  abbrev pub probe_node : ℤ → W → Bool × W
  probe_node sock w = then_receive sock (p.send sock (memory p (3000 ∷ 0 ∷ 2 ∷ [])) w)

  -- Whether the probe of each node in turn succeeds.
  abbrev pub replies : List ℤ → W → List Bool
  replies [] w = []
  replies (sock ∷ socks) w = (probe_node sock w).0 ∷ replies socks (probe_node sock w).1

  recv_struct-received :
      (r : ℤ × List ℕ × W)
      → received r ≡ (
          let got : Option CRec × W =
            if failed r.0 then (none, r.2) else (some (c_rec_at p r.1), r.2) in
          (answered got.0, got.1))
  recv_struct-received (negsuc n, bytes, w) = rw (failed-negsuc n) refl
  recv_struct-received (pos n, bytes, w) = rw (failed-pos n) refl

  then_receive-sent :
      (sock : ℤ) (r : ℤ × W)
      → then_receive sock r ≡ (
          let got : Option CRec × W =
            if not (failed r.0) then recv_struct p sock 8 (c_rec_at p) r.1 else (none, r.1) in
          (answered got.0, got.1))
  unfolding recv_struct
  then_receive-sent sock (negsuc n, w) = rw (failed-negsuc n) refl
  then_receive-sent sock (pos n, w) = rw (failed-pos n) (recv_struct-received (p.recv sock 8 w))

  probe_node-answered :
      (sock : ℤ) (w : W)
      → probe_node sock w
        ≡ (answered (struct_read_record p sock probe w).0, (struct_read_record p sock probe w).1)
  unfolding struct_read_record send_struct
  probe_node-answered sock w = then_receive-sent sock (p.send sock (memory p (3000 ∷ 0 ∷ 2 ∷ [])) w)

  heartbeat-health :
      (i : ℕ) (sock : ℤ) (s : Proxy) (w : W)
      → heartbeat p i sock s w ≡ (
        record s { node_health = set_health i (probe_node sock w).0 s.node_health },
        (probe_node sock w).1,
      )
  unfolding heartbeat
  heartbeat-health i sock s w =
      ap (λ (r : Bool × W). (record s { node_health = set_health i r.0 s.node_health }, r.1))
        (sym (probe_node-answered sock w))

  -- A round from node i on leaves the nodes before it alone.
  probe_nodes-before :
      (socks : List ℤ) (i k : ℕ) (s : Proxy) (w : W)
      → k < i
      → (probe_nodes p socks i s w).0.node_health k ≡ s.node_health k
  unfolding probe_nodes
  probe_nodes-before [] i k s w h = refl
  probe_nodes-before (sock ∷ socks) i k s w h =
      probe_nodes-before socks (i + 1) k _ _ (omega arith)
      ∙ ap (λ (r : Proxy × W). r.0.node_health k) (heartbeat-health i sock s w)
      ∙ ap (λ q. if q then (probe_node sock w).0 else s.node_health k)
          (ne→==_false i k (λ e. omega (arith, e)))

  probe_nodes-found :
      (socks : List ℤ) (i j : ℕ) (b : Bool) (s : Proxy) (w : W)
      → get_elem? (replies socks w) j ≡ some b
      → (probe_nodes p socks i s w).0.node_health (i + j) ≡ b
  unfolding probe_nodes
  probe_nodes-found [] i j b s w e = absurd (none_not e)
    where
      none_not : {b : Bool} → none ≡ some b → ⊥
      none_not e = cc
  probe_nodes-found (sock ∷ socks) i zero b s w e =
      ap
        ((probe_nodes p socks (i + 1) (heartbeat p i sock s w).0
          (heartbeat p i sock s w).1).0.node_health)
        (omega arith)
      ∙ probe_nodes-before socks (i + 1) i _ _ (omega arith)
      ∙ ap (λ (r : Proxy × W). r.0.node_health i) (heartbeat-health i sock s w)
      ∙ ap (λ q. if q then (probe_node sock w).0 else s.node_health i) ((==_iff i i).1 refl)
      ∙ some_inj e
    where
      some_inj : {a b : Bool} → some a ≡ some b → a ≡ b
      some_inj e = cc
  probe_nodes-found (sock ∷ socks) i (suc j) b s w e =
      ap
        ((probe_nodes p socks (i + 1) (heartbeat p i sock s w).0
          (heartbeat p i sock s w).1).0.node_health)
        (omega arith)
      ∙ probe_nodes-found socks (i + 1) j b _ _ (
          ap (λ (r : Proxy × W). get_elem? (replies socks r.1) j) (heartbeat-health i sock s w) ∙ e)

  -- After a round of the heartbeat each node is taken for healthy exactly where, in its turn, neither the
  -- send nor the receive of its probe gave a negative number; a receive of 0, from a node that has closed,
  -- counts as an answer.
  pub probe_nodes-health :
      (socks : List ℤ) (j : ℕ) (b : Bool) (s : Proxy) (w : W)
      → get_elem? (replies socks w) j ≡ some b
      → (probe_nodes p socks 0 s w).0.node_health j ≡ b
  probe_nodes-health socks j b s w e =
      ap ((probe_nodes p socks 0 s w).0.node_health) (omega arith)
      ∙ probe_nodes-found socks 0 j b s w e
