-- ===== src/LoadBalancer/Arguments/Usage.antt =====
-- What main of the load balancer makes of well-formed arguments.
use load_balancer_with_wal.Base.{
  ℕ, zero, suc, ◌+◌, ◌<◌, ◌==◌, ◌≡◌, refl, ◌∙◌, sym, ap, true, false, none, some, List, [], ◌∷◌,
  ◌++◌, append-nil, append_assoc, length, length-append, get_elem?, ok, arith,
}
use load_balancer_with_wal.Base.Int.{ℤ, pos, pos_part}
use load_balancer_with_wal.Arguments.{arg-at, longer}
use load_balancer_with_wal.LoadBalancer.Proxy.{Proxy, new_proxy}
use load_balancer_with_wal.LoadBalancer.Arguments.{
  NodeMap, set_node, node_at, read_nodes, balancer_args,
}

module _ (atoi : List ℕ → ℤ) (id : ℕ → List ℕ) where
  -- nodes on the command line, numbered from k: the id, ip address and port of each
  abbrev pub node_args : ℕ → List (List ℕ × List ℕ) → List (List ℕ)
  node_args k [] = []
  node_args k ((ip, port) ∷ nodes) = (id k ∷ ip ∷ port ∷ []) ++ node_args (suc k) nodes

  abbrev numbered : ℕ → List (List ℕ × List ℕ) → NodeMap
  numbered k [] = []
  numbered k ((ip, port) ∷ nodes) = (pos k, ip, atoi port) ∷ numbered (suc k) nodes

  length-numbered :
      (k : ℕ) (nodes : List (List ℕ × List ℕ)) → length (numbered k nodes) ≡ length nodes
  length-numbered k [] = refl
  length-numbered k (n ∷ nodes) = ap suc (length-numbered (suc k) nodes)

  other : (k m : ℕ) → (k == (k + suc m)) ≡ false
  other k m = ground arith

  set_node-numbered :
      (k : ℕ) (nodes : List (List ℕ × List ℕ)) (ip port : List ℕ)
      → set_node (pos (k + length nodes)) ip (atoi port) (numbered k nodes)
        ≡ numbered k (nodes ++ (ip, port) ∷ [])
  unfolding set_node
  set_node-numbered k [] ip port = ap (λ n. (pos n, ip, atoi port) ∷ []) (omega arith)
  set_node-numbered k ((a, q) ∷ nodes) ip port = rw (other k (length nodes)) (
      ap (λ m. (pos k, a, atoi q) ∷ m)
        (ap (λ n. set_node (pos n) ip (atoi port) (numbered (suc k) nodes)) (omega arith)
          ∙ set_node-numbered (suc k) nodes ip port))

  node_at-numbered :
      (k i : ℕ) (nodes : List (List ℕ × List ℕ)) (ip port : List ℕ)
      → get_elem? nodes i ≡ some (ip, port)
      → node_at (numbered k nodes) (pos (k + i)) ≡ (ip, atoi port)
  unfolding node_at
  node_at-numbered k i [] ip port e = absurd (none_not e)
    where
      none_not : {a : List ℕ × List ℕ} → none ≡ some a → ⊥
      none_not e = cc
  node_at-numbered k zero ((a, q) ∷ nodes) ip port e =
      rw (same k) (ap (λ f. (f.0, atoi f.1)) (some_inj e))
    where
      same : (k : ℕ) → (k == (k + 0)) ≡ true
      same k = ground arith

      some_inj : {a b : List ℕ × List ℕ} → some a ≡ some b → a ≡ b
      some_inj e = cc
  node_at-numbered k (suc i) ((a, q) ∷ nodes) ip port e = rw (other k i) (
      ap (λ n. node_at (numbered (suc k) nodes) (pos n)) (omega arith)
      ∙ node_at-numbered (suc k) i nodes ip port e)

  read_nodes-numbered :
      (done nodes : List (List ℕ × List ℕ)) (pre : List (List ℕ)) (j : ℕ)
      → ((k : ℕ) → k < length done + length nodes → atoi (id k) ≡ pos k)
      → length pre ≡ j
      → read_nodes atoi (length nodes) j (numbered 0 done) (pre ++ node_args (length done) nodes)
        ≡ ok (numbered 0 (done ++ nodes))
  unfolding read_nodes
  read_nodes-numbered done [] pre j numbers e = ap (λ d. ok (numbered 0 d)) (sym (append-nil done))
  read_nodes-numbered done ((ip, port) ∷ nodes) pre j numbers e =
      let k = length done in
      let rest : List (List ℕ) = node_args (suc k) nodes in
      let first = arg-at pre (ip ∷ port ∷ rest) (id k) j refl e in
      let second =
        arg-at (pre ++ id k ∷ []) (port ∷ rest) ip (j + 1)
          (sym (append_assoc pre (id k ∷ []) (ip ∷ port ∷ rest)))
          (longer pre (id k ∷ []) j 1 e refl) in
      let third =
        arg-at (pre ++ id k ∷ ip ∷ []) rest port (j + 2)
          (sym (append_assoc pre (id k ∷ ip ∷ []) (port ∷ rest)))
          (longer pre (id k ∷ ip ∷ []) j 2 e refl) in
      let done' : List (List ℕ × List ℕ) = done ++ (ip, port) ∷ [] in
      let pre' : List (List ℕ) = pre ++ id k ∷ ip ∷ port ∷ [] in
      let grown : set_node (atoi (id k)) ip (atoi port) (numbered 0 done) ≡ numbered 0 done' =
        ap (λ n. set_node n ip (atoi port) (numbered 0 done)) (numbers k (omega arith))
        ∙ ap (λ n. set_node (pos n) ip (atoi port) (numbered 0 done)) (omega arith)
        ∙ set_node-numbered 0 done ip port in
      let one_more : suc k ≡ length done' = omega (arith, length-append done ((ip, port) ∷ [])) in
      rw (first, second, third)
        (ap (λ m. read_nodes atoi (length nodes) (j + 3) m (pre ++ id k ∷ ip ∷ port ∷ rest)) grown
          ∙ ap (read_nodes atoi (length nodes) (j + 3) (numbered 0 done')) (
              sym (append_assoc pre (id k ∷ ip ∷ port ∷ []) rest)
              ∙ ap (λ n. pre' ++ node_args n nodes) one_more)
          ∙ read_nodes-numbered done' nodes pre' (j + 3)
              (λ i h. numbers i (omega (arith, one_more)))
              (longer pre (id k ∷ ip ∷ port ∷ []) j 3 e refl)
          ∙ ap (λ d. ok (numbered 0 d)) (append_assoc done ((ip, port) ∷ []) nodes))

  -- The object that main makes of n nodes.
  abbrev pub balancer : List (List ℕ × List ℕ) → Proxy
  balancer nodes = new_proxy (length nodes) (λ i. node_at (numbered 0 nodes) (pos i))

  -- Called as meant, with the port, the number of the nodes, and the id, address and port of each of
  -- them, where atoi reads the ids as 0 to n - 1 in order, main makes an object of n nodes, of which the
  -- i-th is the i-th on the command line.
  pub balancer_args-usage :
      (program port count ip node_port : List ℕ) (nodes : List (List ℕ × List ℕ)) (i : ℕ)
      → ((k : ℕ) → k < length nodes → atoi (id k) ≡ pos k)
      → atoi count ≡ pos (length nodes)
      → get_elem? nodes i ≡ some (ip, node_port)
      → (balancer_args atoi (program ∷ port ∷ count ∷ node_args 0 nodes)
          ≡ ok (atoi port, balancer nodes))
        × ((balancer nodes).worker_node_map_size ≡ length nodes)
        × ((balancer nodes).worker_nodes_map i ≡ (ip, atoi node_port))
  unfolding balancer_args new_proxy
  balancer_args-usage program port count ip node_port nodes i numbers counted at =
      let argv : List (List ℕ) = program ∷ port ∷ count ∷ node_args 0 nodes in
      let read : read_nodes atoi (pos_part (atoi count)) 3 [] argv ≡ ok (numbered 0 nodes) =
        ap (λ n. read_nodes atoi (pos_part n) 3 [] argv) counted
        ∙ read_nodes-numbered [] nodes (program ∷ port ∷ count ∷ []) 3
            (λ k h. numbers k (omega arith)) refl in
      (
        rw (read, balancer_args)
            (ap (λ n. ok (atoi port, new_proxy n (λ i. node_at (numbered 0 nodes) (pos i))))
              (length-numbered 0 nodes)),
        refl,
        ap (λ n. node_at (numbered 0 nodes) (pos n)) (omega arith)
            ∙ node_at-numbered 0 i nodes ip node_port at,
      )
