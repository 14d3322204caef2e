-- ===== src/LoadBalancer/Proxy/Selection.antt =====
-- Which factory a customer is sent to: get_master_node and the choice in LoadBalancerThread.
use load_balancer_with_wal.Base.{
  ℕ, zero, suc, ◌+◌, ◌≤◌, ◌<◌, ◌≡◌, refl, ◌∙◌, ap, sym, ◌⊎◌, inl, inr, Bool, true, false, none,
  some, List, [], ◌∷◌, ◌==◌, if◌then◌else◌, ne→==_false, ==_iff, Bool-cases, Result, ok, fault,
  undefined, arith,
}
use load_balancer_with_wal.LoadBalancer.Proxy.{
  Proxy, Stub, null, idle, to_node, first_healthy, get_master_node, other_worker, choose_worker,
}

-- No node with i ≤ j < i + n answers the heartbeat.
abbrev pub NoneHealthy : ℕ → ℕ → (ℕ → Bool) → Type 0
NoneHealthy n i health = (j : ℕ) → i ≤ j → j < i + n → health j ≡ false

-- The first node with i ≤ j < i + n that does is k.
abbrev pub FirstHealthy : ℕ → ℕ → (ℕ → Bool) → ℕ → Type 0
FirstHealthy n i health k =
    (i ≤ k) × (k < i + n) × (health k ≡ true) × ((j : ℕ) → i ≤ j → j < k → health j ≡ false)

Search : ℕ → ℕ → (ℕ → Bool) → Type 0
Search n i health =
    ((first_healthy n i health ≡ none) × NoneHealthy n i health)
    ⊎ ((k : ℕ) × (first_healthy n i health ≡ some k) × FirstHealthy n i health k)

same_or_after :
    (i : ℕ) (health : ℕ → Bool) (j : ℕ)
    → health i ≡ false
    → i ≤ j
    → (i + 1 ≤ j → health j ≡ false)
    → health j ≡ false
same_or_after i health j sick h later = elim (Bool-cases (i == j)) [
  | inl same ↦ ap health (sym ((==_iff i j).0 same)) ∙ sick
  | inr other ↦ later (ground (arith, ==_iff i j))
]

first_healthy-cases : (n i : ℕ) (health : ℕ → Bool) → Search n i health
unfolding Search first_healthy
first_healthy-cases zero i health = inl (refl, λ j low high. absurd (omega arith))
first_healthy-cases (suc n) i health = elim (Bool-cases (health i)) [
  | inl well ↦ inr (
    i,
    rw (well, first_healthy),
    (omega arith, omega arith, well, λ j low high. absurd (omega arith)),
  )
  | inr sick ↦ elim (first_healthy-cases n (i + 1) health) [
    | inl (e, all_sick) ↦ inl (
      rw (sick, first_healthy) e,
      λ j low high. same_or_after i health j sick low (λ h. all_sick j h (omega arith)),
    )
    | inr (k, e, (low_k, high_k, well, before_k)) ↦ inr (
      k,
      rw (sick, first_healthy) e,
      (
        omega arith,
        omega arith,
        well,
        λ j low high. same_or_after i health j sick low (λ h. before_k j h high),
      ),
    )
  ]
]

-- A NULL stub meets a node that answers: Init is called through NULL. Where no node answers, the
-- stub stays NULL.
other_worker-null :
    (n i k : ℕ) (health : ℕ → Bool)
    → i ≤ k
    → k < i + n
    → health k ≡ true
    → other_worker n i health null ≡ fault undefined
unfolding other_worker
other_worker-null zero i k health low high well = absurd (omega arith)
other_worker-null (suc n) i k health low high well = elim (Bool-cases (health i)) [
  | inl here ↦ rw (here, other_worker)
  | inr sick ↦
      rw (sick, other_worker) (other_worker-null n (i + 1) k health (later sick) (omega arith) well)
]
  where
    later : health i ≡ false → i + 1 ≤ k
    later sick = elim (Bool-cases (i == k)) [
      | inl same ↦ absurd (ground (arith, ap health ((==_iff i k).0 same)))
      | inr other ↦ ground (arith, ==_iff i k)
    ]

other_worker-none :
    (n i : ℕ) (health : ℕ → Bool) → NoneHealthy n i health → other_worker n i health null ≡ ok null
unfolding other_worker
other_worker-none zero i health sick = refl
other_worker-none (suc n) i health sick =
    rw (sick i (omega arith) (omega arith), other_worker)
      (other_worker-none n (i + 1) health (λ j low high. sick j (omega arith) (omega arith)))

-- The outcome of the loop over n nodes that looks for another one.
OtherWorker : ℕ → (ℕ → Bool) → Result Stub → Type 0
OtherWorker n health r =
    ((health 0 ≡ true) × (r ≡ ok (to_node 0)))
    ⊎ ((health 0 ≡ false) × (k : ℕ) × FirstHealthy n 0 health k × (r ≡ fault undefined))
    ⊎ (NoneHealthy n 0 health × (r ≡ ok null))

positive : (k : ℕ) (health : ℕ → Bool) → health k ≡ true → health 0 ≡ false → 1 ≤ k
positive zero health well sick = absurd (ground arith)
positive (suc k) health well sick = omega arith

other_worker-cases :
    (n : ℕ) (health : ℕ → Bool) → 0 < n → OtherWorker n health (other_worker n 0 health idle)
unfolding OtherWorker Search other_worker
other_worker-cases zero health h = absurd (omega arith)
other_worker-cases (suc n) health h = elim (Bool-cases (health 0)) [
  | inl well ↦ inl (well, rw (well, other_worker))
  | inr sick ↦ elim (first_healthy-cases (suc n) 0 health) [
    | inl (_, none_well) ↦ inr (
        inr (
          none_well,
          rw (sick, other_worker)
              (other_worker-none n 1 health
                (λ j low high. none_well j (omega arith) (omega arith))),
        ))
    | inr (k, _, (low, high, well, least)) ↦ inr (
        inl (
          sick,
          k,
          (low, high, well, least),
          rw (sick, other_worker)
              (other_worker-null n 1 k health (positive k health well sick) (omega arith) well),
        ))
  ]
]

module _ (s : Proxy) where
  open s use {current_worker_node, master_node_id, worker_node_map_size, node_health}

  -- The node for a customer's orders: the master as long as it answers the heartbeat; otherwise the
  -- first node that does, which is the master from then on; NULL, and no change, if none does.
  pub get_master_node-cases :
      ((node_health master_node_id ≡ true) × (get_master_node s ≡ (some master_node_id, s)))
      ⊎ ((node_health master_node_id ≡ false)
          × (k : ℕ) × FirstHealthy worker_node_map_size 0 node_health k
          × (get_master_node s ≡ (some k, record s { master_node_id = k })))
      ⊎ ((node_health master_node_id ≡ false)
          × NoneHealthy worker_node_map_size 0 node_health
          × (get_master_node s ≡ (none, s)))
  unfolding get_master_node Search
  get_master_node-cases = elim (Bool-cases (node_health master_node_id)) [
    | inl well ↦ inl (well, rw (well, get_master_node))
    | inr sick ↦ elim (first_healthy-cases worker_node_map_size 0 node_health) [
      | inl (e, none_well) ↦ inr (inr (sick, none_well, rw (sick, get_master_node) (rw (e))))
      | inr (k, e, first) ↦ inr (inl (sick, k, first, rw (sick, get_master_node) (rw (e))))
    ]
  ]

  -- The node for a customer's reads, where the node in turn does not answer the heartbeat: node 0 if
  -- it answers; otherwise, if any other node answers, Init is called through a NULL pointer, which is
  -- undefined behaviour; NULL, and no change, if none answers.
  pub choose_worker-failover :
      node_health current_worker_node ≡ false
      → 0 < worker_node_map_size
      → ((node_health 0 ≡ true) × (choose_worker s ≡ ok (to_node 0, s)))
        ⊎ ((node_health 0 ≡ false)
            × (k : ℕ) × FirstHealthy worker_node_map_size 0 node_health k
            × (choose_worker s ≡ fault undefined))
        ⊎ (NoneHealthy worker_node_map_size 0 node_health × (choose_worker s ≡ ok (null, s)))
  unfolding OtherWorker choose_worker
  choose_worker-failover sick some_node =
      elim (other_worker-cases worker_node_map_size node_health some_node) [
        | inl (well, e) ↦ inl (well, chosen _ e)
        | inr (inl (ill, k, first, e)) ↦ inr (inl (ill, k, first, chosen _ e))
        | inr (inr (none_well, e)) ↦ inr (inr (none_well, chosen _ e))
      ]
    where
      chosen :
          (r : Result Stub)
          → other_worker worker_node_map_size 0 node_health idle ≡ r
          → choose_worker s ≡ (elim r [ ok cs ↦ ok (cs, s) | fault e ↦ fault e ])
      chosen r e = rw (sick, choose_worker) (rw e)

-- The nodes that the next k customers read from.
unfoldable pub choose_workers : ℕ → Proxy → Result (List Stub × Proxy)
choose_workers zero s = ok ([], s)
choose_workers (suc k) s = elim (choose_worker s) [
  | fault e ↦ fault e
  | ok (cs, s') ↦ elim (choose_workers k s') [
    | fault e ↦ fault e
    | ok (more, s'') ↦ ok (cs ∷ more, s'')
  ]
]

-- nodes i, i + 1, …, i + n - 1
abbrev pub nodes_from : ℕ → ℕ → List Stub
nodes_from zero i = []
nodes_from (suc n) i = to_node i ∷ nodes_from n (i + 1)

-- The proxy with another node in turn.
abbrev pub in_turn : ℕ → Proxy → Proxy
in_turn i s = record s { current_worker_node = i }

choose_worker-healthy :
    (s : Proxy)
    → s.node_health s.current_worker_node ≡ true
    → choose_worker s
      ≡ ok (
        to_node s.current_worker_node,
        in_turn
            (if (s.current_worker_node + 1) == s.worker_node_map_size
              then 0
              else s.current_worker_node + 1)
            s,
      )
unfolding choose_worker
choose_worker-healthy s well = rw (well, choose_worker)

-- Where every node answers the heartbeat, the customers from node i in turn on are sent to the nodes
-- i, i + 1, … to the last one, one each, and node 0 is in turn after that.
pub choose_workers-round :
    (k : ℕ) (s : Proxy)
    → s.current_worker_node + suc k ≡ s.worker_node_map_size
    → ((j : ℕ) → j < s.worker_node_map_size → s.node_health j ≡ true)
    → choose_workers (suc k) s ≡ ok (nodes_from (suc k) s.current_worker_node, in_turn 0 s)
unfolding choose_workers
choose_workers-round zero s e well =
    rw (choose_worker-healthy s (well s.current_worker_node (omega arith)), choose_workers)
      (ap (λ i. ok (to_node s.current_worker_node ∷ [], in_turn i s))
        (ground (arith, ==_iff (s.current_worker_node + 1) s.worker_node_map_size)))
choose_workers-round (suc k) s e well =
    let next_node : Proxy = in_turn (s.current_worker_node + 1) s in
    let turned : (if (s.current_worker_node + 1) == s.worker_node_map_size
          then 0
          else s.current_worker_node + 1)
        ≡ s.current_worker_node + 1 =
      rw (ne→==_false (s.current_worker_node + 1) s.worker_node_map_size (omega arith)) refl in
    rw (choose_worker-healthy s (well s.current_worker_node (omega arith)), choose_workers)
      (rw turned (rw (choose_workers-round k next_node (omega arith) well)))
