-- ===== src/Server/Arguments/Usage.antt =====
-- What main makes of well-formed arguments, and of too few.
use load_balancer_with_wal.Base.{
  ℕ, suc, ◌+◌, ◌*◌, ◌%◌, ◌≡◌, refl, ◌∙◌, sym, ap, false, List, [], ◌∷◌, ◌++◌, append_assoc, length,
  ltb, ◌==◌, not, ◌||◌, ◌-◌, ok, arith,
}
use load_balancer_with_wal.Base.Int.{ℤ, pos, minus_one, pos_part}
use load_balancer_with_wal.Arguments.{arg, arg-at, longer}
use load_balancer_with_wal.RobotFactory.{FactoryRec}
use load_balancer_with_wal.Server.Arguments.{arg, no_port, read_factories, server_args}

module _ (atoi : List ℕ → ℤ) where
  -- a factory on the command line: its id, ip address and port
  abbrev pub triple : List ℕ × List ℕ × List ℕ → List (List ℕ)
  triple (id, ip, port) = id ∷ ip ∷ port ∷ []

  abbrev pub triples : List (List ℕ × List ℕ × List ℕ) → List (List ℕ)
  triples [] = []
  triples (f ∷ fs) = triple f ++ triples fs

  abbrev pub factories_of : List (List ℕ × List ℕ × List ℕ) → List FactoryRec
  factories_of [] = []
  factories_of ((id, ip, port) ∷ fs) =
      record { factory_id = atoi id; factory_ip = ip; factory_port = atoi port; sock = minus_one }
      ∷ factories_of fs

  read_factories-triples :
      (fs : List (List ℕ × List ℕ × List ℕ)) (pre post : List (List ℕ)) (i : ℕ)
      → length pre ≡ 3 * i + 1
      → read_factories atoi (length fs) i (pre ++ (triples fs ++ post)) ≡ ok (factories_of fs)
  unfolding read_factories
  read_factories-triples [] pre post i e = refl
  read_factories-triples ((id, ip, port) ∷ fs) pre post i e =
      let rest : List (List ℕ) = triples fs ++ post in
      let first = arg-at pre (ip ∷ port ∷ rest) id (3 * i + 1) refl e in
      let second =
        arg-at (pre ++ id ∷ []) (port ∷ rest) ip (3 * i + 1 + 1)
          (sym (append_assoc pre (id ∷ []) (ip ∷ port ∷ rest)))
          (longer pre (id ∷ []) (3 * i + 1) 1 e refl) in
      let third =
        arg-at (pre ++ id ∷ ip ∷ []) rest port (3 * i + 1 + 2)
          (sym (append_assoc pre (id ∷ ip ∷ []) (port ∷ rest)))
          (longer pre (id ∷ ip ∷ []) (3 * i + 1) 2 e refl) in
      let others : read_factories atoi (length fs) (i + 1) (pre ++ (id ∷ ip ∷ port ∷ rest))
          ≡ ok (factories_of fs) =
        ap (read_factories atoi (length fs) (i + 1))
          (sym (append_assoc pre (triple (id, ip, port)) rest))
        ∙ read_factories-triples fs (pre ++ triple (id, ip, port)) post (i + 1)
            (longer pre (triple (id, ip, port)) (3 * i + 1) 3 e refl ∙ omega arith) in
      rw (first, second, third, others) refl

  length-triples : (fs : List (List ℕ × List ℕ × List ℕ)) → length (triples fs) ≡ 3 * length fs
  length-triples [] = refl
  length-triples ((id, ip, port) ∷ fs) = omega (arith, length-triples fs)

  -- Called as meant, with the port and the id of the factory, the number of the others, the id, address
  -- and port of each of them, and the port for the customers, and with both ports from 1024 to 65535,
  -- main starts the server with these values and with the other factories in order, none connected.
  pub server_args-usage :
      (program factory_port id count client_port : List ℕ) (fs : List (List ℕ × List ℕ × List ℕ))
      → atoi count ≡ pos (length fs)
      → no_port (atoi client_port) ≡ false
      → no_port (atoi factory_port) ≡ false
      → server_args atoi (program ∷ factory_port ∷ id ∷ count ∷ (triples fs ++ client_port ∷ []))
        ≡ ok (record {
          client_port_addr = atoi client_port;
          factory_port_addr = atoi factory_port;
          factory_id = atoi id;
          factories = factories_of fs;
        })
  unfolding server_args
  server_args-usage program factory_port id count client_port fs counted client_ok factory_ok =
      let front : List (List ℕ) = program ∷ factory_port ∷ id ∷ count ∷ [] in
      let total : length (triples fs ++ client_port ∷ []) ≡ 3 * length fs + 1 =
        longer (triples fs) (client_port ∷ []) (3 * length fs) 1 (length-triples fs) refl in
      let argv : List (List ℕ) = front ++ (triples fs ++ client_port ∷ []) in
      let read : read_factories atoi (pos_part (atoi count)) 1 argv ≡ ok (factories_of fs) =
        ap (λ n. read_factories atoi (pos_part n) 1 argv) counted
        ∙ read_factories-triples fs front (client_port ∷ []) 1 refl in
      let last : arg argv (length argv - 1) ≡ ok client_port =
        arg-at (front ++ triples fs) [] client_port (length argv - 1)
          (sym (append_assoc front (triples fs) (client_port ∷ [])))
          (omega (arith, total, length-triples fs)) in
      rw (well_formed (length (triples fs ++ client_port ∷ [])) (length fs) total, server_args)
        (rw read (rw last (rw client_ok (rw factory_ok refl))))
    where
      well_formed :
          (m n : ℕ)
          → m ≡ 3 * n + 1
          → (ltb (suc (suc (suc (suc m)))) 2 || not (suc (suc (suc (suc m))) % 3 == 2)) ≡ false
      well_formed m n e = ground arith
