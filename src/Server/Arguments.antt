-- ===== src/Server/Arguments.antt =====
-- The arguments of main in Server.cpp. `atoi` is that of the C library.
pub mod Usage
use load_balancer_with_wal.Base.{
  ℕ, zero, suc, ◌+◌, ◌-◌, ◌*◌, ◌%◌, ◌==◌, Bool, true, false, not, ◌||◌, Option, none, some, List,
  [], ◌∷◌, ◌++◌, ltb, if◌then◌else◌, length, get_elem?, Result, ok, fault, exited, undefined,
}
use load_balancer_with_wal.Base.Int.{ℤ, pos, minus_one, pos_part, ltb_ℤ}
use load_balancer_with_wal.Arguments.{arg, ◌>>=◌}
use load_balancer_with_wal.RobotFactory.{FactoryRec}

-- What main passes on to the server and to `start`.
pub record ServerArgs : Type 0 where
  pub client_port_addr : ℤ
  pub factory_port_addr : ℤ
  pub factory_id : ℤ
  pub factories : List FactoryRec

abbrev pub no_port : ℤ → Bool
no_port port = ltb_ℤ port (pos 1024) || ltb_ℤ (pos 65535) port

module _ (atoi : List ℕ → ℤ) where
  -- the loop over the factories from round i, for the given rounds
  unfoldable pub read_factories : ℕ → ℕ → List (List ℕ) → Result (List FactoryRec)
  read_factories zero i argv = ok []
  read_factories (suc n) i argv = do
    factory_id ← arg argv (3 * i + 1)
    factory_ip ← arg argv (3 * i + 1 + 1)
    factory_port ← arg argv (3 * i + 1 + 2)
    factories ← read_factories n (i + 1) argv
    ok (
        record {
          factory_id = atoi factory_id;
          factory_ip = factory_ip;
          factory_port = atoi factory_port;
          sock = minus_one;
        }
        ∷ factories)

  -- main up to the start of the server
  unfoldable pub server_args : List (List ℕ) → Result ServerArgs
  server_args argv =
      let argc = length argv in
      if ltb argc 2 || not (argc % 3 == 2) then fault exited else do
        count ← arg argv 3
        factories ← read_factories (pos_part (atoi count)) 1 argv
        client_port ← arg argv (argc - 1)
        if no_port (atoi client_port) then fault exited else do
          factory_port ← arg argv 1
          if no_port (atoi factory_port) then fault exited else do
            factory_id ← arg argv 2
            ok (record {
              client_port_addr = atoi client_port;
              factory_port_addr = atoi factory_port;
              factory_id = atoi factory_id;
              factories = factories;
            })
