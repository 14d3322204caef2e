-- ===== src/Tests/Listen.antt =====
-- The load balancer accepts two customers, and then accept fails.
use load_balancer_with_wal.Base.{ℕ, ◌≡◌, refl, true, List, [], ◌∷◌, ok, arith}
use load_balancer_with_wal.Base.Int.{ℤ, pos, minus_one}
use load_balancer_with_wal.Platform.{Platform}
use load_balancer_with_wal.LoadBalancer.Arguments.{balancer_args}
use load_balancer_with_wal.LoadBalancer.Arguments.Usage.{balancer, balancer_args-usage}
use load_balancer_with_wal.LoadBalancer.Connect.{Connection, with_nagle, new_connection}
use load_balancer_with_wal.LoadBalancer.Listen.{listen_init}
use load_balancer_with_wal.LoadBalancer.Listen.Accepting.{Serves, balancer_main-Serves}
use load_balancer_with_wal.Tests.Arguments.{text, atoi, nodes}
use load_balancer_with_wal.Tests.Log.{world}
use load_balancer_with_wal.Tests.World.{World, little}

-- a customer for each message of the script
abbrev accept_scripted : World → ℤ × World
accept_scripted w = elim w.inbox [
  | [] ↦ (minus_one, w)
  | _ ∷ more ↦ (pos 5, record w { inbox = more })
]

abbrev visited : Platform World
visited = record little { accept = λ sock w. accept_scripted w }

abbrev two_customers : World
two_customers = record world { inbox = [] ∷ [] ∷ [] }

abbrev argv : List (List ℕ)
argv =
    text 0 ∷ text 7000 ∷ text 2 ∷ text 0 ∷ text 127 ∷ text 8001 ∷ text 1 ∷ text 128 ∷ text 8002 ∷ []

called : balancer_args atoi argv ≡ ok (pos 7000, balancer atoi text nodes)
called =
    (balancer_args-usage atoi text (text 0) (text 7000) (text 2) (text 128) (text 8002) nodes 1
      (λ k h. refl) refl refl).0

abbrev listening_socket : Connection
listening_socket = record { fd = pos 3; is_initialized = true; nagle = with_nagle }

listens :
    listen_init visited (pos 7000) (new_connection visited two_customers) two_customers
    ≡ (true, listening_socket, two_customers)
unfolding listen_init
listens = refl

balancer_main-Serves_example :
    Serves visited atoi argv
      (balancer atoi text nodes)
      listening_socket
      (pos 5 ∷ pos 5 ∷ [])
      two_customers
      (record world { inbox = [] })
balancer_main-Serves_example =
    balancer_main-Serves visited atoi argv (pos 7000) (balancer atoi text nodes) listening_socket
      (pos 5 ∷ pos 5 ∷ []) two_customers two_customers (record world { inbox = [] }) called listens
      (omega arith) (refl, refl, (refl, refl, refl)) refl
