-- ===== src/Tests/Run.antt =====
-- The client program at a concrete command line, with two customers.
use load_balancer_with_wal.Base.{ℕ, ◌≡◌, refl, inl, arith, some, List, [], ◌∷◌, ok}
use load_balancer_with_wal.Base.Int.{ℤ}
use load_balancer_with_wal.Client.{Client}
use load_balancer_with_wal.Client.Timer.{ClientTimer, Stats, count_lap}
use load_balancer_with_wal.Client.Timer.Spread.{new_timer-Covers, count_lap-Covers}
use load_balancer_with_wal.Client.Run.{Reports, client_main, client_main-Reports}
use load_balancer_with_wal.Tests.Arguments.{text, atoi}
use load_balancer_with_wal.Tests.Client.{whole, whole-DoubleLaws, idle, clients}
use load_balancer_with_wal.Tests.Log.{world}
use load_balancer_with_wal.Tests.World.{World, little}

-- one thread counts one time, and the other none
abbrev joins : Client → List ℤ → World → List (ClientTimer ℕ) × World
joins client ids w = (count_lap whole idle ∷ idle ∷ [], w)

client_main-Reports_example :
    (stats : Stats ℕ) × (client_main little whole atoi joins 0
        (text 0 ∷ text 127 ∷ text 80 ∷ text 2 ∷ text 5 ∷ text 1 ∷ [])
        world
      ≡ ok ([], some stats, world))
    × Reports little whole whole-DoubleLaws (25 ∷ []) 0 stats
client_main-Reports_example =
    client_main-Reports little whole whole-DoubleLaws atoi joins 0 (text 0) (text 127) (text 80)
      (text 2) (text 5) (text 1) 2 1 clients world world refl (omega arith) refl (inl refl) refl
      (
        count_lap-Covers whole whole-DoubleLaws [] idle
            (new_timer-Covers whole whole-DoubleLaws 25),
        (new_timer-Covers whole whole-DoubleLaws 25, tt),
      )
