-- ===== src/Tests/Client.antt =====
-- A client at concrete inputs.
use load_balancer_with_wal.Base.{
  ℕ, ◌+◌, ◌*◌, ◌/◌, ◌-◌, ◌≡◌, refl, ◌∙◌, ap, sym, append-nil, ltb, arith, true, false, some, List,
  [], ◌∷◌, ◌++◌, length,
}
use load_balancer_with_wal.Base.Int.{pos, pos_part, IsInt}
use load_balancer_with_wal.RobotFactory.{OrderInf, RobotInf, CRec}
use load_balancer_with_wal.RobotFactory.Wire.{
  memory, order_words, robot_words, robot_at, c_rec_words, c_rec_at,
}
use load_balancer_with_wal.RobotFactory.Wire.RoundTrip.{IsRobot, robot_at-memory, c_rec_at-memory}
use load_balancer_with_wal.ServerStub.{client_socket_init, send_struct, recv_struct}
use load_balancer_with_wal.Client.{
  headings, record_line, client_init, exchange, client_order, client_read_record, read_request,
  client_thread_body, print_record, finish_run,
}
use load_balancer_with_wal.Client.Timer.{Doubles, ClientTimer, new_timer, count_lap}
use load_balancer_with_wal.Client.Timer.Spread.{
  DoubleLaws, Covers, new_timer-Covers, count_lap-Covers,
}
use load_balancer_with_wal.Client.Orders.{orders_from, Answers, client_thread_body-orders}
use load_balancer_with_wal.Client.Records.{print_record-Reads}
use load_balancer_with_wal.Client.Statistics.{finish_run-Covers}
use load_balancer_with_wal.Tests.World.{World, little, little-ByteLaws}
use load_balancer_with_wal.Tests.Log.{world}

-- whole nanoseconds for durations
abbrev pub whole : Doubles ℕ
whole = record {
  nought = 0;
  nines = 9999999999;
  plus = λ a b. a + b;
  less = ltb;
  between = λ start end. end - start;
  of_int = pos_part;
  over = λ a b. a / b;
  times = λ a b. a * b;
  million = 1000000;
}

pub whole-DoubleLaws : DoubleLaws whole
whole-DoubleLaws = record {
  less_asym = λ a b e. asym a b e;
  less_trans = λ a b c e f. trans a b c e f;
}
  where
    asym : (a b : ℕ) → ltb a b ≡ true → ltb b a ≡ false
    asym a b e = ground arith

    trans : (a b c : ℕ) → ltb a b ≡ false → ltb b c ≡ false → ltb a c ≡ false
    trans a b c e f = ground arith

-- the socket of a server that sends these messages, after some messages to it
abbrev answers : List (List ℕ) → List (List ℕ) → World
answers outbox inbox = record world { inbox = inbox; outbox = outbox }

opens :
    (outbox inbox : List (List ℕ))
    → client_init little [] (pos 80) (answers outbox inbox) ≡ (pos 0, pos 3, answers outbox inbox)
unfolding client_init client_socket_init
opens outbox inbox = refl

abbrev built : ℕ → RobotInf
built k = record {
  customer_id = pos 6;
  order_number = pos k;
  request_type = pos 1;
  engineer_id = pos 3;
  admin_id = pos 0;
}

ordered :
    (o : OrderInf) (robot : RobotInf) (outbox more : List (List ℕ))
    → IsRobot robot
    → client_order little (pos 3) o (answers outbox (memory little (robot_words robot) ∷ more))
      ≡ (some robot, answers (outbox ++ memory little (order_words o) ∷ []) more)
unfolding client_order exchange send_struct recv_struct memory
ordered o robot outbox more h =
    ap (λ r. (some r, answers (outbox ++ memory little (order_words o) ∷ []) more))
      (ap (robot_at little) (sym (append-nil _))
        ∙ robot_at-memory little little-ByteLaws robot [] h)

read :
    (o : OrderInf) (r : CRec) (outbox more : List (List ℕ))
    → IsInt r.customer_id
    → IsInt r.last_order
    → client_read_record little (pos 3) o (answers outbox (memory little (c_rec_words r) ∷ more))
      ≡ (some r, answers (outbox ++ memory little (order_words o) ∷ []) more)
unfolding client_read_record exchange send_struct recv_struct memory
read o r outbox more h g =
    ap (λ c. (some c, answers (outbox ++ memory little (order_words o) ∷ []) more))
      (ap (c_rec_at little) (sym (append-nil _)) ∙ c_rec_at-memory little little-ByteLaws r [] h g)

abbrev robots : List (List ℕ)
robots = memory little (robot_words (built 1)) ∷ memory little (robot_words (built 2)) ∷ []

abbrev order_sent : ℕ → List ℕ
order_sent k =
    memory little
      (order_words (record { customer_id = pos 6; order_number = pos k; request_type = pos 1 }))

abbrev after_two : World
after_two = answers (order_sent 1 ∷ order_sent 2 ∷ []) []

abbrev two_laps : List ℕ
two_laps = 0 ∷ 0 ∷ []

two_answers :
    Answers little whole (pos 3) (orders_from (pos 6) 1 2) two_laps (answers [] robots) after_two
two_answers = (
  built 1,
  answers (order_sent 1 ∷ []) (memory little (robot_words (built 2)) ∷ []),
  0 ∷ [],
  ordered _ (built 1) [] _ (omega arith, omega arith, omega arith, omega arith, omega arith),
  refl,
  (
    built 2,
    after_two,
    [],
    ordered _ (built 2) (order_sent 1 ∷ []) []
        (omega arith, omega arith, omega arith, omega arith, omega arith),
    refl,
    (refl, refl),
  ),
)

client_thread_body-orders_example :
    (t : ClientTimer ℕ) × (client_thread_body little whole
        (pos 6)
        []
        (pos 80)
        (pos 2)
        (pos 1)
        (new_timer whole 0)
        (answers [] robots)
      ≡ (t, after_two))
    × Covers whole two_laps t
    × (length two_laps ≡ 2)
client_thread_body-orders_example =
    client_thread_body-orders little whole whole-DoubleLaws (pos 6) (pos 80) (pos 3) [] 2 two_laps 0
      (answers [] robots) (answers [] robots) after_two (omega arith) (opens [] robots) two_answers

abbrev kept : CRec
kept = record { customer_id = pos 3000; last_order = pos 4 }

abbrev one_record : List (List ℕ)
one_record = memory little (c_rec_words kept) ∷ []

abbrev after_read : World
after_read = answers (memory little (order_words (read_request (pos 3000))) ∷ []) []

print_record-Reads_example :
    print_record little [] (pos 80) (pos 1) (pos 3000) (answers [] one_record)
    ≡ (headings ∷ record_line kept ∷ [], after_read)
print_record-Reads_example =
    print_record-Reads little [] (pos 80) (pos 3) 1 (kept ∷ []) (answers [] one_record)
      (answers [] one_record) after_read (omega arith) (opens [] one_record)
      (kept, after_read, [], read _ kept [] [] (omega arith) (omega arith), refl, (refl, refl))

-- a thread that has counted one lap, and one that has counted none
abbrev pub idle : ClientTimer ℕ
idle = new_timer whole 25

abbrev pub clients : List (List ℕ × ClientTimer ℕ)
clients = (25 ∷ [], count_lap whole idle) ∷ ([], idle) ∷ []

finish_run-Covers_example :
    Covers whole
      (25 ∷ [])
      (finish_run little whole
        (record (new_timer whole 0) { start_time = 7 })
        (count_lap whole idle ∷ idle ∷ [])
        world).0
finish_run-Covers_example = finish_run-Covers little whole whole-DoubleLaws clients 0 7 world (
  count_lap-Covers whole whole-DoubleLaws [] idle (new_timer-Covers whole whole-DoubleLaws 25),
  (new_timer-Covers whole whole-DoubleLaws 25, tt),
)
