-- ===== src/Tests/Pieces.antt =====
-- Sockets that take and give three bytes at a time.
use load_balancer_with_wal.Base.{
  ℕ, zero, suc, ◌-◌, ◌≤◌, ◌<◌, ◌≡◌, refl, ap, true, some, List, [], ◌∷◌, ◌++◌, leb, if◌then◌else◌,
  length, take, take-of_le, drop, ok, arith,
}
use load_balancer_with_wal.Base.Int.{pos}
use load_balancer_with_wal.Platform.{Platform}
use load_balancer_with_wal.LoadBalancer.Connect.{Connection, with_nagle}
use load_balancer_with_wal.LoadBalancer.Socket.{socket_send, socket_recv}
use load_balancer_with_wal.LoadBalancer.Socket.Whole.{
  StreamLaws, socket_send-whole, socket_recv-whole,
}
use load_balancer_with_wal.LoadBalancer.Messages.Words.{SameNetwork}
use load_balancer_with_wal.LoadBalancer.Messages.RobotInfo.{
  RobotInfo, info_words, no_robot_info, unmarshal_info,
}
use load_balancer_with_wal.LoadBalancer.Stubs.{recv_message, stub_ship_robot}
use load_balancer_with_wal.LoadBalancer.Stubs.Exchange.{recv_message-ship_robot}
use load_balancer_with_wal.Platform.Laws.{ByteLaws}
use load_balancer_with_wal.RobotFactory.Wire.{memory}
use load_balancer_with_wal.Tests.World.{World, little, big, little-ByteLaws, little-big-SameNetwork}
use load_balancer_with_wal.Tests.Log.{world}

abbrev pub at_most_three : ℕ → ℕ
at_most_three n = if leb 3 n then 3 else n

pub at_most_three-le : (n : ℕ) → at_most_three n ≤ n
at_most_three-le n = ground arith

pub at_most_three-pos : (n : ℕ) → 0 < n → 0 < at_most_three n
at_most_three-pos n h = ground arith

abbrev pub pieces_of : Platform World → Platform World
pieces_of p = record p {
  send = λ fd bs w. (
    pos (at_most_three (length bs)),
    record w { stream = w.stream ++ take (at_most_three (length bs)) bs },
  );
  recv = λ fd size w.
      let n = at_most_three (if leb size (length w.reading) then size else length w.reading) in
      (pos n, take n w.reading, record w { reading = drop n w.reading });
}

pub length-take-at_most : (n : ℕ) (xs : List ℕ) → length (take n xs) ≤ n
length-take-at_most zero xs = omega arith
length-take-at_most (suc n) [] = omega arith
length-take-at_most (suc n) (x ∷ xs) = omega (arith, length-take-at_most n xs)

-- the pieces of a receive
pub piece :
    (a b : ℕ)
    → 0 < a
    → 0 < b
    → (n : ℕ) × (at_most_three (if leb a b then a else b) ≡ suc n) × (n < a) × (n < b)
piece a b ha hb =
    let n = at_most_three (if leb a b then a else b) in
    (n - 1, ground arith, ground arith, ground arith)

abbrev pub pieces : Platform World
pieces = pieces_of little

abbrev pub pieces_of-StreamLaws : (p : Platform World) → StreamLaws (pieces_of p)
pieces_of-StreamLaws p = record {
  accepted = λ fd w. w.stream;
  pending = λ fd w. w.reading;
  send_some = λ fd bs w some_left. (
    at_most_three (length bs),
    record w { stream = w.stream ++ take (at_most_three (length bs)) bs },
    refl,
    at_most_three-pos (length bs) some_left,
    at_most_three-le (length bs),
    refl,
  );
  recv_some = λ fd size w some_asked some_there.
      let (n, e, fits, there) = piece size (length w.reading) some_asked some_there in
      (
        n,
        take (suc n) w.reading,
        record w { reading = drop (suc n) w.reading },
        ap (λ k. (pos k, take k w.reading, record w { reading = drop k w.reading })) e,
        fits,
        there,
        take-of_le (suc n) (take (suc n) w.reading) (length-take-at_most (suc n) w.reading),
        refl,
      );
}

abbrev pub pieces-StreamLaws : StreamLaws pieces
pieces-StreamLaws = pieces_of-StreamLaws little

-- the socket of this descriptor
abbrev on : ℕ → Connection
on n = record { fd = pos n; is_initialized = true; nagle = with_nagle }

abbrev incoming : World
incoming = record world { reading = 1 ∷ 2 ∷ 3 ∷ 4 ∷ 5 ∷ 6 ∷ 7 ∷ 8 ∷ [] }

abbrev message : List ℕ
message = 9 ∷ 8 ∷ 7 ∷ 6 ∷ 5 ∷ 0 ∷ 0 ∷ []

socket_send-whole_example :
    (w' : World) × (socket_send pieces 6 (on 4) message 5 world ≡ ok (true, on 4, w'))
    × (w'.stream ≡ 9 ∷ 8 ∷ 7 ∷ 6 ∷ 5 ∷ [])
socket_send-whole_example =
    socket_send-whole pieces pieces-StreamLaws 6 (on 4) message 5 world (omega arith)

socket_recv-whole_example :
    (w' : World) × (socket_recv pieces 6 (on 4) 5 incoming
      ≡ ok (some (1 ∷ 2 ∷ 3 ∷ 4 ∷ 5 ∷ []), on 4, w'))
    × (w'.reading ≡ 6 ∷ 7 ∷ 8 ∷ [])
socket_recv-whole_example =
    socket_recv-whole pieces pieces-StreamLaws 6 (on 4) 5 incoming (omega arith) (omega arith)

-- a client on a host with the high byte first
abbrev far : Platform World
far = pieces_of big

pieces-ByteLaws : ByteLaws pieces
pieces-ByteLaws = record {
  length_bytes = little-ByteLaws.length_bytes;
  word_bytes = little-ByteLaws.word_bytes;
}

pieces-far-SameNetwork : SameNetwork pieces far
pieces-far-SameNetwork = record { ntohl_htonl = little-big-SameNetwork.ntohl_htonl }

abbrev info : RobotInfo
info = record {
  customer_id = pos 5;
  order_number = pos 300;
  request_type = pos 1;
  engineer_id = pos 2;
  admin_id = pos 101;
}

abbrev zeros : ℕ → List ℕ
zeros zero = []
zeros (suc n) = 0 ∷ zeros n

abbrev shipped : World
shipped = record world { reading = memory pieces (info_words pieces info) ++ 7 ∷ [] }

recv_message-ship_robot_example :
    (w' v' : World) × (stub_ship_robot pieces 21 (on 4) info (zeros 32) world ≡ ok (true, on 4, w'))
    × (w'.stream ≡ memory pieces (info_words pieces info))
    × (recv_message far (unmarshal_info far) no_robot_info 21 (on 5) 20 (zeros 32) shipped
        ≡ ok (info, on 5, v'))
    × (v'.reading ≡ 7 ∷ [])
recv_message-ship_robot_example =
    recv_message-ship_robot pieces pieces-ByteLaws pieces-StreamLaws far (pieces_of-StreamLaws big)
      pieces-far-SameNetwork 21 (on 4) (on 5) info (zeros 32) (zeros 32) (7 ∷ []) world shipped
      (omega arith, omega arith, omega arith, omega arith, omega arith) (omega arith) (omega arith)
      refl
