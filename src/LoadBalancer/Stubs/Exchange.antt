-- ===== src/LoadBalancer/Stubs/Exchange.antt =====
-- A robot that a server ships is the robot that a client receives.
use load_balancer_with_wal.Base.{
  ℕ, ◌≤◌, ◌<◌, ◌≡◌, ◌∙◌, ap, true, List, ◌++◌, length, length-append, take, drop, take-append,
  drop-append, ok, arith,
}
use load_balancer_with_wal.Platform.{Platform}
use load_balancer_with_wal.Platform.Laws.{ByteLaws}
use load_balancer_with_wal.RobotFactory.Wire.{memory}
use load_balancer_with_wal.RobotFactory.Wire.RoundTrip.{length-memory}
use load_balancer_with_wal.LoadBalancer.Messages.{◌>>=◌}
use load_balancer_with_wal.LoadBalancer.Messages.Words.{SameNetwork}
use load_balancer_with_wal.LoadBalancer.Messages.RobotInfo.{
  RobotInfo, IsRobotInfo, info_size, info_words, no_robot_info, unmarshal_info, marshal_info-words,
  unmarshal_info-words,
}
use load_balancer_with_wal.LoadBalancer.Connect.{Connection}
use load_balancer_with_wal.LoadBalancer.Socket.Whole.{
  StreamLaws, socket_send-whole, socket_recv-whole,
}
use load_balancer_with_wal.LoadBalancer.Stubs.{recv_message, stub_ship_robot}

module _ {W V : Type 0} (p : Platform W) (b : ByteLaws p) (sl : StreamLaws p) (q : Platform V)
    (tl : StreamLaws q) (net : SameNetwork p q) where
  stub_ship_robot-accepted :
      (fuel : ℕ) (c : Connection) (info : RobotInfo) (buffer : List ℕ) (w : W)
      → info_size ≤ length buffer
      → info_size < fuel
      → (w' : W) × (stub_ship_robot p fuel c info buffer w ≡ ok (true, c, w'))
        × (sl.accepted c.fd w' ≡ sl.accepted c.fd w ++ memory p (info_words p info))
  unfolding stub_ship_robot
  stub_ship_robot-accepted fuel c info buffer w room enough =
      let bytes : List ℕ = memory p (info_words p info) in
      let buffer' : List ℕ = bytes ++ drop info_size buffer in
      let size : length bytes ≡ 20 = length-memory p b (info_words p info) in
      let front : take info_size buffer' ≡ bytes =
        take-append bytes (drop info_size buffer) 20 size in
      let (w', e, all) =
        socket_send-whole p sl fuel c buffer' info_size w (rw (front, size) enough) in
      (
        w',
        rw (marshal_info-words p b info buffer room, ◌>>=◌) e,
        all ∙ ap (◌++◌ (sl.accepted c.fd w)) front,
      )

  recv_message-info :
      (fuel : ℕ) (c : Connection) (info : RobotInfo) (buffer rest : List ℕ) (v : V)
      → IsRobotInfo info
      → info_size < fuel
      → tl.pending c.fd v ≡ memory p (info_words p info) ++ rest
      → (v' : V) × (recv_message q (unmarshal_info q) no_robot_info fuel c info_size buffer v
          ≡ ok (info, c, v'))
        × (tl.pending c.fd v' ≡ rest)
  unfolding recv_message
  recv_message-info fuel c info buffer rest v h enough there =
      let bytes : List ℕ = memory p (info_words p info) in
      let size : length bytes ≡ 20 = length-memory p b (info_words p info) in
      let (v', e, left) =
        socket_recv-whole q tl fuel c info_size v enough
          (omega (arith, ap length there, length-append bytes rest, size)) in
      let front : take info_size (tl.pending c.fd v) ≡ bytes =
        ap (take info_size) there ∙ take-append bytes rest 20 size in
      (
        v',
        rw (e, ◌>>=◌)
            (rw front (rw (unmarshal_info-words p b q net info (drop info_size buffer) h, ◌>>=◌))),
        left ∙ ap (drop info_size) there ∙ drop-append bytes rest 20 size,
      )

  -- A server ships a robot, and a client on another host receives over a stream that has brought it
  -- the bytes of that robot: given more fuel than bytes, and where no send or receive of bytes that are
  -- there fails, the server's socket has accepted just those bytes, the client has the same robot, and what is
  -- behind it in the stream is left; the two socket objects stay as they are.
  pub recv_message-ship_robot :
      (fuel : ℕ) (c c' : Connection) (info : RobotInfo) (buffer buffer' rest : List ℕ) (w : W)
      (v : V)
      → IsRobotInfo info
      → info_size ≤ length buffer
      → info_size < fuel
      → tl.pending c'.fd v ≡ memory p (info_words p info) ++ rest
      → (w' : W) × (v' : V) × (stub_ship_robot p fuel c info buffer w ≡ ok (true, c, w'))
        × (sl.accepted c.fd w' ≡ sl.accepted c.fd w ++ memory p (info_words p info))
        × (recv_message q (unmarshal_info q) no_robot_info fuel c' info_size buffer' v
            ≡ ok (info, c', v'))
        × (tl.pending c'.fd v' ≡ rest)
  recv_message-ship_robot fuel c c' info buffer buffer' rest w v h room enough there =
      let (w', e, sent) = stub_ship_robot-accepted fuel c info buffer w room enough in
      let (v', e', left) = recv_message-info fuel c' info buffer' rest v h enough there in
      (w', v', e, sent, e', left)
