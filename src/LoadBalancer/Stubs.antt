-- ===== src/LoadBalancer/Stubs.antt =====
-- load_balancer/ClientStub.cpp and ServerStub.cpp: the exchanges of marshalled messages. The argument
-- `buffer` is the buffer on the stack before it is written, and a socket is the object with its fields.
pub mod Exchange
use load_balancer_with_wal.Base.{
  ℕ, Bool, true, false, Option, none, some, List, ◌++◌, if◌then◌else◌, drop, Result, ok, fault,
}
use load_balancer_with_wal.Platform.{Platform}
use load_balancer_with_wal.LoadBalancer.Messages.{◌>>=◌}
use load_balancer_with_wal.LoadBalancer.Messages.CustomerRequest.{
  CustomerRequest, request_size, no_customer_request, marshal_request, unmarshal_request,
}
use load_balancer_with_wal.LoadBalancer.Messages.RobotInfo.{
  RobotInfo, info_size, no_robot_info, marshal_info, unmarshal_info,
}
use load_balancer_with_wal.LoadBalancer.Messages.CustomerRecord.{
  CustomerRecord, record_size, no_customer_record, marshal_record, unmarshal_record,
}
use load_balancer_with_wal.LoadBalancer.Connect.{Connection}
use load_balancer_with_wal.LoadBalancer.Socket.{socket_send, socket_recv}

module _ {W : Type 0} (p : Platform W) where
  -- a message received into the front of a buffer and unmarshalled, or the one that was there
  unfoldable pub recv_message :
      {M : Type 0}
      → (List ℕ → Result M)
      → M
      → ℕ
      → Connection
      → ℕ
      → List ℕ
      → W
      → Result (M × Connection × W)
  recv_message unmarshal unset fuel c size buffer w = do
    (got, c', w') ← socket_recv p fuel c size w
    elim got [
      | none ↦ ok (unset, c', w')
      | some received ↦ do message ← unmarshal (received ++ drop size buffer); ok (message, c', w')
    ]

  -- ClientStub::Order
  unfoldable pub stub_order :
      ℕ → Connection → CustomerRequest → List ℕ → W → Result (RobotInfo × Connection × W)
  stub_order fuel c request buffer w = do
    buffer' ← marshal_request p request buffer
    (sent, c', w') ← socket_send p fuel c buffer' request_size w
    elim sent [
      | true ↦ recv_message (unmarshal_info p) no_robot_info fuel c' info_size buffer' w'
      | false ↦ ok (no_robot_info, c', w')
    ]

  -- ClientStub::ReadRecord
  unfoldable pub stub_read_record :
      ℕ → Connection → CustomerRequest → List ℕ → W → Result (CustomerRecord × Connection × W)
  stub_read_record fuel c request buffer w = do
    buffer' ← marshal_request p request buffer
    (sent, c', w') ← socket_send p fuel c buffer' request_size w
    elim sent [
      | true ↦ recv_message (unmarshal_record p) no_customer_record fuel c' record_size buffer' w'
      | false ↦ ok (no_customer_record, c', w')
    ]

  -- ServerStub::ReceiveRequest
  unfoldable pub stub_receive_request :
      ℕ → Connection → List ℕ → W → Result (CustomerRequest × Connection × W)
  stub_receive_request fuel c buffer w =
      recv_message (unmarshal_request p) no_customer_request fuel c request_size buffer w

  -- ServerStub::ShipRobot
  unfoldable pub stub_ship_robot :
      ℕ → Connection → RobotInfo → List ℕ → W → Result (Bool × Connection × W)
  stub_ship_robot fuel c info buffer w = do
    buffer' ← marshal_info p info buffer
    socket_send p fuel c buffer' info_size w

  -- ServerStub::ReturnRecord
  unfoldable pub stub_return_record :
      ℕ → Connection → CustomerRecord → List ℕ → W → Result (Bool × Connection × W)
  stub_return_record fuel c cr buffer w = do
    buffer' ← marshal_record p cr buffer
    socket_send p fuel c buffer' record_size w
