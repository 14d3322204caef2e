-- ===== src/RobotFactory.antt =====
-- RobotFactory.h: the structs that the servers and the clients exchange.
pub mod Wire
use load_balancer_with_wal.Base.{ℕ, List}
use load_balancer_with_wal.Base.Int.{ℤ}

pub record OrderInf : Type 0 where
  pub customer_id : ℤ
  pub order_number : ℤ
  pub request_type : ℤ

pub record RobotInf : Type 0 where
  pub customer_id : ℤ
  pub order_number : ℤ
  pub request_type : ℤ
  pub engineer_id : ℤ
  pub admin_id : ℤ

pub record MapOp : Type 0 where
  pub opcode : ℤ
  pub arg1 : ℤ
  pub arg2 : ℤ

pub record CRec : Type 0 where
  pub customer_id : ℤ
  pub last_order : ℤ

-- `socket` of the source is `sock` here.
pub record FactoryRec : Type 0 where
  pub factory_id : ℤ
  pub factory_ip : List ℕ
  pub factory_port : ℤ
  pub sock : ℤ

pub record SmrLcommit : Type 0 where
  pub last_index : ℤ
  pub committed_index : ℤ
  pub primary_id : ℤ
  pub factory_id : ℤ

pub record ReplReq : Type 0 where
  pub factory_id : ℤ
  pub committed_index : ℤ
  pub last_index : ℤ
  pub mapop_record : MapOp

pub record ConnType : Type 0 where
  pub is_customer : ℤ
  pub get_commit_req : ℤ

pub record ReplAck : Type 0 where
  pub is_success : ℤ

-- `length` and `cksum` are unsigned.
pub record WalSmrEntry : Type 0 where
  pub index : ℤ
  pub size : ℕ
  pub payload : MapOp
  pub cksum : ℕ

pub record CommitIn : Type 0 where
  pub committed_index : ℤ
