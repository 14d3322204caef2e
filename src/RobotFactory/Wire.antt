-- ===== src/RobotFactory/Wire.antt =====
-- The structs as bytes: `memcpy` of a struct to a buffer and back. All fields are words of four
-- bytes, so there is no padding.
pub mod RoundTrip
use load_balancer_with_wal.Base.{ℕ, zero, suc, ◌*◌, List, [], ◌∷◌, ◌++◌, take, drop}
use load_balancer_with_wal.Base.Int.{ℤ, to_word, of_word}
use load_balancer_with_wal.Platform.{Platform}
use load_balancer_with_wal.RobotFactory.{
  OrderInf, RobotInf, MapOp, CRec, ReplReq, ConnType, ReplAck, WalSmrEntry, CommitIn,
}

abbrev pub order_words : OrderInf → List ℕ
order_words o = to_word o.customer_id ∷ to_word o.order_number ∷ to_word o.request_type ∷ []

abbrev pub robot_words : RobotInf → List ℕ
robot_words r =
    to_word r.customer_id
    ∷ to_word r.order_number
    ∷ to_word r.request_type
    ∷ to_word r.engineer_id
    ∷ to_word r.admin_id
    ∷ []

abbrev pub map_op_words : MapOp → List ℕ
map_op_words o = to_word o.opcode ∷ to_word o.arg1 ∷ to_word o.arg2 ∷ []

abbrev pub c_rec_words : CRec → List ℕ
c_rec_words r = to_word r.customer_id ∷ to_word r.last_order ∷ []

abbrev pub repl_req_words : ReplReq → List ℕ
repl_req_words r =
    to_word r.factory_id
    ∷ to_word r.committed_index
    ∷ to_word r.last_index
    ∷ map_op_words r.mapop_record

abbrev pub conn_type_words : ConnType → List ℕ
conn_type_words c = to_word c.is_customer ∷ to_word c.get_commit_req ∷ []

abbrev pub repl_ack_words : ReplAck → List ℕ
repl_ack_words a = to_word a.is_success ∷ []

abbrev pub wal_words : WalSmrEntry → List ℕ
wal_words e =
    to_word e.index
    ∷ e.size
    ∷ to_word e.payload.opcode
    ∷ to_word e.payload.arg1
    ∷ to_word e.payload.arg2
    ∷ e.cksum
    ∷ []

abbrev pub commit_in_words : CommitIn → List ℕ
commit_in_words c = to_word c.committed_index ∷ []

module _ {W : Type 0} (p : Platform W) where
  unfoldable pub memory : List ℕ → List ℕ
  memory [] = []
  memory (w ∷ ws) = p.bytes w ++ memory ws

  unfoldable pub skip_words : ℕ → List ℕ → List ℕ
  skip_words zero buf = buf
  skip_words (suc k) buf = skip_words k (drop 4 buf)

  -- the k-th word of a buffer
  unfoldable pub word_at : ℕ → List ℕ → ℕ
  word_at k buf = p.word (take 4 (skip_words k buf))

  unfoldable pub int_at : ℕ → List ℕ → ℤ
  int_at k buf = of_word (word_at k buf)

  pub order_at : List ℕ → OrderInf
  order_at buf = record {
    customer_id = int_at 0 buf;
    order_number = int_at 1 buf;
    request_type = int_at 2 buf;
  }

  pub robot_at : List ℕ → RobotInf
  robot_at buf = record {
    customer_id = int_at 0 buf;
    order_number = int_at 1 buf;
    request_type = int_at 2 buf;
    engineer_id = int_at 3 buf;
    admin_id = int_at 4 buf;
  }

  pub map_op_at : List ℕ → MapOp
  map_op_at buf = record { opcode = int_at 0 buf; arg1 = int_at 1 buf; arg2 = int_at 2 buf }

  pub c_rec_at : List ℕ → CRec
  c_rec_at buf = record { customer_id = int_at 0 buf; last_order = int_at 1 buf }

  pub repl_req_at : List ℕ → ReplReq
  repl_req_at buf = record {
    factory_id = int_at 0 buf;
    committed_index = int_at 1 buf;
    last_index = int_at 2 buf;
    mapop_record = record { opcode = int_at 3 buf; arg1 = int_at 4 buf; arg2 = int_at 5 buf };
  }

  pub conn_type_at : List ℕ → ConnType
  conn_type_at buf = record { is_customer = int_at 0 buf; get_commit_req = int_at 1 buf }

  pub repl_ack_at : List ℕ → ReplAck
  repl_ack_at buf = record { is_success = int_at 0 buf }

  pub wal_at : List ℕ → WalSmrEntry
  wal_at buf = record {
    index = int_at 0 buf;
    size = word_at 1 buf;
    payload = record { opcode = int_at 2 buf; arg1 = int_at 3 buf; arg2 = int_at 4 buf };
    cksum = word_at 5 buf;
  }

  pub commit_in_at : List ℕ → CommitIn
  commit_in_at buf = record { committed_index = int_at 0 buf }
