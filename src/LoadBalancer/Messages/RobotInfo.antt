-- ===== src/LoadBalancer/Messages/RobotInfo.antt =====
-- The class RobotInfo of load_balancer/Messages.cpp.
use load_balancer_with_wal.Base.{
  ℕ, Bool, not, ◌≤◌, ◌≡◌, refl, List, [], ◌∷◌, ◌++◌, length, length-append, length-drop, drop,
  drop-append, Result, ok, arith,
}
use load_balancer_with_wal.Base.Int.{ℤ, minus_one, eq_ℤ, IsInt}
use load_balancer_with_wal.Platform.{Platform}
use load_balancer_with_wal.Platform.Laws.{ByteLaws}
use load_balancer_with_wal.RobotFactory.Wire.{memory}
use load_balancer_with_wal.RobotFactory.Wire.RoundTrip.{length-memory}
use load_balancer_with_wal.LoadBalancer.Messages.{◌>>=◌, copy_words, read_word, to_net, of_net}
use load_balancer_with_wal.LoadBalancer.Messages.Words.{SameNetwork, copy_words-append, read_field}
use load_balancer_with_wal.LoadBalancer.Messages.CustomerRequest.{CustomerRequest}

pub record RobotInfo : Type 0 where
  pub customer_id : ℤ
  pub order_number : ℤ
  pub request_type : ℤ
  pub engineer_id : ℤ
  pub admin_id : ℤ

-- RobotInfo::RobotInfo
abbrev pub no_robot_info : RobotInfo
no_robot_info = record {
  customer_id = minus_one;
  order_number = minus_one;
  request_type = minus_one;
  engineer_id = minus_one;
  admin_id = minus_one;
}

-- RobotInfo::SetInfo
abbrev pub set_info : ℤ → ℤ → ℤ → ℤ → ℤ → RobotInfo
set_info id number type engid expid = record {
  customer_id = id;
  order_number = number;
  request_type = type;
  engineer_id = engid;
  admin_id = expid;
}

-- RobotInfo::CopyOrder
abbrev pub copy_order : CustomerRequest → RobotInfo → RobotInfo
copy_order order r = record r {
  customer_id = order.customer_id;
  order_number = order.order_number;
  request_type = order.request_type;
}

-- RobotInfo::SetEngineerId and RobotInfo::SetExpertId
abbrev pub set_engineer_id : ℤ → RobotInfo → RobotInfo
set_engineer_id id r = record r { engineer_id = id }

abbrev pub set_expert_id : ℤ → RobotInfo → RobotInfo
set_expert_id id r = record r { admin_id = id }

-- RobotInfo::IsValid
abbrev pub is_valid_info : RobotInfo → Bool
is_valid_info r = not (eq_ℤ r.customer_id minus_one)

-- RobotInfo::Size
abbrev pub info_size : ℕ
info_size = 20

-- the fields in network order, as Marshal copies them
abbrev pub info_words : {W : Type 0} → Platform W → RobotInfo → List ℕ
info_words p r =
    to_net p r.customer_id
    ∷ to_net p r.order_number
    ∷ to_net p r.request_type
    ∷ to_net p r.engineer_id
    ∷ to_net p r.admin_id
    ∷ []

-- RobotInfo::Marshal
unfoldable pub marshal_info : {W : Type 0} → Platform W → RobotInfo → List ℕ → Result (List ℕ)
unfolding copy_words
marshal_info p r buffer = copy_words p 0 (info_words p r) buffer

-- RobotInfo::Unmarshal
unfoldable pub unmarshal_info : {W : Type 0} → Platform W → List ℕ → Result RobotInfo
unfolding read_word
unmarshal_info p buffer = do
  net_customer_id ← read_word p 0 buffer
  net_order_number ← read_word p 4 buffer
  net_request_type ← read_word p 8 buffer
  net_engineer_id ← read_word p 12 buffer
  net_admin_id ← read_word p 16 buffer
  ok (record {
    customer_id = of_net p net_customer_id;
    order_number = of_net p net_order_number;
    request_type = of_net p net_request_type;
    engineer_id = of_net p net_engineer_id;
    admin_id = of_net p net_admin_id;
  })

abbrev pub IsRobotInfo : RobotInfo → Type 0
IsRobotInfo r =
    IsInt r.customer_id
    × IsInt r.order_number
    × IsInt r.request_type
    × IsInt r.engineer_id
    × IsInt r.admin_id

pub marshal_info-words :
    {W : Type 0} (p : Platform W) (b : ByteLaws p) (r : RobotInfo) (buffer : List ℕ)
    → info_size ≤ length buffer
    → marshal_info p r buffer ≡ ok (memory p (info_words p r) ++ drop info_size buffer)
unfolding marshal_info
marshal_info-words p b r buffer room = copy_words-append p b (info_words p r) [] buffer 0 refl room

module _ {W V : Type 0} (p : Platform W) (b : ByteLaws p) (q : Platform V)
    (net : SameNetwork p q) where
  pub unmarshal_info-words :
      (r : RobotInfo) (rest : List ℕ)
      → IsRobotInfo r
      → unmarshal_info q (memory p (info_words p r) ++ rest) ≡ ok r
  unfolding unmarshal_info
  unmarshal_info-words r rest h =
      let ws = info_words p r in
      let (_, read0, same0) = read_field p b q net 0 ws rest r.customer_id refl h.0 in
      let (_, read1, same1) = read_field p b q net 1 ws rest r.order_number refl h.1 in
      let (_, read2, same2) = read_field p b q net 2 ws rest r.request_type refl h.2 in
      let (_, read3, same3) = read_field p b q net 3 ws rest r.engineer_id refl h.3 in
      let (_, read4, same4) = read_field p b q net 4 ws rest r.admin_id refl h.4 in
      rw (read0, ◌>>=◌)
        (rw (read1, ◌>>=◌)
          (rw (read2, ◌>>=◌)
            (rw (read3, ◌>>=◌) (rw (read4, ◌>>=◌) (rw (same0, same1, same2, same3, same4))))))

  -- A robot info whose fields are `int`s is marshalled into any buffer of at least its size: the buffer
  -- keeps its length and what is behind the message, and another host unmarshals the same message.
  pub unmarshal-marshal_info :
      (r : RobotInfo) (buffer : List ℕ)
      → IsRobotInfo r
      → info_size ≤ length buffer
      → (buffer' : List ℕ) × (marshal_info p r buffer ≡ ok buffer')
        × (length buffer' ≡ length buffer)
        × (drop info_size buffer' ≡ drop info_size buffer)
        × (unmarshal_info q buffer' ≡ ok r)
  unmarshal-marshal_info r buffer h room =
      let bytes : List ℕ = memory p (info_words p r) in
      let rest = drop info_size buffer in
      let front : length bytes ≡ 20 = length-memory p b (info_words p r) in
      (
        bytes ++ rest,
        marshal_info-words p b r buffer room,
        omega (arith, length-append bytes rest, length-drop 20 buffer, front),
        drop-append bytes rest 20 front,
        unmarshal_info-words r rest h,
      )
