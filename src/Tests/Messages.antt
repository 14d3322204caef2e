-- ===== src/Tests/Messages.antt =====
-- Messages between a host with the low byte first and one with the high byte first.
use load_balancer_with_wal.Base.{ℕ, zero, suc, ◌≡◌, arith, List, [], ◌∷◌, length, drop, ok}
use load_balancer_with_wal.Base.Int.{pos, negsuc}
use load_balancer_with_wal.LoadBalancer.Messages.CustomerRequest.{
  CustomerRequest, request_size, marshal_request, unmarshal_request, unmarshal-marshal_request,
}
use load_balancer_with_wal.LoadBalancer.Messages.RobotInfo.{
  RobotInfo, info_size, marshal_info, unmarshal_info, unmarshal-marshal_info,
}
use load_balancer_with_wal.LoadBalancer.Messages.CustomerRecord.{
  CustomerRecord, record_size, marshal_record, unmarshal_record, unmarshal-marshal_record,
}
use load_balancer_with_wal.Tests.World.{little, big, little-ByteLaws, little-big-SameNetwork}

abbrev zeros : ℕ → List ℕ
zeros zero = []
zeros (suc n) = 0 ∷ zeros n

abbrev request : CustomerRequest
request = record { customer_id = pos 5; order_number = pos 300; request_type = negsuc 0 }

abbrev info : RobotInfo
info = record {
  customer_id = pos 5;
  order_number = pos 300;
  request_type = pos 1;
  engineer_id = pos 2;
  admin_id = negsuc 0;
}

abbrev found : CustomerRecord
found = record { customer_id = pos 5; last_order = pos 300 }

unmarshal-marshal_request_example :
    (buffer' : List ℕ) × (marshal_request little request (zeros 32) ≡ ok buffer')
    × (length buffer' ≡ 32)
    × (drop request_size buffer' ≡ zeros 20)
    × (unmarshal_request big buffer' ≡ ok request)
unmarshal-marshal_request_example =
    unmarshal-marshal_request little little-ByteLaws big little-big-SameNetwork request (zeros 32)
      (omega arith, omega arith, omega arith) (omega arith)

unmarshal-marshal_info_example :
    (buffer' : List ℕ) × (marshal_info little info (zeros 32) ≡ ok buffer')
    × (length buffer' ≡ 32)
    × (drop info_size buffer' ≡ zeros 12)
    × (unmarshal_info big buffer' ≡ ok info)
unmarshal-marshal_info_example =
    unmarshal-marshal_info little little-ByteLaws big little-big-SameNetwork info (zeros 32)
      (omega arith, omega arith, omega arith, omega arith, omega arith) (omega arith)

unmarshal-marshal_record_example :
    (buffer' : List ℕ) × (marshal_record little found (zeros 8) ≡ ok buffer')
    × (length buffer' ≡ 8)
    × (drop record_size buffer' ≡ [])
    × (unmarshal_record big buffer' ≡ ok found)
unmarshal-marshal_record_example =
    unmarshal-marshal_record little little-ByteLaws big little-big-SameNetwork found (zeros 8)
      (omega arith, omega arith) (omega arith)
