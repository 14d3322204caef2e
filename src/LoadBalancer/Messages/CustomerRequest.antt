-- ===== src/LoadBalancer/Messages/CustomerRequest.antt =====
-- The class CustomerRequest of load_balancer/Messages.cpp.
use load_balancer_with_wal.Base.{
  ℕ, Bool, not, ◌≤◌, ◌≡◌, refl, List, [], ◌∷◌, ◌++◌, length, length-append, length-drop, drop,
  drop-append, Result, ok, arith,
}
use load_balancer_with_wal.Base.Int.{ℤ, minus_one, eq_ℤ, IsInt}
use load_balancer_with_wal.Platform.{Platform}
use load_balancer_with_wal.Platform.Laws.{ByteLaws}
use load_balancer_with_wal.RobotFactory.Wire.{memory}
use load_balancer_with_wal.RobotFactory.Wire.RoundTrip.{length-memory}
use load_balancer_with_wal.LoadBalancer.Messages.{◌>>=◌, copy_words, read_word, to_net, of_net}
use load_balancer_with_wal.LoadBalancer.Messages.Words.{SameNetwork, copy_words-append, read_field}

pub record CustomerRequest : Type 0 where
  pub customer_id : ℤ
  pub order_number : ℤ
  pub request_type : ℤ

-- CustomerRequest::CustomerRequest
abbrev pub no_customer_request : CustomerRequest
no_customer_request = record {
  customer_id = minus_one;
  order_number = minus_one;
  request_type = minus_one;
}

-- CustomerRequest::SetOrder
abbrev pub set_order : ℤ → ℤ → ℤ → CustomerRequest
set_order id number type = record { customer_id = id; order_number = number; request_type = type }

-- CustomerRequest::IsValid
abbrev pub is_valid_request : CustomerRequest → Bool
is_valid_request r = not (eq_ℤ r.customer_id minus_one)

-- CustomerRequest::Size
abbrev pub request_size : ℕ
request_size = 12

-- the fields in network order, as Marshal copies them
abbrev pub request_words : {W : Type 0} → Platform W → CustomerRequest → List ℕ
request_words p r = to_net p r.customer_id ∷ to_net p r.order_number ∷ to_net p r.request_type ∷ []

-- CustomerRequest::Marshal
unfoldable pub marshal_request :
    {W : Type 0} → Platform W → CustomerRequest → List ℕ → Result (List ℕ)
unfolding copy_words
marshal_request p r buffer = copy_words p 0 (request_words p r) buffer

-- CustomerRequest::Unmarshal
unfoldable pub unmarshal_request : {W : Type 0} → Platform W → List ℕ → Result CustomerRequest
unfolding read_word
unmarshal_request p buffer = do
  net_customer_id ← read_word p 0 buffer
  net_order_number ← read_word p 4 buffer
  net_request_type ← read_word p 8 buffer
  ok (record {
    customer_id = of_net p net_customer_id;
    order_number = of_net p net_order_number;
    request_type = of_net p net_request_type;
  })

abbrev pub IsCustomerRequest : CustomerRequest → Type 0
IsCustomerRequest r = IsInt r.customer_id × IsInt r.order_number × IsInt r.request_type

module _ {W V : Type 0} (p : Platform W) (b : ByteLaws p) (q : Platform V)
    (net : SameNetwork p q) where
  -- A customer request whose fields are `int`s is marshalled into any buffer of at least its size: the buffer
  -- keeps its length and what is behind the message, and another host unmarshals the same message.
  pub unmarshal-marshal_request :
      (r : CustomerRequest) (buffer : List ℕ)
      → IsCustomerRequest r
      → request_size ≤ length buffer
      → (buffer' : List ℕ) × (marshal_request p r buffer ≡ ok buffer')
        × (length buffer' ≡ length buffer)
        × (drop request_size buffer' ≡ drop request_size buffer)
        × (unmarshal_request q buffer' ≡ ok r)
  unfolding marshal_request unmarshal_request
  unmarshal-marshal_request r buffer h room =
      let ws = request_words p r in
      let rest = drop request_size buffer in
      let front : length (memory p ws) ≡ 12 = length-memory p b ws in
      let (_, read0, same0) = read_field p b q net 0 ws rest r.customer_id refl h.0 in
      let (_, read1, same1) = read_field p b q net 1 ws rest r.order_number refl h.1 in
      let (_, read2, same2) = read_field p b q net 2 ws rest r.request_type refl h.2 in
      (
        memory p ws ++ rest,
        copy_words-append p b ws [] buffer 0 refl room,
        omega (arith, length-append (memory p ws) rest, length-drop 12 buffer, front),
        drop-append (memory p ws) rest 12 front,
        rw (read0, ◌>>=◌) (rw (read1, ◌>>=◌) (rw (read2, ◌>>=◌) (rw (same0, same1, same2)))),
      )
