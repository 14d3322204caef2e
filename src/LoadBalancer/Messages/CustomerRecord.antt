-- ===== src/LoadBalancer/Messages/CustomerRecord.antt =====
-- The class CustomerRecord of load_balancer/Messages.cpp.
use load_balancer_with_wal.Base.{
  ℕ, ◌≤◌, ◌≡◌, refl, List, [], ◌∷◌, ◌++◌, length, length-append, length-drop, drop, drop-append,
  Result, ok, arith,
}
use load_balancer_with_wal.Base.Int.{ℤ, minus_one, IsInt}
use load_balancer_with_wal.Platform.{Platform}
use load_balancer_with_wal.Platform.Laws.{ByteLaws}
use load_balancer_with_wal.RobotFactory.Wire.{memory}
use load_balancer_with_wal.RobotFactory.Wire.RoundTrip.{length-memory}
use load_balancer_with_wal.LoadBalancer.Messages.{◌>>=◌, copy_words, read_word, to_net, of_net}
use load_balancer_with_wal.LoadBalancer.Messages.Words.{SameNetwork, copy_words-append, read_field}

pub record CustomerRecord : Type 0 where
  pub customer_id : ℤ
  pub last_order : ℤ

-- CustomerRecord::CustomerRecord
abbrev pub no_customer_record : CustomerRecord
no_customer_record = record { customer_id = minus_one; last_order = minus_one }

-- CustomerRecord::SetCustomerId and CustomerRecord::SetLastOrder
abbrev pub set_customer_id : ℤ → CustomerRecord → CustomerRecord
set_customer_id id r = record r { customer_id = id }

abbrev pub set_last_order : ℤ → CustomerRecord → CustomerRecord
set_last_order order r = record r { last_order = order }

-- CustomerRecord::Size
abbrev pub record_size : ℕ
record_size = 8

-- the fields in network order, as Marshal copies them
abbrev pub record_words : {W : Type 0} → Platform W → CustomerRecord → List ℕ
record_words p r = to_net p r.customer_id ∷ to_net p r.last_order ∷ []

-- CustomerRecord::Marshal
unfoldable pub marshal_record :
    {W : Type 0} → Platform W → CustomerRecord → List ℕ → Result (List ℕ)
unfolding copy_words
marshal_record p r buffer = copy_words p 0 (record_words p r) buffer

-- CustomerRecord::Unmarshal
unfoldable pub unmarshal_record : {W : Type 0} → Platform W → List ℕ → Result CustomerRecord
unfolding read_word
unmarshal_record p buffer = do
  net_customer_id ← read_word p 0 buffer
  net_last_order ← read_word p 4 buffer
  ok (record { customer_id = of_net p net_customer_id; last_order = of_net p net_last_order })

abbrev pub IsCustomerRecord : CustomerRecord → Type 0
IsCustomerRecord r = IsInt r.customer_id × IsInt r.last_order

module _ {W V : Type 0} (p : Platform W) (b : ByteLaws p) (q : Platform V)
    (net : SameNetwork p q) where
  -- A customer record whose fields are `int`s is marshalled into any buffer of at least its size: the buffer
  -- keeps its length and what is behind the message, and another host unmarshals the same message.
  pub unmarshal-marshal_record :
      (r : CustomerRecord) (buffer : List ℕ)
      → IsCustomerRecord r
      → record_size ≤ length buffer
      → (buffer' : List ℕ) × (marshal_record p r buffer ≡ ok buffer')
        × (length buffer' ≡ length buffer)
        × (drop record_size buffer' ≡ drop record_size buffer)
        × (unmarshal_record q buffer' ≡ ok r)
  unfolding marshal_record unmarshal_record
  unmarshal-marshal_record r buffer h room =
      let ws = record_words p r in
      let rest = drop record_size buffer in
      let front : length (memory p ws) ≡ 8 = length-memory p b ws in
      let (_, read0, same0) = read_field p b q net 0 ws rest r.customer_id refl h.0 in
      let (_, read1, same1) = read_field p b q net 1 ws rest r.last_order refl h.1 in
      (
        memory p ws ++ rest,
        copy_words-append p b ws [] buffer 0 refl room,
        omega (arith, length-append (memory p ws) rest, length-drop 8 buffer, front),
        drop-append (memory p ws) rest 8 front,
        rw (read0, ◌>>=◌) (rw (read1, ◌>>=◌) (rw (same0, same1))),
      )
