-- ===== src/Client/Records.antt =====
-- The records that print_record reads.
use load_balancer_with_wal.Base.{
  ℕ, zero, suc, ◌+◌, ◌<◌, ◌^◌, ◌≡◌, refl, ◌∙◌, ap, sym, some, List, [], ◌∷◌, map, arith,
}
use load_balancer_with_wal.Base.Int.{ℤ, pos, pos_part, ◌+ℤ◌, ◌-ℤ◌, wrap, next}
use load_balancer_with_wal.Platform.{Platform}
use load_balancer_with_wal.RobotFactory.{CRec}
use load_balancer_with_wal.Client.{
  Line, headings, record_line, client_init, client_read_record, read_request, print_records,
  print_record,
}

module _ {W : Type 0} (p : Platform W) where
  -- The server answers the reads of n customers from k with these records.
  abbrev pub Reads : ℤ → ℕ → ℕ → List CRec → W → W → Type 0
  Reads sock k zero records w w' = (records ≡ []) × (w ≡ w')
  Reads sock k (suc n) records w w' =
      (r : CRec) × (w1 : W) × (more : List CRec) × (client_read_record p sock (read_request (pos k))
          w
        ≡ (some r, w1))
      × (records ≡ r ∷ more)
      × Reads sock (suc k) n more w1 w'

  next-pos : (n : ℕ) → n + 1 < 2 ^ 31 → next (pos n) ≡ pos (suc n)
  next-pos n h = ground arith

  print_records-Reads :
      (sock : ℤ) (k n : ℕ) (records : List CRec) (w w' : W)
      → k + n < 2 ^ 31
      → Reads sock k n records w w'
      → print_records p sock n (pos k) w ≡ (map record_line records, w')
  unfolding print_records
  print_records-Reads sock k zero records w w' h (none_left, same) =
      rw none_left (ap (λ v. ([], v)) same)
  print_records-Reads sock k (suc n) records w w' h (r, w1, more, answered, first, rest) =
      rw (answered, print_records)
        (ap (λ (rest : List Line × W). (record_line r ∷ rest.0, rest.1))
            (ap (λ i. print_records p sock n i w1) (next-pos k (omega arith))
              ∙ print_records-Reads sock (suc k) n more w1 w' (omega arith) rest)
          ∙ ap (λ rs. (map record_line rs, w')) (sym first))

  rounds_of : (n : ℕ) → n + 3000 < 2 ^ 31 → pos_part (wrap (pos 3000 +ℤ pos n) -ℤ pos 3000) ≡ n
  rounds_of n h = ground arith

  -- Where the server accepts the connection and answers every read, print_record prints the headings and
  -- then the records of the n customers from 3000 on, as answered, in order, and closes its socket.
  pub print_record-Reads :
      (ip : List ℕ) (port sock : ℤ) (n : ℕ) (records : List CRec) (w w1 w' : W)
      → n + 3000 < 2 ^ 31
      → client_init p ip port w ≡ (pos 0, sock, w1)
      → Reads sock 3000 n records w1 w'
      → print_record p ip port (pos n) (pos 3000) w
        ≡ (headings ∷ map record_line records, p.close sock w')
  unfolding print_record
  print_record-Reads ip port sock n records w w1 w' small opened reads =
      rw (opened, print_record)
        (rw (rounds_of n small)
          (rw (print_records-Reads sock 3000 n records w1 w' (omega arith) reads) refl))
