-- ===== src/RobotFactory/Wire/RoundTrip.antt =====
-- A struct that is copied to bytes and back is the same struct.
use load_balancer_with_wal.Base.{
  ℕ, zero, suc, ◌*◌, ◌<◌, ◌^◌, ◌≡◌, refl, ◌∙◌, ap, some, List, [], ◌∷◌, ◌++◌, get_elem?, length,
  take-append, take, drop, drop-append, append_assoc, length-append, arith,
}
use load_balancer_with_wal.Base.Int.{ℤ, IsInt, to_word, of_word, of_word-to_word, to_word-lt}
use load_balancer_with_wal.Platform.{Platform}
use load_balancer_with_wal.Platform.Laws.{ByteLaws}
use load_balancer_with_wal.RobotFactory.{
  OrderInf, RobotInf, MapOp, CRec, CommitIn, ReplReq, WalSmrEntry,
}
use load_balancer_with_wal.RobotFactory.Wire.{
  commit_in_words, commit_in_at, memory, skip_words, word_at, int_at, order_words, order_at,
  robot_words, robot_at, map_op_words, map_op_at, c_rec_words, c_rec_at, repl_req_words,
  repl_req_at, wal_words, wal_at,
}

abbrev pub IsOrder : OrderInf → Type 0
IsOrder o = IsInt o.customer_id × IsInt o.order_number × IsInt o.request_type

abbrev pub IsRobot : RobotInf → Type 0
IsRobot r =
    IsInt r.customer_id
    × IsInt r.order_number
    × IsInt r.request_type
    × IsInt r.engineer_id
    × IsInt r.admin_id

abbrev pub IsMapOp : MapOp → Type 0
IsMapOp o = IsInt o.opcode × IsInt o.arg1 × IsInt o.arg2

abbrev pub IsReplReq : ReplReq → Type 0
IsReplReq r =
    IsInt r.factory_id × IsInt r.committed_index × IsInt r.last_index × IsMapOp r.mapop_record

abbrev pub IsWalEntry : WalSmrEntry → Type 0
IsWalEntry e = IsInt e.index × (e.size < 2 ^ 32) × IsMapOp e.payload × (e.cksum < 2 ^ 32)

module _ {W : Type 0} (p : Platform W) (b : ByteLaws p) where
  pub length-memory : (ws : List ℕ) → length (memory p ws) ≡ 4 * length ws
  unfolding memory
  length-memory [] = refl
  length-memory (w ∷ ws) =
      omega (arith, length-append (p.bytes w) (memory p ws), b.length_bytes w, length-memory ws)

  pub word_at-memory :
      (k : ℕ) (ws rest : List ℕ) (w : ℕ)
      → get_elem? ws k ≡ some w
      → w < 2 ^ 32
      → word_at p k (memory p ws ++ rest) ≡ w
  unfolding word_at memory skip_words
  word_at-memory zero [] rest w e h = ground arith
  word_at-memory (suc k) [] rest w e h = ground arith
  word_at-memory zero (v ∷ ws) rest w e h =
      let same : v ≡ w = cc in
      ap p.word (
        ap (take 4) (append_assoc (p.bytes v) (memory p ws) rest)
        ∙ take-append (p.bytes v) (memory p ws ++ rest) 4 (b.length_bytes v))
      ∙ b.word_bytes v (rw same h)
      ∙ same
  word_at-memory (suc k) (v ∷ ws) rest w e h =
      ap (word_at p k) (
        ap (drop 4) (append_assoc (p.bytes v) (memory p ws) rest)
        ∙ drop-append (p.bytes v) (memory p ws ++ rest) 4 (b.length_bytes v))
      ∙ word_at-memory k ws rest w e h

  pub int_at-memory :
      (k : ℕ) (ws rest : List ℕ) (z : ℤ)
      → get_elem? ws k ≡ some (to_word z)
      → IsInt z
      → int_at p k (memory p ws ++ rest) ≡ z
  unfolding int_at
  int_at-memory k ws rest z e h =
      ap of_word (word_at-memory k ws rest (to_word z) e (to_word-lt z)) ∙ of_word-to_word z h

  pub order_at-memory :
      (o : OrderInf) (rest : List ℕ) → IsOrder o → order_at p (memory p (order_words o) ++ rest) ≡ o
  unfolding order_at
  order_at-memory o rest h = cc (
    int_at-memory 0 (order_words o) rest o.customer_id refl h.0,
    int_at-memory 1 (order_words o) rest o.order_number refl h.1,
    int_at-memory 2 (order_words o) rest o.request_type refl h.2,
  )

  pub robot_at-memory :
      (o : RobotInf) (rest : List ℕ) → IsRobot o → robot_at p (memory p (robot_words o) ++ rest) ≡ o
  unfolding robot_at
  robot_at-memory o rest h = cc (
    int_at-memory 0 (robot_words o) rest o.customer_id refl h.0,
    int_at-memory 1 (robot_words o) rest o.order_number refl h.1,
    int_at-memory 2 (robot_words o) rest o.request_type refl h.2,
    int_at-memory 3 (robot_words o) rest o.engineer_id refl h.3,
    int_at-memory 4 (robot_words o) rest o.admin_id refl h.4,
  )

  pub map_op_at-memory :
      (o : MapOp) (rest : List ℕ) → IsMapOp o → map_op_at p (memory p (map_op_words o) ++ rest) ≡ o
  unfolding map_op_at
  map_op_at-memory o rest h = cc (
    int_at-memory 0 (map_op_words o) rest o.opcode refl h.0,
    int_at-memory 1 (map_op_words o) rest o.arg1 refl h.1,
    int_at-memory 2 (map_op_words o) rest o.arg2 refl h.2,
  )

  pub repl_req_at-memory :
      (o : ReplReq) (rest : List ℕ)
      → IsReplReq o
      → repl_req_at p (memory p (repl_req_words o) ++ rest) ≡ o
  unfolding repl_req_at
  repl_req_at-memory o rest h = cc (
    int_at-memory 0 (repl_req_words o) rest o.factory_id refl h.0,
    int_at-memory 1 (repl_req_words o) rest o.committed_index refl h.1,
    int_at-memory 2 (repl_req_words o) rest o.last_index refl h.2,
    int_at-memory 3 (repl_req_words o) rest o.mapop_record.opcode refl h.3.0,
    int_at-memory 4 (repl_req_words o) rest o.mapop_record.arg1 refl h.3.1,
    int_at-memory 5 (repl_req_words o) rest o.mapop_record.arg2 refl h.3.2,
  )

  pub wal_at-memory :
      (o : WalSmrEntry) (rest : List ℕ)
      → IsWalEntry o
      → wal_at p (memory p (wal_words o) ++ rest) ≡ o
  unfolding wal_at
  wal_at-memory o rest h = cc (
    int_at-memory 0 (wal_words o) rest o.index refl h.0,
    word_at-memory 1 (wal_words o) rest o.size refl h.1,
    int_at-memory 2 (wal_words o) rest o.payload.opcode refl h.2.0,
    int_at-memory 3 (wal_words o) rest o.payload.arg1 refl h.2.1,
    int_at-memory 4 (wal_words o) rest o.payload.arg2 refl h.2.2,
    word_at-memory 5 (wal_words o) rest o.cksum refl h.3,
  )

  pub c_rec_at-memory :
      (r : CRec) (rest : List ℕ)
      → IsInt r.customer_id
      → IsInt r.last_order
      → c_rec_at p (memory p (c_rec_words r) ++ rest) ≡ r
  unfolding c_rec_at
  c_rec_at-memory r rest h g = cc (
    int_at-memory 0 (c_rec_words r) rest r.customer_id refl h,
    int_at-memory 1 (c_rec_words r) rest r.last_order refl g,
  )

  pub commit_in_at-memory :
      (c : CommitIn) (rest : List ℕ)
      → IsInt c.committed_index
      → commit_in_at p (memory p (commit_in_words c) ++ rest) ≡ c
  unfolding commit_in_at
  commit_in_at-memory c rest h =
      ap (λ i. record { committed_index = i })
        (int_at-memory 0 (commit_in_words c) rest c.committed_index refl h)
