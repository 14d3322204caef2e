-- ===== src/CommitLog/Recovery.antt =====
-- CommitLog::Recoverwithcrc: reading the log back.
use load_balancer_with_wal.Base.{
  ℕ, zero, suc, ◌+◌, ◌≤◌, ◌<◌, ◌^◌, ◌≡◌, sym, ◌∙◌, ap, ◌≢◌, ◌⊎◌, inl, inr, some, List, [], ◌∷◌,
  ◌++◌, map, append-nil, append_assoc, length, length-append, take-append, drop-append, take, drop,
  All, ==_iff, ne→==_false, ok, insert_at-length, arith,
}
use load_balancer_with_wal.Base.Int.{ℤ, pos, next}
use load_balancer_with_wal.Platform.{Platform}
use load_balancer_with_wal.Platform.Laws.{ByteLaws, FileLaws}
use load_balancer_with_wal.RobotFactory.{MapOp, WalSmrEntry}
use load_balancer_with_wal.RobotFactory.Wire.{memory, wal_words, wal_at}
use load_balancer_with_wal.RobotFactory.Wire.RoundTrip.{IsWalEntry, wal_at-memory, length-memory}
use load_balancer_with_wal.CommitLog.{
  op_cksum, wal_size, entries_bytes, recover_crc_from, recoverwithcrc,
}

abbrev pub payloads : List WalSmrEntry → List MapOp
payloads = map λ e. e.payload

module _ {W : Type 0} (p : Platform W) where
  -- An entry whose checksum is that of its payload, and one whose checksum is not.
  abbrev pub IsSealed : WalSmrEntry → Type 0
  IsSealed e = IsWalEntry e × (e.cksum ≡ op_cksum p e.payload)

  abbrev pub IsCorrupt : WalSmrEntry → Type 0
  IsCorrupt e = IsWalEntry e × (e.cksum ≢ op_cksum p e.payload)

  -- What ends a log: less than an entry, or a corrupt entry with anything behind it.
  abbrev pub EndsLog : List ℕ → Type 0
  EndsLog tail =
      (length tail < wal_size)
      ⊎ ((e : WalSmrEntry) × (rest : List ℕ) × IsCorrupt e
          × (tail ≡ memory p (wal_words e) ++ rest))

module _ {W : Type 0} (p : Platform W) (b : ByteLaws p) (f : FileLaws p) where
  open f use {unread, fread_full, unread-fread, fread_short}

  length-wal : (e : WalSmrEntry) → length (memory p (wal_words e)) ≡ wal_size
  length-wal e = length-memory p b (wal_words e)

  module _ (w : W) (e : WalSmrEntry) (rest : List ℕ)
      (at_front : unread w ≡ memory p (wal_words e) ++ rest) where
    enough : wal_size ≤ length (unread w)
    enough =
        omega (arith, ap length at_front, length-append (memory p (wal_words e)) rest, length-wal e)

    fread-entry : (p.fread wal_size w).0 ≡ some (memory p (wal_words e))
    fread-entry =
        fread_full wal_size w enough
        ∙ ap (λ bs. some (take wal_size bs)) at_front
        ∙ ap some (take-append (memory p (wal_words e)) rest wal_size (length-wal e))

    unread-entry : unread (p.fread wal_size w).1 ≡ rest
    unread-entry =
        unread-fread wal_size w enough
        ∙ ap (drop wal_size) at_front
        ∙ drop-append (memory p (wal_words e)) rest wal_size (length-wal e)

  wal_at-entry : (e : WalSmrEntry) → IsWalEntry e → wal_at p (memory p (wal_words e)) ≡ e
  wal_at-entry e h = ap (wal_at p) (sym (append-nil _)) ∙ wal_at-memory p b e [] h

  -- One round that reads a sealed entry.
  round_sealed :
      (fuel : ℕ) (acc : List MapOp) (w : W) (e : WalSmrEntry)
      → (p.fread wal_size w).0 ≡ some (memory p (wal_words e))
      → IsSealed p e
      → recover_crc_from p (suc fuel) (pos (length acc)) acc w
        ≡ recover_crc_from p fuel
            (next (pos (length acc)))
            (acc ++ e.payload ∷ [])
            (p.fread wal_size w).1
  unfolding recover_crc_from
  round_sealed fuel acc w e got h =
      rw (got, recover_crc_from)
        (rw (wal_at-entry e h.0, recover_crc_from)
          (rw ((==_iff _ _).1 h.1) (rw (wal_at-entry e h.0) (rw (insert_at-length acc e.payload)))))

  -- One round that meets the end of the log.
  round_ended :
      (fuel : ℕ) (i : ℤ) (acc : List MapOp) (w : W) (tail : List ℕ)
      → EndsLog p tail
      → unread w ≡ tail
      → recover_crc_from p (suc fuel) i acc w ≡ ok (acc, (p.fread wal_size w).1)
  unfolding recover_crc_from
  round_ended fuel i acc w tail (inl short) e =
      rw (fread_short wal_size w (rw e short), recover_crc_from)
  round_ended fuel i acc w tail (inr (bad, rest, h, split)) e =
      rw (fread-entry w bad rest (e ∙ split), recover_crc_from)
        (rw (wal_at-entry bad h.0, recover_crc_from) (rw (ne→==_false _ _ h.1)))

  next_int :
      (acc : List MapOp) (o : MapOp)
      → length acc + 1 < 2 ^ 31
      → next (pos (length acc)) ≡ pos (length (acc ++ o ∷ []))
  next_int acc o h = ground (arith, length-append acc (o ∷ []))

  recover_crc-entries :
      (es : List WalSmrEntry) (fuel : ℕ) (acc : List MapOp) (tail : List ℕ) (w : W)
      → All (IsSealed p) es
      → EndsLog p tail
      → unread w ≡ entries_bytes p es ++ tail
      → length es < fuel
      → length acc + length es < 2 ^ 31
      → (w' : W) × (recover_crc_from p fuel (pos (length acc)) acc w ≡ ok (acc ++ payloads es, w'))
  unfolding entries_bytes
  recover_crc-entries es zero acc tail w hs ends at_front fuel_left small = absurd (omega arith)
  recover_crc-entries [] (suc fuel) acc tail w hs ends at_front fuel_left small = (
    (p.fread wal_size w).1,
    round_ended fuel _ acc w tail ends at_front
        ∙ ap (λ xs. ok (xs, (p.fread wal_size w).1)) (sym (append-nil acc)),
  )
  recover_crc-entries (e ∷ es) (suc fuel) acc tail w hs ends at_front fuel_left small =
      let front = at_front ∙ append_assoc (memory p (wal_words e)) (entries_bytes p es) tail in
      let (w', rest) =
        recover_crc-entries es fuel (acc ++ e.payload ∷ []) tail (p.fread wal_size w).1 hs.1 ends
          (unread-entry w e _ front) (omega arith)
          (omega (arith, length-append acc (e.payload ∷ []))) in
      (
        w',
        round_sealed fuel acc w e (fread-entry w e _ front) hs.0
            ∙ ap (λ i. recover_crc_from p fuel i (acc ++ e.payload ∷ []) (p.fread wal_size w).1)
                (next_int acc e.payload (omega arith))
            ∙ rest
            ∙ ap (λ xs. ok (xs, w')) (append_assoc acc (e.payload ∷ []) (payloads es)),
      )

  -- From a file that holds sealed entries and then ends, in the middle of an entry or by a corrupt
  -- one, recovery rebuilds exactly the operations of those entries, given more fuel than entries.
  pub recoverwithcrc-entries :
      (es : List WalSmrEntry) (fuel : ℕ) (tail : List ℕ) (w : W)
      → All (IsSealed p) es
      → EndsLog p tail
      → unread w ≡ entries_bytes p es ++ tail
      → length es < fuel
      → length es < 2 ^ 31
      → (w' : W) × (recoverwithcrc p fuel [] w ≡ ok (payloads es, w'))
  unfolding recoverwithcrc
  recoverwithcrc-entries es fuel tail w hs ends at_front fuel_left small =
      recover_crc-entries es fuel [] tail w hs ends at_front fuel_left (omega arith)
