-- ===== src/LoadBalancer/Messages/Words.antt =====
-- Words that one host copies to a buffer and another reads.
use load_balancer_with_wal.Base.{
  ℕ, zero, suc, ◌+◌, ◌*◌, ◌≤◌, ◌<◌, ◌^◌, ◌≡◌, ◌∙◌, ap, sym, some, List, [], ◌∷◌, ◌++◌, append_assoc,
  get_elem?, length, length-append, length-drop, drop-drop, drop, take-append, le→leb, ok, arith,
}
use load_balancer_with_wal.Base.Int.{ℤ, IsInt, to_word, to_word-lt, of_word, of_word-to_word}
use load_balancer_with_wal.Platform.{Platform}
use load_balancer_with_wal.Platform.Laws.{ByteLaws}
use load_balancer_with_wal.RobotFactory.Wire.{memory}
use load_balancer_with_wal.LoadBalancer.Messages.{
  ◌>>=◌, copy_word, copy_words, read_word, to_net, of_net,
}

drop-append_add :
    {A : Type 0} (xs ys : List A) (n m : ℕ) → length xs ≡ n → drop (n + m) (xs ++ ys) ≡ drop m ys
drop-append_add [] ys zero m e = ap (λ k. drop k ys) (omega arith)
drop-append_add [] ys (suc n) m e = absurd (omega arith)
drop-append_add (x ∷ xs) ys zero m e = absurd (omega arith)
drop-append_add (x ∷ xs) ys (suc n) m e =
    ap (λ k. drop k (x ∷ xs ++ ys)) less ∙ drop-append_add xs ys n m (omega arith)
  where
    less : suc n + m ≡ suc (n + m)
    less = omega arith

-- The documented behaviour of htonl and ntohl on two hosts: a word in network order is the same
-- four bytes on both.
pub record SameNetwork {W V : Type 0} (p : Platform W) (q : Platform V) : Type 0 where
  pub ntohl_htonl : (w : ℕ) → w < 2 ^ 32 → q.ntohl (q.word (p.bytes (p.htonl w))) ≡ w

module _ {W : Type 0} (p : Platform W) (b : ByteLaws p) where
  copy_word-append :
      (front buffer : List ℕ) (n w : ℕ)
      → length front ≡ n
      → 4 ≤ length buffer
      → copy_word p n w (front ++ buffer) ≡ ok (front ++ (p.bytes w ++ drop 4 buffer))
  unfolding copy_word
  copy_word-append front buffer n w e room =
      rw (le→leb (n + 4) (length (front ++ buffer)) (omega (arith, length-append front buffer)))
        (rw (take-append front buffer n e, drop-append_add front buffer n 4 e))

  pub copy_words-append :
      (ws front buffer : List ℕ) (n : ℕ)
      → length front ≡ n
      → 4 * length ws ≤ length buffer
      → copy_words p n ws (front ++ buffer)
        ≡ ok (front ++ (memory p ws ++ drop (4 * length ws) buffer))
  unfolding copy_words memory
  copy_words-append [] front buffer n e room = ap (λ k. ok (front ++ drop k buffer)) none_copied
    where
      none_copied : 0 ≡ 4 * 0
      none_copied = omega arith
  copy_words-append (w ∷ ws) front buffer n e room =
      rw (copy_word-append front buffer n w e (omega arith), ◌>>=◌)
        (ap (copy_words p (n + 4) ws) (sym (append_assoc front (p.bytes w) (drop 4 buffer)))
          ∙ copy_words-append ws (front ++ p.bytes w) (drop 4 buffer) (n + 4)
              (omega (arith, length-append front (p.bytes w), b.length_bytes w))
              (omega (arith, length-drop 4 buffer))
          ∙ ap ok (
              append_assoc front (p.bytes w) (memory p ws ++ drop (4 * length ws) (drop 4 buffer))
              ∙ ap (◌++◌ front) (
                  sym (append_assoc (p.bytes w) (memory p ws) _)
                  ∙ ap (λ xs. (p.bytes w ++ memory p ws) ++ xs) all_copied)))
    where
      next_offset : 4 + 4 * length ws ≡ 4 * suc (length ws)
      next_offset = omega arith

      all_copied : drop (4 * length ws) (drop 4 buffer) ≡ drop (4 * suc (length ws)) buffer
      all_copied = drop-drop (4 * length ws) 4 buffer ∙ ap (λ k. drop k buffer) next_offset

module _ {W V : Type 0} (p : Platform W) (b : ByteLaws p) (q : Platform V) where
  drop-memory :
      (k : ℕ) (ws rest : List ℕ) (w : ℕ)
      → get_elem? ws k ≡ some w
      → (more : List ℕ) × (drop (4 * k) (memory p ws ++ rest) ≡ p.bytes w ++ more)
  unfolding memory
  drop-memory zero [] rest w e = ground arith
  drop-memory (suc k) [] rest w e = ground arith
  drop-memory zero (v ∷ ws) rest w e =
      let same : v ≡ w = cc in
      (
        memory p ws ++ rest,
        append_assoc (p.bytes v) (memory p ws) rest
            ∙ ap (λ u. p.bytes u ++ (memory p ws ++ rest)) same,
      )
  drop-memory (suc k) (v ∷ ws) rest w e =
      let (more, d) = drop-memory k ws rest w e in
      (
        more,
        ap (drop (4 * suc k)) (append_assoc (p.bytes v) (memory p ws) rest)
            ∙ ap (λ n. drop n (p.bytes v ++ (memory p ws ++ rest))) (omega arith)
            ∙ drop-append_add (p.bytes v) (memory p ws ++ rest) 4 (4 * k) (b.length_bytes v)
            ∙ d,
      )

  read_word-memory :
      (k : ℕ) (ws rest : List ℕ) (w : ℕ)
      → get_elem? ws k ≡ some w
      → read_word q (4 * k) (memory p ws ++ rest) ≡ ok (q.word (p.bytes w))
  unfolding read_word
  read_word-memory k ws rest w e =
      let (more, d) = drop-memory k ws rest w e in
      let size : 4 * k + 4 ≤ length (memory p ws ++ rest) = omega (
        arith,
        ap length d,
        length-append (p.bytes w) more,
        b.length_bytes w,
        length-drop (4 * k) (memory p ws ++ rest),
      ) in
      rw (le→leb (4 * k + 4) (length (memory p ws ++ rest)) size)
        (rw (d, take-append (p.bytes w) more 4 (b.length_bytes w)))

  -- A field of a message, read by the other host.
  pub read_field :
      (net : SameNetwork p q) (k : ℕ) (ws rest : List ℕ) (z : ℤ)
      → get_elem? ws k ≡ some (to_net p z)
      → IsInt z
      → (w : ℕ) × (read_word q (4 * k) (memory p ws ++ rest) ≡ ok w) × (of_net q w ≡ z)
  read_field net k ws rest z e h = (
    q.word (p.bytes (to_net p z)),
    read_word-memory k ws rest (to_net p z) e,
    ap of_word (net.ntohl_htonl (to_word z) (to_word-lt z)) ∙ of_word-to_word z h,
  )
