-- ===== src/LoadBalancer/Messages.antt =====
-- load_balancer/Messages.h and Messages.cpp: messages whose fields are `int`s in network order, and
-- the buffers that hold them. A copy that leaves the buffer is undefined behaviour.
pub mod Words
pub mod CustomerRequest
pub mod RobotInfo
pub mod CustomerRecord
use load_balancer_with_wal.Base.{
  ℕ, ◌+◌, List, [], ◌∷◌, ◌++◌, leb, if◌then◌else◌, length, take, drop, Result, ok, fault, undefined,
}
use load_balancer_with_wal.Base.Int.{ℤ, to_word, of_word}
use load_balancer_with_wal.Platform.{Platform}

infixl 5 ◌>>=◌
abbrev pub ◌>>=◌ : {A B : Type 0} → Result A → (A → Result B) → Result B
ok a >>= f = f a
fault e >>= f = fault e

module _ {W : Type 0} (p : Platform W) where
  -- memcpy (buffer + offset, &word, sizeof (word))
  unfoldable pub copy_word : ℕ → ℕ → List ℕ → Result (List ℕ)
  copy_word offset word buffer =
      if leb (offset + 4) (length buffer)
      then ok (take offset buffer ++ (p.bytes word ++ drop (offset + 4) buffer))
      else fault undefined

  -- the copies of Marshal, one behind the other from an offset on
  unfoldable pub copy_words : ℕ → List ℕ → List ℕ → Result (List ℕ)
  copy_words offset [] buffer = ok buffer
  copy_words offset (word ∷ words) buffer = do
    buffer' ← copy_word offset word buffer
    copy_words (offset + 4) words buffer'

  -- memcpy (&word, buffer + offset, sizeof (word))
  unfoldable pub read_word : ℕ → List ℕ → Result ℕ
  read_word offset buffer =
      if leb (offset + 4) (length buffer)
      then ok (p.word (take 4 (drop offset buffer)))
      else fault undefined

  -- htonl and ntohl on an `int`
  abbrev pub to_net : ℤ → ℕ
  to_net z = p.htonl (to_word z)

  abbrev pub of_net : ℕ → ℤ
  of_net w = of_word (p.ntohl w)
