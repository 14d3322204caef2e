-- ===== src/Platform/Laws.antt =====
-- The documented behaviour of the platform that the theorems use, as named hypotheses.
use load_balancer_with_wal.Base.{
  ℕ, ◌≤◌, ◌<◌, ◌^◌, ◌≡◌, false, none, some, List, ◌++◌, length, take, drop,
}
use load_balancer_with_wal.Base.Int.{ℤ, IsInt}
use load_balancer_with_wal.Platform.{Platform}

-- A word of four bytes can be copied to memory and back.
pub record ByteLaws {W : Type 0} (p : Platform W) : Type 0 where
  pub length_bytes : (w : ℕ) → length (p.bytes w) ≡ 4
  pub word_bytes : (w : ℕ) → w < 2 ^ 32 → p.word (p.bytes w) ≡ w

-- A checksum has 32 bits, and a field that was never set holds some `int`.
pub record CrcLaws {W : Type 0} (p : Platform W) : Type 0 where
  pub crc32_lt : (bs : List ℕ) → p.crc32 bs < 2 ^ 32
  pub uninit_int : (w : W) → IsInt (p.uninit w)

-- stdio on a disk that reports no error. `written` is what the stream has accepted, `durable` what
-- would be found after a crash, and `unread` what `fread` has not delivered yet.
pub record FileLaws {W : Type 0} (p : Platform W) : Type 0 where
  pub written : W → List ℕ
  pub durable : W → List ℕ
  pub unread : W → List ℕ
  pub no_error : (w : W) → p.ferror w ≡ false
  pub written-fwrite : (bs : List ℕ) (w : W) → written (p.fwrite bs w) ≡ written w ++ bs
  pub written-fflush : (w : W) → written (p.fflush w) ≡ written w
  pub written-now : (w : W) → written (p.now w).1 ≡ written w
  pub durable-fflush : (w : W) → durable (p.fflush w) ≡ written w
  pub durable-now : (w : W) → durable (p.now w).1 ≡ durable w
  pub fread_full :
      (n : ℕ) (w : W) → n ≤ length (unread w) → (p.fread n w).0 ≡ some (take n (unread w))
  pub unread-fread :
      (n : ℕ) (w : W) → n ≤ length (unread w) → unread (p.fread n w).1 ≡ drop n (unread w)
  pub fread_short : (n : ℕ) (w : W) → length (unread w) < n → (p.fread n w).0 ≡ none

-- What the file has been given, what of it is on disk and what of it is still to be read.
abbrev pub files : {W : Type 0} {p : Platform W} → FileLaws p → W → List ℕ × List ℕ × List ℕ
files f w = (f.written w, f.durable w, f.unread w)

-- Sockets are not files: a call on a socket leaves the file of the process as it is.
pub record SocketLaws {W : Type 0} (p : Platform W) (f : FileLaws p) : Type 0 where
  pub files-socket : (w : W) → files f (p.socket w).1 ≡ files f w
  pub files-connect :
      (sock : ℤ) (ip : List ℕ) (port : ℤ) (w : W) → files f (p.connect sock ip port w).1 ≡ files f w
  pub files-send : (sock : ℤ) (bs : List ℕ) (w : W) → files f (p.send sock bs w).1 ≡ files f w
  pub files-recv : (sock : ℤ) (n : ℕ) (w : W) → files f (p.recv sock n w).2 ≡ files f w
  pub files-close : (sock : ℤ) (w : W) → files f (p.close sock w) ≡ files f w
