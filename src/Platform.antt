-- ===== src/Platform.antt =====
-- What the program calls and does not implement: sockets, stdio, zlib and the memory layout of a
-- word. `W` is the state of everything outside of the process.
pub mod Laws
use load_balancer_with_wal.Base.{ℕ, Option, List, Bool}
use load_balancer_with_wal.Base.Int.{ℤ}

pub record Platform (W : Type 0) : Type 0 where
  -- the four bytes of a word in memory, and the word that four bytes of memory hold (memcpy)
  pub bytes : ℕ → List ℕ
  pub word : List ℕ → ℕ
  -- arpa/inet.h
  pub htonl : ℕ → ℕ
  pub ntohl : ℕ → ℕ
  -- crc32 (0, p, n) of zlib
  pub crc32 : List ℕ → ℕ
  -- sockets: the descriptor comes first. `recv` gives its return value and the whole buffer of
  -- the asked length, of which the call may have filled a part.
  pub socket : W → ℤ × W
  pub inet_pton : List ℕ → ℤ
  pub connect : ℤ → List ℕ → ℤ → W → ℤ × W
  pub bind : ℤ → ℤ → W → ℤ × W
  pub listen : ℤ → ℕ → W → ℤ × W
  pub accept : ℤ → W → ℤ × W
  -- setsockopt of TCP_NODELAY
  pub setsockopt : ℤ → ℤ → W → ℤ × W
  pub send : ℤ → List ℕ → W → ℤ × W
  pub recv : ℤ → ℕ → W → ℤ × List ℕ × W
  pub peek : ℤ → ℕ → W → ℤ × W
  pub shutdown : ℤ → W → W
  pub close : ℤ → W → W
  -- the one file of the process, opened by "a+"
  pub fopen : List ℕ → W → Bool × W
  pub fwrite : List ℕ → W → W
  pub fflush : W → W
  pub fclose : W → W
  pub fread : ℕ → W → Option (List ℕ) × W
  pub ferror : W → Bool
  -- nanoseconds of the high resolution clock
  pub now : W → ℕ × W
  -- the value found in a field of a struct that nothing has set
  pub uninit : W → ℤ
