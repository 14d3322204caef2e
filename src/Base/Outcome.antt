-- ===== src/Base/Outcome.antt =====
-- How a call ends: with a value, or with the end of the process.
use mathlib.Core.Option.{Option, none, some}

pub data Fault : Type 0 where
  -- `std::vector::at` throws, and nothing catches it
  out_of_range : Fault
  -- behaviour that C++ leaves undefined, such as an iterator past the end of a vector
  undefined : Fault
  -- `exit (1)`
  exited : Fault
  -- an assertion fails, which aborts the process
  aborted : Fault
  -- `std::terminate`, which a thread that nothing has joined calls when its object goes
  terminated : Fault
  -- the fuel of a loop ran out
  diverged : Fault

pub data Result {ℓ} (A : Type ℓ) : Type ℓ where
  ok : A → Result A
  fault : Fault → Result A

abbrev pub or_fault {ℓ} : {A : Type ℓ} → Option A → Fault → Result A
or_fault none e = fault e
or_fault (some a) e = ok a
