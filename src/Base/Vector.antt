-- ===== src/Base/Vector.antt =====
-- `std::vector` at an `int` index.
use load_balancer_with_wal.Base.Int.{ℤ, pos, negsuc}
use load_balancer_with_wal.Base.Lists.{length, get_elem?, insert, insert-length}
use load_balancer_with_wal.Base.Outcome.{Result, ok, fault, or_fault, undefined, out_of_range}
use mathlib.Core.Path.{◌≡◌, ap}
use mathlib.Core.List.{List, [], ◌∷◌, ◌++◌}

module _ {ℓ} {A : Type ℓ} where
  -- `v.insert (v.begin () + i, x)`
  abbrev pub insert_at : ℤ → A → List A → Result (List A)
  insert_at (pos n) x xs = or_fault (insert n x xs) undefined
  insert_at (negsuc n) x xs = fault undefined

  -- `v.at (i)`: a negative index becomes a large unsigned one
  abbrev pub at : List A → ℤ → Result A
  at xs (pos n) = or_fault (get_elem? xs n) out_of_range
  at xs (negsuc n) = fault out_of_range

  pub insert_at-length :
      (xs : List A) (x : A) → insert_at (pos (length xs)) x xs ≡ ok (xs ++ x ∷ [])
  insert_at-length xs x = ap (λ o. or_fault o undefined) (insert-length xs x)
