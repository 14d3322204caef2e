-- ===== src/Server/State/Map.antt =====
-- `customer_record`, a std::map from customer to last order: a list of pairs with one pair for each
-- customer. `put` is the assignment through operator[], which adds a missing key.
use load_balancer_with_wal.Base.{Option, none, some, List, [], ◌∷◌, if◌then◌else◌, ◌≡◌, refl, arith}
use load_balancer_with_wal.Base.Int.{ℤ, eq_ℤ, eq_ℤ_iff}

unfoldable pub put : ℤ → ℤ → List (ℤ × ℤ) → List (ℤ × ℤ)
put k v [] = (k, v) ∷ []
put k v ((j, u) ∷ m) = if eq_ℤ j k then (j, v) ∷ m else (j, u) ∷ put k v m

unfoldable pub find : ℤ → List (ℤ × ℤ) → Option ℤ
find k [] = none
find k ((j, u) ∷ m) = if eq_ℤ j k then some u else find k m

pub find-put :
    (k j v : ℤ) (m : List (ℤ × ℤ)) → find j (put k v m) ≡ (if eq_ℤ k j then some v else find j m)
unfolding put find
find-put k j v [] = refl
find-put k j v ((i, u) ∷ m) =
    ground (arith, eq_ℤ_iff i k, eq_ℤ_iff i j, eq_ℤ_iff k j, find-put k j v m)

-- Writing the same value again changes nothing.
pub put-put_self : (k v : ℤ) (m : List (ℤ × ℤ)) → put k v (put k v m) ≡ put k v m
unfolding put
put-put_self k v [] = ground (arith, eq_ℤ_iff k k)
put-put_self k v ((j, u) ∷ m) = ground (arith, eq_ℤ_iff j k, put-put_self k v m)
