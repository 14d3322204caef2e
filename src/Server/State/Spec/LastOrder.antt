-- ===== src/Server/State/Spec/LastOrder.antt =====
-- The last order of a customer, said of the log alone.
use load_balancer_with_wal.Base.{
  ℕ, Bool, true, false, Option, none, some, List, [], ◌∷◌, take, if◌then◌else◌, ◌≡◌, refl, ◌∙◌, ap,
}
use load_balancer_with_wal.Base.Int.{ℤ, eq_ℤ}
use load_balancer_with_wal.RobotFactory.{MapOp}
use load_balancer_with_wal.Server.State.Map.{put, find, find-put}
use load_balancer_with_wal.Server.State.Spec.{replay, records}

-- The later of two answers, if there is one.
abbrev later_of : Option ℤ → Option ℤ → Option ℤ
later_of none o = o
later_of (some a) o = some a

-- The number of the last order of a customer in a log, found from its end.
abbrev pub last_order_in : ℤ → List MapOp → Option ℤ
last_order_in customer [] = none
last_order_in customer (o ∷ os) =
    later_of (last_order_in customer os) (if eq_ℤ o.arg1 customer then some o.arg2 else none)

find-replay :
    (customer : ℤ) (os : List MapOp) (m : List (ℤ × ℤ))
    → find customer (replay m os) ≡ later_of (last_order_in customer os) (find customer m)
unfolding replay
find-replay customer [] m = refl
find-replay customer (o ∷ os) m =
    find-replay customer os (put o.arg1 o.arg2 m)
    ∙ ap (later_of (last_order_in customer os)) (find-put o.arg1 customer o.arg2 m)
    ∙ regroup (last_order_in customer os) (eq_ℤ o.arg1 customer)
  where
    regroup :
        (a : Option ℤ) (q : Bool)
        → later_of a (if q then some o.arg2 else find customer m)
          ≡ later_of (later_of a (if q then some o.arg2 else none)) (find customer m)
    regroup none true = refl
    regroup none false = refl
    regroup (some a) q = refl

pub find-records :
    (customer : ℤ) (k : ℕ) (log : List MapOp)
    → find customer (records k log) ≡ last_order_in customer (take k log)
unfolding records find
find-records customer k log =
    find-replay customer (take k log) [] ∙ at_front (last_order_in customer (take k log))
  where
    at_front : (a : Option ℤ) → later_of a none ≡ a
    at_front none = refl
    at_front (some a) = refl
