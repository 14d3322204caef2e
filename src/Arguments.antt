-- ===== src/Arguments.antt =====
-- The arguments of a program, as main finds them in argv.
use load_balancer_with_wal.Base.{
  ℕ, zero, suc, ◌+◌, ◌≡◌, refl, ◌∙◌, ap, none, some, List, [], ◌∷◌, ◌++◌, length, length-append,
  get_elem?, Result, ok, fault, undefined, arith,
}

-- argv[i] where the program uses the string: argv[argc] is NULL, and behind it is nothing of argv
abbrev pub arg : List (List ℕ) → ℕ → Result (List ℕ)
arg argv i = elim (get_elem? argv i) [ none ↦ fault undefined | some s ↦ ok s ]

infixl 5 ◌>>=◌
abbrev pub ◌>>=◌ : {A B : Type 0} → Result A → (A → Result B) → Result B
ok a >>= f = f a
fault e >>= f = fault e

arg-behind :
    (pre rest : List (List ℕ)) (x : List ℕ) (n : ℕ)
    → length pre ≡ n
    → arg (pre ++ x ∷ rest) n ≡ ok x
arg-behind [] rest x zero e = refl
arg-behind [] rest x (suc n) e = absurd (omega (arith, e))
arg-behind (y ∷ pre) rest x zero e = absurd (omega (arith, e))
arg-behind (y ∷ pre) rest x (suc n) e = arg-behind pre rest x n (omega (arith, e))

-- The argument behind a front part, however the others are grouped.
pub arg-at :
    {argv : List (List ℕ)} (pre rest : List (List ℕ)) (x : List ℕ) (n : ℕ)
    → argv ≡ pre ++ x ∷ rest
    → length pre ≡ n
    → arg argv n ≡ ok x
arg-at pre rest x n same e = ap (λ xs. arg xs n) same ∙ arg-behind pre rest x n e

pub longer :
    (xs ys : List (List ℕ)) (n m : ℕ) → length xs ≡ n → length ys ≡ m → length (xs ++ ys) ≡ n + m
longer xs ys n m e e' = omega (arith, length-append xs ys)
