-- ===== src/Client/Timer/Spread.antt =====
-- What the statistics of a timer say of the times that it has counted.
use load_balancer_with_wal.Base.{
  ℕ, ◌+◌, ◌%◌, ◌^◌, ◌≡◌, refl, ◌∙◌, ap, sym, ◌⊎◌, inl, inr, true, false, Bool-cases, List, [], ◌∷◌,
  ◌++◌, length, length-append, if◌then◌else◌, arith,
}
use load_balancer_with_wal.Base.Int.{
  ℤ, pos, ◌+ℤ◌, int_of_size, to_word, of_word, wrap, next, negsuc,
}
use load_balancer_with_wal.Client.Timer.{Doubles, ClientTimer, new_timer, count_lap, merge}
use mathlib.Core.List.{Memᴰ}
use mathlib.Core.List.Memᴰ as Memᴰ

-- The order of `double`s that are not NaN: `less b a ≡ false` is a ≤ b.
pub record DoubleLaws {D : Type 0} (d : Doubles D) : Type 0 where
  pub less_asym : (a b : D) → d.less a b ≡ true → d.less b a ≡ false
  pub less_trans : (a b c : D) → d.less a b ≡ false → d.less b c ≡ false → d.less a c ≡ false

-- A timer that has counted these times and no others.
pub record Covers {D : Type 0} (d : Doubles D) (laps : List D) (t : ClientTimer D) : Type 0 where
  pub counted : t.op_count ≡ int_of_size (length laps)
  pub lower : (x : D) → Memᴰ x laps → d.less x t.min ≡ false
  pub upper : (x : D) → Memᴰ x laps → d.less t.max x ≡ false
  pub lowest : (t.min ≡ d.nines) ⊎ Memᴰ t.min laps
  pub highest : (t.max ≡ d.nought) ⊎ Memᴰ t.max laps

-- The instants of a timer say nothing of the times that it has counted.
pub Covers-timed :
    {D : Type 0} (d : Doubles D) (laps : List D) (t : ClientTimer D) (start : ℕ) (elapsed : D)
    → Covers d laps t
    → Covers d laps (record t { start_time = start; elapsed_time = elapsed })
Covers-timed d laps t start elapsed c = record {
  counted = c.counted;
  lower = c.lower;
  upper = c.upper;
  lowest = c.lowest;
  highest = c.highest;
}

-- The sum of two `int`s is that of their patterns.
to_word-add : (a b : ℤ) → to_word (a +ℤ b) ≡ (to_word a + to_word b) % 2 ^ 32
to_word-add (pos n) (pos m) = ground arith
to_word-add (pos n) (negsuc m) = ground arith
to_word-add (negsuc n) (pos m) = ground arith
to_word-add (negsuc n) (negsuc m) = ground arith

to_word-int_of_size : (n : ℕ) → to_word (int_of_size n) ≡ n % 2 ^ 32
to_word-int_of_size n = ground arith

int_of_size-add : (n m : ℕ) → wrap (int_of_size n +ℤ int_of_size m) ≡ int_of_size (n + m)
int_of_size-add n m = ap of_word (
    sums (to_word-add (int_of_size n) (int_of_size m)) (to_word-int_of_size n)
      (to_word-int_of_size m))
  where
    sums :
        to_word (int_of_size n +ℤ int_of_size m)
          ≡ (to_word (int_of_size n) + to_word (int_of_size m)) % 2 ^ 32
        → to_word (int_of_size n) ≡ n % 2 ^ 32
        → to_word (int_of_size m) ≡ m % 2 ^ 32
        → to_word (int_of_size n +ℤ int_of_size m) ≡ (n + m) % 2 ^ 32
    sums e en em = e ∙ rw (en, em) (omega arith)

int_of_size-suc : (n : ℕ) → next (int_of_size n) ≡ int_of_size (n + 1)
int_of_size-suc n = int_of_size-add n 1

module _ {D : Type 0} (d : Doubles D) (laws : DoubleLaws d) where
  less_irrefl : (a : D) → d.less a a ≡ false
  less_irrefl a = elim (Bool-cases (d.less a a)) [ inl e ↦ laws.less_asym a a e | inr e ↦ e ]

  -- The lesser of two durations, as the timer picks it: below all that each of the two is below.
  abbrev lesser : D → D → D
  lesser e m = if d.less e m then e else m

  abbrev greater : D → D → D
  greater e m = if d.less m e then e else m

  lesser-lower : (e m : D) → (d.less e (lesser e m) ≡ false) × (d.less m (lesser e m) ≡ false)
  lesser-lower e m = elim (Bool-cases (d.less e m)) [
    | inl below ↦ rw below (less_irrefl e, laws.less_asym e m below)
    | inr above ↦ rw above (above, less_irrefl m)
  ]

  greater-upper : (e m : D) → (d.less (greater e m) e ≡ false) × (d.less (greater e m) m ≡ false)
  greater-upper e m = elim (Bool-cases (d.less m e)) [
    | inl above ↦ rw above (less_irrefl e, laws.less_asym m e above)
    | inr below ↦ rw below (below, less_irrefl m)
  ]

  lesser-of : (P : D → Type 0) (e m : D) → P e → P m → P (lesser e m)
  lesser-of P e m he hm = elim (Bool-cases (d.less e m)) [
    | inl below ↦ rw below he
    | inr above ↦ rw above hm
  ]

  greater-of : (P : D → Type 0) (e m : D) → P e → P m → P (greater e m)
  greater-of P e m he hm = elim (Bool-cases (d.less m e)) [
    | inl above ↦ rw above he
    | inr below ↦ rw below hm
  ]

  pub new_timer-Covers : (unset : D) → Covers d [] (new_timer d unset)
  new_timer-Covers unset = record {
    counted = refl;
    lower = λ x m. absurd (Memᴰ.not-nil m);
    upper = λ x m. absurd (Memᴰ.not-nil m);
    lowest = inl refl;
    highest = inl refl;
  }

  -- The timers of two clients, merged, cover the times of both.
  pub merge-Covers :
      (xs ys : List D) (t u : ClientTimer D)
      → Covers d xs t
      → Covers d ys u
      → Covers d (xs ++ ys) (merge d t u)
  merge-Covers xs ys t u a b = record {
    counted =
        ap (λ i. wrap (i +ℤ u.op_count)) a.counted
        ∙ ap (λ i. wrap (int_of_size (length xs) +ℤ i)) b.counted
        ∙ int_of_size-add (length xs) (length ys)
        ∙ ap int_of_size (sym (length-append xs ys));
    lower = λ x m. elim (Memᴰ.append_cases xs m) [
      | inl in_xs ↦ laws.less_trans x t.min _ (a.lower x in_xs) (lesser-lower u.min t.min).1
      | inr in_ys ↦ laws.less_trans x u.min _ (b.lower x in_ys) (lesser-lower u.min t.min).0
    ];
    upper = λ x m. elim (Memᴰ.append_cases xs m) [
      | inl in_xs ↦ laws.less_trans _ t.max x (greater-upper u.max t.max).1 (a.upper x in_xs)
      | inr in_ys ↦ laws.less_trans _ u.max x (greater-upper u.max t.max).0 (b.upper x in_ys)
    ];
    lowest =
        lesser-of (λ m. (m ≡ d.nines) ⊎ Memᴰ m (xs ++ ys)) u.min t.min (in_right xs b.lowest)
          (in_left ys a.lowest);
    highest =
        greater-of (λ m. (m ≡ d.nought) ⊎ Memᴰ m (xs ++ ys)) u.max t.max (in_right xs b.highest)
          (in_left ys a.highest);
  }
    where
      in_left :
          {m e : D} {xs : List D} (ys : List D) → (m ≡ e) ⊎ Memᴰ m xs → (m ≡ e) ⊎ Memᴰ m (xs ++ ys)
      in_left ys (inl e) = inl e
      in_left ys (inr m) = inr (Memᴰ.append_left ys m)

      in_right :
          {m e : D} (xs : List D) {ys : List D} → (m ≡ e) ⊎ Memᴰ m ys → (m ≡ e) ⊎ Memᴰ m (xs ++ ys)
      in_right xs (inl e) = inl e
      in_right xs (inr m) = inr (Memᴰ.append_right xs m)

  -- A lap counted is a timer of one lap merged, but for the sum.
  pub count_lap-Covers :
      (xs : List D) (t : ClientTimer D)
      → Covers d xs t
      → Covers d (xs ++ t.elapsed_time ∷ []) (count_lap d t)
  count_lap-Covers xs t a =
      let e = t.elapsed_time in
      let one : ClientTimer D = record t { op_count = pos 1; min = e; max = e } in
      let both = merge-Covers xs (e ∷ []) t one a (one_lap e) in
      record {
        counted = both.counted;
        lower = both.lower;
        upper = both.upper;
        lowest = both.lowest;
        highest = both.highest;
      }
    where
      one_lap : (e : D) → Covers d (e ∷ []) (record t { op_count = pos 1; min = e; max = e })
      one_lap e = record {
        counted = refl;
        lower = λ x m. rw (Memᴰ.eq_of_singleton m) (less_irrefl e);
        upper = λ x m. rw (Memᴰ.eq_of_singleton m) (less_irrefl e);
        lowest = inr (Memᴰ.head refl);
        highest = inr (Memᴰ.head refl);
      }
