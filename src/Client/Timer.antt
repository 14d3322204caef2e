-- ===== src/Client/Timer.antt =====
-- ClientTimer.cpp and ClientTimer.h: how long the exchanges of a client take. A duration is a `double`
-- of microseconds, whose arithmetic is a parameter.
pub mod Spread
use load_balancer_with_wal.Base.{ℕ, Bool, true, false, List, [], ◌∷◌, if◌then◌else◌, ◌≡◌, ◌⊎◌}
use load_balancer_with_wal.Base.Int.{ℤ, pos, ◌+ℤ◌, wrap, next}
use load_balancer_with_wal.Platform.{Platform}

-- what the program uses of `duration<double, std::micro>`
pub record Doubles (D : Type 0) : Type 0 where
  pub nought : D
  -- 9999999999.9f
  pub nines : D
  pub plus : D → D → D
  pub less : D → D → Bool
  -- from one instant of the clock to another
  pub between : ℕ → ℕ → D
  -- an `int` as a `double`, the quotient and the product of two, and 1000000.0f
  pub of_int : ℤ → D
  pub over : D → D → D
  pub times : D → D → D
  pub million : D

pub record ClientTimer (D : Type 0) : Type 0 where
  pub sum : D
  pub max : D
  pub min : D
  pub op_count : ℤ
  pub start_time : ℕ
  pub elapsed_time : D

-- The numbers that ClientTimer::PrintStats prints.
pub record Stats (D : Type 0) : Type 0 where
  pub avg_latency : D
  pub min_latency : D
  pub max_latency : D
  pub throughput : D

module _ {D : Type 0} (d : Doubles D) where
  -- ClientTimer::PrintStats
  unfoldable pub print_stats : ClientTimer D → Stats D
  print_stats t = record {
    avg_latency = d.over t.sum (d.of_int t.op_count);
    min_latency = t.min;
    max_latency = t.max;
    throughput = d.times (d.over (d.of_int t.op_count) t.elapsed_time) d.million;
  }

  -- ClientTimer::ClientTimer, which leaves `elapsed_time` unset
  abbrev pub new_timer : D → ClientTimer D
  new_timer unset = record {
    sum = d.nought;
    max = d.nought;
    min = d.nines;
    op_count = pos 0;
    start_time = 0;
    elapsed_time = unset;
  }

  -- what EndAndMerge does with the elapsed time
  abbrev pub count_lap : ClientTimer D → ClientTimer D
  count_lap t = record t {
    op_count = next t.op_count;
    sum = d.plus t.sum t.elapsed_time;
    min = if d.less t.elapsed_time t.min then t.elapsed_time else t.min;
    max = if d.less t.max t.elapsed_time then t.elapsed_time else t.max;
  }

  -- ClientTimer::Merge
  abbrev pub merge : ClientTimer D → ClientTimer D → ClientTimer D
  merge t timer = record t {
    sum = d.plus t.sum timer.sum;
    op_count = wrap (t.op_count +ℤ timer.op_count);
    min = if d.less timer.min t.min then timer.min else t.min;
    max = if d.less t.max timer.max then timer.max else t.max;
  }

  module _ {W : Type 0} (p : Platform W) where
    -- ClientTimer::Start
    abbrev pub timer_start : ClientTimer D → W → ClientTimer D × W
    timer_start t w = let (now, w') = p.now w in (record t { start_time = now }, w')

    -- ClientTimer::End
    abbrev pub timer_end : ClientTimer D → W → ClientTimer D × W
    timer_end t w =
        let (end_time, w') = p.now w in
        (record t { elapsed_time = d.between t.start_time end_time }, w')

    -- ClientTimer::EndAndMerge
    abbrev pub end_and_merge : ClientTimer D → W → ClientTimer D × W
    end_and_merge t w = let (t', w') = timer_end t w in (count_lap t', w')
