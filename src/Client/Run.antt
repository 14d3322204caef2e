-- ===== src/Client/Run.antt =====
-- Client.cpp: run, print_perf_metric and main. The threads of the customers run beside each other, so what
-- the system makes of them until they have been joined is a parameter.
use load_balancer_with_wal.Base.{
  ℕ, zero, suc, ◌+◌, ◌<◌, ◌^◌, ◌≡◌, refl, ◌∙◌, ap, ◌⊎◌, inl, inr, true, false, ◌||◌, Option, none,
  some, List, [], ◌∷◌, All, length, if◌then◌else◌, Result, ok, fault, arith,
}
use load_balancer_with_wal.Base.Int.{ℤ, pos, pos_part, ◌+ℤ◌, wrap, next, int_of_size, eq_ℤ}
use load_balancer_with_wal.Platform.{Platform}
use load_balancer_with_wal.Client.{
  Client, Line, print_record, merge_timers, finish_run, customer_ids, client_of_args,
}
use load_balancer_with_wal.Client.Timer.{
  Doubles, ClientTimer, Stats, print_stats, new_timer, merge, timer_start,
}
use load_balancer_with_wal.Client.Timer.Spread.{DoubleLaws, Covers}
use load_balancer_with_wal.Client.Statistics.{all_laps, timers, finish_run-Covers}
use mathlib.Core.List.{Memᴰ}

-- The threads of these customers, started in order and joined: the timers that GetTimer gives of each.
abbrev pub Joined : Type 0 → Type 0 → Type 0
Joined W D = List ℤ → W → List (ClientTimer D) × W

module _ {W D : Type 0} (p : Platform W) (d : Doubles D) where
  -- Client::run; the only thread of request type 3 is that of print_record
  unfoldable pub run : Joined W D → Client → ClientTimer D → W → List Line × ClientTimer D × W
  run joined client timer w =
      if eq_ℤ client.request_type (pos 3)
      then (let (lines, w') =
            print_record p client.server_addr_str client.port_addr client.orders (pos 3000) w in
          (lines, timer, w'))
      else (let (t1, w1) = timer_start d p timer w in
          let (client_timers, w2) = joined (customer_ids (pos_part client.customers) (pos 0)) w1 in
          let (t2, w3) = finish_run p d t1 client_timers w2 in ([], t2, w3))

  -- main: the lines that print_record prints, and the numbers of print_perf_metric
  unfoldable pub client_main :
      (List ℕ → ℤ)
      → (Client → Joined W D)
      → D
      → List (List ℕ)
      → W
      → Result (List Line × Option (Stats D) × W)
  unfolding run
  client_main atoi joined unset argv w = elim (client_of_args atoi argv) [
    | fault e ↦ fault e
    | ok client ↦
        let (lines, timer, w') = run (joined client) client (new_timer d unset) w in
        if eq_ℤ client.request_type (pos 1) || eq_ℤ client.request_type (pos 2)
        then ok (lines, some (print_stats d timer), w')
        else ok (lines, none, w')
  ]

-- The ids of n customers from k on.
abbrev pub ids_from : ℕ → ℕ → List ℤ
ids_from k zero = []
ids_from k (suc n) = pos k ∷ ids_from (suc k) n

id_at : (k : ℕ) → k + 3000 < 2 ^ 31 → wrap (pos k +ℤ pos 3000) ≡ pos (k + 3000)
id_at k h = ground arith

next-pos : (k : ℕ) → k + 1 < 2 ^ 31 → next (pos k) ≡ pos (suc k)
next-pos k h = ground arith

customer_ids-ids_from :
    (n k : ℕ) → n + k + 3000 < 2 ^ 31 → customer_ids n (pos k) ≡ ids_from (k + 3000) n
unfolding customer_ids
customer_ids-ids_from zero k h = refl
customer_ids-ids_from (suc n) k h =
    rw (id_at k (omega arith), next-pos k (omega arith))
      (ap (λ ids. pos (k + 3000) ∷ ids)
        (customer_ids-ids_from n (suc k) (omega arith) ∙ ap (λ j. ids_from j n) (one_on k)))
  where
    one_on : (k : ℕ) → suc k + 3000 ≡ suc (k + 3000)
    one_on k = omega arith

module _ {W D : Type 0} (p : Platform W) (d : Doubles D) (laws : DoubleLaws d) where
  not_records : (type : ℕ) → (type ≡ 1) ⊎ (type ≡ 2) → eq_ℤ (pos type) (pos 3) ≡ false
  not_records type (inl one) = rw one refl
  not_records type (inr two) = rw two refl

  timed :
      (type : ℕ)
      → (type ≡ 1) ⊎ (type ≡ 2)
      → (eq_ℤ (pos type) (pos 1) || eq_ℤ (pos type) (pos 2)) ≡ true
  timed type (inl one) = rw one refl
  timed type (inr two) = rw two refl

  -- The run of a client whose threads place orders or read records.
  run-joined :
      (joined : Joined W D) (client : Client) (n type : ℕ) (timer : ClientTimer D)
      (client_timers : List (ClientTimer D)) (w w2 : W)
      → client.customers ≡ pos n
      → n + 3000 < 2 ^ 31
      → client.request_type ≡ pos type
      → (type ≡ 1) ⊎ (type ≡ 2)
      → joined (ids_from 3000 n) (p.now w).1 ≡ (client_timers, w2)
      → let ended = finish_run p d (record timer { start_time = (p.now w).0 }) client_timers w2 in
        run p d joined client timer w ≡ ([], ended.0, ended.1)
  unfolding run
  run-joined joined client n type timer client_timers w w2 many room kind one_or_two ran =
      let ids : customer_ids (pos_part client.customers) (pos 0) ≡ ids_from 3000 n =
        ap (λ c. customer_ids (pos_part c) (pos 0)) many
        ∙ customer_ids-ids_from n 0 (omega arith) in
      rw (kind, not_records type one_or_two, run)
        (ap
          (λ (r : List (ClientTimer D) × W).
            let ended = finish_run p d (record timer { start_time = (p.now w).0 }) r.0 r.1 in
            ([], ended.0, ended.1))
          (ap (λ is. joined is (p.now w).1) ids ∙ ran))

  -- What the client prints of the times of all threads.
  pub record Reports (laps : List D) (elapsed : D) (stats : Stats D) : Type 0 where
    pub lower : (x : D) → Memᴰ x laps → d.less x stats.min_latency ≡ false
    pub upper : (x : D) → Memᴰ x laps → d.less stats.max_latency x ≡ false
    pub least : (stats.min_latency ≡ d.nines) ⊎ Memᴰ stats.min_latency laps
    pub greatest : (stats.max_latency ≡ d.nought) ⊎ Memᴰ stats.max_latency laps
    pub rate :
        stats.throughput ≡ d.times (d.over (d.of_int (int_of_size (length laps))) elapsed) d.million

  merge_timers-elapsed :
      (t : ClientTimer D) (ts : List (ClientTimer D))
      → (merge_timers p d t ts).elapsed_time ≡ t.elapsed_time
  unfolding merge_timers
  merge_timers-elapsed t [] = refl
  merge_timers-elapsed t (u ∷ ts) = merge_timers-elapsed (merge d t u) ts

  finish_run-elapsed :
      (t : ClientTimer D) (ts : List (ClientTimer D)) (w : W)
      → (finish_run p d t ts w).0.elapsed_time ≡ d.between t.start_time (p.now w).0
  unfolding finish_run
  finish_run-elapsed t ts w = merge_timers-elapsed _ ts

  Covers-Reports :
      (laps : List D) (elapsed : D) (t : ClientTimer D)
      → Covers d laps t
      → t.elapsed_time ≡ elapsed
      → Reports laps elapsed (print_stats d t)
  unfolding print_stats
  Covers-Reports laps elapsed t c same = record {
    lower = c.lower;
    upper = c.upper;
    least = c.lowest;
    greatest = c.highest;
    rate = rw (c.counted, same) refl;
  }

  -- Called with an address, a port, n customers, a number of orders and the request type 1 or 2, the program
  -- starts a thread for each of the customers 3000 to 3000 + n - 1, in order, where n is below 2 ^ 31 - 3000.
  -- Where the timer of each has counted some times, or none, when the threads have been joined, it prints as
  -- the least time one of the times of all threads, or the 9999999999.9 that a timer starts with, and no time
  -- is below it; as the greatest one of the times, or the 0 that a timer starts with, and no time is above it;
  -- and as the throughput the number of the times over the time from its start to the end of the threads. The
  -- durations are not NaN.
  pub client_main-Reports :
      (atoi : List ℕ → ℤ) (joined : Client → Joined W D) (unset : D)
      (program ip port customers orders request_type : List ℕ) (n type : ℕ)
      (clients : List (List D × ClientTimer D)) (w w2 : W)
      → atoi customers ≡ pos n
      → n + 3000 < 2 ^ 31
      → atoi request_type ≡ pos type
      → (type ≡ 1) ⊎ (type ≡ 2)
      → let client : Client = record {
        server_addr_str = ip;
        port_addr = atoi port;
        customers = pos n;
        orders = atoi orders;
        request_type = pos type;
      } in
        joined client (ids_from 3000 n) (p.now w).1 ≡ (timers p d laws clients, w2)
        → All (λ c. Covers d c.0 c.1) clients
        → (stats : Stats D) × (client_main p d atoi joined unset
              (program ∷ ip ∷ port ∷ customers ∷ orders ∷ request_type ∷ [])
              w
            ≡ ok ([], some stats, (p.now w2).1))
          × Reports (all_laps p d laws clients) (d.between (p.now w).0 (p.now w2).0) stats
  unfolding client_main client_of_args finish_run
  client_main-Reports atoi joined unset program ip port customers orders request_type n type clients
        w w2 many room kind one_or_two ran cs =
      let client : Client = record {
        server_addr_str = ip;
        port_addr = atoi port;
        customers = pos n;
        orders = atoi orders;
        request_type = pos type;
      } in
      let begun : ClientTimer D = record (new_timer d unset) { start_time = (p.now w).0 } in
      let ended = finish_run p d begun (timers p d laws clients) w2 in
      (
        print_stats d ended.0,
        rw (many, kind, client_main)
            (rw (timed type one_or_two) (
              ap (λ (r : List Line × ClientTimer D × W). ok (r.0, some (print_stats d r.1), r.2))
                (run-joined (joined client) client n type (new_timer d unset)
                  (timers p d laws clients) w w2 refl room refl one_or_two ran))),
        Covers-Reports (all_laps p d laws clients) _ ended.0
            (finish_run-Covers p d laws clients unset (p.now w).0 w2 cs)
            (finish_run-elapsed begun (timers p d laws clients) w2),
      )
