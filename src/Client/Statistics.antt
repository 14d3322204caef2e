-- ===== src/Client/Statistics.antt =====
-- The statistics that Client::run merges from its threads.
use load_balancer_with_wal.Base.{ℕ, subst, sym, List, [], ◌∷◌, ◌++◌, append_assoc, append-nil, All}
use load_balancer_with_wal.Platform.{Platform}
use load_balancer_with_wal.Client.{merge_timers, finish_run}
use load_balancer_with_wal.Client.Timer.{Doubles, ClientTimer, new_timer, merge}
use load_balancer_with_wal.Client.Timer.Spread.{
  DoubleLaws, Covers, Covers-timed, new_timer-Covers, merge-Covers,
}

module _ {W D : Type 0} (p : Platform W) (d : Doubles D) (laws : DoubleLaws d) where
  -- the times of the threads together
  abbrev pub all_laps : List (List D × ClientTimer D) → List D
  all_laps [] = []
  all_laps ((laps, _) ∷ more) = laps ++ all_laps more

  abbrev pub timers : List (List D × ClientTimer D) → List (ClientTimer D)
  timers [] = []
  timers ((_, t) ∷ more) = t ∷ timers more

  merge_timers-Covers :
      (clients : List (List D × ClientTimer D)) (seen : List D) (t : ClientTimer D)
      → Covers d seen t
      → All (λ c. Covers d c.0 c.1) clients
      → Covers d (seen ++ all_laps clients) (merge_timers p d t (timers clients))
  unfolding merge_timers
  merge_timers-Covers [] seen t c cs = subst (λ xs. Covers d xs t) (sym (append-nil seen)) c
  merge_timers-Covers ((laps, u) ∷ more) seen t c cs =
      subst (λ xs. Covers d xs (merge_timers p d (merge d t u) (timers more)))
        (append_assoc seen laps (all_laps more))
        (merge_timers-Covers more (seen ++ laps) (merge d t u)
          (merge-Covers d laws seen laps t u c cs.0) cs.1)

  -- Where each thread's timer has counted some times, the statistics after the threads have been joined
  -- count the times of all of them, and keep the least and the greatest of all. The durations are not NaN.
  pub finish_run-Covers :
      (clients : List (List D × ClientTimer D)) (unset : D) (start : ℕ) (w : W)
      → All (λ c. Covers d c.0 c.1) clients
      → Covers d
          (all_laps clients)
          (finish_run p d (record (new_timer d unset) { start_time = start }) (timers clients) w).0
  unfolding finish_run
  finish_run-Covers clients unset start w cs =
      merge_timers-Covers clients [] _
        (Covers-timed d [] (new_timer d unset) start _ (new_timer-Covers d laws unset)) cs
