-- ===== src/Server/Threads/Engineers.antt =====
-- What a turn of an engineer thread does to the lists.
use load_balancer_with_wal.Base.{
  ℕ, Bool, true, false, Bool-cases, Option, none, some, [], ◌∷◌, ◌++◌, if◌then◌else◌, ◌≡◌, refl,
  ◌∙◌, sym, ap, subst, ◌⊎◌, inl, inr, Result, ok, fault,
}
use load_balancer_with_wal.Base.Int.{ℤ, pos, eq_ℤ}
use load_balancer_with_wal.Platform.{Platform}
use load_balancer_with_wal.RobotFactory.{OrderInf, RobotInf}
use load_balancer_with_wal.CommitLog.{sync}
use load_balancer_with_wal.ServerStub.{receive_request, ship_robot, return_record}
use load_balancer_with_wal.Server.State.{Server, Exec, pure, ◌>>◌, get_server, modify, net}
use load_balancer_with_wal.Server.Engineer.{
  assemble_robot, enqueue, place_order, place_commit_notice, engineer_thread_read_def, record_of,
}
use load_balancer_with_wal.Server.Threads.{
  Phase, listening, ordering, reading, waiting, notifying, noticed, leaving, gone, Engineer, heard,
  listen, ship, leave, engineer_turn, robot_behind,
}
use load_balancer_with_wal.Server.Threads.Frames.{
  SameJobs, Leaves, Gives, pure-Gives, bind-Gives, if-Gives, net-Leaves, pure-Leaves, bind-Leaves,
  if-Leaves, get_server-Leaves, recheck_allow-Leaves,
}

-- An engineer that does not wait for an order.
abbrev pub Free : Phase → Type 0
Free phase = (make_order : OrderInf) (n : ℕ) → phase ≡ waiting make_order n → ⊥

-- A turn leaves the lists alone, or pushes one job behind them; an engineer that waits afterwards
-- waits for this job, which is the robot of its order.
pub data Effect (n : ℕ) (s : Server) (e' : Engineer) (s' : Server) : Type 0 where
  stays : SameJobs s s' → Free e'.phase → Effect n s e' s'
  pushes :
      (robot : RobotInf)
      → s'.admin_thread_list ≡ s.admin_thread_list ++ robot ∷ []
      → s'.barrier_list ≡ s.barrier_list ++ n ∷ []
      → s'.fulfilled ≡ s.fulfilled
      → ((make_order : OrderInf) (m : ℕ)
          → e'.phase ≡ waiting make_order m
          → (m ≡ n) × (robot ≡ assemble_robot make_order e'.eng_id))
      → Effect n s e' s'

abbrev FreeAfter : Option Engineer → Type 0
FreeAfter none = Unit {0}
FreeAfter (some e) = Free e.phase

abbrev is_waiting : Phase → Bool
is_waiting (waiting _ _) = true
is_waiting _ = false

pub free : (phase : Phase) → is_waiting phase ≡ false → Free phase
free phase h o n same = true_not (sym (ap is_waiting same) ∙ h)
  where
    true_not : true ≡ false → ⊥
    true_not x = cc

heard-Free : (o : OrderInf) (e : Engineer) → Free e.phase → Free (heard o e).phase
unfolding heard
heard-Free o e h = elim (Bool-cases (eq_ℤ o.request_type (pos 1))) [
  | inl one ↦ rw one (free _ refl)
  | inr other ↦ elim (Bool-cases (eq_ℤ o.request_type (pos 2))) [
    | inl two ↦ rw (other, two) (free _ refl)
    | inr none_of ↦ rw (other, none_of) h
  ]
]

module _ {W : Type 0} (p : Platform W) where
  listen-Leaves : (e : Engineer) → Leaves (listen p e)
  unfolding listen
  listen-Leaves e = bind-Leaves _ _ (net-Leaves (p.peek e.sock 12)) λ peeked.
      if-Leaves (eq_ℤ peeked (pos 0)) _ _
        (pure-Leaves (
          some (record e {
            phase = if eq_ℤ e.send_last_committed_index (pos 0) then leaving else notifying;
          })))
        (bind-Leaves (net (receive_request p e.sock)) _ (net-Leaves (receive_request p e.sock))
          received)
    where
      received :
          (got : Option OrderInf)
          → Leaves (elim got as (λ _. Exec W (Option Engineer)) [
            | none ↦ pure (some (record e { phase = gone }))
            | some make_order ↦ pure (some (heard make_order e))
          ])
      received none = pure-Leaves (some (record e { phase = gone }))
      received (some o) = pure-Leaves (some (heard o e))

  listen-Gives : (e : Engineer) → Free e.phase → Gives FreeAfter (listen p e)
  unfolding listen
  listen-Gives e h = bind-Gives FreeAfter (net (p.peek e.sock 12)) _ λ peeked.
      if-Gives FreeAfter (eq_ℤ peeked (pos 0)) _ _
        (pure-Gives FreeAfter
          (some (record e {
            phase = if eq_ℤ e.send_last_committed_index (pos 0) then leaving else notifying;
          }))
          (quits (Bool-cases (eq_ℤ e.send_last_committed_index (pos 0)))))
        (bind-Gives FreeAfter (net (receive_request p e.sock)) _ received)
    where
      quits : {q : Bool} → (q ≡ true) ⊎ (q ≡ false) → Free (if q then leaving else notifying)
      quits (inl x) = rw x (free _ refl)
      quits (inr x) = rw x (free _ refl)

      received :
          (got : Option OrderInf)
          → Gives FreeAfter (elim got as (λ _. Exec W (Option Engineer)) [
            | none ↦ pure (some (record e { phase = gone }))
            | some make_order ↦ pure (some (heard make_order e))
          ])
      received none = pure-Gives FreeAfter (some (record e { phase = gone })) (free _ refl)
      received (some o) = pure-Gives FreeAfter (some (heard o e)) (heard-Free o e h)

  ship-Leaves : (e : Engineer) (got : Option RobotInf) → Leaves (ship p e got)
  unfolding ship
  ship-Leaves e none = pure-Leaves none
  ship-Leaves e (some robot) =
      bind-Leaves _ _ (net-Leaves (ship_robot p e.sock robot))
        λ _. pure-Leaves (some (record e { phase = listening }))

  ship-Gives : (e : Engineer) (got : Option RobotInf) → Gives FreeAfter (ship p e got)
  unfolding ship
  ship-Gives e none = pure-Gives FreeAfter none tt
  ship-Gives e (some robot) =
      bind-Gives FreeAfter (net (ship_robot p e.sock robot)) _
        λ _. pure-Gives FreeAfter (some (record e { phase = listening })) (free _ refl)

  leave-Leaves : (e : Engineer) → Leaves (leave p e)
  unfolding leave
  leave-Leaves e = bind-Leaves _ _ (net-Leaves (λ w. (tt, sync p w))) λ _.
      bind-Leaves _ _ (net-Leaves (λ w. (tt, p.close e.sock w))) λ _.
        bind-Leaves _ _ (recheck_allow-Leaves (pos 1))
          λ _. pure-Leaves (some (record e { phase = gone }))

  leave-Gives : (e : Engineer) → Gives FreeAfter (leave p e)
  unfolding leave
  leave-Gives e = bind-Gives FreeAfter (net (λ w. (tt, sync p w))) _ λ _.
      bind-Gives FreeAfter (net (λ w. (tt, p.close e.sock w))) _ λ _.
        bind-Gives FreeAfter (modify (λ s. record s { recheck_allow = pos 1 })) _
          λ _. pure-Gives FreeAfter (some (record e { phase = gone })) (free _ refl)

  read-Leaves : (sock : ℤ) (o : OrderInf) → Leaves (engineer_thread_read_def p sock o)
  unfolding engineer_thread_read_def
  read-Leaves sock o = bind-Leaves get_server _ get_server-Leaves λ s.
      bind-Leaves _ _ (net-Leaves (return_record p sock (record_of s o.customer_id)))
        λ _. pure-Leaves tt

  abbrev After : ℕ → Server → Option Engineer × Server → Type 0
  After n s (none, t) = Unit {0}
  After n s (some e, t) = Effect n s e t

  abbrev end_or :
      Option Engineer × Server → Result (Option Engineer × Server × W) → Option Engineer × Server
  end_or x (ok (e, t, _)) = (e, t)
  end_or x (fault _) = x

  quiet_turn :
      {n : ℕ} {s s' : Server} {w w' : W} {e' : Engineer} (m : Exec W (Option Engineer))
      → Leaves m
      → Gives FreeAfter m
      → m s w ≡ ok (some e', s', w')
      → Effect n s e' s'
  quiet_turn {s} {s'} {w} {w'} {e'} m hl hg done =
      stays (hl s s' w w' (some e') done) (hg s s' w w' (some e') done)

  -- A turn of an engineer thread that does not have to wait.
  pub engineer_turn-Effect :
      (n : ℕ) (e : Engineer) (phase : Phase) (s s' : Server) (w w' : W) (e' : Engineer)
      → e.phase ≡ phase
      → engineer_turn p n e phase s w ≡ ok (some e', s', w')
      → Effect n s e' s'
  unfolding engineer_turn place_order place_commit_notice enqueue
  engineer_turn-Effect n e listening s s' w w' e' at done =
      quiet_turn (listen p e) (listen-Leaves e) (listen-Gives e (rw at (free listening refl))) done
  engineer_turn-Effect n e (ordering o) s s' w w' e' at done =
      subst (After n s) (ap (end_or (none, s)) done)
        (pushes (assemble_robot o e.eng_id) refl refl refl waits)
    where
      waits :
          (o' : OrderInf) (m : ℕ)
          → waiting o n ≡ waiting o' m
          → (m ≡ n) × (assemble_robot o e.eng_id ≡ assemble_robot o' e.eng_id)
      waits o' m same = (cc, ap (λ q. assemble_robot q e.eng_id) cc)
  engineer_turn-Effect n e (reading o) s s' w w' e' at done =
      quiet_turn
        (engineer_thread_read_def p e.sock o >> pure (some (record e { phase = listening })))
        (bind-Leaves _ _ (read-Leaves e.sock o)
          λ _. pure-Leaves (some (record e { phase = listening })))
        (bind-Gives FreeAfter (engineer_thread_read_def p e.sock o) _
          λ _. pure-Gives FreeAfter (some (record e { phase = listening })) (free listening refl))
        done
  engineer_turn-Effect n e (waiting o m) s s' w w' e' at done =
      quiet_turn (ship p e (robot_behind m s.fulfilled)) (ship-Leaves e _) (ship-Gives e _) done
  engineer_turn-Effect n e notifying s s' w w' e' at done =
      subst (After n s) (ap (end_or (none, s)) done)
        (pushes _ refl refl refl (λ o m same. absurd (free (noticed n) refl o m same)))
  engineer_turn-Effect n e (noticed m) s s' w w' e' at done = go (robot_behind m s.fulfilled) done
    where
      go :
          (got : Option RobotInf)
          → (elim got as (λ _. Exec W (Option Engineer)) [
            | none ↦ pure none
            | some _ ↦ pure (some (record e { phase = leaving }))
          ])
              s w
            ≡ ok (some e', s', w')
          → Effect n s e' s'
      go none done = quiet_turn (pure none) (pure-Leaves none) (pure-Gives FreeAfter none tt) done
      go (some _) done =
          quiet_turn (pure (some (record e { phase = leaving })))
            (pure-Leaves (some (record e { phase = leaving })))
            (pure-Gives FreeAfter (some (record e { phase = leaving })) (free leaving refl)) done
  engineer_turn-Effect n e leaving s s' w w' e' at done =
      quiet_turn (leave p e) (leave-Leaves e) (leave-Gives e) done
  engineer_turn-Effect n e gone s s' w w' e' at done =
      quiet_turn (pure none) (pure-Leaves none) (pure-Gives FreeAfter none tt) done
