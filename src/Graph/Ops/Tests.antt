-- ===== src/Graph/Ops/Tests.antt =====
-- One operation of a solve node: a first run, a crash, a second run, and a late waiter.
use recertia.Prelude.{◌+◌, ◌≤◌, true, none, some, [], ◌≡◌, ◌⊎◌, refl, arith, if◌then◌else◌, raised}
use recertia.Graph.Ops.{
  OpKey, result, operation_conflict, get, put, waits, returns, fence_refused, pass, answered,
  raises, finish_op, count_for_node,
}
use recertia.Graph.Ops.Threads.{
  System, runs, enter, leave, restart, overdue, drop_count, Reach, done, later, enters, restarts,
}
use recertia.Graph.Ops.Once.{run_once-alone, run_once-returns}

abbrev op : OpKey
op = record { run_id = "r"; incarnation = 1; attempt_no = 1; node = "solve"; op_seq = 0 }

abbrev idle_system : System
idle_system = record { ops = record { rows = []; live_claims = [] }; running = [] }

-- The first run dies with the process; the second claims the row that it left.
abbrev crashed_and_retried : System
crashed_and_retried = enter true op (restart (enter true op idle_system))

abbrev retried : Reach idle_system crashed_and_retried
retried =
    later idle_system (enter true op idle_system) crashed_and_retried (enters true op idle_system) (
      later (enter true op idle_system) (restart (enter true op idle_system)) crashed_and_retried
        (restarts (enter true op idle_system))
        (later (restart (enter true op idle_system)) crashed_and_retried crashed_and_retried
          (enters true op (restart (enter true op idle_system))) (done crashed_and_retried)))

retried-runs : runs op crashed_and_retried ≡ 1
unfolding enter pass restart
retried-runs = refl

put_again :
    put op
      (result "1")
      (finish_op true op (answered (result "0")) none (pass true op idle_system.ops).1)
    ≡ raised operation_conflict
unfolding put finish_op pass
put_again = refl

failed_run : (finish_op true op raises none (pass true op idle_system.ops).1).rows ≡ []
unfolding finish_op pass
failed_run = refl

pending_not_counted : count_for_node op crashed_and_retried.ops ≡ 0
unfolding count_for_node enter pass restart
pending_not_counted = refl

-- A waiter drops the claim of the second run and begins a third one beside it.
abbrev taken_over : System
taken_over = enter true op (overdue op crashed_and_retried)

taken_over-runs : runs op taken_over ≡ 2
unfolding enter pass restart overdue
taken_over-runs = refl

run_once-alone_example :
    (runs op crashed_and_retried ≤ drop_count op idle_system crashed_and_retried retried + 1)
    × ((1 ≤ drop_count op idle_system crashed_and_retried retried)
        ⊎ ((runs op crashed_and_retried ≡ 0)
            ⊎ ((runs op crashed_and_retried ≡ 1)
                × ((pass true op crashed_and_retried.ops).0
                    ≡ (if true then waits else fence_refused)))))
run_once-alone_example = run_once-alone op idle_system crashed_and_retried true refl retried

run_once-returns_example :
    (runs op (leave true op (answered (result "0")) none crashed_and_retried) ≡ 0)
    × ((pass true op (leave true op (answered (result "0")) none crashed_and_retried).ops
          ≡ (returns "0", (leave true op (answered (result "0")) none crashed_and_retried).ops))
        × (get op (leave true op (answered (result "0")) none crashed_and_retried).ops ≡ some "0"))
unfolding enter pass restart
run_once-returns_example =
    run_once-returns op "0" none idle_system crashed_and_retried
      (leave true op (answered (result "0")) none crashed_and_retried) refl retried refl
      (omega arith) (done (leave true op (answered (result "0")) none crashed_and_retried))
