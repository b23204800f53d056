-- ===== src/Kernel/Proc/Tests.antt =====
-- A table with init and one child of it, both running, and runs on it.
use os_ass.Base.{ℕ, ◌≡◌, refl, true, false, List, [], ◌∷◌, none, some, update, nofile, arith}
use os_ass.Kernel.Proc.{unused, running, null, Proc, Table, find_loop, find_proc}
use os_ass.Kernel.Proc.Life.{FileOps, fork, exit, waitpid, close_loop, reaped}
use os_ass.Kernel.Proc.Calls.{kill, attachjob, attach_at}
use os_ass.Kernel.Proc.Wait.{Waits, waitpid_lem}
use os_ass.Kernel.Proc.Kill.{Kills, kill_lem}
use os_ass.Kernel.Proc.Family.{Family}
use os_ass.Kernel.Proc.Family.Births.{Forks}
use os_ass.Kernel.Proc.Family.Fork.{fork_lem}
use os_ass.Kernel.Proc.Family.Exit.{ended, exit-ended}
use os_ass.Kernel.Proc.Family.Ends.{Exits, exit_lem}
use os_ass.Kernel.Proc.Family.Steps.{start, later, forks, kills, Reach-Family}
use os_ass.Kernel.Proc.Family.Status.{waitpid-exit}

abbrev blank : Proc
blank = record {
  sz = 0;
  pgdir = 0;
  kstack = 0;
  state = unused;
  pid = 0;
  parent = none;
  eax = 0;
  tf = 0;
  chan = null;
  killed = false;
  ofile = λ k. 0;
  cwd = 0;
  name = [];
  exit_status = 0;
  job = 0;
  pending = 0;
  signal_handlers = λ k. 0;
}

abbrev two : Table
two = record {
  procs =
      update (update (λ k. blank) 0 (record blank { state = running; pid = 1 })) 1
        (record blank { state = running; pid = 2; parent = some 0; job = 40 });
  nextpid = 3;
  initproc = 0;
}

abbrev ops : FileOps (List ℕ)
ops = record {
  filedup = λ k fs. k ∷ fs;
  fileclose = λ k fs. k ∷ fs;
  idup = λ k fs. k ∷ fs;
  iput = λ k fs. k ∷ fs;
}

two-Family : Family two
two-Family = record {
  init_slot = omega arith;
  init_alive = refl;
  parent_slot = λ i j l e. ground (arith, e);
  parent_alive = λ i j l e. ground (arith, e);
  has_parent = λ i l n e s. ground (arith, n, e, s);
  no_parent = λ i l e. ground (arith, e);
  pid_used = λ i l. ground arith;
  pid_one = λ i j l g e d s. ground (arith, e, d, s);
}

waitpid_lem_example : Waits true none 0 two (waitpid true none 0 two).0 (waitpid true none 0 two).1
waitpid_lem_example = waitpid_lem true none 0 two

kill_lem_example : Kills 2 two (kill 2 two).0 (kill 2 two).1
kill_lem_example = kill_lem 2 two

fork_lem_example : Forks 7 8 1 two (fork ops 7 8 1 two []).0 (fork ops 7 8 1 two []).1
fork_lem_example = fork_lem ops 7 8 1 two [] refl

exit_lem_example : Exits 5 1 two (exit ops 5 1 two [])
exit_lem_example = exit_lem ops 5 1 two [] (omega arith) refl

Reach-Family_example : Family (kill 3 (fork ops 7 8 1 two []).1).1
Reach-Family_example =
    Reach-Family ops two (kill 3 (fork ops 7 8 1 two []).1).1 two-Family
      (later (later start (forks 7 8 1 [] (omega arith) refl)) (kills 3))

attached : (attachjob 2 44 two).0 ≡ some 2
unfolding attachjob attach_at find_proc find_loop
attached = refl

-- The child exits with status 5, and init waits for it.
waitpid-exit_example : (waitpid true (some 2) 0 (ended ops 5 1 two [])).0 ≡ reaped 2 5
waitpid-exit_example =
    waitpid-exit ops 5 1 0 two (ended ops 5 1 two []) []
      (ops.iput 0 (close_loop ops 0 nofile (λ k. 0) []).1) two-Family (omega arith) refl refl
      (omega arith) (exit-ended ops 5 1 two [] refl)
