-- ===== src/Kernel/Log/Tests.antt =====
-- The log's theorems on a small disk: the log starts at sector 100, and sector 5 has been changed.
use os_ass.Base.{
  ℕ, zero, suc, ◌≤◌, ◌<◌, ◌≡◌, ◌⊎◌, Bool, inl, inr, refl, false, [], some, update, arith,
}
use native.Mathlib.Decide.{ℕ_discrete}
use os_ass.Base.Outcome.{Outcome, ok, panic, ◌>>=◌}
use os_ass.Kernel.Log.{
  write_log, write_log_loop, write_head, write_head_loop, install_trans, install_loop, read_head,
  read_head_loop, copy, bwrite, Block, Log, Io, commit, recover_from_log, begin_op, end_op,
  end_op_leave, find_loop, log_write,
}
use os_ass.Kernel.Log.Replay.{content}
use os_ass.Kernel.Log.Commit.{IsReady, HeaderBelow, commit_atomic}
use os_ass.Kernel.Log.Recover.{booted, recover_lem, crash_atomic}
use os_ass.Kernel.Log.Transaction.{Written, log_write_lem, end_op_lem}
use os_ass.Kernel.Log.Reserve.{System, here, next, begins, reservation_suffices}

abbrev zeros : ℕ → Block
zeros s w = 0

abbrev ones : Block
ones w = 1

-- One operation in progress, which has written sector 5.
abbrev lg5 : Log
lg5 = record { start = 100; size = 31; outstanding = 1; committing = false; n = 1; sector = λ i. 5 }

abbrev io5 : ℕ → Io
io5 power = record { disk = zeros; view = update zeros 5 ones; power = power }

ready5 : (power : ℕ) → IsReady lg5 (io5 power)
ready5 power = record {
  below = λ j lo hi. omega arith;
  clean = refl;
  coherent = λ s lt. elim (ℕ_discrete 5 s) [
    | yes e ↦ inr (0, omega arith, omega arith, e)
    | no ne ↦ inl (ground arith)
  ];
}

-- Cut off after one write: the header is not on the disk.
commit_atomic_example :
    (1 ≤ 1 → (s : ℕ) → s < 100 → content 100 (commit lg5 (io5 1)).1.disk s ≡ zeros s)
    × (1 < 1
        → (s : ℕ) → s < 100
        → content 100 (commit lg5 (io5 1)).1.disk s ≡ update zeros 5 ones s)
    × (3 < 1
        → ((s : ℕ)
            → s < 100
            → ((commit lg5 (io5 1)).1.disk s ≡ update zeros 5 ones s)
              × ((commit lg5 (io5 1)).1.view s ≡ update zeros 5 ones s))
          × ((commit lg5 (io5 1)).1.disk 100 0 ≡ 0)
          × ((commit lg5 (io5 1)).0.n ≡ 0))
commit_atomic_example = commit_atomic lg5 (io5 1) (ready5 1)

-- A disk that was cut off after the header was written.
abbrev committed : ℕ → Block
committed = update (update zeros 100 (update (update (zeros 100) 0 1) 1 5)) 101 ones

committed-HeaderBelow : HeaderBelow 100 committed
committed-HeaderBelow zero lt = omega arith
committed-HeaderBelow (suc j) lt = absurd (omega arith)

recover_lem_example :
    ((s : ℕ)
      → s < 100
      → content 100 (recover_from_log lg5 (booted committed 9)).1.disk s ≡ content 100 committed s)
    × (1 < 9
        → ((s : ℕ)
            → s < 100
            → (recover_from_log lg5 (booted committed 9)).1.disk s ≡ content 100 committed s)
          × IsReady
              (recover_from_log lg5 (booted committed 9)).0
              (recover_from_log lg5 (booted committed 9)).1)
recover_lem_example = recover_lem lg5 committed 9 committed-HeaderBelow

-- One entry is still on the disk after the two crashes below.
one_entry :
    (let d1 = (commit lg5 (io5 2)).1.disk in (recover_from_log lg5 (booted d1 1)).1.disk 100 0) ≡ 1
unfolding commit recover_from_log write_log write_log_loop write_head write_head_loop install_trans
    install_loop read_head read_head_loop copy bwrite
one_entry = refl

-- The commit stops after its header, the first recovery after one write.
crash_atomic_example :
    let d1 = (commit lg5 (io5 2)).1.disk in
    let d2 = (recover_from_log lg5 (booted d1 1)).1.disk in
    let d3 = (recover_from_log lg5 (booted d2 9)).1.disk in
    ((s : ℕ) → s < 100 → d3 s ≡ zeros s) ⊎ ((s : ℕ) → s < 100 → d3 s ≡ update zeros 5 ones s)
crash_atomic_example = crash_atomic lg5 (io5 2) 1 9 (ready5 2) (rw one_entry (omega arith))

log_write_lem_example :
    (r : Log × Io) × (log_write 7 ones lg5 (io5 9) ≡ ok r) × Written 7 ones lg5 (io5 9) r
log_write_lem_example =
    log_write_lem 7 ones lg5 (io5 9) (ready5 9) (λ i j a c e. omega arith) (omega arith)
      (omega arith) (omega arith) (omega arith)

end_op_lem_example :
    (1 < 1 → end_op lg5 (io5 9) ≡ ok (record lg5 { outstanding = 0 }, io5 9))
    × (◌≡◌ {A = ℕ} 1 1
        → 3 < 9
        → (r : Log × Io) × (end_op lg5 (io5 9) ≡ ok r)
          × ((s : ℕ)
              → s < 100
              → (r.1.disk s ≡ update zeros 5 ones s) × (r.1.view s ≡ update zeros 5 ones s))
          × IsReady r.0 r.1
          × (r.0.n ≡ 0)
          × (r.0.outstanding ≡ 0)
          × (r.0.committing ≡ false))
end_op_lem_example = end_op_lem lg5 (io5 9) (ready5 9) refl

abbrev fresh : ℕ → System
fresh size = record {
  lg = record lg5 { size = size; outstanding = 0; n = 0 };
  io = booted zeros 99;
  quotas = [];
}

begin_fresh : begin_op (fresh 30).lg ≡ some (record (fresh 30).lg { outstanding = 1 })
unfolding begin_op
begin_fresh = refl

-- The log that mkfs.c makes, with one operation.
reservation_suffices_example :
    (((r : Log × Io) × (log_write 7 ones
            (record (fresh 30).lg { outstanding = 1 })
            (booted zeros 99)
          ≡ ok r))
      ⊎ ((◌≡◌ {A = ℕ} 30 30)
          × (◌≡◌ {A = ℕ} 0 29)
          × (◌≡◌ {A = ℕ} 10 1)
          × (log_write 7 ones (record (fresh 30).lg { outstanding = 1 }) (booted zeros 99)
              ≡ panic "too big a transaction")))
    × (false ≡ false)
    × ((r : Log × Bool) × (end_op_leave (record (fresh 30).lg { outstanding = 1 }) ≡ ok r))
reservation_suffices_example =
    reservation_suffices {s = fresh 30}
      (record { none_running = refl; outstanding = refl; idle = refl; empty = refl }) (omega arith)
      (next here (begins begin_fresh)) 0 9 7 ones (omega arith) refl

-- `count` blocks in a row, of sectors `count`, …, 1
writes : ℕ → Log → Io → Outcome (Log × Io)
writes zero lg io = ok (lg, io)
writes (suc k) lg io = log_write (suc k) ones lg io >>= λ r. writes k r.0 r.1

-- Three operations reserve 30 blocks. In the log of 30 sectors that mkfs.c makes the last of them
-- panics; one sector more is enough.
thirty_in_thirty :
    (writes 30 (record lg5 { size = 30; outstanding = 3; n = 0 }) (booted zeros 99)
      ≡ panic "too big a transaction")
unfolding writes log_write find_loop
thirty_in_thirty = refl
