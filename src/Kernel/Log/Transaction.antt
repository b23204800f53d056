-- ===== src/Kernel/Log/Transaction.antt =====
-- `log_write` and `end_op` keep the log ready for a commit.
use os_ass.Base.{
  ℕ, zero, suc, ◌+◌, ◌-◌, ◌≤◌, ◌<◌, ◌≡◌, ◌≢◌, inl, inr, refl, sym, subst, ◌∙◌, true, false,
  Bool-cases, ◌==◌, if◌then◌else◌, update, arith, logsize, ==→eq,
}
use native.Mathlib.Decide.{ℕ_discrete, dec_lt}
use os_ass.Base.Outcome.{ok}
use os_ass.Kernel.Log.{
  Block, Log, Io, commit, end_op_leave, end_op_commit, end_op, find_loop, log_write,
}
use os_ass.Kernel.Log.Replay.{Logged}
use os_ass.Kernel.Log.Commit.{IsReady, commit_atomic}

-- The search ends at the first entry for the sector, or behind the last entry.
pub record Found (r i : ℕ) (sector : ℕ → ℕ) (s k : ℕ) : Type 0 where
  pub from : i ≤ k
  pub to : k ≤ i + r
  pub hit : k < i + r → sector k ≡ s
  pub miss : (j : ℕ) → i ≤ j → j < k → sector j ≢ s

find_loop-Found : (r i : ℕ) (sector : ℕ → ℕ) (s : ℕ) → Found r i sector s (find_loop r i sector s)
unfolding find_loop
find_loop-Found zero i sector s = record {
  from = omega arith;
  to = omega arith;
  hit = λ h. absurd (omega arith);
  miss = λ j lo hi. absurd (omega arith);
}
find_loop-Found (suc r) i sector s = elim (Bool-cases (sector i == s)) [
  | inl e ↦ rw e (record {
    from = omega arith;
    to = omega arith;
    hit = λ h. ==→eq (sector i) s e;
    miss = λ j lo hi. absurd (omega arith);
  })
  | inr ne ↦
      let ih = find_loop-Found r (i + 1) sector s in
      let a = ih.from in
      let b = ih.to in
      rw ne (record {
        from = omega arith;
        to = omega arith;
        hit = λ h. ih.hit (omega arith);
        miss = λ j lo hi. elim (ℕ_discrete i j) [
          | yes here ↦ ground arith
          | no later ↦ ih.miss j (omega arith) hi
        ];
      })
]

-- The entries are distinct, which log absorption sees to.
abbrev pub IsDistinct : Log → Type 0
IsDistinct lg = (i j : ℕ) → i < lg.n → j < lg.n → lg.sector i ≡ lg.sector j → i ≡ j

-- What a `log_write` that does not panic has done.
pub record Written (s : ℕ) (b : Block) (lg : Log) (io : Io) (r : Log × Io) : Type 0 where
  pub ready : IsReady r.0 r.1
  pub distinct : IsDistinct r.0
  pub data_new : r.1.view s ≡ b
  pub data_kept : (t : ℕ) → s ≢ t → r.1.view t ≡ io.view t
  pub nothing_on_disk : r.1.disk ≡ io.disk
  pub logged : Logged r.0.sector 0 r.0.n s
  pub absorbed : Logged lg.sector 0 lg.n s → r.0.n ≡ lg.n
  pub appended : (Logged lg.sector 0 lg.n s → ⊥) → r.0.n ≡ lg.n + 1
  pub reserved : r.0.outstanding ≡ lg.outstanding

module _ (s : ℕ) (b : Block) (lg : Log) (io : Io) where
  abbrev place : ℕ
  place = find_loop lg.n 0 lg.sector s

  abbrev written : Log × Io
  written = (
    record lg { sector = update lg.sector place s; n = if place == lg.n then lg.n + 1 else lg.n },
    record io { view = update io.view s b },
  )

  written-Written : IsReady lg io → IsDistinct lg → s < lg.start → Written s b lg io written
  written-Written ready distinct below =
      let f = find_loop-Found lg.n 0 lg.sector s in
      let lo = f.from in
      let hi = f.to in
      record {
        ready = record {
          below = λ j a c. let old = ready.below j in ground (arith, old);
          clean = ready.clean;
          coherent = λ t lt. elim (ℕ_discrete s t) [
            | yes e ↦ inr (place, omega arith, ground arith, ground arith)
            | no ne ↦ (elim (ready.coherent t lt) [
              | inl e ↦ inl (ground arith)
              | inr (j, a, c, q) ↦ inr (j, a, ground arith, ground (arith, f.hit))
            ])
          ];
        };
        distinct = λ i j a c q. ground (arith, distinct i j, f.miss i, f.miss j, f.hit);
        data_new = ground arith;
        data_kept = λ t ne. ground arith;
        nothing_on_disk = refl;
        logged = (place, omega arith, ground arith, ground arith);
        absorbed = λ l. ground (arith, f.miss l.0);
        appended = λ n. elim (dec_lt place lg.n) [
          | yes lt ↦ absurd (n (place, lo, omega arith, f.hit (omega arith)))
          | no ge ↦ ground arith
        ];
        reserved = refl;
      }

log_write-written :
    (s : ℕ) (b : Block) (lg : Log) (io : Io)
    → lg.n < logsize
    → lg.n < lg.size - 1
    → 0 < lg.outstanding
    → log_write s b lg io ≡ ok (written s b lg io)
unfolding log_write
log_write-written s b lg io a c d = ground arith

-- Inside a transaction and with room in the log, `log_write` does not panic. It enters the sector
-- once, absorbs a second write of it, changes that sector's buffer alone and nothing on the disk,
-- and leaves the log ready for a commit with distinct entries.
pub log_write_lem :
    (s : ℕ) (b : Block) (lg : Log) (io : Io)
    → IsReady lg io
    → IsDistinct lg
    → s < lg.start
    → lg.n < logsize
    → lg.n < lg.size - 1
    → 0 < lg.outstanding
    → (r : Log × Io) × (log_write s b lg io ≡ ok r) × Written s b lg io r
log_write_lem s b lg io ready distinct below a c d = (
  written s b lg io,
  log_write-written s b lg io a c d,
  written-Written s b lg io ready distinct below,
)

end_op-last :
    (lg : Log) (io : Io)
    → lg.committing ≡ false
    → lg.outstanding ≡ 1
    → end_op lg io ≡ (
        let r = commit (record lg { outstanding = 0; committing = true }) io in
        ok (record (r.0) { committing = false }, r.1))
unfolding end_op end_op_leave end_op_commit
end_op-last lg io e f = ground arith

end_op-other :
    (lg : Log) (io : Io)
    → lg.committing ≡ false
    → 1 < lg.outstanding
    → end_op lg io ≡ ok (record lg { outstanding = lg.outstanding - 1 }, io)
unfolding end_op end_op_leave end_op_commit
end_op-other lg io e f = ground arith

start-commit :
    (lg : Log) (io : Io)
    → ((commit lg io).0.start ≡ lg.start) × ((commit lg io).0.outstanding ≡ lg.outstanding)
unfolding commit
start-commit lg io = ground arith

-- `end_op` of an operation that is not the last only counts it off. That of the last, with power
-- for its writes, puts the data of every buffer below the log on the disk, and the log is ready for
-- the next transaction, with no entry and not committing.
pub end_op_lem :
    (lg : Log) (io : Io)
    → IsReady lg io
    → lg.committing ≡ false
    → (1 < lg.outstanding → end_op lg io ≡ ok (record lg { outstanding = lg.outstanding - 1 }, io))
      × (lg.outstanding ≡ 1
          → lg.n + lg.n + 1 < io.power
          → (r : Log × Io) × (end_op lg io ≡ ok r)
            × ((s : ℕ) → s < lg.start → (r.1.disk s ≡ io.view s) × (r.1.view s ≡ io.view s))
            × IsReady r.0 r.1
            × (r.0.n ≡ 0)
            × (r.0.outstanding ≡ 0)
            × (r.0.committing ≡ false))
end_op_lem lg io ready idle = (
  end_op-other lg io idle,
  (λ last p.
      let lg' = record lg { outstanding = 0; committing = true } in
      let r = commit lg' io in
      let ready' : IsReady lg' io = record {
        below = ready.below;
        clean = ready.clean;
        coherent = ready.coherent;
      } in
      let c = (commit_atomic lg' io ready').2 p in
      let same = start-commit lg' io in
      let none_left = c.2 in
      (
        (record (r.0) { committing = false }, r.1),
        end_op-last lg io idle last,
        c.0,
        record {
          below = λ j lo hi. absurd (omega arith);
          clean = rw (same.0) (c.1);
          coherent = λ s lt. let e = c.0 s (subst (λ t. s < t) same.0 lt) in inl (e.1 ∙ sym e.0);
        },
        none_left,
        same.1,
        refl,
      )),
)
