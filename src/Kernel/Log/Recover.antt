-- ===== src/Kernel/Log/Recover.antt =====
-- Recovery installs what was committed, may itself be cut off, and may be repeated.
use os_ass.Base.{ℕ, zero, suc, ◌+◌, ◌≤◌, ◌<◌, ◌≡◌, ◌⊎◌, inl, inr, refl, sym, ap, ◌∙◌, update, arith}
use native.Mathlib.Decide.{ℕ_discrete, dec_lt}
use os_ass.Kernel.Log.{Block, Log, Io, read_head_loop, read_head, recover_from_log, commit}
use os_ass.Kernel.Log.Replay.{content, content-count}
use os_ass.Kernel.Log.Install.{Cleared, install_and_clear}
use os_ass.Kernel.Log.Commit.{IsReady, HeaderBelow, commit_atomic, HeaderBelow-commit}

read_head_loop_kept :
    (r i : ℕ) (lh : Block) (sector : ℕ → ℕ) (k : ℕ)
    → k < i
    → read_head_loop r i lh sector k ≡ sector k
unfolding read_head_loop
read_head_loop_kept zero i lh sector k lt = refl
read_head_loop_kept (suc r) i lh sector k lt =
    read_head_loop_kept r (i + 1) lh (update sector i (lh (i + 1))) k (omega arith) ∙ ground arith

read_head_loop_entry :
    (r i : ℕ) (lh : Block) (sector : ℕ → ℕ) (j : ℕ)
    → i ≤ j
    → j < i + r
    → read_head_loop r i lh sector j ≡ lh (j + 1)
unfolding read_head_loop
read_head_loop_entry zero i lh sector j lo hi = absurd (omega arith)
read_head_loop_entry (suc r) i lh sector j lo hi = elim (ℕ_discrete i j) [
  | yes e ↦
      read_head_loop_kept r (i + 1) lh (update sector i (lh (i + 1))) j (omega arith) ∙ ground arith
  | no ne ↦
      read_head_loop_entry r (i + 1) lh (update sector i (lh (i + 1))) j (omega arith) (omega arith)
]

-- The machine after a start: the buffers are empty, so `bread` gives what is on the disk.
abbrev pub booted : (ℕ → Block) → ℕ → Io
booted d power = record { disk = d; view = d; power = power }

module _ (lg : Log) (d : ℕ → Block) (power : ℕ) (below : HeaderBelow lg.start d) where
  abbrev lg1 : Log
  lg1 = read_head lg (booted d power)

  start-read_head : lg1.start ≡ lg.start
  unfolding read_head
  start-read_head = refl

  recovered : Cleared lg1 (booted d power) (recover_from_log lg (booted d power)).1
  unfolding recover_from_log read_head
  recovered =
      install_and_clear lg1 (booted d power)
        (record {
          below = λ j lo hi.
              let e = read_head_loop_entry (d lg.start 0) 0 (d lg.start) lg.sector j lo hi in
              let b = below j (omega arith) in omega arith;
          counted = omega arith;
          entries =
              λ j lo hi. sym (read_head_loop_entry (d lg.start 0) 0 (d lg.start) lg.sector j lo hi);
          blocks = λ j lo hi. refl;
        })
        refl

  pub HeaderBelow-recover : HeaderBelow lg.start (recover_from_log lg (booted d power)).1.disk
  unfolding read_head
  HeaderBelow-recover = elim recovered.header [
    | inl same ↦ λ j lt.
        let e = ap (λ (b : Block). b (j + 1)) same in
        let c = ap (λ (b : Block). b 0) same in let h = below j (omega arith) in omega arith
    | inr clear ↦ λ j lt. absurd (omega arith)
  ]

-- `recover_from_log` on a disk whose header names sectors below the log: wherever it is cut off the
-- logical content stays; if it is not, every sector below the log holds its logical content, on the
-- disk and in the buffers, the header is clear, and the log is ready for a transaction.
pub recover_lem :
    (lg : Log) (d : ℕ → Block) (power : ℕ)
    → HeaderBelow lg.start d
    → ((s : ℕ)
        → s < lg.start
        → content lg.start (recover_from_log lg (booted d power)).1.disk s ≡ content lg.start d s)
      × (d lg.start 0 < power
          → ((s : ℕ)
              → s < lg.start
              → (recover_from_log lg (booted d power)).1.disk s ≡ content lg.start d s)
            × IsReady
                (recover_from_log lg (booted d power)).0
                (recover_from_log lg (booted d power)).1)
unfolding recover_from_log read_head
recover_lem lg d power below =
    let c = recovered lg d power below in
    (
      c.content_kept,
      (λ p. (
        c.home p,
        record {
          below = λ j lo hi. absurd (omega arith);
          clean = c.clean p;
          coherent = λ s lt. inl (
              c.view_home s lt
              ∙ content-count lg.start d s (d lg.start 0) refl
              ∙ sym (c.home p s lt));
        },
      )),
    )

-- A crash at any point of a commit, then a recovery that crashes at any point, then a recovery
-- that has power for its writes: every sector below the log holds its data from before the
-- transaction, or every one holds its data after it.
pub crash_atomic :
    (lg : Log) (io : Io) (k k' : ℕ)
    → IsReady lg io
    → let d1 = (commit lg io).1.disk in
      let d2 = (recover_from_log lg (booted d1 k)).1.disk in
      let d3 = (recover_from_log lg (booted d2 k')).1.disk in
      d2 lg.start 0 < k'
      → ((s : ℕ) → s < lg.start → d3 s ≡ io.disk s) ⊎ ((s : ℕ) → s < lg.start → d3 s ≡ io.view s)
crash_atomic lg io k k' ready enough =
    let d1 = (commit lg io).1.disk in
    let d2 = (recover_from_log lg (booted d1 k)).1.disk in
    let h1 = HeaderBelow-commit lg io ready in
    let r2 = recover_lem lg d1 k h1 in
    let h2 = HeaderBelow-recover lg d1 k h1 in
    let r3 = recover_lem lg d2 k' h2 in
    let c = commit_atomic lg io ready in
    elim (dec_lt lg.n io.power) [
      | yes late ↦ inr (λ s lt. (r3.1 enough).0 s lt ∙ r2.0 s lt ∙ c.1 late s lt)
      | no early ↦ inl (λ s lt. (r3.1 enough).0 s lt ∙ r2.0 s lt ∙ c.0 (omega arith) s lt)
    ]
