-- ===== src/Kernel/Log/Commit.antt =====
-- A commit is atomic: wherever the machine stops, the disk means the old sectors or the new ones.
use os_ass.Base.{ℕ, ◌+◌, ◌-◌, ◌≤◌, ◌<◌, ◌≡◌, ◌⊎◌, inl, inr, refl, sym, ap, ◌∙◌, true, ltb, arith}
use native.Mathlib.Decide.{ℕ_discrete, dec_lt}
use os_ass.Kernel.Log.{Block, Log, Io, install_trans, write_head, write_log, commit}
use os_ass.Kernel.Log.Replay.{replay, content, Logged, replay_new, content-clean, content-count}
use os_ass.Kernel.Log.Loops.{IsBelow, write_log_loop-LogWritten, write_head-HeadWritten}
use os_ass.Kernel.Log.Install.{Committed, install_loop_off, install_loop_power, install_and_clear}

-- Between transactions the header on the disk is clear; every entry is for a sector below the log,
-- and the buffers differ from the disk only at sectors with an entry.
pub record IsReady (lg : Log) (io : Io) : Type 0 where
  pub below : IsBelow lg 0 lg.n
  pub clean : io.disk lg.start 0 ≡ 0
  pub coherent : (s : ℕ) → s < lg.start → (io.view s ≡ io.disk s) ⊎ Logged lg.sector 0 lg.n s

-- The states of a commit with entries.
abbrev logged : Log → Io → Io
logged lg io = write_log lg io

abbrev headed : Log → Io → Io
headed lg io = write_head lg (logged lg io)

abbrev finished : Log → Io → Io
finished lg io = write_head (record lg { n = 0 }) (install_trans lg (headed lg io))

module _ (lg : Log) (io : Io) (ready : IsReady lg io) where
  open ready use {below, clean, coherent}

  -- The machine stops before the header is written.
  off_at_head : io.power ≤ lg.n → (t : ℕ) → t ≤ lg.start → (finished lg io).disk t ≡ io.disk t
  unfolding write_log install_trans
  off_at_head p t le =
      let w = write_log_loop-LogWritten lg.n 0 lg io below in
      let left1 = w.power_left in
      let h = write_head-HeadWritten lg (logged lg io) in
      let left2 = h.power_left in
      let io3 = install_trans lg (headed lg io) in
      let left3 = install_loop_power lg.n 0 lg (headed lg io) in
      let f = write_head-HeadWritten (record lg { n = 0 }) io3 in
      f.off (omega arith) t
      ∙ install_loop_off lg.n 0 lg (headed lg io) (omega arith) t
      ∙ h.off (omega arith) t
      ∙ w.disk_kept t (omega arith)

  early :
      io.power ≤ lg.n
      → (s : ℕ) → s < lg.start
      → content lg.start (finished lg io).disk s ≡ io.disk s
  early p s lt =
      content-clean lg.start (finished lg io).disk s
        (ap (λ (b : Block). b 0) (off_at_head p lg.start (omega arith)) ∙ clean)
      ∙ off_at_head p s (omega arith)

  -- With the header written, the log holds the new data.
  headed-Committed : lg.n < io.power → Committed 0 lg.n lg (headed lg io)
  unfolding write_log
  headed-Committed p =
      let w = write_log_loop-LogWritten lg.n 0 lg io below in
      let left1 = w.power_left in
      let h = write_head-HeadWritten lg (logged lg io) in
      let count = h.count (omega arith) in
      record {
        below = below;
        counted = omega arith;
        entries = λ j lo hi. h.entry (omega arith) j (omega arith);
        blocks = λ j lo hi.
            h.view_kept (lg.start + j + 1) (omega arith)
            ∙ w.view_log j lo hi
            ∙ sym (w.disk_log (omega arith) j lo hi)
            ∙ sym (h.disk_kept (lg.start + j + 1) (omega arith));
      }

  count-headed : lg.n < io.power → (headed lg io).disk lg.start 0 ≡ lg.n
  unfolding write_log
  count-headed p =
      let left1 = (write_log_loop-LogWritten lg.n 0 lg io below).power_left in
      (write_head-HeadWritten lg (logged lg io)).count (omega arith)

  -- The replay of the new log gives the data of the buffers.
  replay-headed :
      lg.n < io.power
      → (s : ℕ) (cur : Block) → s < lg.start
      → (cur ≡ io.view s) ⊎ Logged lg.sector 0 lg.n s
      → replay lg.start (headed lg io).disk 0 lg.n s cur ≡ io.view s
  unfolding write_log
  replay-headed p s cur lt h =
      let w = write_log_loop-LogWritten lg.n 0 lg io below in
      let left1 = w.power_left in
      let hw = write_head-HeadWritten lg (logged lg io) in
      let entry = hw.entry (omega arith) in
      replay_new lg.start (headed lg io).disk io.view 0 lg.n s cur
        (λ j lo hi.
          hw.disk_kept (lg.start + j + 1) (omega arith)
          ∙ w.disk_log (omega arith) j lo hi
          ∙ ap io.view (sym (entry j (omega arith))))
        (elim h [ inl e ↦ inl e | inr (j, lo, hi, e) ↦ inr (j, lo, hi, entry j (omega arith) ∙ e) ])

  disk-headed : lg.n < io.power → (s : ℕ) → s < lg.start → (headed lg io).disk s ≡ io.disk s
  unfolding write_log
  disk-headed p s lt =
      (write_head-HeadWritten lg (logged lg io)).disk_kept s (omega arith)
      ∙ (write_log_loop-LogWritten lg.n 0 lg io below).disk_kept s (omega arith)

  content-headed :
      lg.n < io.power → (s : ℕ) → s < lg.start → content lg.start (headed lg io).disk s ≡ io.view s
  content-headed p s lt =
      sym (content-count lg.start (headed lg io).disk s lg.n (count-headed p))
      ∙ replay-headed p s ((headed lg io).disk s) lt
          (elim (coherent s lt) [ inl e ↦ inl (disk-headed p s lt ∙ sym e) | inr l ↦ inr l ])

  late :
      lg.n < io.power
      → (s : ℕ) → s < lg.start
      → content lg.start (finished lg io).disk s ≡ io.view s
  late p s lt =
      let c = install_and_clear lg (headed lg io) (headed-Committed p) (count-headed p) in
      c.content_kept s lt ∙ content-headed p s lt

  -- The machine does not stop.
  whole :
      lg.n + lg.n + 1 < io.power
      → ((s : ℕ)
          → s < lg.start
          → ((finished lg io).disk s ≡ io.view s) × ((finished lg io).view s ≡ io.view s))
        × ((finished lg io).disk lg.start 0 ≡ 0)
        × ((finished lg io).power ≡ io.power - (lg.n + lg.n + 2))
  unfolding write_log
  whole p =
      let c =
        install_and_clear lg (headed lg io) (headed-Committed (omega arith))
          (count-headed (omega arith)) in
      let w = write_log_loop-LogWritten lg.n 0 lg io below in
      let left1 = w.power_left in
      let hw = write_head-HeadWritten lg (logged lg io) in
      let left2 = hw.power_left in
      let left3 = c.power_left in
      (
        (λ s lt. (
          c.home (omega arith) s lt ∙ content-headed (omega arith) s lt,
          c.view_home s lt
              ∙ replay-headed (omega arith) s ((headed lg io).view s) lt
                  (inl (hw.view_kept s (omega arith) ∙ w.view_kept s (omega arith))),
        )),
        c.clean (omega arith),
        omega arith,
      )

-- A header names only sectors below the log.
abbrev pub HeaderBelow : ℕ → (ℕ → Block) → Type 0
HeaderBelow start d = (j : ℕ) → j < d start 0 → d start (j + 1) < start

HeaderBelow-headed :
    (lg : Log) (io : Io)
    → IsReady lg io
    → lg.n < io.power
    → HeaderBelow lg.start (headed lg io).disk
HeaderBelow-headed lg io r p j lt =
    let count = count-headed lg io r p in
    let below = r.below j (omega arith) (omega arith) in
    let entry = (headed-Committed lg io r p).entries j (omega arith) (omega arith) in omega arith

HeaderBelow-finished :
    (lg : Log) (io : Io) → IsReady lg io → HeaderBelow lg.start (finished lg io).disk
HeaderBelow-finished lg io r = elim (dec_lt lg.n io.power) [
  | yes p ↦
      (elim (install_and_clear lg (headed lg io) (headed-Committed lg io r p)
        (count-headed lg io r p)).header [
          | inl same ↦ λ j lt.
              let e = ap (λ (b : Block). b (j + 1)) same in
              let c = ap (λ (b : Block). b 0) same in
              let h = HeaderBelow-headed lg io r p j (omega arith) in omega arith
          | inr clear ↦ λ j lt. absurd (omega arith)
        ])
  | no off ↦ λ j lt.
      let e = ap (λ (b : Block). b 0) (off_at_head lg io r (omega arith) lg.start (omega arith)) in
      let c = r.clean in absurd (omega arith)
]

commit-zero : (lg : Log) (io : Io) → lg.n ≡ 0 → commit lg io ≡ (lg, io)
unfolding commit
commit-zero lg io e = ground arith

commit-pos : (lg : Log) (io : Io) → 0 < lg.n → commit lg io ≡ (record lg { n = 0 }, finished lg io)
unfolding commit
commit-pos lg io p = let test : ltb 0 lg.n ≡ true = ground arith in rw test

not_logged_zero : (sector : ℕ → ℕ) (n s : ℕ) {P : Type 0} → n ≡ 0 → P ⊎ Logged sector 0 n s → P
not_logged_zero sector n s e (inl p) = p
not_logged_zero sector n s e (inr (j, lo, hi, q)) = absurd (omega arith)

-- Wherever a commit is cut off, the disk's logical content is all old, if no more than `n` writes
-- were made, or all new, if more were. With power for all its writes the new data stand in their
-- home sectors, on the disk and in the buffers, and the header is clear again.
pub commit_atomic :
    (lg : Log) (io : Io)
    → IsReady lg io
    → (io.power ≤ lg.n
        → (s : ℕ) → s < lg.start
        → content lg.start (commit lg io).1.disk s ≡ io.disk s)
      × (lg.n < io.power
          → (s : ℕ) → s < lg.start
          → content lg.start (commit lg io).1.disk s ≡ io.view s)
      × (lg.n + lg.n + 1 < io.power
          → ((s : ℕ)
              → s < lg.start
              → ((commit lg io).1.disk s ≡ io.view s) × ((commit lg io).1.view s ≡ io.view s))
            × ((commit lg io).1.disk lg.start 0 ≡ 0)
            × ((commit lg io).0.n ≡ 0))
commit_atomic lg io r = elim (ℕ_discrete lg.n 0) [
  | yes e ↦
      let same : (s : ℕ) → s < lg.start → io.disk s ≡ io.view s =
        λ s lt. sym (not_logged_zero lg.sector lg.n s e (r.coherent s lt)) in
      rw (commit-zero lg io e) (
        (λ p s lt. content-clean lg.start io.disk s r.clean),
        (λ p s lt. content-clean lg.start io.disk s r.clean ∙ same s lt),
        (λ p. ((λ s lt. (same s lt, refl)), r.clean, e)),
      )
  | no ne ↦
      rw (commit-pos lg io (omega arith))
        (early lg io r, late lg io r, (λ p. let w = whole lg io r p in (w.0, w.1, refl)))
]

pub HeaderBelow-commit :
    (lg : Log) (io : Io) → IsReady lg io → HeaderBelow lg.start (commit lg io).1.disk
HeaderBelow-commit lg io r = elim (ℕ_discrete lg.n 0) [
  | yes e ↦ rw (commit-zero lg io e) (λ j lt. let c = r.clean in absurd (omega arith))
  | no ne ↦ rw (commit-pos lg io (omega arith)) (HeaderBelow-finished lg io r)
]
