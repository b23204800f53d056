-- ===== src/Kernel/Log/Install.antt =====
-- `install_trans` moves a sector's content from the log to its home and leaves the logical content
-- of the disk alone, wherever it is cut off.
use os_ass.Base.{
  ℕ, zero, suc, ◌+◌, ◌-◌, ◌≤◌, ◌<◌, ◌≡◌, ◌⊎◌, inl, inr, refl, sym, ap, ◌∙◌, true, false, ◌==◌,
  if◌then◌else◌, arith,
}
use native.Mathlib.Decide.{ℕ_discrete, dec_lt}
use os_ass.Kernel.Log.{Block, Log, Io, copy, install_loop, install_trans, write_head}
use os_ass.Kernel.Log.Replay.{
  replay, content, replay_cong, content-eq, content-clean, content-count,
}
use os_ass.Kernel.Log.Loops.{
  IsBelow, disk-copy_ne, disk-copy_self, disk-copy_off, view-copy_ne, view-copy_self, power-copy,
  write_head-HeadWritten,
}

-- The header on the disk counts the entries `i`, …, `i + r - 1` of the log in memory, and the
-- buffers of their log blocks agree with the disk.
pub record Committed (i r : ℕ) (lg : Log) (io : Io) : Type 0 where
  pub below : IsBelow lg i r
  pub counted : i + r ≤ io.disk lg.start 0
  pub entries : (j : ℕ) → i ≤ j → j < i + r → io.disk lg.start (j + 1) ≡ lg.sector j
  pub blocks : (j : ℕ) → i ≤ j → j < i + r → io.view (lg.start + j + 1) ≡ io.disk (lg.start + j + 1)

pub record Installed (r i : ℕ) (lg : Log) (io io' : Io) : Type 0 where
  pub log_kept : (t : ℕ) → lg.start ≤ t → io'.disk t ≡ io.disk t
  pub view_kept : (t : ℕ) → lg.start ≤ t → io'.view t ≡ io.view t
  pub power_left : io'.power ≡ io.power - r
  pub content_kept :
      (s : ℕ) → s < lg.start → content lg.start io'.disk s ≡ content lg.start io.disk s
  pub view_home : (s : ℕ) → s < lg.start → io'.view s ≡ replay lg.start io.disk i r s (io.view s)
  pub disk_home :
      r ≤ io.power → (s : ℕ) → s < lg.start → io'.disk s ≡ replay lg.start io.disk i r s (io.disk s)

module _ (i : ℕ) (lg : Log) (io : Io) (h : lg.sector i < lg.start) where
  abbrev from : ℕ
  from = lg.start + i + 1

  abbrev to : ℕ
  to = lg.sector i

  -- One round, on a sector below the log.
  round-log_kept : (t : ℕ) → lg.start ≤ t → (copy from to io).disk t ≡ io.disk t
  round-log_kept t le = disk-copy_ne from to io t (omega arith)

  round-view_kept : (t : ℕ) → lg.start ≤ t → (copy from to io).view t ≡ io.view t
  round-view_kept t le = view-copy_ne from to io t (omega arith)

  round-content :
      i < io.disk lg.start 0
      → io.disk lg.start (i + 1) ≡ lg.sector i
      → io.view from ≡ io.disk from
      → (s : ℕ) → s < lg.start
      → content lg.start (copy from to io).disk s ≡ content lg.start io.disk s
  round-content lt entry block s below =
      content-eq lg.start (copy from to io).disk io.disk s round-log_kept (elim (ℕ_discrete to s) [
        | yes e ↦ inr (i, omega arith, omega arith, entry ∙ e)
        | no ne ↦ inl (disk-copy_ne from to io s ne)
      ])

  round-view :
      io.disk lg.start (i + 1) ≡ lg.sector i
      → io.view from ≡ io.disk from
      → (s : ℕ)
      → (copy from to io).view s
        ≡ (if io.disk lg.start (i + 1) == s then io.disk from else io.view s)
  round-view entry block s = elim (ℕ_discrete to s) [
    | yes e ↦
        let test : (io.disk lg.start (i + 1) == s) ≡ true = ground arith in
        ap (copy from to io).view (sym e) ∙ view-copy_self from to io ∙ block ∙ rw test refl
    | no ne ↦
        let test : (io.disk lg.start (i + 1) == s) ≡ false = ground arith in
        view-copy_ne from to io s ne ∙ rw test refl
  ]

  round-disk :
      0 < io.power
      → io.disk lg.start (i + 1) ≡ lg.sector i
      → io.view from ≡ io.disk from
      → (s : ℕ)
      → (copy from to io).disk s
        ≡ (if io.disk lg.start (i + 1) == s then io.disk from else io.disk s)
  round-disk p entry block s = elim (ℕ_discrete to s) [
    | yes e ↦
        let test : (io.disk lg.start (i + 1) == s) ≡ true = ground arith in
        ap (copy from to io).disk (sym e) ∙ disk-copy_self from to io p ∙ block ∙ rw test refl
    | no ne ↦
        let test : (io.disk lg.start (i + 1) == s) ≡ false = ground arith in
        disk-copy_ne from to io s ne ∙ rw test refl
  ]

pub install_loop-Installed :
    (r i : ℕ) (lg : Log) (io : Io)
    → Committed i r lg io
    → Installed r i lg io (install_loop r i lg io)
unfolding install_loop replay
install_loop-Installed zero i lg io c = record {
  log_kept = λ t h. refl;
  view_kept = λ t h. refl;
  power_left = omega arith;
  content_kept = λ s h. refl;
  view_home = λ s h. refl;
  disk_home = λ p s h. refl;
}
install_loop-Installed (suc r) i lg io c =
    let h = c.below i (omega arith) (omega arith) in
    let entry = c.entries i (omega arith) (omega arith) in
    let block = c.blocks i (omega arith) (omega arith) in
    let io1 = copy (lg.start + i + 1) (lg.sector i) io in
    let kept = round-log_kept i lg io h in
    let count = ap (λ (b : Block). b 0) (kept lg.start (omega arith)) in
    let counted = c.counted in
    let c1 : Committed (i + 1) r lg io1 = record {
      below = λ j lo hi. c.below j (omega arith) (omega arith);
      counted = omega arith;
      entries = λ j lo hi.
          ap (λ (b : Block). b (j + 1)) (kept lg.start (omega arith))
          ∙ c.entries j (omega arith) (omega arith);
      blocks = λ j lo hi.
          round-view_kept i lg io h (lg.start + j + 1) (omega arith)
          ∙ c.blocks j (omega arith) (omega arith)
          ∙ sym (kept (lg.start + j + 1) (omega arith));
    } in
    let ih = install_loop-Installed r (i + 1) lg io1 c1 in
    let io2 = install_loop r (i + 1) lg io1 in
    let left = power-copy (lg.start + i + 1) (lg.sector i) io in
    record {
      log_kept = λ t le. ih.log_kept t le ∙ kept t le;
      view_kept = λ t le. ih.view_kept t le ∙ round-view_kept i lg io h t le;
      power_left = ih.power_left ∙ ap (λ p. p - r) left ∙ omega arith;
      content_kept =
          λ s lt. ih.content_kept s lt ∙ round-content i lg io h (omega arith) entry block s lt;
      view_home = λ s lt.
          ih.view_home s lt
          ∙ replay_cong lg.start io1.disk io.disk (i + 1) r s (io1.view s) kept
          ∙ ap (λ b. replay lg.start io.disk (i + 1) r s b) (round-view i lg io h entry block s);
      disk_home = λ p s lt.
          ih.disk_home (omega arith) s lt
          ∙ replay_cong lg.start io1.disk io.disk (i + 1) r s (io1.disk s) kept
          ∙ ap (λ b. replay lg.start io.disk (i + 1) r s b)
              (round-disk i lg io h (omega arith) entry block s);
    }

-- With no power left nothing reaches the disk.
pub install_loop_off :
    (r i : ℕ) (lg : Log) (io : Io)
    → io.power ≡ 0
    → (t : ℕ) → (install_loop r i lg io).disk t ≡ io.disk t
unfolding install_loop
install_loop_off zero i lg io z t = refl
install_loop_off (suc r) i lg io z t =
    install_loop_off r (i + 1) lg (copy (lg.start + i + 1) (lg.sector i) io)
      (power-copy (lg.start + i + 1) (lg.sector i) io ∙ ap (λ p. p - 1) z) t
    ∙ disk-copy_off (lg.start + i + 1) (lg.sector i) io t z

pub install_loop_power :
    (r i : ℕ) (lg : Log) (io : Io) → (install_loop r i lg io).power ≡ io.power - r
unfolding install_loop
install_loop_power zero i lg io = omega arith
install_loop_power (suc r) i lg io =
    install_loop_power r (i + 1) lg (copy (lg.start + i + 1) (lg.sector i) io)
    ∙ ap (λ p. p - r) (power-copy (lg.start + i + 1) (lg.sector i) io)
    ∙ omega arith

-- The second half of a commit, and the whole of a recovery: install the entries that the header on
-- the disk counts, and clear the header.
pub record Cleared (lg : Log) (io io' : Io) : Type 0 where
  pub content_kept :
      (s : ℕ) → s < lg.start → content lg.start io'.disk s ≡ content lg.start io.disk s
  pub home : lg.n < io.power → (s : ℕ) → s < lg.start → io'.disk s ≡ content lg.start io.disk s
  pub clean : lg.n < io.power → io'.disk lg.start 0 ≡ 0
  pub view_home : (s : ℕ) → s < lg.start → io'.view s ≡ replay lg.start io.disk 0 lg.n s (io.view s)
  pub header : (io'.disk lg.start ≡ io.disk lg.start) ⊎ (io'.disk lg.start 0 ≡ 0)
  pub view_clean : lg.n < io.power → io'.view lg.start 0 ≡ 0
  pub power_left : io'.power ≡ io.power - lg.n - 1

pub install_and_clear :
    (lg : Log) (io : Io)
    → Committed 0 lg.n lg io
    → io.disk lg.start 0 ≡ lg.n
    → Cleared lg io (write_head (record lg { n = 0 }) (install_trans lg io))
unfolding install_trans
install_and_clear lg io c count =
    let io3 = install_loop lg.n 0 lg io in
    let inst = install_loop-Installed lg.n 0 lg io c in
    let lg' = record lg { n = 0 } in
    let head = write_head-HeadWritten lg' io3 in
    let io4 = write_head lg' io3 in
    let left = inst.power_left in
    let at_home : lg.n < io.power
        → (s : ℕ) → s < lg.start
        → io4.disk s ≡ content lg.start io.disk s =
      λ p s lt. head.disk_kept s (omega arith) ∙ inst.disk_home (omega arith) s lt ∙ whole s in
    let cleaned : lg.n < io.power → io4.disk lg.start 0 ≡ 0 = λ p. head.count (omega arith) in
    record {
      content_kept = λ s lt. elim (dec_lt lg.n io.power) [
        | yes p ↦ content-clean lg.start io4.disk s (cleaned p) ∙ at_home p s lt
        | no off ↦
            content-eq lg.start io4.disk io3.disk s (λ t le. head.off (omega arith) t)
              (inl (head.off (omega arith) s))
            ∙ inst.content_kept s lt
      ];
      home = at_home;
      clean = cleaned;
      view_home = λ s lt. head.view_kept s (omega arith) ∙ inst.view_home s lt;
      header = elim (dec_lt lg.n io.power) [
        | yes p ↦ inr (cleaned p)
        | no off ↦ inl (head.off (omega arith) lg.start ∙ inst.log_kept lg.start (omega arith))
      ];
      view_clean = λ p. ap (λ (b : Block). b 0) (head.same (omega arith)) ∙ cleaned p;
      power_left = head.power_left ∙ ap (λ p. p - 1) left;
    }
  where
    whole : (s : ℕ) → replay lg.start io.disk 0 lg.n s (io.disk s) ≡ content lg.start io.disk s
    whole s = content-count lg.start io.disk s lg.n count
