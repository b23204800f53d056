-- ===== src/Kernel/Log/Loops.antt =====
-- What the loops of the log do to the disk and to the buffers, for every moment of a crash.
use os_ass.Base.{ℕ, zero, suc, ◌+◌, ◌-◌, ◌≤◌, ◌<◌, ◌≡◌, ◌≢◌, refl, sym, ap, ◌∙◌, update, arith}
use native.Mathlib.Decide.{ℕ_discrete}
use os_ass.Kernel.Log.{Block, Log, Io, copy, write_head_loop, write_head, write_log_loop}

-- What one `copy` does.
pub disk-copy_ne : (from to : ℕ) (io : Io) (t : ℕ) → to ≢ t → (copy from to io).disk t ≡ io.disk t
unfolding copy
disk-copy_ne from to io t ne = ground arith

pub disk-copy_self :
    (from to : ℕ) (io : Io) → 0 < io.power → (copy from to io).disk to ≡ io.view from
unfolding copy
disk-copy_self from to io p = ground arith

pub disk-copy_off :
    (from to : ℕ) (io : Io) (t : ℕ) → io.power ≡ 0 → (copy from to io).disk t ≡ io.disk t
unfolding copy
disk-copy_off from to io t p = ground arith

pub view-copy_ne : (from to : ℕ) (io : Io) (t : ℕ) → to ≢ t → (copy from to io).view t ≡ io.view t
unfolding copy
view-copy_ne from to io t ne = ground arith

pub view-copy_self : (from to : ℕ) (io : Io) → (copy from to io).view to ≡ io.view from
unfolding copy
view-copy_self from to io = ground arith

pub power-copy : (from to : ℕ) (io : Io) → (copy from to io).power ≡ io.power - 1
unfolding copy
power-copy from to io = refl

-- The entries lie below the log.
abbrev pub IsBelow : Log → ℕ → ℕ → Type 0
IsBelow lg i r = (j : ℕ) → i ≤ j → j < i + r → lg.sector j < lg.start

pub record LogWritten (r tail : ℕ) (lg : Log) (io io' : Io) : Type 0 where
  pub disk_kept : (t : ℕ) → t < lg.start + tail + 1 → io'.disk t ≡ io.disk t
  pub view_kept : (t : ℕ) → t < lg.start + tail + 1 → io'.view t ≡ io.view t
  pub power_left : io'.power ≡ io.power - r
  pub view_log :
      (j : ℕ) → tail ≤ j → j < tail + r → io'.view (lg.start + j + 1) ≡ io.view (lg.sector j)
  pub disk_log :
      r ≤ io.power
      → (j : ℕ) → tail ≤ j
      → j < tail + r
      → io'.disk (lg.start + j + 1) ≡ io.view (lg.sector j)

pub write_log_loop-LogWritten :
    (r tail : ℕ) (lg : Log) (io : Io)
    → IsBelow lg tail r
    → LogWritten r tail lg io (write_log_loop r tail lg io)
unfolding write_log_loop
write_log_loop-LogWritten zero tail lg io b = record {
  disk_kept = λ t h. refl;
  view_kept = λ t h. refl;
  power_left = omega arith;
  view_log = λ j lo hi. absurd (omega arith);
  disk_log = λ p j lo hi. absurd (omega arith);
}
write_log_loop-LogWritten (suc r) tail lg io b =
    let to = lg.start + tail + 1 in
    let from = lg.sector tail in
    let io1 = copy from to io in
    let ih =
      write_log_loop-LogWritten r (tail + 1) lg io1 (λ j lo hi. b j (omega arith) (omega arith)) in
    let io2 = write_log_loop r (tail + 1) lg io1 in
    record {
      disk_kept = λ t h. ih.disk_kept t (omega arith) ∙ disk-copy_ne from to io t (omega arith);
      view_kept = λ t h. ih.view_kept t (omega arith) ∙ view-copy_ne from to io t (omega arith);
      power_left = ih.power_left ∙ ap (λ p. p - r) (power-copy from to io) ∙ omega arith;
      view_log = λ j lo hi. elim (ℕ_discrete tail j) [
        | yes e ↦
            ap (λ k. io2.view (lg.start + k + 1)) (sym e)
            ∙ ih.view_kept to (omega arith)
            ∙ view-copy_self from to io
            ∙ ap (λ k. io.view (lg.sector k)) e
        | no ne ↦
            let below = b j lo hi in
            ih.view_log j (omega arith) (omega arith)
            ∙ view-copy_ne from to io (lg.sector j) (omega arith)
      ];
      disk_log = λ p j lo hi. elim (ℕ_discrete tail j) [
        | yes e ↦
            ap (λ k. io2.disk (lg.start + k + 1)) (sym e)
            ∙ ih.disk_kept to (omega arith)
            ∙ disk-copy_self from to io (omega arith)
            ∙ ap (λ k. io.view (lg.sector k)) e
        | no ne ↦
            let below = b j lo hi in
            let left = power-copy from to io in
            ih.disk_log (omega arith) j (omega arith) (omega arith)
            ∙ view-copy_ne from to io (lg.sector j) (omega arith)
      ];
    }

-- The header block holds the count and the entries.
write_head_loop_kept :
    (r i : ℕ) (sector : ℕ → ℕ) (hb : Block) (k : ℕ) → k ≤ i → write_head_loop r i sector hb k ≡ hb k
unfolding write_head_loop
write_head_loop_kept zero i sector hb k le = refl
write_head_loop_kept (suc r) i sector hb k le =
    write_head_loop_kept r (i + 1) sector (update hb (i + 1) (sector i)) k (omega arith)
    ∙ ground arith

write_head_loop_entry :
    (r i : ℕ) (sector : ℕ → ℕ) (hb : Block) (j : ℕ)
    → i ≤ j
    → j < i + r
    → write_head_loop r i sector hb (j + 1) ≡ sector j
unfolding write_head_loop
write_head_loop_entry zero i sector hb j lo hi = absurd (omega arith)
write_head_loop_entry (suc r) i sector hb j lo hi = elim (ℕ_discrete i j) [
  | yes e ↦
      write_head_loop_kept r (i + 1) sector (update hb (i + 1) (sector i)) (j + 1) (omega arith)
      ∙ ground arith
  | no ne ↦
      write_head_loop_entry r (i + 1) sector (update hb (i + 1) (sector i)) j (omega arith)
        (omega arith)
]

pub record HeadWritten (lg : Log) (io io' : Io) : Type 0 where
  pub disk_kept : (t : ℕ) → t ≢ lg.start → io'.disk t ≡ io.disk t
  pub view_kept : (t : ℕ) → t ≢ lg.start → io'.view t ≡ io.view t
  pub power_left : io'.power ≡ io.power - 1
  pub off : io.power ≡ 0 → (t : ℕ) → io'.disk t ≡ io.disk t
  pub count : 0 < io.power → io'.disk lg.start 0 ≡ lg.n
  pub entry : 0 < io.power → (j : ℕ) → j < lg.n → io'.disk lg.start (j + 1) ≡ lg.sector j
  pub same : 0 < io.power → io'.view lg.start ≡ io'.disk lg.start

pub write_head-HeadWritten : (lg : Log) (io : Io) → HeadWritten lg io (write_head lg io)
unfolding write_head
write_head-HeadWritten lg io =
    let hb0 = update (io.view lg.start) 0 lg.n in
    let kept = write_head_loop_kept lg.n 0 lg.sector hb0 0 (omega arith) in
    record {
      disk_kept = λ t ne. ground arith;
      view_kept = λ t ne. ground arith;
      power_left = refl;
      off = λ z t. ground arith;
      count = λ p. ground arith;
      entry = λ p j lt.
          let e = write_head_loop_entry lg.n 0 lg.sector hb0 j (omega arith) (omega arith) in
          ground arith;
      same = λ p. ground arith;
    }
