-- ===== src/Kernel/Log/Replay.antt =====
-- What a disk with a log means: each sector as recovery will leave it.
use os_ass.Base.{
  ℕ, zero, suc, ◌+◌, ◌≤◌, ◌<◌, ◌≡◌, ◌⊎◌, inl, inr, refl, sym, ap, ap₂, ◌∙◌, ◌==◌, if◌then◌else◌,
  arith,
}
use native.Mathlib.Decide.{ℕ_discrete}
use os_ass.Base.{==→eq, true, false, Bool-cases}
use os_ass.Kernel.Log.{Block}

-- Sector `s`, at present `cur`, after the log's entries `i`, `i + 1`, … (`r` of them) are installed.
unfoldable pub replay : ℕ → (ℕ → Block) → ℕ → ℕ → ℕ → Block → Block
replay start d i zero s cur = cur
replay start d i (suc r) s cur =
    replay start d (i + 1) r s (if d start (i + 1) == s then d (start + i + 1) else cur)

-- The logical content: all the entries that the header on the disk counts.
pub content : ℕ → (ℕ → Block) → ℕ → Block
content start d s = replay start d 0 (d start 0) s (d s)

pub content-clean : (start : ℕ) (d : ℕ → Block) (s : ℕ) → d start 0 ≡ 0 → content start d s ≡ d s
unfolding content replay
content-clean start d s e = rw e refl

-- Some entry from `i` on, among `r`, is for sector `s`.
abbrev pub Logged : (ℕ → ℕ) → ℕ → ℕ → ℕ → Type 0
Logged sector i r s = (j : ℕ) × (i ≤ j) × (j < i + r) × (sector j ≡ s)

-- The replay reads the log's own sectors and nothing else of the disk.
pub replay_cong :
    (start : ℕ) (d d' : ℕ → Block) (i r s : ℕ) (cur : Block)
    → ((t : ℕ) → start ≤ t → d t ≡ d' t)
    → replay start d i r s cur ≡ replay start d' i r s cur
unfolding replay
replay_cong start d d' i zero s cur same = refl
replay_cong start d d' i (suc r) s cur same =
    replay_cong start d d' (i + 1) r s (if d start (i + 1) == s then d (start + i + 1) else cur)
      same
    ∙ ap₂
        (λ (h : Block) (b : Block). replay start d' (i + 1) r s (if h (i + 1) == s then b else cur))
        (same start (omega arith)) (same (start + i + 1) (omega arith))

-- For a sector with an entry the present data do not matter.
pub replay_logged :
    (start : ℕ) (d : ℕ → Block) (i r s : ℕ) (cur cur' : Block)
    → Logged (λ j. d start (j + 1)) i r s
    → replay start d i r s cur ≡ replay start d i r s cur'
unfolding replay
replay_logged start d i zero s cur cur' (j, lo, hi, e) = absurd (omega arith)
replay_logged start d i (suc r) s cur cur' (j, lo, hi, e) = elim (ℕ_discrete i j) [
  | yes here ↦ let test : (d start (i + 1) == s) ≡ true = ground arith in rw test refl
  | no later ↦
      replay_logged start d (i + 1) r s (if d start (i + 1) == s then d (start + i + 1) else cur)
        (if d start (i + 1) == s then d (start + i + 1) else cur') (j, omega arith, omega arith, e)
]

-- If the data of every entry are those of `new`, and a sector without an entry is as in `new`
-- already, the replay gives `new`.
pub replay_new :
    (start : ℕ) (d new : ℕ → Block) (i r s : ℕ) (cur : Block)
    → ((j : ℕ) → i ≤ j → j < i + r → d (start + j + 1) ≡ new (d start (j + 1)))
    → (cur ≡ new s) ⊎ Logged (λ j. d start (j + 1)) i r s
    → replay start d i r s cur ≡ new s
unfolding replay
replay_new start d new i zero s cur entries (inl e) = e
replay_new start d new i zero s cur entries (inr (j, lo, hi, e)) = absurd (omega arith)
replay_new start d new i (suc r) s cur entries h =
    replay_new start d new (i + 1) r s (if d start (i + 1) == s then d (start + i + 1) else cur)
      (λ j lo hi. entries j (omega arith) (omega arith))
      (elim (Bool-cases (d start (i + 1) == s)) [
        | inl hit ↦ inl (
            rw hit (
              entries i (omega arith) (omega arith)
              ∙ ap (λ t. new t) (==→eq (d start (i + 1)) s hit)))
        | inr miss ↦ rw miss (others miss h)
      ])
  where
    others :
        (d start (i + 1) == s) ≡ false
        → (cur ≡ new s) ⊎ Logged (λ j. d start (j + 1)) i (suc r) s
        → (cur ≡ new s) ⊎ Logged (λ j. d start (j + 1)) (i + 1) r s
    others miss (inl e) = inl e
    others miss (inr (j, lo, hi, e)) = inr (
      j,
      elim (ℕ_discrete i j) [ yes here ↦ absurd (ground arith) | no ne ↦ omega arith ],
      omega arith,
      e,
    )

-- Two disks with the same log, and the same sector `s` or an entry for it, have the same content.
pub content-eq :
    (start : ℕ) (d d' : ℕ → Block) (s : ℕ)
    → ((t : ℕ) → start ≤ t → d t ≡ d' t)
    → (d s ≡ d' s) ⊎ Logged (λ j. d' start (j + 1)) 0 (d' start 0) s
    → content start d s ≡ content start d' s
unfolding content
content-eq start d d' s same h =
    ap (λ (b : Block). replay start d 0 (b 0) s (d s)) (same start (omega arith))
    ∙ replay_cong start d d' 0 (d' start 0) s (d s) same
    ∙ elim h [
      | inl e ↦ ap (λ b. replay start d' 0 (d' start 0) s b) e
      | inr l ↦ replay_logged start d' 0 (d' start 0) s (d s) (d' s) l
    ]

pub content-count :
    (start : ℕ) (d : ℕ → Block) (s n : ℕ)
    → d start 0 ≡ n
    → replay start d 0 n s (d s) ≡ content start d s
unfolding content
content-count start d s n e = ap (λ k. replay start d 0 k s (d s)) (sym e)
