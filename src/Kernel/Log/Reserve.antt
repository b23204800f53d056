-- ===== src/Kernel/Log/Reserve.antt =====
-- The reservation of log space: each operation may write MAXOPBLOCKS blocks between `begin_op` and
-- `end_op`. The two critical sections of `end_op` are two steps; between them `committing` is set, and
-- the commit belongs to the second, since it reads and empties the log without the lock.
use os_ass.Base.{
  ℕ, zero, suc, ◌+◌, ◌-◌, ◌*◌, ◌≤◌, ◌<◌, ◌≡◌, refl, sym, ap, subst, ◌∙◌, Bool, true, false,
  Bool-cases, inl, inr, ◌⊎◌, ltb, List, [], ◌∷◌, ◌++◌, length, some, ◌==◌, if◌then◌else◌, arith,
  logsize, maxopblocks, get_or, set, length-set, All, update,
}
use os_ass.Base.Outcome.{ok, panic}
use os_ass.Kernel.Log.{
  Block, Log, Io, begin_op, end_op_leave, end_op_commit, find_loop, log_write, commit,
}

abbrev pub sum : List ℕ → ℕ
sum [] = 0
sum (q ∷ qs) = q + sum qs

-- The log, and for each operation in progress the blocks that it may still write.
pub record System : Type 0 where
  pub lg : Log
  pub io : Io
  pub quotas : List ℕ

pub data Step (s : System) : System → Type 0 where
  begins :
      {lg' : Log}
      → begin_op s.lg ≡ some lg'
      → Step s (record { lg = lg'; io = s.io; quotas = maxopblocks ∷ s.quotas })
  writes :
      (i q : ℕ) (sector : ℕ) (b : Block) {r : Log × Io}
      → i < length s.quotas
      → get_or s.quotas i 0 ≡ suc q
      → log_write sector b s.lg s.io ≡ ok r
      → Step s (record { lg = r.0; io = r.1; quotas = set s.quotas i q })
  leaves :
      (before after : List ℕ) (q : ℕ) {r : Log × Bool}
      → s.quotas ≡ before ++ q ∷ after
      → end_op_leave s.lg ≡ ok r
      → Step s (record { lg = r.0; io = s.io; quotas = before ++ after })
  commits :
      s.lg.committing ≡ true
      → Step s (record {
        lg = (end_op_commit s.lg s.io).0;
        io = (end_op_commit s.lg s.io).1;
        quotas = s.quotas;
      })

-- After `initlog`: no operation, no entry.
pub record IsFresh (s : System) : Type 0 where
  pub none_running : s.quotas ≡ []
  pub outstanding : s.lg.outstanding ≡ 0
  pub idle : s.lg.committing ≡ false
  pub empty : s.lg.n ≡ 0

pub data Reach (s : System) : System → Type 0 where
  here : Reach s s
  next : {t u : System} → Reach s t → Step t u → Reach s u

pub record Inv (size : ℕ) (s : System) : Type 0 where
  pub counted : s.lg.outstanding ≡ length s.quotas
  pub idle : 0 < length s.quotas → s.lg.committing ≡ false
  pub reserved : s.lg.n + sum s.quotas ≤ logsize
  pub each : All (λ q. q ≤ maxopblocks) s.quotas
  pub sized : s.lg.size ≡ size

sum-set :
    (qs : List ℕ) (i q : ℕ)
    → i < length qs
    → get_or qs i 0 ≡ suc q
    → sum qs ≡ suc (sum (set qs i q))
sum-set [] i q lt e = absurd (omega arith)
sum-set (x ∷ qs) zero q lt e = omega arith
sum-set (x ∷ qs) (suc i) q lt e = omega (arith, sum-set qs i q (omega arith) e)

sum-remove :
    (before after : List ℕ) (q : ℕ)
    → (sum (before ++ after) ≤ sum (before ++ q ∷ after))
      × (suc (length (before ++ after)) ≡ length (before ++ q ∷ after))
sum-remove [] after q = (omega arith, refl)
sum-remove (x ∷ before) after q = let ih = sum-remove before after q in (omega arith, omega arith)

sum-bound : (qs : List ℕ) → All (λ q. q ≤ maxopblocks) qs → sum qs ≤ length qs * maxopblocks
sum-bound [] h = omega arith
sum-bound (q ∷ qs) h = omega (arith, sum-bound qs h.1)

log_write-counts :
    (s : ℕ) (b : Block) (lg : Log) (io : Io) {r : Log × Io}
    → log_write s b lg io ≡ ok r
    → (r.0.n ≤ lg.n + 1)
      × (r.0.outstanding ≡ lg.outstanding)
      × (r.0.committing ≡ lg.committing)
      × (r.0.size ≡ lg.size)
unfolding log_write
log_write-counts s b lg io e = ground arith

end_op_leave-counts :
    (lg : Log) {r : Log × Bool}
    → end_op_leave lg ≡ ok r
    → 0 < lg.outstanding
    → (r.0.n ≡ lg.n)
      × (r.0.outstanding ≡ lg.outstanding - 1)
      × (0 < r.0.outstanding → r.0.committing ≡ false)
      × (r.0.size ≡ lg.size)
unfolding end_op_leave
end_op_leave-counts lg e p = ground arith

end_op_commit-counts :
    (lg : Log) (io : Io)
    → ((end_op_commit lg io).0.n ≤ lg.n)
      × ((end_op_commit lg io).0.outstanding ≡ lg.outstanding)
      × ((end_op_commit lg io).0.committing ≡ false)
      × ((end_op_commit lg io).0.size ≡ lg.size)
unfolding end_op_commit commit
end_op_commit-counts lg io = ground arith

All-set :
    (qs : List ℕ) (i q : ℕ)
    → q ≤ maxopblocks
    → All (λ k. k ≤ maxopblocks) qs
    → All (λ k. k ≤ maxopblocks) (set qs i q)
All-set [] i q le h = tt
All-set (x ∷ qs) zero q le h = (le, h.1)
All-set (x ∷ qs) (suc i) q le h = (h.0, All-set qs i q le h.1)

All-get : (qs : List ℕ) (i : ℕ) → All (λ k. k ≤ maxopblocks) qs → get_or qs i 0 ≤ maxopblocks
All-get [] i h = omega arith
All-get (x ∷ qs) zero h = h.0
All-get (x ∷ qs) (suc i) h = All-get qs i h.1

All-remove :
    (before after : List ℕ) (q : ℕ)
    → All (λ k. k ≤ maxopblocks) (before ++ q ∷ after)
    → All (λ k. k ≤ maxopblocks) (before ++ after)
All-remove [] after q h = h.1
All-remove (x ∷ before) after q h = (h.0, All-remove before after q h.1)

begin_op-counts :
    (lg : Log) {lg' : Log}
    → begin_op lg ≡ some lg'
    → (lg.n + (lg.outstanding + 1) * maxopblocks ≤ logsize)
      × (lg'.n ≡ lg.n)
      × (lg'.outstanding ≡ lg.outstanding + 1)
      × (lg'.committing ≡ false)
      × (lg'.size ≡ lg.size)
unfolding begin_op
begin_op-counts lg e = ground arith

Step-Inv : (size : ℕ) {s t : System} → Step s t → Inv size s → Inv size t
Step-Inv size {s} (begins e) inv =
    let b = begin_op-counts s.lg e in
    let all = sum-bound s.quotas inv.each in
    let c = inv.counted in
    record {
      counted = omega arith;
      idle = λ p. b.3;
      reserved = omega arith;
      each = (omega arith, inv.each);
      sized = b.4 ∙ inv.sized;
    }
Step-Inv size {s} (writes i q sector b lt e w) inv =
    let k = log_write-counts sector b s.lg s.io w in
    let total = sum-set s.quotas i q lt e in
    let l = length-set s.quotas i q in
    let top = All-get s.quotas i inv.each in
    let r = inv.reserved in
    record {
      counted = k.1 ∙ inv.counted ∙ sym l;
      idle = λ p. k.2 ∙ inv.idle (omega (arith, lt));
      reserved = omega arith;
      each = All-set s.quotas i q (omega arith) inv.each;
      sized = k.3 ∙ inv.sized;
    }
Step-Inv size {s} (leaves before after q split e) inv =
    let lengths = ap length split in
    let sums = ap sum split in
    let rem = sum-remove before after q in
    let c = inv.counted in
    let k = end_op_leave-counts s.lg e (omega arith) in
    let r = inv.reserved in
    record {
      counted = omega arith;
      idle = λ p. k.2 (omega arith);
      reserved = omega arith;
      each = All-remove before after q (subst (All (λ x. x ≤ maxopblocks)) split inv.each);
      sized = k.3 ∙ inv.sized;
    }
Step-Inv size {s} (commits e) inv =
    let k = end_op_commit-counts s.lg s.io in
    let r = inv.reserved in
    record {
      counted = k.1 ∙ inv.counted;
      idle = λ p. k.2;
      reserved = omega arith;
      each = inv.each;
      sized = k.3 ∙ inv.sized;
    }

Reach-Inv : {s t : System} → IsFresh s → Reach s t → Inv s.lg.size t
Reach-Inv {s} f here =
    let e = ap length f.none_running in
    let t = ap sum f.none_running in
    let o = f.outstanding in
    let n = f.empty in
    record {
      counted = omega arith;
      idle = λ p. f.idle;
      reserved = omega arith;
      each = subst (All (λ x. x ≤ maxopblocks)) (sym f.none_running) tt;
      sized = refl;
    }
Reach-Inv {s} f (next r st) = Step-Inv s.lg.size st (Reach-Inv f r)

log_write-fits :
    (sector : ℕ) (b : Block) (lg : Log) (io : Io)
    → lg.n < logsize
    → lg.n < lg.size - 1
    → 0 < lg.outstanding
    → (r : Log × Io) × (log_write sector b lg io ≡ ok r)
unfolding log_write
log_write-fits sector b lg io a c d =
    let i = find_loop lg.n 0 lg.sector sector in
    (
      (
        record lg { sector = update lg.sector i sector; n = if i == lg.n then lg.n + 1 else lg.n },
        record io { view = update io.view sector b },
      ),
      ground arith,
    )

log_write_panic :
    (sector : ℕ) (b : Block) (lg : Log) (io : Io)
    → lg.size - 1 ≤ lg.n
    → log_write sector b lg io ≡ panic "too big a transaction"
unfolding log_write
log_write_panic sector b lg io h = ground arith

end_op_leave-idle : (lg : Log) → lg.committing ≡ false → (r : Log × Bool) × (end_op_leave lg ≡ ok r)
unfolding end_op_leave
end_op_leave-idle lg e = elim (Bool-cases (lg.outstanding == 1)) [
  | inl t ↦ rw (e, t) (_, refl)
  | inr t ↦ rw (e, t) (_, refl)
]

-- In a log of at least LOGSIZE sectors, in every state that operations reach, one that has written
-- fewer than MAXOPBLOCKS blocks can write another, and `log_write` does not panic; the one exception
-- is a log of exactly LOGSIZE sectors with LOGSIZE - 1 entries, when a single block is left of all
-- that was reserved, and there `log_write` panics. No operation in progress meets a commit, and its
-- `end_op` does not panic.
pub reservation_suffices :
    {s t : System}
    → IsFresh s
    → logsize ≤ s.lg.size
    → Reach s t
    → (i q sector : ℕ) (b : Block) → i < length t.quotas
    → get_or t.quotas i 0 ≡ suc q
    → (((r : Log × Io) × (log_write sector b t.lg t.io ≡ ok r))
        ⊎ ((s.lg.size ≡ logsize)
            × (t.lg.n ≡ logsize - 1)
            × (sum t.quotas ≡ 1)
            × (log_write sector b t.lg t.io ≡ panic "too big a transaction")))
      × (t.lg.committing ≡ false)
      × ((r : Log × Bool) × (end_op_leave t.lg ≡ ok r))
reservation_suffices {s} {t} f big r i q sector b lt e =
    let inv = Reach-Inv f r in
    let total = sum-set t.quotas i q lt e in
    let room = inv.reserved in
    let c = inv.counted in
    let z = inv.sized in
    let idle = inv.idle (omega (arith, lt)) in
    (
      elim (Bool-cases (ltb t.lg.n (t.lg.size - 1))) [
        | inl h ↦
            inl (log_write-fits sector b t.lg t.io (omega arith) (ground (arith, h)) (omega arith))
        | inr h ↦ inr (
          ground (arith, h, z, room, total, big),
          ground (arith, h, z, room, total, big),
          ground (arith, h, z, room, total, big),
          log_write_panic sector b t.lg t.io (ground (arith, h)),
        )
      ],
      idle,
      end_op_leave-idle t.lg idle,
    )
