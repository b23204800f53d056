-- ===== src/Kernel/Pipe/Sleepers.antt =====
-- The sleepers of a pipe: the processes that write to it and those that read from it, each under a
-- number. A writer sleeps on `&p->nwrite`, a reader on `&p->nread`, and a `wakeup` makes every
-- sleeper on its channel runnable. A call runs under `p->lock`, and `sleep` gives the lock up only
-- when the process sleeps, so each run of a call is one step.
use os_ass.Base.{ℕ, ◌≡◌, Bool, true, false, List, [], ◌∷◌, ◌==◌, if◌then◌else◌}
use os_ass.Kernel.Pipe.{
  pipesize, Pipe, Chan, at_nread, at_nwrite, End, returned, failed, sleeping, pipewrite, piperead,
  pipeclose,
}
use os_ass.Kernel.Pipe.Contents.{used, IsValid}

-- What a process does on its side of the pipe: nothing, or a call that sleeps or that was woken,
-- with what is left to do.
pub data Side (Rest : Type 0) : Type 0 where
  idle : Side Rest
  asleep woken : Rest → Side Rest

pub record System : Type 0 where
  pub pipe : Pipe
  pub writers : ℕ → Side (List ℕ)
  pub readers : ℕ → Side ℕ

abbrev pub rouse : {Rest : Type 0} → Side Rest → Side Rest
rouse idle = idle
rouse (asleep rest) = woken rest
rouse (woken rest) = woken rest

abbrev pub same_chan : Chan → Chan → Bool
same_chan at_nread at_nread = true
same_chan at_nwrite at_nwrite = true
same_chan at_nread at_nwrite = false
same_chan at_nwrite at_nread = false

-- The processes that sleep on a channel, after the calls of `wakeup` on the listed channels.
abbrev pub wake_all : {Rest : Type 0} → Chan → List Chan → (ℕ → Side Rest) → ℕ → Side Rest
wake_all on [] f = f
wake_all on (c ∷ cs) f = wake_all on cs (if same_chan on c then (λ j. rouse (f j)) else f)

abbrev pub assign : {A : Type 0} → ℕ → A → (ℕ → A) → ℕ → A
assign i a f j = if j == i then a else f j

abbrev pub after : {Result Rest : Type 0} → End Result Rest → Side Rest
after (returned x) = idle
after failed = idle
after (sleeping rest) = asleep rest

-- The system after a run of a call by the writer, or by the reader, `i`.
abbrev pub after_write : System → ℕ → End (Unit {0}) (List ℕ) × Pipe × List Chan → System
after_write s i r = record {
  pipe = r.1;
  writers = assign i (after r.0) (wake_all at_nwrite r.2 s.writers);
  readers = wake_all at_nread r.2 s.readers;
}

abbrev pub after_read : System → ℕ → End (List ℕ) ℕ × Pipe × List Chan → System
after_read s i r = record {
  pipe = r.1;
  writers = wake_all at_nwrite r.2 s.writers;
  readers = assign i (after r.0) (wake_all at_nread r.2 s.readers);
}

abbrev pub after_close : System → Pipe × Chan × Bool → System
after_close s r = record {
  pipe = r.0;
  writers = wake_all at_nwrite (r.1 ∷ []) s.writers;
  readers = wake_all at_nread (r.1 ∷ []) s.readers;
}

-- A process runs a new call, or goes on with the one that it was woken in.
pub data Runs {Rest : Type 0} : Side Rest → Rest → Type 0 where
  starts : {rest : Rest} → Runs idle rest
  resumes : {rest : Rest} → Runs (woken rest) rest

-- One step: a run of a call on an open end by a writer that was not killed or by any reader, the
-- last close of an end, or a `kill` that wakes a reader. A reader in a call has the read end open,
-- so that end is not closed meanwhile.
pub data Step : System → System → Type 0 where
  writes :
      (s : System) (i : ℕ) (xs : List ℕ)
      → Runs (s.writers i) xs
      → s.pipe.writeopen ≡ true
      → Step s (after_write s i (pipewrite false s.pipe xs))
  reads :
      (s : System) (killed : Bool) (i n : ℕ)
      → Runs (s.readers i) n
      → s.pipe.readopen ≡ true
      → Step s (after_read s i (piperead killed s.pipe n))
  closes_write : (s : System) → Step s (after_close s (pipeclose s.pipe true))
  closes_read :
      (s : System)
      → ((j : ℕ) → s.readers j ≡ idle)
      → Step s (after_close s (pipeclose s.pipe false))
  kills_reader :
      (s : System) (i : ℕ)
      → Step s (record s { readers = assign i (rouse (s.readers i)) s.readers })

pub data Reach : System → System → Type 0 where
  here : (s : System) → Reach s s
  there : {s t u : System} → Reach s t → Step t u → Reach s u

-- Each sleeper has a reason to sleep.
pub record Justified (s : System) : Type 0 where
  pub valid : IsValid s.pipe
  pub writer :
      (i : ℕ) (xs : List ℕ)
      → s.writers i ≡ asleep xs
      → (used s.pipe ≡ pipesize) × (s.pipe.readopen ≡ true)
  pub reader :
      (j n : ℕ)
      → s.readers j ≡ asleep n
      → (used s.pipe ≡ 0) × (s.pipe.writeopen ≡ true) × (s.pipe.readopen ≡ true)
