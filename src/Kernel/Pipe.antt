-- ===== src/Kernel/Pipe.antt =====
-- pipe.c: `pipewrite`, `piperead` and `pipeclose` on one pipe. A call runs under `p->lock` until it
-- returns or sleeps, so it is one function on the pipe; a sleeper that wakes runs its loop again
-- from the bytes that it has left. `char`s are only moved, so a byte is any number.
pub mod Contents
pub mod Write
pub mod Read
pub mod Stream
pub mod Sleepers
pub mod Wakeups
mod Tests
use os_ass.Base.{
  ℕ, zero, suc, ◌%◌, Bool, true, false, not, ◌&&◌, ◌||◌, List, [], ◌∷◌, get_or, set, replicate,
  ◌==◌, if◌then◌else◌, add32,
}

abbrev pub pipesize : ℕ
pipesize = 512

-- `struct pipe`
pub record Pipe : Type 0 where
  pub buf : List ℕ
  pub nread : ℕ
  pub nwrite : ℕ
  pub readopen : Bool
  pub writeopen : Bool

-- The channels on which the pipe wakes sleepers.
pub data Chan : Type 0 where
  at_nread at_nwrite : Chan

-- How a run of a call ends: it returns its result, returns -1, or sleeps with this left to do.
pub data End (Result Rest : Type 0) : Type 0 where
  returned : Result → End Result Rest
  failed : End Result Rest
  sleeping : Rest → End Result Rest

-- The fields that `pipealloc` sets. `kalloc` does not clear the page: `junk` are its old bytes.
pub fresh : List ℕ → Pipe
fresh junk = record { buf = junk; nread = 0; nwrite = 0; readopen = true; writeopen = true }

pub put : Pipe → ℕ → Pipe
put p x = record p { buf = set p.buf (p.nwrite % pipesize) x; nwrite = add32 p.nwrite 1 }

-- The loop of `pipewrite` over the bytes that are left, with the channel that it wakes at its end.
pub write_loop : Bool → Pipe → List ℕ → End (Unit {0}) (List ℕ) × Pipe × List Chan
write_loop killed p [] = (returned tt, p, at_nread ∷ [])
write_loop killed p (x ∷ xs) =
    let rest = write_loop killed (put p x) xs in
    if p.nwrite == add32 p.nread pipesize
    then if not p.readopen || killed then (failed, p, []) else (sleeping (x ∷ xs), p, at_nread ∷ [])
    else rest

-- `pipewrite` returns its argument `n`, the length of `xs`, when it returns.
pub pipewrite : Bool → Pipe → List ℕ → End (Unit {0}) (List ℕ) × Pipe × List Chan
pipewrite killed p xs = write_loop killed p xs

-- The copying loop of `piperead`.
pub read_loop : ℕ → Pipe → List ℕ × Pipe
read_loop zero p = ([], p)
read_loop (suc n) p =
    let next = read_loop n (record p { nread = add32 p.nread 1 }) in
    if p.nread == p.nwrite then ([], p) else (get_or p.buf (p.nread % pipesize) 0 ∷ next.0, next.1)

-- `piperead` returns the number of bytes that it copied, here the bytes themselves; a negative `n`
-- acts as 0. A sleeper still wants `n` bytes.
pub piperead : Bool → Pipe → ℕ → End (List ℕ) ℕ × Pipe × List Chan
piperead killed p n =
    if p.nread == p.nwrite && p.writeopen
    then if killed then (failed, p, []) else (sleeping n, p, [])
    else (let (bytes, p') = read_loop n p in (returned bytes, p', at_nwrite ∷ []))

-- `pipeclose`: the pipe, the channel that it wakes, and whether it frees the page.
unfoldable pub pipeclose : Pipe → Bool → Pipe × Chan × Bool
pipeclose p writable =
    let p' = if writable then record p { writeopen = false } else record p { readopen = false } in
    (p', if writable then at_nread else at_nwrite, not p'.readopen && not p'.writeopen)
