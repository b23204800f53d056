-- ===== src/Kernel/Pipe/Tests.antt =====
-- The pipe at a state whose counters are about to wrap.
use os_ass.Base.{
  ℕ, ◌-◌, ◌^◌, ◌≤◌, ◌≡◌, ◌≢◌, refl, true, false, List, [], ◌∷◌, ◌++◌, length, replicate,
  length-replicate, arith,
}
use os_ass.Kernel.Pipe.{Pipe, pipewrite, piperead}
use os_ass.Kernel.Pipe.Contents.{contents, IsValid}
use os_ass.Kernel.Pipe.Stream.{Call, write, read, close, run, stream_fifo}
use os_ass.Kernel.Pipe.Sleepers.{
  idle, asleep, System, after_write, after_read, starts, writes, reads, here, there, Justified,
}
use os_ass.Kernel.Pipe.Wakeups.{no_lost_wakeup}

abbrev wrapping : Pipe
wrapping = record {
  buf = replicate 512 7;
  nread = 2 ^ 32 - 1;
  nwrite = 1;
  readopen = true;
  writeopen = true;
}

wrapping-IsValid : IsValid wrapping
wrapping-IsValid = record {
  storage = length-replicate {A = ℕ} 512 7;
  nread_word = omega arith;
  nwrite_word = omega arith;
  fits = omega arith;
}

abbrev calls : List Call
calls = write false (1 ∷ 2 ∷ []) ∷ read false 3 ∷ close true ∷ read false 9 ∷ []

stream_fifo_example :
    (contents wrapping ++ (run calls wrapping).0
      ≡ (run calls wrapping).1 ++ contents (run calls wrapping).2)
    × IsValid (run calls wrapping).2
    × (length (contents (run calls wrapping).2) ≤ 512)
stream_fifo_example = stream_fifo calls wrapping wrapping-IsValid

-- An empty pipe on which a reader goes to sleep before a writer comes.
abbrev quiet : System
quiet = record {
  pipe = record wrapping { nwrite = 2 ^ 32 - 1 };
  writers = λ i. idle;
  readers = λ i. idle;
}

quiet-Justified : Justified quiet
quiet-Justified = record {
  valid = record {
    storage = length-replicate {A = ℕ} 512 7;
    nread_word = omega arith;
    nwrite_word = omega arith;
    fits = omega arith;
  };
  writer = λ i xs e. absurd (cc e);
  reader = λ j n e. absurd (cc e);
}

abbrev blocked : System
blocked = after_read quiet 0 (piperead false quiet.pipe 4)

abbrev served : System
served = after_write blocked 1 (pipewrite false blocked.pipe (5 ∷ 6 ∷ []))

no_lost_wakeup_example :
    Justified served
    × ((i j n : ℕ) (xs : List ℕ) → served.writers i ≡ asleep xs → served.readers j ≢ asleep n)
unfolding piperead
no_lost_wakeup_example = no_lost_wakeup quiet-Justified (
    there (there (here quiet) (reads quiet false 0 4 starts refl))
      (writes blocked 1 (5 ∷ 6 ∷ []) starts refl))
