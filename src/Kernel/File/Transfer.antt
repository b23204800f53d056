-- ===== src/Kernel/File/Transfer.antt =====
-- file.c: `fileread` and `filewrite`. `n` is not negative. The offset of a device's file, which
-- nothing reads, is left as it is.
use os_ass.Base.{
  ℕ, zero, suc, ◌*◌, ◌/◌, ◌-◌, Bool, List, length, take, drop, Option, none, some, ◌==◌,
  if◌then◌else◌, update, add32, logsize, min,
}
use os_ass.Base.Outcome.{Outcome, ok, panic, hang, ◌>>=◌}
use os_ass.Kernel.Pipe as Pipe
use os_ass.Kernel.Fs.Content.{End, done, failed, at_device, readi, writei}
use os_ass.Kernel.Fs.Cache.{ilock, iunlock}
use os_ass.Kernel.File.{FileType, fd_none, fd_pipe, fd_inode, Open, set_file}

-- How a transfer ends: with its result, with -1, in the device's function, or asleep at a pipe.
pub data Transfer (Result Rest : Type 0) : Type 0 where
  gave : Result → Transfer Result Rest
  refused : Transfer Result Rest
  device : (major : ℕ) → Transfer Result Rest
  sleeps : Rest → Transfer Result Rest

abbrev pub of_pipe : {Result Rest : Type 0} → Pipe.End Result Rest → Transfer Result Rest
of_pipe (Pipe.returned r) = gave r
of_pipe Pipe.failed = refused
of_pipe (Pipe.sleeping rest) = sleeps rest

-- `pipewrite` returns the count that it was given.
abbrev pub pipe_count : ℕ → Pipe.End (Unit {0}) (List ℕ) → Transfer ℕ (List ℕ)
pipe_count n (Pipe.returned r) = gave n
pipe_count n Pipe.failed = refused
pipe_count n (Pipe.sleeping rest) = sleeps rest

abbrev pub of_inode : {Result Rest : Type 0} → End Result → Transfer Result Rest
of_inode (done r) = gave r
of_inode failed = refused
of_inode (at_device major) = device major

-- The number of bytes that a call moved.
abbrev pub moved : End (List ℕ) → ℕ
moved (done bytes) = length bytes
moved failed = 0
moved (at_device major) = 0

-- `readi` and the new offset, with the inode locked.
unfoldable pub read_locked : (ℕ → Bool) → (f n : ℕ) → Open → Outcome (End (List ℕ) × Open)
read_locked has f n s = do
  st1 ← ilock (some (s.files f).ip) s.store
  (r, ip, d) ← readi has (st1.slots (s.files f).ip) (s.files f).off n st1.disk
  st2 ←
      iunlock (some (s.files f).ip)
        (record { slots = update st1.slots (s.files f).ip ip; disk = d })
  ok (
    r,
    set_file (record s { store = st2 }) f
        (record (s.files f) { off = add32 (s.files f).off (moved r) }),
  )

unfoldable pub fileread_as :
    FileType
    → (ℕ → Bool)
    → (killed : Bool) → (f n : ℕ) → Open
    → Outcome (Transfer (List ℕ) ℕ × Open)
fileread_as fd_none has killed f n s = panic "fileread"
fileread_as fd_pipe has killed f n s =
    let (r, p, wakes) = Pipe.piperead killed (s.pipes (s.files f).pipe) n in
    ok (of_pipe r, record s { pipes = update s.pipes (s.files f).pipe p })
fileread_as fd_inode has killed f n s = do (r, s1) ← read_locked has f n s; ok (of_inode r, s1)

unfoldable pub fileread :
    (ℕ → Bool) → (killed : Bool) → (f n : ℕ) → Open → Outcome (Transfer (List ℕ) ℕ × Open)
fileread has killed f n s =
    if (s.files f).readable then fileread_as (s.files f).type has killed f n s else ok (refused, s)

-- `max`
abbrev pub max_write : ℕ
max_write = (logsize - 1 - 1 - 2) / 2 * 512

abbrev pub written_count : End ℕ → ℕ
written_count (done n) = n
written_count failed = 0
written_count (at_device major) = 0

-- `writei` of one piece and the new offset, with the inode locked.
unfoldable pub write_locked : (ℕ → Bool) → (f : ℕ) → List ℕ → Open → Outcome (End ℕ × Open)
write_locked has f xs s = do
  st1 ← ilock (some (s.files f).ip) s.store
  (r, ip, d) ← writei has (st1.slots (s.files f).ip) (s.files f).off xs st1.disk
  st2 ←
      iunlock (some (s.files f).ip)
        (record { slots = update st1.slots (s.files f).ip ip; disk = d })
  ok (
    r,
    set_file (record s { store = st2 }) f
        (record (s.files f) { off = add32 (s.files f).off (written_count r) }),
  )

-- How a round goes on: to the next piece, or to the end with this.
unfoldable pub after_piece : (n1 : ℕ) → End ℕ → Outcome (Option (Transfer ℕ (List ℕ)))
after_piece n1 failed = ok (some refused)
after_piece n1 (at_device major) = ok (some (device major))
after_piece n1 (done r) = if r == n1 then ok none else panic "short filewrite"

-- The loop of `filewrite` with the bytes that are left of `n`. A round writes at least a byte, so a
-- round for each byte is enough.
unfoldable pub filewrite_loop :
    (ℕ → Bool) → (f n rounds : ℕ) → List ℕ → Open → Outcome (Transfer ℕ (List ℕ) × Open)
filewrite_loop has f n zero xs s = if length xs == 0 then ok (gave n, s) else hang
filewrite_loop has f n (suc rounds) xs s = if length xs == 0 then ok (gave n, s) else (do
  (r, s1) ← write_locked has f (take max_write xs) s
  next ← after_piece (min (length xs) max_write) r
  elim next [
    | none ↦ filewrite_loop has f n rounds (drop max_write xs) s1
    | some result ↦ ok (result, s1)
  ])

unfoldable pub filewrite_as :
    FileType
    → (ℕ → Bool)
    → (killed : Bool) → (f : ℕ) → List ℕ
    → Open
    → Outcome (Transfer ℕ (List ℕ) × Open)
filewrite_as fd_none has killed f xs s = panic "filewrite"
filewrite_as fd_pipe has killed f xs s =
    let (r, p, wakes) = Pipe.pipewrite killed (s.pipes (s.files f).pipe) xs in
    ok (pipe_count (length xs) r, record s { pipes = update s.pipes (s.files f).pipe p })
filewrite_as fd_inode has killed f xs s = filewrite_loop has f (length xs) (length xs) xs s

unfoldable pub filewrite :
    (ℕ → Bool) → (killed : Bool) → (f : ℕ) → List ℕ → Open → Outcome (Transfer ℕ (List ℕ) × Open)
filewrite has killed f xs s =
    if (s.files f).writable
    then filewrite_as (s.files f).type has killed f xs s
    else ok (refused, s)
