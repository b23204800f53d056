-- ===== src/Kernel/File.antt =====
-- file.c: the table of open files, with `pipealloc` of pipe.c, and of sysfile.c the system calls on
-- descriptors. A pointer to a file is its number in the table. The wake-ups of the pipe functions
-- are in Kernel/Pipe and are dropped here; the transactions around an inode are in Kernel/Log.
pub mod Transfer
pub mod Calls
pub mod Counts
pub mod Balance
mod Tests
use os_ass.Base.{
  ℕ, zero, suc, ◌+◌, ◌-◌, Bool, true, false, not, ◌&&◌, ◌||◌, List, [], ◌∷◌, Option, none, some,
  ◌==◌, ltb, if◌then◌else◌, update,
}
use os_ass.Base.Outcome.{Outcome, ok, panic, hang, blocked, ◌>>=◌}
use os_ass.Kernel.Pipe.{Pipe, fresh, pipeclose}
use os_ass.Kernel.Fs.Cache.{Store, Stat, ilock, iunlock, iput, stati}

abbrev pub nfile : ℕ
nfile = 100

pub data FileType : Type 0 where
  fd_none fd_pipe fd_inode : FileType

-- `struct file`
pub record File : Type 0 where
  pub type : FileType
  pub ref : ℕ
  pub readable : Bool
  pub writable : Bool
  pub pipe : ℕ
  pub ip : ℕ
  pub off : ℕ

-- `ftable`, with the pipes and the inodes that the files stand for.
pub record Open : Type 0 where
  pub files : ℕ → File
  pub pipes : ℕ → Pipe
  pub store : Store

abbrev pub set_file : Open → ℕ → File → Open
set_file s f file = record s { files = update s.files f file }

-- The loop of `filealloc`: the first file without references.
unfoldable pub filealloc_loop : (ℕ → File) → (f rounds : ℕ) → Option ℕ
filealloc_loop files f zero = none
filealloc_loop files f (suc rounds) =
    let later = filealloc_loop files (suc f) rounds in if (files f).ref == 0 then some f else later

unfoldable pub take_file : Option ℕ → Open → Option ℕ × Open
take_file none s = (none, s)
take_file (some f) s = (some f, set_file s f (record (s.files f) { ref = 1 }))

unfoldable pub filealloc : Open → Option ℕ × Open
filealloc s = take_file (filealloc_loop s.files 0 nfile) s

unfoldable pub filedup : ℕ → Open → Outcome Open
filedup f s =
    let file = s.files f in
    if ltb file.ref 1
    then panic "filedup"
    else ok (set_file s f (record file { ref = file.ref + 1 }))

-- What `fileclose` does to the object of the file `ff` that it took from the table. A pipe without
-- ends is freed, and nothing refers to it any more.
unfoldable pub close_object : FileType → File → Open → Outcome Open
close_object fd_none ff s = ok s
close_object fd_pipe ff s =
    ok (record s { pipes = update s.pipes ff.pipe (pipeclose (s.pipes ff.pipe) ff.writable).0 })
close_object fd_inode ff s = do st ← iput ff.ip s.store; ok (record s { store = st })

unfoldable pub fileclose : ℕ → Open → Outcome Open
fileclose f s =
    let ff = s.files f in
    if ltb ff.ref 1
    then panic "fileclose"
    else if ltb 0 (ff.ref - 1)
    then ok (set_file s f (record ff { ref = ff.ref - 1 }))
    else close_object ff.type ff (set_file s f (record ff { ref = 0; type = fd_none }))

-- `filestat`, on the file's type; none for -1.
unfoldable pub filestat_as : FileType → File → Open → Outcome (Option Stat × Open)
filestat_as fd_none f s = ok (none, s)
filestat_as fd_pipe f s = ok (none, s)
filestat_as fd_inode f s = do
  st1 ← ilock (some f.ip) s.store
  st2 ← iunlock (some f.ip) st1
  ok (some (stati (st1.slots f.ip)), record s { store = st2 })

unfoldable pub filestat : ℕ → Open → Outcome (Option Stat × Open)
filestat f s = filestat_as (s.files f).type (s.files f) s

-- The end of `pipealloc` that gives up: it closes the file, or both.
unfoldable pub give_up : List ℕ → Open → Outcome (Option (ℕ × ℕ) × Open)
give_up [] s = ok (none, s)
give_up (f ∷ fs) s = do s1 ← fileclose f s; give_up fs s1

-- The two ends of the pipe `p`.
unfoldable pub pipe_ends : (p f0 f1 : ℕ) → List ℕ → Open → Open
pipe_ends p f0 f1 junk s =
    let s1 =
      set_file s f0
        (record (s.files f0) { type = fd_pipe; readable = true; writable = false; pipe = p }) in
    let s2 =
      set_file s1 f1
        (record (s1.files f1) { type = fd_pipe; readable = false; writable = true; pipe = p }) in
    record s2 { pipes = update s2.pipes p (fresh junk) }

-- `pipealloc` with both files, and the page that `kalloc` gave.
unfoldable pub make_pipe : (f0 f1 : ℕ) → Option ℕ → List ℕ → Open → Outcome (Option (ℕ × ℕ) × Open)
make_pipe f0 f1 none junk s = give_up (f0 ∷ f1 ∷ []) s
make_pipe f0 f1 (some p) junk s = ok (some (f0, f1), pipe_ends p f0 f1 junk s)

unfoldable pub second_file :
    (f0 : ℕ) → Option ℕ × Open → Option ℕ → List ℕ → Outcome (Option (ℕ × ℕ) × Open)
second_file f0 (none, s) page junk = give_up (f0 ∷ []) s
second_file f0 (some f1, s) page junk = make_pipe f0 f1 page junk s

unfoldable pub first_file : Option ℕ × Open → Option ℕ → List ℕ → Outcome (Option (ℕ × ℕ) × Open)
first_file (none, s) page junk = ok (none, s)
first_file (some f0, s) page junk = second_file f0 (filealloc s) page junk

-- `pipealloc`, with what `kalloc` gives if it is asked, and the bytes on that page.
unfoldable pub pipealloc : Option ℕ → List ℕ → Open → Outcome (Option (ℕ × ℕ) × Open)
pipealloc page junk s = first_file (filealloc s) page junk
