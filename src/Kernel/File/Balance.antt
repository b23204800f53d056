-- ===== src/Kernel/File/Balance.antt =====
-- `sys_dup` and `sys_close` on every branch, with the count of references.
use os_ass.Base.{
  ℕ, ◌+◌, ◌-◌, ◌<◌, ◌≡◌, ◌≢◌, refl, sym, ap, ◌∙◌, Bool, true, false, Option, none, some, ◌==◌, ltb,
  if◌then◌else◌, update, nofile, arith, Bool-cases, inl, inr, ne→==, ==_refl,
}
use os_ass.Base.Outcome.{Outcome, ok, panic, hang, blocked, ◌>>=◌, Ends}
use os_ass.Kernel.Fs.Cache.Total.{Dropped, iput-Ends, is_last, iput-drop_ref}
use os_ass.Kernel.Pipe.{Pipe, pipeclose}
use os_ass.Kernel.Fs.Cache.{Store, drop_ref, iput}
use os_ass.Kernel.File.{
  FileType, fd_none, fd_pipe, fd_inode, File, Open, filedup, close_object, fileclose,
}
use os_ass.Kernel.File.Calls.{argfd, fdalloc_loop, fdalloc, dup_at, sys_dup, sys_close}
use os_ass.Kernel.File.Counts.{
  refers, IsCounted, descriptors-some, Allocated, free, all_used, fdalloc_loop-Allocated, Opened,
  is_open, not_open, argfd-Opened, recount,
}

-- How `sys_dup` ends for what `argfd` gave: with -1 for a descriptor that is not open or if none is
-- free, and otherwise with a free one for the same file, counted.
pub data Dups (other : ℕ → ℕ) (ofile : ℕ → Option ℕ) (s : Open)
    : Option (ℕ × ℕ) → Outcome (Option ℕ × (ℕ → Option ℕ) × Open) → Type 0 where
  bad_descriptor : Dups other ofile s none (ok (none, ofile, s))
  too_many :
      {fd f : ℕ}
      → ((k : ℕ) → k < nofile → ofile k ≢ none)
      → Dups other ofile s (some (fd, f)) (ok (none, ofile, s))
  dups :
      {fd f new : ℕ} {s' : Open}
      → new < nofile
      → ofile new ≡ none
      → IsCounted other (update ofile new (some f)) s'
      → s'.store ≡ s.store
      → Dups other ofile s (some (fd, f)) (ok (some new, update ofile new (some f), s'))

-- The table without the file `f`, and everything else as it is.
abbrev pub removed : ℕ → Open → Open
removed f s = record s { files = update s.files f (record (s.files f) { ref = 0; type = fd_none }) }

-- One end of a pipe is closed.
pub record EndClosed (writable : Bool) (p q : Pipe) : Type 0 where
  pub bytes : (q.buf ≡ p.buf) × (q.nread ≡ p.nread) × (q.nwrite ≡ p.nwrite)
  pub reading : q.readopen ≡ (if writable then p.readopen else false)
  pub writing : q.writeopen ≡ (if writable then false else p.writeopen)

-- What becomes of the object of the file `f` of type `t` when its last reference goes: nothing of a
-- file of no type, the end of a pipe is closed, and an inode loses one reference, which is all that
-- happens unless it was the last one to an inode without links. Then `iput` frees the inode as well,
-- touches no other inode of the cache, and may panic.
pub data Released (f : ℕ) (s : Open) : FileType → Outcome Open → Type 0 where
  nothing : Released f s fd_none (ok (removed f s))
  end_closed :
      {q : Pipe}
      → EndClosed (s.files f).writable (s.pipes (s.files f).pipe) q
      → Released f s fd_pipe
          (ok (record (removed f s) { pipes = update s.pipes (s.files f).pipe q }))
  dropped :
      is_last (s.store.slots (s.files f).ip) ≡ false
      → Released f s fd_inode
          (ok (record (removed f s) { store = drop_ref (s.files f).ip s.store }))
  freed :
      {o : Outcome Store}
      → is_last (s.store.slots (s.files f).ip) ≡ true
      → iput (s.files f).ip s.store ≡ o
      → Ends (Dropped (s.files f).ip s.store) o
      → Released f s fd_inode (o >>= (λ st. ok (record (removed f s) { store = st })))

-- How `sys_close` ends: with -1; with one reference of the file less and nothing else changed but the
-- descriptor; or, with the last reference, as the object is released.
pub data Closes (other : ℕ → ℕ) (ofile : ℕ → Option ℕ) (s : Open)
    : Option (ℕ × ℕ) → Outcome (Bool × (ℕ → Option ℕ) × Open) → Type 0 where
  nothing_open : Closes other ofile s none (ok (false, ofile, s))
  still_open :
      {fd f : ℕ} {s' : Open}
      → 1 < (s.files f).ref
      → IsCounted other (update ofile fd none) s'
      → s'.store ≡ s.store
      → s'.pipes ≡ s.pipes
      → Closes other ofile s (some (fd, f)) (ok (true, update ofile fd none, s'))
  last :
      {fd f : ℕ} (o : Outcome Open)
      → (s.files f).ref ≡ 1
      → Released f s (s.files f).type o
      → ((s' : Open) → o ≡ ok s' → IsCounted other (update ofile fd none) s')
      → Closes other ofile s (some (fd, f)) (o >>= (λ s'. ok (true, update ofile fd none, s')))

iput-Released :
    (f : ℕ) (s : Open)
    → Released f s fd_inode
        (iput (s.files f).ip s.store >>= (λ st. ok (record (removed f s) { store = st })))
iput-Released f s = elim (Bool-cases (is_last (s.store.slots (s.files f).ip))) [
  | inl e ↦ freed e refl (iput-Ends (s.files f).ip s.store)
  | inr e ↦ rw (iput-drop_ref (s.files f).ip s.store e) (dropped e)
]

pipeclose-EndClosed : (p : Pipe) (writable : Bool) → EndClosed writable p (pipeclose p writable).0
unfolding pipeclose
pipeclose-EndClosed p true = record { bytes = (refl, refl, refl); reading = refl; writing = refl }
pipeclose-EndClosed p false = record { bytes = (refl, refl, refl); reading = refl; writing = refl }

close_object-Released :
    (f : ℕ) (s : Open) (t : FileType) → Released f s t (close_object t (s.files f) (removed f s))
unfolding close_object
close_object-Released f s fd_none = nothing
close_object-Released f s fd_pipe =
    end_closed (pipeclose-EndClosed (s.pipes (s.files f).pipe) (s.files f).writable)
close_object-Released f s fd_inode = iput-Released f s

-- The table of files in a result.
abbrev files_or : (ℕ → File) → Outcome Open → ℕ → File
files_or d (ok s) = s.files
files_or d (panic e) = d
files_or d hang = d
files_or d blocked = d

iput_files :
    (s : Open) (o : Outcome Store)
    → files_or s.files (o >>= (λ st. ok (record s { store = st }))) ≡ s.files
iput_files s (ok st) = refl
iput_files s (panic e) = refl
iput_files s hang = refl
iput_files s blocked = refl

close_object_files :
    (t : FileType) (ff : File) (s : Open) → files_or s.files (close_object t ff s) ≡ s.files
unfolding close_object
close_object_files fd_none ff s = refl
close_object_files fd_pipe ff s = refl
close_object_files fd_inode ff s = iput_files s (iput ff.ip s.store)

close_object-IsCounted :
    (other : ℕ → ℕ) (ofile : ℕ → Option ℕ) (t : FileType) (ff : File) (s s' : Open)
    → IsCounted other ofile s
    → close_object t ff s ≡ ok s'
    → IsCounted other ofile s'
close_object-IsCounted other ofile t ff s s' c e =
    let same : s'.files ≡ s.files = ap (files_or s.files) (sym e) ∙ close_object_files t ff s in
    record { counts = λ f. ap (λ t. (t f).ref) same ∙ c.counts f }

refers_other : (g f : ℕ) → f ≢ g → refers g none ≡ refers g (some f)
refers_other g f ne = let e : (g == f) ≡ false = ne→== g f (λ q. ne (sym q)) in rw e refl

module _ (other : ℕ → ℕ) (ofile : ℕ → Option ℕ) (s : Open) (c : IsCounted other ofile s) where
  -- An open file has a reference.
  ref_open : (fd f : ℕ) → fd < nofile → ofile fd ≡ some f → 0 < (s.files f).ref
  ref_open fd f l e = omega (arith, c.counts f, descriptors-some f ofile fd nofile l e)

  dup_at-Dups :
      (fd f : ℕ)
      → 0 < (s.files f).ref
      → (o : Option ℕ) → Allocated ofile 0 nofile o
      → Dups other ofile s (some (fd, f)) (
          dup_at f (elim o [ none ↦ (none, ofile) | some k ↦ (some k, update ofile k (some f)) ]) s)
  unfolding dup_at filedup
  dup_at-Dups fd f r none (all_used h) = too_many (λ k l. h k (omega arith) l)
  dup_at-Dups fd f r (some k) (free l e) =
      let t : ltb (s.files f).ref 1 ≡ false = ground (arith, r) in
      let file = record (s.files f) { ref = (s.files f).ref + 1 } in
      let one : refers f (some f) ≡ 1 = (let q : (f == f) ≡ true = ==_refl f in rw q refl) in
      let zero_k : refers f (ofile k) ≡ 0 = ap (refers f) e in
      rw t (
        dups l e
          (recount other ofile s k f (some f) file c l (omega (arith, one, zero_k))
            (λ g ne. ap (refers g) e ∙ refers_other g f ne))
          refl)

  -- `sys_dup` never panics if the references are counted, takes the file's reference for a free
  -- descriptor, keeps the count, and changes nothing when it fails.
  pub sys_dup_lem :
      (mem : ℕ → ℕ) (sz esp : ℕ)
      → Dups other ofile s (argfd mem sz esp 0 ofile) (sys_dup mem sz esp (ofile, s))
  unfolding sys_dup fdalloc
  sys_dup_lem mem sz esp = opened (argfd-Opened mem sz esp 0 ofile)
    where
      opened :
          {o : Option (ℕ × ℕ)}
          → Opened ofile o
          → Dups other ofile s o
              (elim o [ none ↦ ok (none, ofile, s) | some (fd, f) ↦ dup_at f (fdalloc ofile f) s ])
      opened not_open = bad_descriptor
      opened (is_open {fd = fd} {f = f} l e) =
          dup_at-Dups fd f (ref_open fd f l e) (fdalloc_loop ofile 0 nofile)
            (fdalloc_loop-Allocated ofile 0 nofile)

  fileclose-Closes :
      (fd f : ℕ)
      → fd < nofile
      → ofile fd ≡ some f
      → Closes other ofile s
          (some (fd, f))
          (fileclose f s >>= (λ s1. ok (true, update ofile fd none, s1)))
  unfolding fileclose
  fileclose-Closes fd f l e =
      let r = ref_open fd f l e in
      let t : ltb (s.files f).ref 1 ≡ false = ground (arith, r) in
      let self : (f == f) ≡ true = ==_refl f in
      let one : refers f (ofile fd) ≡ 1 = ap (refers f) e ∙ rw self refl in
      let others : (g : ℕ) → f ≢ g → refers g (ofile fd) ≡ refers g none =
        λ g ne. ap (refers g) e ∙ sym (refers_other g f ne) in
      elim (Bool-cases (ltb 0 ((s.files f).ref - 1))) [
        | inl u ↦
            rw (t, u)
              (still_open (ground (arith, u))
                (recount other ofile s fd f none (record (s.files f) { ref = (s.files f).ref - 1 })
                  c l (omega (arith, r, one)) others)
                refl refl)
        | inr u ↦
            let single : (s.files f).ref ≡ 1 = ground (arith, u, r) in
            let file = record (s.files f) { ref = 0; type = fd_none } in
            rw (t, u)
              (last (close_object (s.files f).type (s.files f) (removed f s)) single
                (close_object-Released f s (s.files f).type)
                (λ s'' q.
                  close_object-IsCounted other (update ofile fd none) (s.files f).type (s.files f)
                    (removed f s) s''
                    (recount other ofile s fd f none file c l (omega (arith, single, one)) others)
                    q))
      ]

  -- If the references are counted, `sys_close` never finds a file without references, and keeps the
  -- count. Unless it takes the last reference it changes nothing else; with the last one the file
  -- leaves the table, and its end of the pipe is closed, or its inode loses one reference, in the
  -- pipes and inodes as they were before the call.
  pub sys_close_lem :
      (mem : ℕ → ℕ) (sz esp : ℕ)
      → Closes other ofile s (argfd mem sz esp 0 ofile) (sys_close mem sz esp (ofile, s))
  unfolding sys_close
  sys_close_lem mem sz esp = opened (argfd-Opened mem sz esp 0 ofile)
    where
      opened :
          {o : Option (ℕ × ℕ)}
          → Opened ofile o
          → Closes other ofile s o (elim o [
            | none ↦ ok (false, ofile, s)
            | some (fd, f) ↦ (do s1 ← fileclose f s; ok (true, update ofile fd none, s1))
          ])
      opened not_open = nothing_open
      opened (is_open {fd = fd} {f = f} l e) = fileclose-Closes fd f l e
