-- ===== src/Kernel/Fs/Path.antt =====
-- fs.c: path names. A path is its bytes up to the NUL.
pub mod Elements
pub mod Total
use os_ass.Base.{
  ℕ, zero, suc, ◌+◌, ◌*◌, Bool, true, false, not, ◌&&◌, List, [], ◌∷◌, length, take, Option, none,
  some, ◌==◌, leb, if◌then◌else◌, update,
}
use os_ass.Base.Outcome.{Outcome, ok, panic, hang, ◌>>=◌}
use os_ass.Kernel.Fs.Inode.{t_dir}
use os_ass.Kernel.Fs.Content.{splice}
use os_ass.Kernel.Fs.Cache.{Store, iget, idup, ilock, iunlock, iput, iunlockput}
use os_ass.Kernel.Fs.Dir.{dirsiz, dirlookup}

abbrev pub slash : ℕ
slash = b'/'

-- `while(*path == '/') path++;`
unfoldable pub skip_slashes : List ℕ → List ℕ
skip_slashes [] = []
skip_slashes (c ∷ cs) = let later = skip_slashes cs in if c == slash then later else c ∷ cs

-- `while(*path != '/' && *path != 0) path++;`: what it passes, and where it ends.
unfoldable pub element : List ℕ → List ℕ × List ℕ
element [] = ([], [])
element (c ∷ cs) = let (e, rest) = element cs in if c == slash then ([], c ∷ cs) else (c ∷ e, rest)

-- The copy to `name`.
unfoldable pub copy_name : (name : ℕ → ℕ) → List ℕ → ℕ → ℕ
copy_name name e =
    if leb dirsiz (length e)
    then splice name 0 (take dirsiz e)
    else update (splice name 0 e) (length e) 0

-- The end of `skipelem`, where `path` starts with its first element.
unfoldable pub take_element : List ℕ → (name : ℕ → ℕ) → Option (List ℕ × (ℕ → ℕ))
take_element [] name = none
take_element (c ∷ cs) name =
    let (e, rest) = element (c ∷ cs) in some (skip_slashes rest, copy_name name e)

-- The rest of the path and the name, or none for a null pointer.
unfoldable pub skipelem : List ℕ → (name : ℕ → ℕ) → Option (List ℕ × (ℕ → ℕ))
skipelem path name = take_element (skip_slashes path) name

-- How a round of `namex` goes on: it returns, or goes on at another inode.
pub data Round : Type 0 where
  returns : Option ℕ → Round
  continues : ℕ → Round

-- The end of the loop body of `namex`, given what `dirlookup` found.
unfoldable pub enter : (i : ℕ) → Option (ℕ × ℕ) → Store → Outcome (Round × Store)
enter i none s = do s1 ← iunlockput i s; ok (returns none, s1)
enter i (some (next, off)) s = do s1 ← iunlockput i s; ok (continues next, s1)

-- The loop body with the inode in slot `i`; `last` says that the path is at its end.
unfoldable pub walk_round :
    (ℕ → Bool) → (parent last : Bool) → (name : ℕ → ℕ) → (i : ℕ) → Store → Outcome (Round × Store)
walk_round has parent last name i s = do
  s1 ← ilock (some i) s
  if not ((s1.slots i).type == t_dir)
      then (do s2 ← iunlockput i s1; ok (returns none, s2))
      else if parent && last
      then (do s2 ← iunlock (some i) s1; ok (returns (some i), s2))
      else (do (found, s2) ← dirlookup has i name s1; enter i found s2)

abbrev pub is_empty : List ℕ → Bool
is_empty [] = true
is_empty (c ∷ cs) = false

-- After the loop.
unfoldable pub walk_end :
    (parent : Bool) → (name : ℕ → ℕ) → (i : ℕ) → Store → Outcome (Option ℕ × (ℕ → ℕ) × Store)
walk_end parent name i s =
    if parent then (do s1 ← iput i s; ok (none, name, s1)) else ok (some i, name, s)

-- What a run of the rest of the path gives: the inode, and the name left in the buffer.
abbrev pub Walk : Type 0
Walk = List ℕ → (ℕ → ℕ) → ℕ → Store → Outcome (Option ℕ × (ℕ → ℕ) × Store)

-- After the body, with what is to follow.
unfoldable pub walk_on :
    Walk → List ℕ → (ℕ → ℕ) → Round × Store → Outcome (Option ℕ × (ℕ → ℕ) × Store)
walk_on again path name (returns result, s) = ok (result, name, s)
walk_on again path name (continues next, s) = again path name next s

-- The test of the loop, on what `skipelem` returned, with the body and what follows.
unfoldable pub walk_step :
    (ℕ → Bool)
    → (parent : Bool) → Walk
    → Option (List ℕ × (ℕ → ℕ))
    → (name : ℕ → ℕ) → (i : ℕ) → Store
    → Outcome (Option ℕ × (ℕ → ℕ) × Store)
walk_step has parent again none name i s = walk_end parent name i s
walk_step has parent again (some (path1, name1)) name i s = do
  r ← walk_round has parent (is_empty path1) name1 i s
  walk_on again path1 name1 r

-- The loop of `namex` and what follows it. Each round takes an element from the path.
unfoldable pub walk : (ℕ → Bool) → (parent : Bool) → (rounds : ℕ) → Walk
walk has parent zero path name i s = hang
walk has parent (suc rounds) path name i s =
    walk_step has parent (walk has parent rounds) (skipelem path name) name i s

-- The inode at which a path starts: the root, number 1 on device 1, or the current directory.
unfoldable pub start : (path : List ℕ) → (cwd : ℕ) → Store → Outcome (ℕ × Store)
start [] cwd s = ok (cwd, idup cwd s)
start (c ∷ cs) cwd s = if c == slash then iget 1 1 s else ok (cwd, idup cwd s)

-- `namex`, with `nameiparent` and `name`: the slot found, and the name left in the buffer.
unfoldable pub namex :
    (ℕ → Bool)
    → (path : List ℕ) → (parent : Bool) → (name : ℕ → ℕ) → (cwd : ℕ) → Store
    → Outcome (Option ℕ × (ℕ → ℕ) × Store)
namex has path parent name cwd s = do
  (i, s1) ← start path cwd s
  walk has parent (length path + 1) path name i s1

-- The buffer of `namei` is fresh.
unfoldable pub namei :
    (ℕ → Bool) → (path : List ℕ) → (cwd : ℕ) → Store → Outcome (Option ℕ × (ℕ → ℕ) × Store)
namei has path cwd s = namex has path false (λ k. 0) cwd s

unfoldable pub nameiparent :
    (ℕ → Bool)
    → (path : List ℕ) → (name : ℕ → ℕ) → (cwd : ℕ) → Store
    → Outcome (Option ℕ × (ℕ → ℕ) × Store)
nameiparent has path name cwd s = namex has path true name cwd s
