-- ===== src/Kernel/Syscall/Tests.antt =====
-- The argument checks on a caller with 4096 bytes of memory.
use os_ass.Base.{ℕ, ◌+◌, ◌≤◌, ◌<◌, ◌≡◌, refl, some, update, arith}
use os_ass.Kernel.Syscall.{fetchint, fetchstr, argint, check_block, argptr}
use os_ass.Kernel.Syscall.Bounds.{argptr-inside, Fetched, fetchstr_lem}

-- The first argument on a stack at 4000 is the word 300.
abbrev memory : ℕ → ℕ
memory = update (update (λ a. 0) 4004 44) 4005 1

fetched : argint memory 4096 4000 0 ≡ some 300
unfolding argint fetchint
fetched = refl

passed : argptr memory 4096 4000 0 16 ≡ some 300
unfolding argptr check_block argint fetchint
passed = refl

argptr-inside_example : (300 < 4096) × (300 + 16 ≤ 4096)
argptr-inside_example = argptr-inside memory 4096 4000 0 16 300 (omega arith) (omega arith) passed

fetchstr_lem_example : Fetched memory 4096 4004 (fetchstr memory 4096 4004)
fetchstr_lem_example = fetchstr_lem memory 4096 4004
