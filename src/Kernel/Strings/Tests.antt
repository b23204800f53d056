-- ===== src/Kernel/Strings/Tests.antt =====
-- Overlapping copies on the memory that holds each address's own number, and a name that is cut.
use os_ass.Kernel.Strings.Copy.{IsCut, safestrcpy_lem}
use os_ass.Base.{ℕ, ◌≤◌, [], ◌∷◌, get_or, ◌≡◌, refl}
use os_ass.Kernel.Strings.{memmove, forward, backward, safestrcpy, safestrcpy_loop}
use os_ass.Kernel.Strings.Move.{copied, memmove_lem}

abbrev own : ℕ → ℕ
own a = a

up : memmove own 12 10 4 15 ≡ 13
unfolding memmove backward forward
up = refl

memmove_lem_example : memmove own 12 10 4 15 ≡ copied own 12 10 4 15
memmove_lem_example = memmove_lem own 12 10 4 15

abbrev name : ℕ → ℕ
name k = get_or (b'i' ∷ b'n' ∷ b'i' ∷ b't' ∷ []) k 0

-- Four bytes of room for a name of four: the last gives way to the NUL.
cut : safestrcpy own name 4 3 ≡ 0
unfolding safestrcpy safestrcpy_loop
cut = refl

safestrcpy_lem_example :
    ((m : ℕ) × IsCut name (safestrcpy own name 4) 4 m)
    × ((j : ℕ) → 4 ≤ j → safestrcpy own name 4 j ≡ own j)
safestrcpy_lem_example = safestrcpy_lem own name 3
