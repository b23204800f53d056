-- ===== src/Base/Maps.antt =====
-- Arrays and memories as functions of the index.
use Prim.Native.Nat.{ℕ}
use mathlib.Core.Path.{sym, ap, subst, ◌∙◌}
use mathlib.Core.Logic.{◌≢◌, inl, inr}
use mathlib.Core.Bool.{true≢false}
use os_ass.Base.Tests.{◌==◌, if◌then◌else◌, Bool-cases, ==→eq, ==_refl}

abbrev pub update {ℓ} : {A : Type ℓ} → (ℕ → A) → ℕ → A → ℕ → A
update f i a j = if i == j then a else f j

-- A statement about every entry of an updated array.
pub update-each {ℓ κ} :
    {A : Type ℓ} (P : ℕ → A → Type κ) (f : ℕ → A) (i : ℕ) (v : A)
    → P i v
    → ((k : ℕ) → i ≢ k → P k (f k))
    → (k : ℕ) → P k (update f i v k)
update-each P f i v new old k = elim (Bool-cases (i == k)) [
  | inl e ↦ subst (λ b. P k (if b then v else f k)) (sym e) (subst (λ j. P j v) (==→eq i k e) new)
  | inr e ↦
      subst (λ b. P k (if b then v else f k)) (sym e)
        (old k (λ s. true≢false (sym (==_refl i) ∙ ap (λ j. i == j) s ∙ e)))
]
