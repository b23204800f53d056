-- ===== src/Base/Outcome.antt =====
-- Kernel code that may call `panic` (console.c), which never returns: the message ends the run.
-- `hang` is the result of a loop whose fuel has run out, and `blocked` that of a run that waits for a
-- lock which somebody else must release first.
use Prim.Native.String.{String}
use mathlib.Core.Bool.{Bool, true, false, true≢false}
use mathlib.Core.Path.{sym, ap}
use mathlib.Core.Logic.{◌≢◌}
use os_ass.Base.Tests.{if◌then◌else◌}

pub data Outcome {ℓ} (A : Type ℓ) : Type ℓ where
  ok : A → Outcome A
  panic : String → Outcome A
  hang : Outcome A
  blocked : Outcome A

infixl 5 ◌>>=◌
abbrev pub ◌>>=◌ {ℓ κ} : {A : Type ℓ} {B : Type κ} → Outcome A → (A → Outcome B) → Outcome B
ok a >>= f = f a
panic e >>= f = panic e
hang >>= f = hang
blocked >>= f = blocked

-- The run does not run out of fuel, and a result that it gives satisfies `P`.
pub data Ends {ℓ} {A : Type ℓ} (P : A → Type 0) : Outcome A → Type ℓ where
  gives : {a : A} → P a → Ends P (ok a)
  panics : {e : String} → Ends P (panic e)
  waits : Ends P blocked

pub bind-Ends {ℓ κ} :
    {A : Type ℓ} {B : Type κ} (P : A → Type 0) (Q : B → Type 0) (o : Outcome A) (f : A → Outcome B)
    → Ends P o
    → ((a : A) → P a → Ends Q (f a))
    → Ends Q (o >>= f)
bind-Ends P Q (ok a) f (gives p) h = h a p
bind-Ends P Q (panic e) f panics h = panics
bind-Ends P Q hang f x h = elim x [ ]
bind-Ends P Q blocked f waits h = waits

-- Nothing is said of the result.
abbrev pub Any {ℓ} : {A : Type ℓ} → A → Type 0
Any a = Unit

pub weaken-Ends {ℓ} :
    {A : Type ℓ} (P Q : A → Type 0) {o : Outcome A} → ((a : A) → P a → Q a) → Ends P o → Ends Q o
weaken-Ends P Q h (gives {a = a} p) = gives (h a p)
weaken-Ends P Q h panics = panics
weaken-Ends P Q h waits = waits

pub if-Ends {ℓ} :
    {A : Type ℓ} (P : A → Type 0) (b : Bool) {x y : Outcome A}
    → Ends P x
    → Ends P y
    → Ends P (if b then x else y)
if-Ends P true h g = h
if-Ends P false h g = g

abbrev is_hang {ℓ} : {A : Type ℓ} → Outcome A → Bool
is_hang (ok a) = false
is_hang (panic e) = false
is_hang hang = true
is_hang blocked = false

pub Ends-hang {ℓ} : {A : Type ℓ} (P : A → Type 0) {o : Outcome A} → Ends P o → o ≢ hang
Ends-hang P (gives p) e = true≢false (sym (ap is_hang e))
Ends-hang P panics e = true≢false (sym (ap is_hang e))
Ends-hang P waits e = true≢false (sym (ap is_hang e))
