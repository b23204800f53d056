-- ===== src/Base/Ring.antt =====
-- Circular buffers with free-running 32-bit indices, as the pipe and the console input use them:
-- a counter runs modulo 2^32, and its remainder by the buffer's size is the place in the buffer.
use Prim.Native.Nat.{ℕ, zero, suc, ◌+◌, ◌%◌, ◌≤◌, ◌<◌}
use mathlib.Core.Path.{◌≡◌, refl, sym, ap, ap₂, ◌∙◌}
use mathlib.Core.Logic.{◌≢◌}
use mathlib.Core.List.{List, [], ◌∷◌, ◌++◌}
use native.Mathlib.Omega.{arith}
use os_ass.Base.Lists.{length, get_or, set, get_or-set_self, get_or-set_ne}
use os_ass.Base.Words.{add32}

-- What a size needs for the indices to survive the wrap of the counters. It holds of a divisor of
-- 2^32.
pub record IsRingSize (size : ℕ) : Type 0 where
  pub within : (x : ℕ) → x % size < size
  pub apart : (h k n : ℕ) → k < n → n < size → add32 h k % size ≢ add32 h n % size

pub IsRingSize-512 : IsRingSize 512
IsRingSize-512 = record { within = λ x. omega arith; apart = λ h k n lt le. omega arith }

pub IsRingSize-128 : IsRingSize 128
IsRingSize-128 = record { within = λ x. omega arith; apart = λ h k n lt le. omega arith }

-- The `n` bytes that start `k` places behind the counter `h`.
unfoldable pub window : ℕ → List ℕ → ℕ → ℕ → ℕ → List ℕ
window size buf h k zero = []
window size buf h k (suc n) = get_or buf (add32 h k % size) 0 ∷ window size buf h (suc k) n

pub length-window : (size : ℕ) (buf : List ℕ) (h k n : ℕ) → length (window size buf h k n) ≡ n
unfolding window
length-window size buf h k zero = refl
length-window size buf h k (suc n) = ap suc (length-window size buf h (suc k) n)

-- Moving the counter up by one.
pub window-next :
    (size : ℕ) (buf : List ℕ) (h k n : ℕ)
    → window size buf (add32 h 1) k n ≡ window size buf h (suc k) n
unfolding window
window-next size buf h k zero = refl
window-next size buf h k (suc n) =
    ap₂ ◌∷◌ (ap (λ i. get_or buf (i % size) 0) (omega arith)) (window-next size buf h (suc k) n)

-- A write behind the window leaves it alone.
pub window-set :
    (size : ℕ) (buf : List ℕ) (h k n m x : ℕ)
    → IsRingSize size
    → k + n ≤ m
    → m < size
    → window size (set buf (add32 h m % size) x) h k n ≡ window size buf h k n
unfolding window
window-set size buf h k zero m x r le lt = refl
window-set size buf h k (suc n) m x r le lt =
    ap₂ ◌∷◌
      (get_or-set_ne buf (add32 h m % size) (add32 h k % size) x 0
        (λ e. r.apart h k m (omega arith) lt (sym e)))
      (window-set size buf h (suc k) n m x r (omega arith) lt)

pub window-snoc :
    (size : ℕ) (buf : List ℕ) (h k n : ℕ)
    → window size buf h k (suc n)
      ≡ window size buf h k n ++ (get_or buf (add32 h (k + n) % size) 0 ∷ [])
unfolding window
window-snoc size buf h k zero = ap (λ i. get_or buf (add32 h i % size) 0 ∷ []) (omega arith)
window-snoc size buf h k (suc n) =
    ap (λ t. get_or buf (add32 h k % size) 0 ∷ t)
      (window-snoc size buf h (suc k) n
        ∙ ap (λ i. window size buf h (suc k) n ++ (get_or buf (add32 h i % size) 0 ∷ []))
            (omega arith))

-- A write just behind a window that does not fill the buffer extends the window by that byte.
pub window-push :
    (size : ℕ) (buf : List ℕ) (h n x : ℕ)
    → IsRingSize size
    → length buf ≡ size
    → n < size
    → window size (set buf (add32 h n % size) x) h 0 (suc n) ≡ window size buf h 0 n ++ (x ∷ [])
window-push size buf h n x r len lt =
    window-snoc size (set buf (add32 h n % size) x) h 0 n
    ∙ ap₂ (λ a b. a ++ (b ∷ [])) (window-set size buf h 0 n n x r (omega arith) lt)
        (ap (λ i. get_or (set buf (add32 h n % size) x) (add32 h i % size) 0) (omega arith)
          ∙ get_or-set_self buf (add32 h n % size) x 0
              (let w = r.within (add32 h n) in omega arith))

-- Two windows, one behind the other.
pub window-append :
    (size : ℕ) (buf : List ℕ) (h k m n : ℕ)
    → window size buf h k (m + n) ≡ window size buf h k m ++ window size buf h (k + m) n
unfolding window
window-append size buf h k zero n = ap₂ (λ i j. window size buf h i j) (omega arith) (omega arith)
window-append size buf h k (suc m) n =
    let e : suc m + n ≡ suc (m + n) = omega arith in
    ap (λ i. window size buf h k i) e
    ∙ ap (λ t. get_or buf (add32 h k % size) 0 ∷ t)
        (window-append size buf h (suc k) m n
          ∙ ap (λ i. window size buf h (suc k) m ++ window size buf h i n) (omega arith))

-- A window read from a later counter.
pub window-shift :
    (size : ℕ) (buf : List ℕ) (h a k n : ℕ)
    → window size buf (add32 h a) k n ≡ window size buf h (a + k) n
unfolding window
window-shift size buf h a k zero = refl
window-shift size buf h a k (suc n) =
    ap₂ ◌∷◌ (ap (λ i. get_or buf (i % size) 0) (omega arith))
      (window-shift size buf h a (suc k) n ∙ ap (λ i. window size buf h i n) (omega arith))
