-- ===== src/Base/Digits.antt =====
-- The native operations on binary digits recur on a count. Here the count is dropped.
use Prim.Native.Nat.{ℕ, zero, suc, ◌*◌, ◌+◌, ◌/◌, ◌%◌, ◌≤◌, digits}
use mathlib.Core.Path.{◌≡◌, refl, sym, ap, ◌∙◌}
use native.Mathlib.Omega.{arith}

module _ (end : ℕ → ℕ) (digit : ℕ → ℕ → ℕ) where
  -- With no digits left in the first number any count gives the same.
  run_out : (count b : ℕ) → digits end digit count 0 b ≡ end b
  run_out zero b = refl
  run_out (suc count) b = refl

  counts_agree : (b c a i : ℕ) → a ≤ b → a ≤ c → digits end digit b a i ≡ digits end digit c a i
  counts_agree b c zero i h k = run_out b i ∙ sym (run_out c i)
  counts_agree zero c (suc a) i h k = absurd (omega arith)
  counts_agree (suc b) zero (suc a) i h k = absurd (omega arith)
  counts_agree (suc b) (suc c) (suc a) i h k =
      ap (λ (t : ℕ). t * 2 + digit (suc a % 2) (i % 2))
        (counts_agree b c (suc a / 2) (i / 2) (omega arith) (omega arith))

  pub enough_digits :
      (count a b : ℕ) → a ≤ count → digits end digit count a b ≡ digits end digit a a b
  enough_digits count a b h = counts_agree count a a b h (omega arith)
