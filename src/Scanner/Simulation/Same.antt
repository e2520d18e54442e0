-- ===== src/Scanner/Simulation/Same.antt =====
-- Expressions that compare equal, and expectations that accept the same lines.
use mathlib.Core.Path.{subst}
use lcdpico_34401a.Common.{
  ℕ, ◌≡◌, inl, inr, refl, sym, ap, ap₂, arith, Bool, true, false, List, [], ◌∷◌, all, Bool-cases,
}
use lcdpico_34401a.Scanner.Regex.{Class, Regex, eps, one, many, seq, alt, Matches, AnyMatches}
use lcdpico_34401a.Scanner.Regex.Prefixes.{
  Expect, accepted, awaits, any_nullable, expect, after_any, next, accepts, any_nullable-AnyMatches,
  expect-awaits, AnyMatches-any_nullable, after_any-AnyMatches, AnyMatches-after_any,
}
use lcdpico_34401a.Scanner.Simulation.{class_eq, regex_eq, contains, expect_eq}

class_eq-≡ : (k m : Class) → class_eq k m ≡ true → k ≡ m
unfolding class_eq
class_eq-≡ [] [] h = refl
class_eq-≡ [] (r ∷ k) h = cc
class_eq-≡ (r ∷ k) [] h = cc
class_eq-≡ ((a, b) ∷ k) ((c, d) ∷ m) h =
    let same = class_eq-≡ k m (ground (arith, h)) in
    let left : a ≡ c = ground (arith, h) in let right : b ≡ d = ground (arith, h) in cc

regex_eq-≡ : (r t : Regex) → regex_eq r t ≡ true → r ≡ t
unfolding regex_eq
regex_eq-≡ eps eps h = refl
regex_eq-≡ (one k) (one m) h = ap one (class_eq-≡ k m h)
regex_eq-≡ (many k) (many m) h = ap many (class_eq-≡ k m h)
regex_eq-≡ (seq r t) (seq q u) h =
    ap₂ seq (regex_eq-≡ r q (ground (arith, h))) (regex_eq-≡ t u (ground (arith, h)))
regex_eq-≡ (alt r t) (alt q u) h =
    ap₂ alt (regex_eq-≡ r q (ground (arith, h))) (regex_eq-≡ t u (ground (arith, h)))
regex_eq-≡ r t h = cc

contains-AnyMatches :
    (ts : List Regex) (r : Regex) (s : List ℕ)
    → contains ts r ≡ true
    → Matches r s
    → AnyMatches ts s
unfolding contains
contains-AnyMatches [] r s h m = cc
contains-AnyMatches (t ∷ ts) r s h m = elim (Bool-cases (regex_eq t r)) [
  | inl e ↦ inl (subst (λ x. Matches x s) (sym (regex_eq-≡ t r e)) m)
  | inr e ↦ inr (contains-AnyMatches ts r s (ground (arith, h, e)) m)
]

all-contains-AnyMatches :
    (ts rs : List Regex) (s : List ℕ)
    → all (contains ts) rs ≡ true
    → AnyMatches rs s
    → AnyMatches ts s
all-contains-AnyMatches ts [] s h m = absurd m
all-contains-AnyMatches ts (r ∷ rs) s h (inl m) = contains-AnyMatches ts r s (ground (arith, h)) m
all-contains-AnyMatches ts (r ∷ rs) s h (inr m) =
    all-contains-AnyMatches ts rs s (ground (arith, h)) m

expect-accepted : (rs : List Regex) → any_nullable rs ≡ true → expect rs ≡ accepted
unfolding expect
expect-accepted rs h = rw h refl

-- More alternatives accept more.
expect-monotone :
    (s : List ℕ) (rs ts : List Regex)
    → ((u : List ℕ) → AnyMatches rs u → AnyMatches ts u)
    → (accepts (awaits rs) s ≡ true → accepts (awaits ts) s ≡ true)
    → accepts (expect rs) s ≡ true
    → accepts (expect ts) s ≡ true
unfolding accepts
expect-monotone s rs ts sub wait h = elim (Bool-cases (any_nullable ts)) [
  | inl e ↦ rw (expect-accepted ts e) refl
  | inr e ↦ elim (Bool-cases (any_nullable rs)) [
    | inl now ↦
        let same = AnyMatches-any_nullable ts (sub [] (any_nullable-AnyMatches rs now)) in cc
    | inr later ↦ rw (expect-awaits ts e) (wait (rw (expect-awaits rs later) at h))
  ]
]

awaits-monotone :
    (s : List ℕ) (rs ts : List Regex)
    → ((u : List ℕ) → AnyMatches rs u → AnyMatches ts u)
    → accepts (awaits rs) s ≡ true
    → accepts (awaits ts) s ≡ true
unfolding accepts next
awaits-monotone [] rs ts sub h = h
awaits-monotone (c ∷ s) rs ts sub h =
    let sub' : (u : List ℕ) → AnyMatches (after_any c rs) u → AnyMatches (after_any c ts) u =
      λ u m. AnyMatches-after_any c ts u (sub (c ∷ u) (after_any-AnyMatches c rs u m)) in
    expect-monotone s (after_any c rs) (after_any c ts) sub'
      (awaits-monotone s (after_any c rs) (after_any c ts) sub') h

same_truth : (a b : Bool) → (a ≡ true → b ≡ true) → (b ≡ true → a ≡ true) → a ≡ b
same_truth true b f g = sym (f refl)
same_truth false true f g = g refl
same_truth false false f g = refl

-- Expectations that compare equal accept the same lines.
pub expect_eq-accepts :
    (d e : Expect) (s : List ℕ) → expect_eq d e ≡ true → accepts d s ≡ accepts e s
unfolding expect_eq
expect_eq-accepts accepted accepted s h = refl
expect_eq-accepts accepted (awaits ts) s h = cc
expect_eq-accepts (awaits rs) accepted s h = cc
expect_eq-accepts (awaits rs) (awaits ts) s h =
    same_truth (accepts (awaits rs) s) (accepts (awaits ts) s)
      (awaits-monotone s rs ts (λ u. all-contains-AnyMatches ts rs u (ground (arith, h))))
      (awaits-monotone s ts rs (λ u. all-contains-AnyMatches rs ts u (ground (arith, h))))
