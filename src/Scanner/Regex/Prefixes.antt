-- ===== src/Scanner/Regex/Prefixes.antt =====
-- A matcher for prefixes: it holds the alternatives that may follow, and stops at the first end.
use mathlib.Core.Path.{subst}
use lcdpico_34401a.Common.{
  ℕ, ◌≡◌, ◌↔◌, inl, inr, refl, sym, ap, arith, Bool, true, false, ◌||◌, List, [], ◌∷◌, ◌++◌,
  if◌then◌else◌, Bool-cases,
}
use lcdpico_34401a.Scanner.Regex.{
  Regex, HasPrefix, nullable, after_byte, AnyMatches, nullable-Matches, Matches-nullable,
}
use lcdpico_34401a.Scanner.Regex.Derive.{
  AnyMatches-split, AnyMatches-left, AnyMatches-right, uncons, after_byte-Matches,
  Matches-after_byte,
}

-- A prefix has matched, or the alternatives for the rest.
pub data Expect : Type 0 where
  accepted : Expect
  awaits : List Regex → Expect

unfoldable pub any_nullable : List Regex → Bool
any_nullable [] = false
any_nullable (r ∷ rs) = nullable r || any_nullable rs

unfoldable pub expect : List Regex → Expect
unfolding any_nullable
expect rs = if any_nullable rs then accepted else awaits rs

unfoldable pub after_any : ℕ → List Regex → List Regex
after_any c [] = []
after_any c (r ∷ rs) = after_byte c r ++ after_any c rs

unfoldable pub next : ℕ → Expect → Expect
unfolding after_any expect
next c accepted = accepted
next c (awaits rs) = expect (after_any c rs)

unfoldable pub accepts : Expect → List ℕ → Bool
accepts accepted s = true
accepts (awaits rs) [] = false
accepts (awaits rs) (c ∷ s) = accepts (next c (awaits rs)) s

abbrev pub AnyPrefix : List Regex → List ℕ → Type 0
AnyPrefix rs s = (u : List ℕ) × (v : List ℕ) × (s ≡ u ++ v) × AnyMatches rs u

pub any_nullable-AnyMatches : (rs : List Regex) → any_nullable rs ≡ true → AnyMatches rs []
unfolding any_nullable
any_nullable-AnyMatches [] h = cc
any_nullable-AnyMatches (r ∷ rs) h = elim (Bool-cases (nullable r)) [
  | inl e ↦ inl (nullable-Matches r e)
  | inr e ↦ inr (any_nullable-AnyMatches rs (ground (arith, h, e)))
]

pub AnyMatches-any_nullable : (rs : List Regex) → AnyMatches rs [] → any_nullable rs ≡ true
unfolding any_nullable
AnyMatches-any_nullable [] m = absurd m
AnyMatches-any_nullable (r ∷ rs) (inl m) = rw (Matches-nullable r m) refl
AnyMatches-any_nullable (r ∷ rs) (inr m) = ground (arith, AnyMatches-any_nullable rs m)

pub after_any-AnyMatches :
    (c : ℕ) (rs : List Regex) (s : List ℕ) → AnyMatches (after_any c rs) s → AnyMatches rs (c ∷ s)
unfolding after_any
after_any-AnyMatches c [] s m = m
after_any-AnyMatches c (r ∷ rs) s m =
    elim (AnyMatches-split (after_byte c r) (after_any c rs) s m) [
      | inl a ↦ inl (after_byte-Matches c r s a)
      | inr b ↦ inr (after_any-AnyMatches c rs s b)
    ]

pub AnyMatches-after_any :
    (c : ℕ) (rs : List Regex) (s : List ℕ) → AnyMatches rs (c ∷ s) → AnyMatches (after_any c rs) s
unfolding after_any
AnyMatches-after_any c [] s m = m
AnyMatches-after_any c (r ∷ rs) s (inl m) =
    AnyMatches-left (after_byte c r) (after_any c rs) s (Matches-after_byte c r s m)
AnyMatches-after_any c (r ∷ rs) s (inr m) =
    AnyMatches-right (after_byte c r) (after_any c rs) s (AnyMatches-after_any c rs s m)

pub expect-awaits : (rs : List Regex) → any_nullable rs ≡ false → expect rs ≡ awaits rs
unfolding expect
expect-awaits rs h = rw h refl

awaits-AnyPrefix : (s : List ℕ) (rs : List Regex) → accepts (awaits rs) s ≡ true → AnyPrefix rs s
unfolding accepts next
awaits-AnyPrefix [] rs h = cc
awaits-AnyPrefix (c ∷ s) rs h = elim (Bool-cases (any_nullable (after_any c rs))) [
  | inl e ↦
      let m = any_nullable-AnyMatches (after_any c rs) e in
      (c ∷ [], s, refl, after_any-AnyMatches c rs [] m)
  | inr e ↦
      let (u, v, rest, m) =
        awaits-AnyPrefix s (after_any c rs)
          (subst (λ x. accepts x s ≡ true) (expect-awaits (after_any c rs) e) h) in
      (c ∷ u, v, ap (λ w. c ∷ w) rest, after_any-AnyMatches c rs u m)
]

accepts-AnyPrefix : (s : List ℕ) (rs : List Regex) → accepts (expect rs) s ≡ true → AnyPrefix rs s
unfolding expect
accepts-AnyPrefix s rs h = elim (Bool-cases (any_nullable rs)) [
  | inl e ↦ ([], s, refl, any_nullable-AnyMatches rs e)
  | inr e ↦ awaits-AnyPrefix s rs (rw e at h)
]

AnyPrefix-accepts :
    (s : List ℕ) (rs : List Regex) (u v : List ℕ)
    → s ≡ u ++ v
    → AnyMatches rs u
    → accepts (expect rs) s ≡ true
unfolding expect accepts next
AnyPrefix-accepts s rs [] v e m = rw (AnyMatches-any_nullable rs m) refl
AnyPrefix-accepts [] rs (d ∷ u) v e m = cc
AnyPrefix-accepts (c ∷ s) rs (d ∷ u) v e m =
    let (same, rest) = uncons c d s (u ++ v) e in
    let later = AnyMatches-after_any c rs u (subst (λ x. AnyMatches rs (x ∷ u)) (sym same) m) in
    elim (Bool-cases (any_nullable rs)) [
      | inl now ↦ rw now refl
      | inr wait ↦ rw wait (AnyPrefix-accepts s (after_any c rs) u v rest later)
    ]

-- The matcher accepts a text exactly if the expression matches its beginning.
pub accepts_iff_HasPrefix :
    (r : Regex) (s : List ℕ) → (accepts (expect (r ∷ [])) s ≡ true) ↔ HasPrefix r s
accepts_iff_HasPrefix r s = (
  λ h.
      let (u, v, e, m) = accepts-AnyPrefix s (r ∷ []) h in
      (u, v, e, elim m [ inl now ↦ now | inr none ↦ absurd none ]),
  λ (u, v, e, m). AnyPrefix-accepts s (r ∷ []) u v e (inl m),
)
