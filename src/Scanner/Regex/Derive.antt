-- ===== src/Scanner/Regex/Derive.antt =====
-- `after_byte` is right: what it gives matches the rest exactly if the expression matches the whole.
use mathlib.Core.Path.{subst}
use lcdpico_34401a.Common.{
  ℕ, ◌≡◌, ◌⊎◌, inl, inr, refl, sym, ap, ◌∙◌, arith, Bool, true, false, List, [], ◌∷◌, ◌++◌, map,
  if◌then◌else◌,
}
use lcdpico_34401a.Scanner.Regex.{
  in_class, Regex, eps, one, many, seq, alt, Matches, nullable, cat, after_byte, AnyMatches,
  nullable-Matches, Matches-nullable,
}

cat-Matches : (x t : Regex) (s : List ℕ) → Matches (cat x t) s → Matches (seq x t) s
unfolding cat
cat-Matches eps t s m = ([], s, refl, refl, m)
cat-Matches (one k) t s m = m
cat-Matches (many k) t s m = m
cat-Matches (seq r q) t s m = m
cat-Matches (alt r q) t s m = m

Matches-cat : (x t : Regex) (s : List ℕ) → Matches (seq x t) s → Matches (cat x t) s
unfolding cat
Matches-cat eps t s (u, v, e, m, n) = subst (Matches t) (sym (e ∙ ap (λ w. w ++ v) m)) n
Matches-cat (one k) t s m = m
Matches-cat (many k) t s m = m
Matches-cat (seq r q) t s m = m
Matches-cat (alt r q) t s m = m

pub AnyMatches-left : (rs ts : List Regex) (s : List ℕ) → AnyMatches rs s → AnyMatches (rs ++ ts) s
AnyMatches-left [] ts s m = absurd m
AnyMatches-left (r ∷ rs) ts s (inl m) = inl m
AnyMatches-left (r ∷ rs) ts s (inr m) = inr (AnyMatches-left rs ts s m)

pub AnyMatches-right : (rs ts : List Regex) (s : List ℕ) → AnyMatches ts s → AnyMatches (rs ++ ts) s
AnyMatches-right [] ts s m = m
AnyMatches-right (r ∷ rs) ts s m = inr (AnyMatches-right rs ts s m)

pub AnyMatches-split :
    (rs ts : List Regex) (s : List ℕ) → AnyMatches (rs ++ ts) s → AnyMatches rs s ⊎ AnyMatches ts s
AnyMatches-split [] ts s m = inr m
AnyMatches-split (r ∷ rs) ts s (inl m) = inl (inl m)
AnyMatches-split (r ∷ rs) ts s (inr m) = elim (AnyMatches-split rs ts s m) [
  | inl a ↦ inl (inr a)
  | inr b ↦ inr b
]

-- Alternatives with the same continuation.
map-cat-Matches :
    (rs : List Regex) (t : Regex) (s : List ℕ)
    → AnyMatches (map (λ x. cat x t) rs) s
    → (u : List ℕ) × (v : List ℕ) × (s ≡ u ++ v) × AnyMatches rs u × Matches t v
map-cat-Matches [] t s m = absurd m
map-cat-Matches (r ∷ rs) t s (inl m) =
    let (u, v, e, a, b) = cat-Matches r t s m in (u, v, e, inl a, b)
map-cat-Matches (r ∷ rs) t s (inr m) =
    let (u, v, e, a, b) = map-cat-Matches rs t s m in (u, v, e, inr a, b)

Matches-map-cat :
    (rs : List Regex) (t : Regex) (s u v : List ℕ)
    → s ≡ u ++ v
    → AnyMatches rs u
    → Matches t v
    → AnyMatches (map (λ x. cat x t) rs) s
Matches-map-cat [] t s u v e m n = absurd m
Matches-map-cat (r ∷ rs) t s u v e (inl m) n = inl (Matches-cat r t s (u, v, e, m, n))
Matches-map-cat (r ∷ rs) t s u v e (inr m) n = inr (Matches-map-cat rs t s u v e m n)

-- Alternatives that stand under a test.
AnyMatches-if :
    (b : Bool) (rs : List Regex) (s : List ℕ)
    → AnyMatches (if b then rs else []) s
    → (b ≡ true) × AnyMatches rs s
AnyMatches-if true rs s m = (refl, m)
AnyMatches-if false rs s m = absurd m

if-AnyMatches :
    (b : Bool) (rs : List Regex) (s : List ℕ)
    → b ≡ true
    → AnyMatches rs s
    → AnyMatches (if b then rs else []) s
if-AnyMatches true rs s e m = m
if-AnyMatches false rs s e m = cc

pub uncons :
    (c d : ℕ) (s t : List ℕ) → ◌≡◌ {A = List ℕ} (c ∷ s) (d ∷ t) → (c ≡ d) × ◌≡◌ {A = List ℕ} s t
uncons c d s t e = (cc, cc)

pub after_byte-Matches :
    (c : ℕ) (r : Regex) (s : List ℕ) → AnyMatches (after_byte c r) s → Matches r (c ∷ s)
unfolding after_byte
after_byte-Matches c eps s m = absurd m
after_byte-Matches c (one k) s m =
    let (e, now) = AnyMatches-if (in_class k c) (eps ∷ []) s m in
    elim now [ inl empty ↦ (c, ap (λ t. c ∷ t) empty, e) | inr none ↦ absurd none ]
after_byte-Matches c (many k) s m =
    let (e, now) = AnyMatches-if (in_class k c) (many k ∷ []) s m in
    elim now [ inl more ↦ rw e more | inr none ↦ absurd none ]
after_byte-Matches c (seq r t) s m =
    elim (AnyMatches-split (map (λ x. cat x t) (after_byte c r))
      (if nullable r then after_byte c t else []) s m) [
        | inl a ↦
            let (u, v, e, first, second) = map-cat-Matches (after_byte c r) t s a in
            (c ∷ u, v, ap (λ w. c ∷ w) e, after_byte-Matches c r u first, second)
        | inr b ↦
            let (e, second) = AnyMatches-if (nullable r) (after_byte c t) s b in
            ([], c ∷ s, refl, nullable-Matches r e, after_byte-Matches c t s second)
      ]
after_byte-Matches c (alt r t) s m = elim (AnyMatches-split (after_byte c r) (after_byte c t) s m) [
  | inl a ↦ inl (after_byte-Matches c r s a)
  | inr b ↦ inr (after_byte-Matches c t s b)
]

pub Matches-after_byte :
    (c : ℕ) (r : Regex) (s : List ℕ) → Matches r (c ∷ s) → AnyMatches (after_byte c r) s
unfolding after_byte
Matches-after_byte c eps s m = cc
Matches-after_byte c (one k) s (d, e, h) =
    let (same, empty) = uncons c d s [] e in
    if-AnyMatches (in_class k c) (eps ∷ []) s (rw same h) (inl empty)
Matches-after_byte c (many k) s m =
    if-AnyMatches (in_class k c) (many k ∷ []) s (ground (arith, m)) (inl (ground (arith, m)))
Matches-after_byte c (seq r t) s ([], v, e, m, n) =
    let second = Matches-after_byte c t s (subst (Matches t) (sym e) n) in
    AnyMatches-right (map (λ x. cat x t) (after_byte c r))
      (if nullable r then after_byte c t else []) s
      (if-AnyMatches (nullable r) (after_byte c t) s (Matches-nullable r m) second)
Matches-after_byte c (seq r t) s (d ∷ u, v, e, m, n) =
    let (same, rest) = uncons c d s (u ++ v) e in
    let first = Matches-after_byte c r u (subst (λ x. Matches r (x ∷ u)) (sym same) m) in
    AnyMatches-left (map (λ x. cat x t) (after_byte c r))
      (if nullable r then after_byte c t else []) s
      (Matches-map-cat (after_byte c r) t s u v rest first n)
Matches-after_byte c (alt r t) s (inl m) =
    AnyMatches-left (after_byte c r) (after_byte c t) s (Matches-after_byte c r s m)
Matches-after_byte c (alt r t) s (inr m) =
    AnyMatches-right (after_byte c r) (after_byte c t) s (Matches-after_byte c t s m)
