-- ===== src/Scanner/Regex.antt =====
-- Regular expressions over bytes: which texts they match, and a matcher by derivatives.
pub mod Derive
pub mod Prefixes
use mathlib.Core.Path.{subst}
use lcdpico_34401a.Common.{
  ℕ, ◌≡◌, ◌↔◌, ◌⊎◌, inl, inr, refl, sym, ap, ap₂, ◌∙◌, arith, Bool, true, false, not, ◌&&◌, ◌||◌,
  List, [], ◌∷◌, ◌++◌, map, all, leb, ◌==◌, ==_iff, if◌then◌else◌, Bool-cases,
}

-- A class of bytes: ranges, both ends included.
abbrev pub Class : Type 0
Class = List (ℕ × ℕ)

unfoldable pub in_class : Class → ℕ → Bool
in_class [] c = false
in_class ((lo, hi) ∷ k) c = leb lo c && leb c hi || in_class k c

-- `many` is a class repeated, also no times.
pub data Regex : Type 0 where
  eps : Regex
  one many : Class → Regex
  seq alt : Regex → Regex → Regex

-- The texts that an expression matches.
abbrev pub Matches : Regex → List ℕ → Type 0
Matches eps s = s ≡ []
Matches (one k) s = (c : ℕ) × (s ≡ c ∷ []) × (in_class k c ≡ true)
Matches (many k) s = all (in_class k) s ≡ true
Matches (seq r t) s = (u : List ℕ) × (v : List ℕ) × (s ≡ u ++ v) × Matches r u × Matches t v
Matches (alt r t) s = Matches r s ⊎ Matches t s

-- An expression matches the beginning of a text.
abbrev pub HasPrefix : Regex → List ℕ → Type 0
HasPrefix r s = (u : List ℕ) × (v : List ℕ) × (s ≡ u ++ v) × Matches r u

unfoldable pub nullable : Regex → Bool
nullable eps = true
nullable (one k) = false
nullable (many k) = true
nullable (seq r t) = nullable r && nullable t
nullable (alt r t) = nullable r || nullable t

-- `t` behind `r`, where nothing in front of `t` is left out.
unfoldable pub cat : Regex → Regex → Regex
cat eps t = t
cat (one k) t = seq (one k) t
cat (many k) t = seq (many k) t
cat (seq r q) t = seq (seq r q) t
cat (alt r q) t = seq (alt r q) t

-- What may follow the byte `c`, as alternatives.
unfoldable pub after_byte : ℕ → Regex → List Regex
unfolding in_class nullable cat
after_byte c eps = []
after_byte c (one k) = if in_class k c then eps ∷ [] else []
after_byte c (many k) = if in_class k c then many k ∷ [] else []
after_byte c (seq r t) =
    let first : List Regex = map (λ x. cat x t) (after_byte c r) in
    let second : List Regex = after_byte c t in first ++ (if nullable r then second else [])
after_byte c (alt r t) = after_byte c r ++ after_byte c t

-- One of the expressions matches.
abbrev pub AnyMatches : List Regex → List ℕ → Type 0
AnyMatches [] s = ⊥
AnyMatches (r ∷ rs) s = Matches r s ⊎ AnyMatches rs s

nullable-Matches : (r : Regex) → nullable r ≡ true → Matches r []
unfolding nullable
nullable-Matches eps h = refl
nullable-Matches (one k) h = cc
nullable-Matches (many k) h = refl
nullable-Matches (seq r t) h =
    ([], [], refl, nullable-Matches r (ground (arith, h)), nullable-Matches t (ground (arith, h)))
nullable-Matches (alt r t) h = elim (Bool-cases (nullable r)) [
  | inl e ↦ inl (nullable-Matches r e)
  | inr e ↦ inr (nullable-Matches t (ground (arith, h, e)))
]

append-nil-left : (u v : List ℕ) → [] ≡ u ++ v → (u ≡ []) × (v ≡ [])
append-nil-left [] v h = (refl, sym h)
append-nil-left (c ∷ u) v h = cc

Matches-nullable : (r : Regex) → Matches r [] → nullable r ≡ true
unfolding nullable
Matches-nullable eps m = refl
Matches-nullable (one k) (c, e, h) = cc
Matches-nullable (many k) m = refl
Matches-nullable (seq r t) (u, v, e, m, n) =
    let ends = append-nil-left u v e in
    let left = Matches-nullable r (subst (Matches r) ends.0 m) in
    let right = Matches-nullable t (subst (Matches t) ends.1 n) in rw (left, right) refl
Matches-nullable (alt r t) (inl m) = rw (Matches-nullable r m) refl
Matches-nullable (alt r t) (inr m) = ground (arith, Matches-nullable t m)
