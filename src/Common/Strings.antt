-- ===== src/Common/Strings.antt =====
-- C strings as lists of bytes without the terminator, and what the C library does with them.
use Prim.Native.Nat.{ℕ, zero, suc, ◌+◌}
use mathlib.Core.Path.{◌≡◌, refl, ap, ◌∙◌}
use mathlib.Core.Bool.{Bool, true, false, ◌&&◌}
use mathlib.Core.List.{List, [], ◌∷◌, ◌++◌}
use lcdpico_34401a.Common.Tests.{leb, ◌==◌, if◌then◌else◌}

-- `tolower` of the C locale.
abbrev pub tolower : ℕ → ℕ
tolower c = if leb b'A' c && leb c b'Z' then c + 32 else c

-- `!strncasecmp(s, t, n)`
unfoldable pub strncase_eq : ℕ → List ℕ → List ℕ → Bool
strncase_eq zero s t = true
strncase_eq (suc n) [] [] = true
strncase_eq (suc n) [] (d ∷ t) = false
strncase_eq (suc n) (c ∷ s) [] = false
strncase_eq (suc n) (c ∷ s) (d ∷ t) = tolower c == tolower d && strncase_eq n s t

-- The bytes before the first that satisfies `p`, and the rest.
abbrev pub before : (ℕ → Bool) → List ℕ → List ℕ
before p [] = []
before p (c ∷ s) = if p c then [] else c ∷ before p s

abbrev pub from : (ℕ → Bool) → List ℕ → List ℕ
from p [] = []
from p (c ∷ s) = if p c then c ∷ s else from p s

-- Whether no token goes on here.
abbrev ends : (ℕ → Bool) → List ℕ → Bool
ends p [] = true
ends p (c ∷ s) = p c

abbrev add_byte : ℕ → Bool → List (List ℕ) → List (List ℕ)
add_byte c true ts = (c ∷ []) ∷ ts
add_byte c false [] = (c ∷ []) ∷ []
add_byte c false (t ∷ ts) = (c ∷ t) ∷ ts

-- What the calls of `strtok_r` give, one after the other: no token is empty.
unfoldable pub tokens : (ℕ → Bool) → List ℕ → List (List ℕ)
tokens p [] = []
tokens p (c ∷ s) = let rest = tokens p s in if p c then rest else add_byte c (ends p s) rest

-- Free of the separators.
abbrev pub IsFree : (ℕ → Bool) → List ℕ → Type 0
IsFree p [] = Unit
IsFree p (c ∷ s) = (p c ≡ false) × IsFree p s

tokens-one :
    (p : ℕ → Bool) (c : ℕ) (s : List ℕ) → IsFree p (c ∷ s) → tokens p (c ∷ s) ≡ (c ∷ s) ∷ []
unfolding tokens
tokens-one p c [] h = rw h.0 refl
tokens-one p c (d ∷ s) h = rw (h.0, tokens-one p d s h.1) (rw h.1.0 refl)

-- A token, a separator and more.
tokens-more :
    (p : ℕ → Bool) (c : ℕ) (s : List ℕ) (sep : ℕ) (more : List ℕ)
    → IsFree p (c ∷ s)
    → p sep ≡ true
    → tokens p ((c ∷ s) ++ (sep ∷ more)) ≡ (c ∷ s) ∷ tokens p more
unfolding tokens
tokens-more p c [] sep more h hs = rw (h.0, hs) refl
tokens-more p c (d ∷ s) sep more h hs = rw (h.0, tokens-more p d s sep more h.1 hs) (rw h.1.0 refl)

-- Tokens joined by a separator.
abbrev pub join : ℕ → List ℕ → List (List ℕ) → List ℕ
join sep t [] = t
join sep t (u ∷ ts) = t ++ (sep ∷ join sep u ts)

abbrev pub AreTokens : (ℕ → Bool) → List (List ℕ) → Type 0
AreTokens p [] = Unit
AreTokens p ([] ∷ ts) = ⊥
AreTokens p ((c ∷ s) ∷ ts) = IsFree p (c ∷ s) × AreTokens p ts

pub tokens-join :
    (p : ℕ → Bool) (sep : ℕ) (t : List ℕ) (ts : List (List ℕ))
    → p sep ≡ true
    → AreTokens p (t ∷ ts)
    → tokens p (join sep t ts) ≡ t ∷ ts
tokens-join p sep [] ts hs h = absurd h
tokens-join p sep (c ∷ s) [] hs h = tokens-one p c s h.0
tokens-join p sep (c ∷ s) (u ∷ ts) hs h =
    tokens-more p c s sep (join sep u ts) h.0 hs
    ∙ ap (λ r. (c ∷ s) ∷ r) (tokens-join p sep u ts hs h.1)

pub before-free :
    (p : ℕ → Bool) (s : List ℕ) (sep : ℕ) (more : List ℕ)
    → IsFree p s
    → p sep ≡ true
    → before p (s ++ (sep ∷ more)) ≡ s
before-free p [] sep more h hs = rw hs refl
before-free p (c ∷ s) sep more h hs = rw h.0 (ap (λ r. c ∷ r) (before-free p s sep more h.1 hs))

IsFree-append : (p : ℕ → Bool) (s t : List ℕ) → IsFree p s → IsFree p t → IsFree p (s ++ t)
IsFree-append p [] t h k = k
IsFree-append p (c ∷ s) t h k = (h.0, IsFree-append p s t h.1 k)

pub IsFree-join :
    (p : ℕ → Bool) (sep : ℕ) (t : List ℕ) (ts : List (List ℕ))
    → p sep ≡ false
    → AreTokens p (t ∷ ts)
    → IsFree p (join sep t ts)
IsFree-join p sep [] ts hs h = absurd h
IsFree-join p sep (c ∷ s) [] hs h = h.0
IsFree-join p sep (c ∷ s) (u ∷ ts) hs h =
    IsFree-append p (c ∷ s) (sep ∷ join sep u ts) h.0 (hs, IsFree-join p sep u ts hs h.1)
