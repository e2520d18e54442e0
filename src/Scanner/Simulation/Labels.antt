-- ===== src/Scanner/Simulation/Labels.antt =====
-- Checks of every label below a bound.
use mathlib.Core.Path.{subst}
use lcdpico_34401a.Common.{
  ℕ, zero, suc, ◌+◌, ◌-◌, ◌≤◌, ◌<◌, ◌≡◌, refl, sym, arith, Bool, true, List, [], ◌∷◌, length, ltb,
  none, Bool-cases, inl, inr, ◌==◌, ==_iff,
}
use lcdpico_34401a.Scanner.Machine.{Block, Program, get_block, block_at}
use lcdpico_34401a.Scanner.Simulation.{Guide, each_below, block_agrees}

pub each_below-all : (n : ℕ) (p : ℕ → Bool) (i : ℕ) → each_below n p ≡ true → i < n → p i ≡ true
unfolding each_below
each_below-all zero p i h l = absurd (omega (arith, l))
each_below-all (suc n) p i h l = elim (Bool-cases (i == n)) [
  | inl e ↦ subst (λ k. p k ≡ true) (sym ((==_iff i n).0 e)) (ground (arith, h))
  | inr e ↦ each_below-all n p i (ground (arith, h)) (ground (arith, e, l))
]

get_block-none : (bs : List Block) (i : ℕ) → length bs ≤ i → get_block bs i ≡ none
unfolding get_block
get_block-none [] i h = refl
get_block-none (b ∷ bs) zero h = absurd (omega (arith, h))
get_block-none (b ∷ bs) (suc i) h = get_block-none bs i (omega (arith, h))

block_at-none : (p : Program) (n l : ℕ) → p.base + length p.blocks ≤ n → n ≤ l → block_at p l ≡ none
unfolding block_at
block_at-none p n l h e = elim (Bool-cases (ltb l p.base)) [
  | inl low ↦ rw low refl
  | inr high ↦ rw high (get_block-none p.blocks (l - p.base) (omega (arith, h, e)))
]

-- A check of the labels below `n` is a check of all labels, if the program ends there.
pub each_block :
    (p : Program) (g : Guide) (n : ℕ)
    → each_below n (λ l. block_agrees p g l (block_at p l)) ≡ true
    → p.base + length p.blocks ≤ n
    → (l : ℕ) → block_agrees p g l (block_at p l) ≡ true
unfolding block_agrees
each_block p g n h size l = elim (Bool-cases (ltb l n)) [
  | inl low ↦ each_below-all n (λ k. block_agrees p g k (block_at p k)) l h (ground (arith, low))
  | inr high ↦ rw (block_at-none p n l size (ground (arith, high))) refl
]

-- A check in two parts.
pub each_below-join :
    (m n : ℕ) (p : ℕ → Bool)
    → each_below m p ≡ true
    → each_below n (λ i. p (m + i)) ≡ true
    → each_below (m + n) p ≡ true
unfolding each_below
each_below-join m zero p h k =
    let e : m ≡ m + 0 = omega arith in subst (λ x. each_below x p ≡ true) e h
each_below-join m (suc n) p h k =
    let rest = each_below-join m n p h (ground (arith, k)) in
    let here : p (m + n) ≡ true = ground (arith, k) in
    let both : each_below (suc (m + n)) p ≡ true = rw (here, rest) refl in
    let e : suc (m + n) ≡ m + suc n = omega arith in subst (λ x. each_below x p ≡ true) e both
