-- ===== src/Scanner/Simulation/Agree.antt =====
-- A program that follows the rules scans every line as the matcher does.
use mathlib.Core.Path.{subst}
use lcdpico_34401a.Common.{
  ℕ, suc, ◌+◌, ◌<◌, ◌≡◌, refl, sym, ap, ◌∙◌, arith, Bool, true, false, not, ◌&&◌, ◌||◌, List, [],
  ◌∷◌, all, ltb, Option, none, some, inl, inr, ◌⊎◌,
}
use lcdpico_34401a.Scanner.Regex.Prefixes.{
  Expect, accepted, awaits, any_nullable, expect, after_any, next, accepts,
}
use lcdpico_34401a.Scanner.Machine.{
  Arm, Block, read, mark, look, rewind, skip, give, skip_give, Program, select, block_at, Config,
  exec, exec_at, read_next, resume, run, first, start, fuel_for, scan,
}
use lcdpico_34401a.Scanner.Simulation.{
  Outlook, reads, ends, stuck, resolve, is_accepted, is_dead, Guide, agrees, agrees_at_end,
  switch_agrees, block_agrees, Follows,
}
use lcdpico_34401a.Scanner.Simulation.Runs.{ready, Advances, run-fuel, resolve-run}
use lcdpico_34401a.Scanner.Simulation.Moves.{resolve-LeadsTo}
use lcdpico_34401a.Scanner.Simulation.Labels.{each_below-all}
use lcdpico_34401a.Scanner.Simulation.Same.{expect_eq-accepts}

pub dead-accepts : (e : Expect) (s : List ℕ) → is_dead e ≡ true → accepts e s ≡ false
unfolding accepts next expect after_any any_nullable
dead-accepts accepted s h = cc
dead-accepts (awaits []) [] h = refl
dead-accepts (awaits []) (c ∷ s) h = dead-accepts (awaits []) s h
dead-accepts (awaits (r ∷ rs)) s h = cc

accepted-accepts : (e : Expect) (s : List ℕ) → is_accepted e ≡ true → accepts e s ≡ true
unfolding accepts
accepted-accepts accepted s h = refl
accepted-accepts (awaits rs) s h = cc

-- Where the code has to read on, the matcher decides by the rest of the line.
accepts-next : (e : Expect) (c : ℕ) (s : List ℕ) → accepts e (c ∷ s) ≡ accepts (next c e) s
unfolding accepts next
accepts-next accepted c s = refl
accepts-next (awaits rs) c s = refl

accepts-end : (e : Expect) → accepts e [] ≡ is_accepted e
unfolding accepts
accepts-end accepted = refl
accepts-end (awaits rs) = refl

agrees_at_end-ends :
    (here : Expect) (o : Outlook) → agrees_at_end here o ≡ true → o ≡ ends (is_accepted here)
unfolding agrees_at_end
agrees_at_end-ends here (reads l) h = cc
agrees_at_end-ends here (ends true) h = rw h refl
agrees_at_end-ends here (ends false) h = ap ends (ground (arith, h))
agrees_at_end-ends here stuck h = cc

-- Behind a byte the code ends with the matcher's answer, or it goes on to read where the guide fits.
agrees-cases :
    (g : Guide) (marks : Bool) (here : Expect) (c : ℕ) (s : List ℕ) (o : Outlook)
    → agrees g marks here (next c here) o ≡ true
    → (o ≡ ends (accepts here (c ∷ s)))
      ⊎ ((q : ℕ) × (o ≡ reads q)
          × (not (g.needs q) || marks ≡ true)
          × (accepts (g.fits q) s ≡ accepts here (c ∷ s)))
unfolding agrees
agrees-cases g marks here c s (reads l) h = inr (
  l,
  refl,
  ground (arith, h),
  sym (accepts-next here c s ∙ expect_eq-accepts (next c here) (g.fits l) s (ground (arith, h))),
)
agrees-cases g marks here c s (ends true) h = inl (ap ends (sym (accepted-accepts here (c ∷ s) h)))
agrees-cases g marks here c s (ends false) h =
    inl (ap ends (sym (accepts-next here c s ∙ dead-accepts (next c here) s (ground (arith, h)))))
agrees-cases g marks here c s stuck h = cc

abbrev pub AllBytes : List ℕ → Type 0
AllBytes s = all (λ x. ltb x 256) s ≡ true

-- From behind a `switch` that agrees, the code answers as the matcher does.
abbrev Scans : Program → Guide → List ℕ → Type 0
Scans p g s =
    (marks : Bool) (here : Expect) (arms : List Arm) (d : ℕ) (c : Config)
    → c.cursor ≡ s
    → c.yych ≡ first s
    → c.label ≡ select arms d (first s)
    → ready marks c.marker ≡ true
    → switch_agrees p g marks here arms d ≡ true
    → run p (fuel_for s) c ≡ some (accepts here s)

-- A block that reads goes to the line's next byte, or to the terminator.
advance-resume :
    (p : Program) (g : Guide) (q x : ℕ) (s : List ℕ) (o : Option Block) (c : Config)
    → Scans p g s
    → Advances o
    → block_agrees p g q o ≡ true
    → ready (g.needs q) c.marker ≡ true
    → c.cursor ≡ x ∷ s
    → resume (run p (fuel_for s)) (exec_at o c) ≡ some (accepts (g.fits q) s)
unfolding exec_at exec resume block_agrees read_next
advance-resume p g q x s none c ih a b r e = absurd a
advance-resume p g q x s (some (read arms d)) c ih a b r e =
    rw e (ih (g.needs q) (g.fits q) arms d _ refl refl refl r b)
advance-resume p g q x s (some (mark arms d)) c ih a b r e =
    rw e (ih true (g.fits q) arms d _ refl refl refl refl b)
advance-resume p g q x s (some (look arms d)) c ih a b r e = absurd a
advance-resume p g q x s (some (rewind t)) c ih a b r e = absurd a
advance-resume p g q x s (some (skip t)) c ih a b r e = absurd a
advance-resume p g q x s (some (give y)) c ih a b r e = absurd a
advance-resume p g q x s (some (skip_give y)) c ih a b r e = absurd a

advance-run :
    (p : Program) (g : Guide) (x : ℕ) (s : List ℕ) (c : Config)
    → Scans p g s
    → Advances (block_at p c.label)
    → block_agrees p g c.label (block_at p c.label) ≡ true
    → ready (g.needs c.label) c.marker ≡ true
    → c.cursor ≡ x ∷ s
    → run p (1 + fuel_for s) c ≡ some (accepts (g.fits c.label) s)
unfolding run
advance-run p g x s c ih a b r e =
    run-fuel p (suc (fuel_for s)) (1 + fuel_for s) c (accepts (g.fits c.label) s) (omega arith)
      (advance-resume p g c.label x s (block_at p c.label) c ih a b r e)

ready-weaker :
    (needs marks : Bool) (m : Option (List ℕ))
    → not needs || marks ≡ true
    → ready marks m ≡ true
    → ready needs m ≡ true
ready-weaker false marks m h r = refl
ready-weaker true true m h r = r
ready-weaker true false m h r = cc

both_true : (a b : Bool) → a && b ≡ true → (a ≡ true) × (b ≡ true)
both_true true b h = (refl, h)
both_true false b h = cc

switch-end :
    (p : Program) (g : Guide) (marks : Bool) (here : Expect) (arms : List Arm) (d : ℕ)
    → switch_agrees p g marks here arms d ≡ true
    → resolve p marks 5 (select arms d 0) 0 ≡ ends (is_accepted here)
unfolding switch_agrees
switch-end p g marks here arms d h =
    agrees_at_end-ends here (resolve p marks 5 (select arms d 0) 0) ((both_true _ _ h).1)

switch-byte :
    (p : Program) (g : Guide) (marks : Bool) (here : Expect) (arms : List Arm) (d x : ℕ)
    → switch_agrees p g marks here arms d ≡ true
    → x < 256
    → agrees g marks here (next x here) (resolve p marks 5 (select arms d x) x) ≡ true
unfolding switch_agrees
switch-byte p g marks here arms d x h l =
    each_below-all 256
      (λ c. agrees g marks here (next c here) (resolve p marks 5 (select arms d c) c)) x
      ((both_true _ _ h).0) l

Follows-Scans :
    (p : Program) (g : Guide)
    → ((l : ℕ) → block_agrees p g l (block_at p l) ≡ true)
    → (s : List ℕ) → AllBytes s
    → Scans p g s
Follows-Scans p g blocks [] bytes marks here arms d c at y l r h =
    subst (λ b. run p 6 c ≡ some b) (sym (accepts-end here))
      (resolve-run p marks 5 1 c (is_accepted here) 0 r y
        (rw l (switch-end p g marks here arms d h)))
Follows-Scans p g blocks (x ∷ s) bytes marks here arms d c at y l r h =
    let ih = Follows-Scans p g blocks s (ground (arith, bytes)) in
    let byte = switch-byte p g marks here arms d x h (ground (arith, bytes)) in
    elim (agrees-cases g marks here x s (resolve p marks 5 (select arms d x) x) byte) [
      | inl e ↦
          run-fuel p (5 + (1 + fuel_for s)) (6 + fuel_for s) c (accepts here (x ∷ s)) (omega arith)
            (resolve-run p marks 5 (1 + fuel_for s) c (accepts here (x ∷ s)) x r y (rw l e))
      | inr (q, e, m, same) ↦
          let (there, later) = resolve-LeadsTo p marks 5 q x c y (rw l e) in
          let rest =
            advance-run p g x s (record c { label = q }) ih there (blocks q)
              (ready-weaker (g.needs q) marks c.marker m r) at in
          run-fuel p (5 + (1 + fuel_for s)) (6 + fuel_for s) c (accepts here (x ∷ s)) (omega arith)
            (later (1 + fuel_for s) (accepts here (x ∷ s)) (rw same at rest))
    ]

-- The whole scanner, from its first `switch`.
pub scan-accepts :
    (p : Program) (g : Guide) (e : Expect) (s : List ℕ)
    → Follows p g e
    → AllBytes s
    → scan p s ≡ some (accepts e s)
unfolding scan start
scan-accepts p g e s (entry, blocks) bytes =
    Follows-Scans p g blocks s bytes false e p.arms p.default (start p s) refl refl refl refl entry
