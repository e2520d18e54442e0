-- ===== src/Scanner/Simulation/Moves.antt =====
-- Runs that `resolve` leads to a block that reads, and runs with more fuel.
use mathlib.Core.Path.{subst}
use lcdpico_34401a.Common.{
  ℕ, zero, suc, ◌+◌, ◌≡◌, refl, sym, arith, Bool, true, false, List, if◌then◌else◌, Option, none,
  some,
}
use lcdpico_34401a.Scanner.Machine.{
  Arm, Block, read, mark, look, rewind, skip, give, skip_give, Program, select, block_at, Config,
  Outcome, go, done, fault, exec, exec_at, resume, run,
}
use lcdpico_34401a.Scanner.Simulation.{
  Outlook, reads, stuck, ending_of, ending, resolve_of, resolve,
}
use lcdpico_34401a.Scanner.Simulation.Runs.{Advances, run-fuel}

resume-more :
    (f g : Config → Option Bool) (b : Bool)
    → ((c : Config) → f c ≡ some b → g c ≡ some b)
    → (o : Outcome) → resume f o ≡ some b
    → resume g o ≡ some b
unfolding resume
resume-more f g b more (go c) h = more c h
resume-more f g b more (done x) h = h
resume-more f g b more fault h = h

run-more :
    (p : Program) (f : ℕ) (c : Config) (b : Bool) → run p f c ≡ some b → run p (suc f) c ≡ some b
unfolding run
run-more p zero c b h = cc
run-more p (suc f) c b h =
    resume-more (run p f) (run p (suc f)) b (λ d. run-more p f d b) (exec_at (block_at p c.label) c)
      h

run-plus :
    (p : Program) (n f : ℕ) (c : Config) (b : Bool) → run p f c ≡ some b → run p (n + f) c ≡ some b
run-plus p zero f c b h = run-fuel p f (0 + f) c b (omega arith) h
run-plus p (suc n) f c b h =
    run-fuel p (suc (n + f)) (suc n + f) c b (omega arith)
      (run-more p (n + f) c b (run-plus p n f c b h))

if_marks_reads :
    (marks : Bool) (o : Outlook) (q : ℕ) → (if marks then o else stuck) ≡ reads q → o ≡ reads q
if_marks_reads true o q h = h
if_marks_reads false o q h = cc

ending_of-stays :
    (later : ℕ → Outlook) (marks : Bool) (q : ℕ) (o : Option Block)
    → ((l : ℕ) → later l ≡ reads q → ⊥)
    → ending_of later marks o ≡ reads q
    → ⊥
unfolding ending_of
ending_of-stays later marks q none never h = cc
ending_of-stays later marks q (some (read arms d)) never h = cc
ending_of-stays later marks q (some (mark arms d)) never h = cc
ending_of-stays later marks q (some (look arms d)) never h = cc
ending_of-stays later marks q (some (rewind t)) never h =
    never t (if_marks_reads marks (later t) q h)
ending_of-stays later marks q (some (skip t)) never h = never t h
ending_of-stays later marks q (some (give x)) never h = cc
ending_of-stays later marks q (some (skip_give x)) never h = cc

ending-stays : (p : Program) (marks : Bool) (n l q : ℕ) → ending p marks n l ≡ reads q → ⊥
unfolding ending
ending-stays p marks zero l q h = cc
ending-stays p marks (suc n) l q h =
    ending_of-stays (ending p marks n) marks q (block_at p l) (λ t. ending-stays p marks n t q) h

-- What `resolve ≡ reads q` says of a run.
abbrev pub LeadsTo : Program → ℕ → ℕ → Config → Type 0
LeadsTo p n q c =
    Advances (block_at p q)
    × ((f : ℕ) (b : Bool) → run p f (record c { label = q }) ≡ some b → run p (n + f) c ≡ some b)

reads-≡ : (l q : ℕ) → reads l ≡ reads q → l ≡ q
reads-≡ l q h = cc

-- A block that reads leads to itself.
stays-LeadsTo :
    (p : Program) (n q : ℕ) (c : Config)
    → Advances (block_at p c.label)
    → c.label ≡ q
    → LeadsTo p n q c
stays-LeadsTo p n q c a e = (
  subst (λ l. Advances (block_at p l)) e a,
  λ f b r. run-plus p n f c b (subst (λ l. run p f (record c { label = l }) ≡ some b) (sym e) r),
)

look-LeadsTo :
    (p : Program) (n q : ℕ) (arms : List Arm) (d : ℕ) (c : Config)
    → block_at p c.label ≡ some (look arms d)
    → LeadsTo p n q (record c { label = select arms d c.yych })
    → LeadsTo p (suc n) q c
unfolding run resume exec_at exec
look-LeadsTo p n q arms d c same (there, later) =
    (there, λ f b r. run-fuel p (suc (n + f)) (suc n + f) c b (omega arith) (rw same (later f b r)))

resolve_of-LeadsTo :
    (p : Program) (marks : Bool) (n q y : ℕ)
    → ((c : Config) → c.yych ≡ y → resolve p marks n c.label y ≡ reads q → LeadsTo p n q c)
    → (o : Option Block) (c : Config) → block_at p c.label ≡ o
    → c.yych ≡ y
    → resolve_of (λ t. resolve p marks n t y) (ending p marks n) marks c.label y o ≡ reads q
    → LeadsTo p (suc n) q c
unfolding resolve_of
resolve_of-LeadsTo p marks n q y ih none c same e h = cc
resolve_of-LeadsTo p marks n q y ih (some (read arms d)) c same e h =
    stays-LeadsTo p (suc n) q c (subst Advances (sym same) tt) (reads-≡ c.label q h)
resolve_of-LeadsTo p marks n q y ih (some (mark arms d)) c same e h =
    stays-LeadsTo p (suc n) q c (subst Advances (sym same) tt) (reads-≡ c.label q h)
resolve_of-LeadsTo p marks n q y ih (some (look arms d)) c same e h =
    look-LeadsTo p n q arms d c same (ih (record c { label = select arms d c.yych }) e (rw e h))
resolve_of-LeadsTo p marks n q y ih (some (rewind t)) c same e h =
    absurd (ending-stays p marks n t q (if_marks_reads marks (ending p marks n t) q h))
resolve_of-LeadsTo p marks n q y ih (some (skip t)) c same e h =
    absurd (ending-stays p marks n t q h)
resolve_of-LeadsTo p marks n q y ih (some (give x)) c same e h = cc
resolve_of-LeadsTo p marks n q y ih (some (skip_give x)) c same e h = cc

pub resolve-LeadsTo :
    (p : Program) (marks : Bool) (n q y : ℕ) (c : Config)
    → c.yych ≡ y
    → resolve p marks n c.label y ≡ reads q
    → LeadsTo p n q c
unfolding resolve
resolve-LeadsTo p marks zero q y c e h = cc
resolve-LeadsTo p marks (suc n) q y c e h =
    resolve_of-LeadsTo p marks n q y (λ d. resolve-LeadsTo p marks n q y d) (block_at p c.label) c
      refl e h
