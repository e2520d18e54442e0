-- ===== src/Scanner/Simulation/Runs.antt =====
-- Runs over blocks that read nothing, from what `ending` and `resolve` say.
use mathlib.Core.Path.{subst}
use lcdpico_34401a.Common.{
  ℕ, zero, suc, ◌+◌, ◌≡◌, refl, arith, Bool, true, false, List, if◌then◌else◌, Option, none, some,
}
use lcdpico_34401a.Scanner.Machine.{
  Block, read, mark, look, rewind, skip, give, skip_give, Program, select, block_at, Config,
  go_back, exec, exec_at, resume, run,
}
use lcdpico_34401a.Scanner.Simulation.{Outlook, ends, stuck, ending_of, ending, resolve_of, resolve}

-- The marker is set, if it has to be.
abbrev pub ready : Bool → Option (List ℕ) → Bool
ready false m = true
ready true none = false
ready true (some m) = true

-- A block that reads the next byte.
abbrev pub Advances : Option Block → Type 0
Advances none = ⊥
Advances (some (read arms d)) = Unit
Advances (some (mark arms d)) = Unit
Advances (some (look arms d)) = ⊥
Advances (some (rewind t)) = ⊥
Advances (some (skip t)) = ⊥
Advances (some (give b)) = ⊥
Advances (some (skip_give b)) = ⊥

pub run-fuel :
    (p : Program) (m k : ℕ) (c : Config) (b : Bool)
    → m ≡ k
    → run p m c ≡ some b
    → run p k c ≡ some b
run-fuel p m k c b e h = subst (λ x. run p x c ≡ some b) e h

-- What a rewind leads to, for runs that end as `goal` says from the label `t`.
rewind-resume :
    (later : Config → Option Bool) (marks : Bool) (goal : ℕ → Type 0) (b : Bool) (t : ℕ)
    (c : Config) (k : Option (List ℕ))
    → ((d : Config) → ready marks d.marker ≡ true → goal d.label → later d ≡ some b)
    → c.marker ≡ k
    → ready marks k ≡ true
    → marks ≡ true
    → goal t
    → resume later (go_back t c k) ≡ some b
unfolding resume go_back
rewind-resume later true goal b t c none ih e r m h = cc
rewind-resume later true goal b t c (some s) ih e r m h =
    ih (record c { label = t; cursor = s }) (rw e refl) h
rewind-resume later false goal b t c k ih e r m h = cc

if_marks :
    (marks : Bool) (o : Outlook) (b : Bool)
    → (if marks then o else stuck) ≡ ends b
    → (marks ≡ true) × (o ≡ ends b)
if_marks true o b h = (refl, h)
if_marks false o b h = cc

ending_of-resume :
    (p : Program) (marks : Bool) (n m : ℕ) (b : Bool)
    → ((c : Config)
        → ready marks c.marker ≡ true
        → ending p marks n c.label ≡ ends b
        → run p m c ≡ some b)
    → (o : Option Block) (c : Config) → ready marks c.marker ≡ true
    → ending_of (ending p marks n) marks o ≡ ends b
    → resume (run p m) (exec_at o c) ≡ some b
unfolding ending_of resume exec_at exec
ending_of-resume p marks n m b ih none c r h = cc
ending_of-resume p marks n m b ih (some (read arms d)) c r h = cc
ending_of-resume p marks n m b ih (some (mark arms d)) c r h = cc
ending_of-resume p marks n m b ih (some (look arms d)) c r h = cc
ending_of-resume p marks n m b ih (some (rewind t)) c r h =
    let (m', h') = if_marks marks (ending p marks n t) b h in
    rewind-resume (run p m) marks (λ l. ending p marks n l ≡ ends b) b t c c.marker ih refl r m' h'
ending_of-resume p marks n m b ih (some (skip t)) c r h = ih _ r h
ending_of-resume p marks n m b ih (some (give x)) c r h = cc
ending_of-resume p marks n m b ih (some (skip_give x)) c r h = cc

ending-run :
    (p : Program) (marks : Bool) (n f : ℕ) (c : Config) (b : Bool)
    → ready marks c.marker ≡ true
    → ending p marks n c.label ≡ ends b
    → run p (n + f) c ≡ some b
unfolding ending run
ending-run p marks zero f c b r h = cc
ending-run p marks (suc n) f c b r h = run-fuel p (suc (n + f)) (suc n + f) c b (omega arith) (
    ending_of-resume p marks n (n + f) b (λ d. ending-run p marks n f d b) (block_at p c.label) c r
      h)

-- Where `resolve` says that the code returns, it does.
resolve_of-resume :
    (p : Program) (marks : Bool) (n m : ℕ) (b : Bool) (y : ℕ)
    → ((c : Config)
        → ready marks c.marker ≡ true
        → ending p marks n c.label ≡ ends b
        → run p m c ≡ some b)
    → ((c : Config)
        → ready marks c.marker ≡ true
        → c.yych ≡ y
        → resolve p marks n c.label y ≡ ends b
        → run p m c ≡ some b)
    → (o : Option Block) (c : Config) → ready marks c.marker ≡ true
    → c.yych ≡ y
    → resolve_of (λ t. resolve p marks n t y) (ending p marks n) marks c.label y o ≡ ends b
    → resume (run p m) (exec_at o c) ≡ some b
unfolding resolve_of resume exec_at exec
resolve_of-resume p marks n m b y last ih none c r e h = cc
resolve_of-resume p marks n m b y last ih (some (read arms d)) c r e h = cc
resolve_of-resume p marks n m b y last ih (some (mark arms d)) c r e h = cc
resolve_of-resume p marks n m b y last ih (some (look arms d)) c r e h =
    ih (record c { label = select arms d c.yych }) r e (rw e h)
resolve_of-resume p marks n m b y last ih (some (rewind t)) c r e h =
    let (m', h') = if_marks marks (ending p marks n t) b h in
    rewind-resume (run p m) marks (λ l. ending p marks n l ≡ ends b) b t c c.marker last refl r m'
      h'
resolve_of-resume p marks n m b y last ih (some (skip t)) c r e h = last _ r h
resolve_of-resume p marks n m b y last ih (some (give x)) c r e h = cc
resolve_of-resume p marks n m b y last ih (some (skip_give x)) c r e h = cc

pub resolve-run :
    (p : Program) (marks : Bool) (n f : ℕ) (c : Config) (b : Bool) (y : ℕ)
    → ready marks c.marker ≡ true
    → c.yych ≡ y
    → resolve p marks n c.label y ≡ ends b
    → run p (n + f) c ≡ some b
unfolding resolve run
resolve-run p marks zero f c b y r e h = cc
resolve-run p marks (suc n) f c b y r e h = run-fuel p (suc (n + f)) (suc n + f) c b (omega arith) (
    resolve_of-resume p marks n (n + f) b y (λ d. ending-run p marks n f d b)
      (λ d r' e' h'. resolve-run p marks n f d b y r' e' h') (block_at p c.label) c r e h)
