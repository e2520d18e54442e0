-- ===== src/Command/Paths.antt =====
-- What a path of subcommands does, against the tree: `run_cmd` on a whole line.
use lcdpico_34401a.Common.{
  ℕ, suc, ◌+◌, ◌-◌, ◌≡◌, refl, sym, ap, ◌∙◌, arith, true, false, List, [], ◌∷◌, ◌++◌, length,
  length-append, drop, ltb, ◌==◌, Bool, Option, if◌then◌else◌, none, some, before, tokens, join,
  IsFree, AreTokens, tokens-join, IsFree-join, before-free, Bool-cases, inl, inr,
}
use mathlib.Core.List.{append-nil}
use mathlib.Core.Path.{subst}
use lcdpico_34401a.Common.Int.{negsuc}
use lcdpico_34401a.Command.Tree.{PrevCmd, Handler, Level, level, Found, find, push, error_num}
use lcdpico_34401a.Command.Interpreter.{
  is_blank, is_colon, is_nul, first_token, run_token, Run, is_query, call, is_more, visit, walk,
  at_root, arguments, run_cmd,
}

-- The subcommands `s ∷ ts` lead from a level to a handler, which stands on the last level: each but
-- the last is found with a level below it, and the last is found with the handler.
pub data Resolves {S : Type 0}
    : Level S → List ℕ → List (List ℕ) → Handler S → Level S → Type 0 where
  leaf :
      {l : Level S} {s : List ℕ} {h : Handler S} (f : Found S)
      → find l s ≡ some f
      → f.func ≡ some h
      → Resolves l s [] h l
  down :
      {l sub p : Level S} {s t : List ℕ} {ts : List (List ℕ)} {h : Handler S} (f : Found S)
      → find l s ≡ some f
      → f.subcmds ≡ level sub
      → Resolves sub t ts h p
      → Resolves l s (t ∷ ts) h p

abbrev pub last_of : List ℕ → List (List ℕ) → List ℕ
last_of s [] = s
last_of s (t ∷ ts) = last_of t ts

-- All but the last go on the stack.
abbrev pub push_path : List ℕ → List (List ℕ) → PrevCmd → PrevCmd
push_path s [] st = st
push_path s (t ∷ ts) st = push_path t ts (push s st)

pub walk-found :
    {S : Type 0} (arg s : List ℕ) (ts : List (List ℕ)) (f : Found S) (r : Run S)
    → find r.cmd_level s ≡ some f
    → walk arg (s ∷ ts) r ≡ walk arg ts (visit arg s (is_more ts) f.subcmds f.func r)
unfolding walk
walk-found arg s ts f r e =
    ap
      (λ o. elim o [
        | none ↦ r
        | some g ↦ walk arg ts (visit arg s (is_more ts) g.subcmds g.func r)
      ])
      e

visit_last :
    {S : Type 0} (arg s : List ℕ) (f : Found S) (h : Handler S) (r : Run S)
    → f.func ≡ some h
    → visit arg s false f.subcmds f.func r ≡ call arg s (some h) r
unfolding visit
visit_last arg s f h r e = ap (λ g. call arg s g r) e

pub visit_down :
    {S : Type 0} (arg s : List ℕ) (f : Found S) (sub : Level S) (r : Run S)
    → f.subcmds ≡ level sub
    → visit arg s true f.subcmds f.func r
      ≡ record r { cmd_stack = push s r.cmd_stack; cmd_level = sub }
unfolding visit
visit_down arg s f sub r e = ap (λ g. visit arg s true g f.func r) e

-- The whole loop along a path.
walk-Resolves :
    {S : Type 0} {l p : Level S} {s : List ℕ} {ts : List (List ℕ)} {h : Handler S} (arg : List ℕ)
    (r : Run S)
    → Resolves l s ts h p
    → walk arg (s ∷ ts) (record r { cmd_level = l })
      ≡ call arg
          (last_of s ts)
          (some h)
          (record r { cmd_level = p; cmd_stack = push_path s ts r.cmd_stack })
unfolding walk
walk-Resolves {l = l} {s = s} {h = h} arg r (leaf f e func) =
    walk-found arg s [] f (record r { cmd_level = l }) e
    ∙ visit_last arg s f h (record r { cmd_level = l }) func
walk-Resolves {l = l} {s = s} arg r (down {sub = sub} {t = t} {ts = ts} f e subs q) =
    walk-found arg s (t ∷ ts) f (record r { cmd_level = l }) e
    ∙ (ap (walk arg (t ∷ ts)) (visit_down arg s f sub (record r { cmd_level = l }) subs)
        ∙ walk-Resolves arg (record r { cmd_stack = push s r.cmd_stack }) q)

-- What stands behind the subcommands: nothing, or a blank and the arguments.
abbrev pub tail_of : Option (List ℕ) → List ℕ
tail_of none = []
tail_of (some args) = 32 ∷ args

abbrev pub args_of : Option (List ℕ) → List ℕ
args_of none = []
args_of (some args) = args

before-all : (p : ℕ → Bool) (s : List ℕ) → IsFree p s → before p s ≡ s
before-all p [] h = refl
before-all p (c ∷ s) h = rw h.0 (ap (λ t. c ∷ t) (before-all p s h.1))

-- A line that does not begin with a blank: its first token, and what follows one blank later.
first_token-eq :
    (c : ℕ) (t : List ℕ) (args : Option (List ℕ))
    → IsFree is_blank (c ∷ t)
    → first_token ((c ∷ t) ++ tail_of args) ≡ c ∷ t
unfolding first_token
first_token-eq c t none h =
    rw (append-nil t, h.0) (rw h.0 (ap (λ s. c ∷ s) (before-all is_blank t h.1)))
first_token-eq c t (some args) h =
    rw h.0 (rw h.0 (ap (λ s. c ∷ s) (before-free is_blank t 32 args h.1 refl)))

drop-line :
    (t args more : List ℕ) → drop (suc (length t)) ((t ++ (32 ∷ args)) ++ more) ≡ args ++ more
drop-line [] args more = refl
drop-line (d ∷ t) args more = drop-line t args more

-- Without arguments the line is too short to have any.
if_longer :
    (t args found : List ℕ)
    → found ≡ args
    → (if ltb (suc (length t) + 1) (suc (length (t ++ (32 ∷ args)))) then found else []) ≡ args
if_longer t [] found e = ground (arith, length-append t (32 ∷ []))
if_longer t (d ∷ args) found e = ground (arith, length-append t (32 ∷ d ∷ args))

arguments-eq :
    (behind t : List ℕ) (args : Option (List ℕ)) (c : ℕ)
    → is_blank c ≡ false
    → IsFree is_nul (args_of args)
    → arguments behind ((c ∷ t) ++ tail_of args) (c ∷ t) ≡ args_of args
unfolding arguments
arguments-eq behind t none c h k =
    let short : ltb (suc (length t) + 1) (suc (length t)) ≡ false = ground arith in
    rw (append-nil t, short) refl
arguments-eq behind t (some args) c h k =
    let all : ℕ = suc (length (t ++ (32 ∷ args))) in
    let line : List ℕ = (c ∷ (t ++ (32 ∷ args))) ++ (0 ∷ behind) in
    let start : all - all + suc (length t) + 1 ≡ suc (suc (length t)) = omega arith in
    let rest : before is_nul (drop (all - all + suc (length t) + 1) line) ≡ args =
      ap (λ n. before is_nul (drop n line)) start
      ∙ (ap (before is_nul) (drop-line t args (0 ∷ behind))
          ∙ before-free is_nul args 0 behind k refl) in
    rw h (if_longer t args (before is_nul (drop (all - all + suc (length t) + 1) line)) rest)

pub join-cons :
    (sep c : ℕ) (s : List ℕ) (ts : List (List ℕ)) → join sep (c ∷ s) ts ≡ c ∷ join sep s ts
join-cons sep c s [] = refl
join-cons sep c s (t ∷ ts) = refl

-- Where the walk of a line begins whose first byte is `c`: a line that begins with '*' starts from
-- the root with an empty stack, any other where the last one ended.
abbrev pub from_level : {S : Type 0} → ℕ → Level S → Run S → Level S
from_level c commands r = if c == b'*' then commands else r.cmd_level

abbrev pub from_stack : ℕ → PrevCmd → PrevCmd
from_stack c st = if c == b'*' then record st { depth = 0 } else st

at_root-star :
    {S : Type 0} (c : ℕ) (t : List ℕ) (commands : Level S) (r : Run S)
    → (c == b':') ≡ false
    → at_root commands (c ∷ t) r
      ≡ record r { cmd_level = from_level c commands r; cmd_stack = from_stack c r.cmd_stack }
unfolding at_root
at_root-star c t commands r h = elim (Bool-cases (c == b'*')) [
  | inl e ↦ rw (h, e) refl
  | inr e ↦ rw (h, e) refl
]

-- A first token that does not begin with ':' is walked from there.
pub run_token-walk :
    {S : Type 0} (behind : List ℕ) (c : ℕ) (s : List ℕ) (ts : List (List ℕ)) (cmd : List ℕ)
    (commands : Level S) (r : Run S)
    → AreTokens is_colon ((c ∷ s) ∷ ts)
    → run_token behind cmd (c ∷ join b':' s ts) commands r
      ≡ walk (arguments behind cmd (c ∷ join b':' s ts)) ((c ∷ s) ∷ ts) (record r {
        cmd_level = from_level c commands r;
        cmd_stack = from_stack c r.cmd_stack;
        res = negsuc 0;
      })
unfolding run_token
run_token-walk behind c s ts cmd commands r hc =
    let split : tokens is_colon (c ∷ join b':' s ts) ≡ (c ∷ s) ∷ ts =
      ap (tokens is_colon) (sym (join-cons b':' c s ts))
      ∙ tokens-join is_colon b':' (c ∷ s) ts refl hc in
    let not_empty : (suc (length (join b':' s ts)) == 0) ≡ false = ground arith in
    let start = at_root-star c (join b':' s ts) commands (record r { res = negsuc 0 }) hc.0.0 in
    rw (not_empty, start, split) refl

-- The line `s:t:…` with nothing or a blank and arguments behind it, where the subcommands resolve to a
-- handler from the level where the line begins: the handler is called, with the last subcommand,
-- the arguments, whether it is a query, the other subcommands on the stack, and the program's
-- state; its result gives the error number, and the level is the handler's. The subcommands are
-- not empty and hold no blank and no colon, and the arguments hold no NUL.
pub run_cmd-Resolves :
    {S : Type 0} {p : Level S} {h : Handler S} (behind : List ℕ) (c : ℕ) (s : List ℕ)
    (ts : List (List ℕ)) (args : Option (List ℕ)) (commands : Level S) (r : Run S)
    → AreTokens is_colon ((c ∷ s) ∷ ts)
    → AreTokens is_blank ((c ∷ s) ∷ ts)
    → IsFree is_nul (args_of args)
    → Resolves (from_level c commands r) (c ∷ s) ts h p
    → let cmd : List ℕ = join b':' (c ∷ s) ts ++ tail_of args in
      let last : List ℕ = last_of (c ∷ s) ts in
      let stack : PrevCmd = push_path (c ∷ s) ts (from_stack c r.cmd_stack) in
      let result = h last (args_of args) (is_query last) stack r.state in
      run_cmd behind cmd commands r
      ≡ record { cmd_level = p; cmd_stack = stack; res = error_num result.0; state = result.1 }
unfolding run_cmd call
run_cmd-Resolves behind c s ts args commands r hc hb ha q =
    let t : List ℕ = join b':' s ts in
    let blanks : IsFree is_blank (c ∷ t) =
      subst (IsFree is_blank) (join-cons b':' c s ts)
        (IsFree-join is_blank b':' (c ∷ s) ts refl hb) in
    let found =
      run_token-walk behind c s ts ((c ∷ t) ++ tail_of args) commands r hc
      ∙ walk-Resolves (arguments behind ((c ∷ t) ++ tail_of args) (c ∷ t))
          (record r { cmd_stack = from_stack c r.cmd_stack; res = negsuc 0 }) q in
    rw
      (
        join-cons b':' c s ts,
        first_token-eq c t args blanks,
        found,
        arguments-eq behind t args c blanks.0 ha,
      )
      refl
