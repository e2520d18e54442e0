-- ===== src/Command/Errors.antt =====
-- Lines that call no handler.
use lcdpico_34401a.Common.{
  ℕ, ◌≡◌, refl, ap, ◌∙◌, Bool, false, ◌||◌, List, [], ◌∷◌, ◌==◌, none, some, length, get_or, tokens,
  if◌then◌else◌, Bool-cases, inl, inr,
}
use lcdpico_34401a.Common.Int.{negsuc}
use lcdpico_34401a.Command.Tree.{Level, level, Found, find, push, error_num}
use lcdpico_34401a.Command.Paths.{walk-found, visit_down}
use lcdpico_34401a.Command.Interpreter.{
  is_colon, Run, call, is_more, visit, walk, at_root, first_token, arguments, run_token, run_cmd,
}

-- The subcommands `s ∷ ts` lead from a level to no handler: one of them is not found on its level,
-- or the last is found without a handler.
pub data Strays {S : Type 0} : Level S → List ℕ → List (List ℕ) → Type 0 where
  unknown : {l : Level S} {s : List ℕ} {ts : List (List ℕ)} → find l s ≡ none → Strays l s ts
  idle :
      {l : Level S} {s : List ℕ} (f : Found S) → find l s ≡ some f → f.func ≡ none → Strays l s []
  deeper :
      {l sub : Level S} {s t : List ℕ} {ts : List (List ℕ)} (f : Found S)
      → find l s ≡ some f
      → f.subcmds ≡ level sub
      → Strays sub t ts
      → Strays l s (t ∷ ts)

walk-none :
    {S : Type 0} (arg s : List ℕ) (ts : List (List ℕ)) (r : Run S)
    → find r.cmd_level s ≡ none
    → walk arg (s ∷ ts) r ≡ r
unfolding walk
walk-none arg s ts r e =
    ap
      (λ o. elim o [
        | none ↦ r
        | some f ↦ walk arg ts (visit arg s (is_more ts) f.subcmds f.func r)
      ])
      e

visit_idle :
    {S : Type 0} (arg s : List ℕ) (f : Found S) (r : Run S)
    → f.func ≡ none
    → visit arg s false f.subcmds f.func r ≡ r
unfolding visit call
visit_idle arg s f r e = ap (λ g. call arg s g r) e

walk-Strays :
    {S : Type 0} {l : Level S} {s : List ℕ} {ts : List (List ℕ)} (arg : List ℕ) (r : Run S)
    → Strays l s ts
    → let r' = walk arg (s ∷ ts) (record r { cmd_level = l }) in
      (r'.state ≡ r.state) × (r'.res ≡ r.res)
unfolding walk visit
walk-Strays {l = l} {s = s} {ts = ts} arg r (unknown e) =
    rw (walk-none arg s ts (record r { cmd_level = l }) e) (refl, refl)
walk-Strays {l = l} {s = s} arg r (idle f e func) =
    let here = record r { cmd_level = l } in
    rw (walk-found arg s [] f here e ∙ visit_idle arg s f here func) (refl, refl)
walk-Strays {l = l} {s = s} arg r (deeper {sub = sub} {t = t} {ts = ts} f e subs q) =
    let here = record r { cmd_level = l } in
    rw
      (walk-found arg s (t ∷ ts) f here e
        ∙ ap (walk arg (t ∷ ts)) (visit_down arg s f sub here subs))
      (walk-Strays arg (record r { cmd_stack = push s r.cmd_stack }) q)

-- Whether a command begins at the root: its first token `t` begins with ':' or '*'.
abbrev pub is_rooted : List ℕ → Bool
is_rooted t = get_or t 0 0 == b':' || get_or t 0 0 == b'*'

-- What `walk` begins with.
at_root-rooted :
    {S : Type 0} (t : List ℕ) (commands : Level S) (r : Run S)
    → at_root commands t r ≡ record r {
      cmd_level = if is_rooted t then commands else r.cmd_level;
      cmd_stack = if is_rooted t then record (r.cmd_stack) { depth = 0 } else r.cmd_stack;
    }
unfolding at_root
at_root-rooted t commands r = elim (Bool-cases (is_rooted t)) [
  | inl e ↦ rw e refl
  | inr e ↦ rw e refl
]

run_token-Strays :
    {S : Type 0} (behind cmd t : List ℕ) (s : List ℕ) (ts : List (List ℕ)) (commands : Level S)
    (r : Run S)
    → tokens is_colon t ≡ s ∷ ts
    → Strays (if is_rooted t then commands else r.cmd_level) s ts
    → let r' = run_token behind cmd t commands r in (r'.state ≡ r.state) × (r'.res ≡ negsuc 0)
unfolding run_token
run_token-Strays behind cmd t s ts commands r split q =
    let st = if is_rooted t then record (r.cmd_stack) { depth = 0 } else r.cmd_stack in
    elim (Bool-cases (length t == 0)) [
      | inl e ↦ rw e (refl, refl)
      | inr e ↦
          rw (e, at_root-rooted t commands (record r { res = negsuc 0 }), split)
            (walk-Strays (arguments behind cmd t) (record r { cmd_stack = st; res = negsuc 0 }) q)
    ]

-- A line whose subcommands, which are what stands between the colons of its first token, lead to
-- no handler calls none: the program's state stays, and the error number is -113. The subcommands
-- are followed from the root table where the token begins with ':' or '*', and otherwise from the
-- table that is set.
pub run_cmd-Strays :
    {S : Type 0} (behind cmd s : List ℕ) (ts : List (List ℕ)) (commands : Level S) (r : Run S)
    → tokens is_colon (first_token cmd) ≡ s ∷ ts
    → Strays (if is_rooted (first_token cmd) then commands else r.cmd_level) s ts
    → ((run_cmd behind cmd commands r).state ≡ r.state)
      × ((run_cmd behind cmd commands r).res ≡ negsuc 112)
unfolding run_cmd error_num
run_cmd-Strays behind cmd s ts commands r split q =
    let w = run_token-Strays behind cmd (first_token cmd) s ts commands r split q in
    (w.0, ap error_num w.1)
