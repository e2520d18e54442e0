-- ===== src/Command/Reach/Routes.antt =====
-- A spelled route through clear levels: what `run_cmd` makes of it.
use lcdpico_34401a.Common.{
  ℕ, ◌-◌, ◌≡◌, refl, arith, Bool, true, false, ◌&&◌, List, [], ◌∷◌, ◌++◌, all, ltb, ◌==◌, Option,
  some, join, tolower, IsFree, AreTokens, Bool-cases, inl, inr,
}
use lcdpico_34401a.Command.Tree.{PrevCmd, Handler, Level, Subcommands, level, error_num}
use lcdpico_34401a.Command.Interpreter.{is_blank, is_colon, is_nul, Run, is_query, run_cmd}
use lcdpico_34401a.Command.Spelling.{is_mark, is_spelling, and_both}
use lcdpico_34401a.Command.Paths.{
  Resolves, leaf, down, last_of, push_path, from_level, tail_of, args_of, from_stack,
  run_cmd-Resolves,
}
use lcdpico_34401a.Command.Reach.{
  Has, here, there, Title, Route, stop, descend, are_spellings, is_plain, is_clear, is_clear_below,
  is_clear-first, find-Has,
}

-- What is clear of a level holds of each of its entries.
plain-Has :
    {S : Type 0} {l : Level S} {cmd : List ℕ} {m : ℕ} {subs : Subcommands S}
    {f : Option (Handler S)}
    → is_clear l ≡ true
    → Has {S = S} l cmd m subs f
    → (ltb 0 m ≡ true) × (all is_plain cmd ≡ true) × (is_clear_below subs ≡ true)
plain-Has c (here {cmd = cmd} {m = m} {subs = subs} {f = f} {more = more}) =
    let first = is_clear-first cmd m subs f more c in (first.given, first.plain, first.below)
plain-Has c (there {cmd' = cmd} {m' = m} {subs' = subs} {f' = f} {more = more} q) =
    plain-Has (is_clear-first cmd m subs f more c).behind q

below-Has :
    {S : Type 0} {l sub : Level S} {cmd : List ℕ} {m : ℕ} {f : Option (Handler S)}
    → is_clear l ≡ true
    → Has {S = S} l cmd m (level sub) f
    → is_clear sub ≡ true
unfolding is_clear
below-Has c q = (plain-Has c q).2

not_both : (b : Bool) → (b && false) ≡ true → ⊥
not_both true h = ground arith
not_both false h = ground arith

-- A spelled route resolves.
pub Route-Resolves :
    {S : Type 0} {l p : Level S} {t : Title} {ts : List Title} {h : Handler S} (s : List ℕ)
    (ss : List (List ℕ))
    → is_clear l ≡ true
    → Route l t ts h p
    → are_spellings (t ∷ ts) (s ∷ ss) ≡ true
    → Resolves l s ss h p
unfolding are_spellings
Route-Resolves s [] c (stop {cmd = cmd} {m = m} {subs = subs} {h = h} q) e =
    leaf (record { subcmds = subs; func = some h })
      (find-Has s c q (and_both (is_spelling m cmd s) true e).0) refl
Route-Resolves s (u ∷ ss) c (stop {cmd = cmd} {m = m} q) e =
    absurd (not_both (is_spelling m cmd s) e)
Route-Resolves s [] c (descend {cmd = cmd} {m = m} q r) e =
    absurd (not_both (is_spelling m cmd s) e)
Route-Resolves s (u ∷ ss) c (descend {sub = sub} {cmd = cmd} {m = m} {f = f} {t = t} {ts = ts} q r)
      e =
    let both = and_both (is_spelling m cmd s) (are_spellings (t ∷ ts) (u ∷ ss)) e in
    down (record { subcmds = level sub; func = f }) (find-Has s c q both.0) refl
      (Route-Resolves u ss (below-Has c q) r both.1)

-- A spelling is made of what the name is made of, and of marks.
mark_plain : (c : ℕ) → is_mark c ≡ true → is_plain c ≡ true
mark_plain c h = ground arith

same_plain : (c d : ℕ) → is_plain d ≡ true → (tolower c == tolower d) ≡ true → is_plain c ≡ true
same_plain c d h e = ground arith

all_plain :
    (c : ℕ) (s : List ℕ) → is_plain c ≡ true → all is_plain s ≡ true → all is_plain (c ∷ s) ≡ true
all_plain c s h k = rw (h, k) refl

marks_plain : (s : List ℕ) → all is_mark s ≡ true → all is_plain s ≡ true
marks_plain [] h = refl
marks_plain (c ∷ s) h =
    let both = and_both (is_mark c) (all is_mark s) h in
    all_plain c s (mark_plain c both.0) (marks_plain s both.1)

all_plain-spelling :
    (m : ℕ) (cmd s : List ℕ)
    → all is_plain cmd ≡ true
    → is_spelling m cmd s ≡ true
    → all is_plain s ≡ true
unfolding is_spelling
all_plain-spelling m [] s h e = marks_plain s (and_both (m == 0) (all is_mark s) e).1
all_plain-spelling m (d ∷ cmd) [] h e = refl
all_plain-spelling m (d ∷ cmd) (c ∷ s) h e =
    let names = and_both (is_plain d) (all is_plain cmd) h in
    elim (Bool-cases (tolower c == tolower d)) [
      | inl k ↦
          all_plain c s (same_plain c d names.0 k)
            (all_plain-spelling (m - 1) cmd s names.1 (rw k at e))
      | inr k ↦ marks_plain (c ∷ s) (and_both (m == 0) (all is_mark (c ∷ s)) (rw k at e)).1
    ]

not_empty : (m : ℕ) (cmd : List ℕ) → ltb 0 m ≡ true → is_spelling m cmd [] ≡ true → ⊥
unfolding is_spelling
not_empty m [] h e = ground arith
not_empty m (d ∷ cmd) h e = ground arith

all_plain-IsFree :
    (p : ℕ → Bool) (s : List ℕ)
    → ((c : ℕ) → is_plain c ≡ true → p c ≡ false)
    → all is_plain s ≡ true
    → IsFree p s
all_plain-IsFree p [] f h = tt
all_plain-IsFree p (c ∷ s) f h =
    let both = and_both (is_plain c) (all is_plain s) h in
    (f c both.0, all_plain-IsFree p s f both.1)

pub blank_lem : (c : ℕ) → is_plain c ≡ true → is_blank c ≡ false
blank_lem c h = ground arith

pub colon_lem : (c : ℕ) → is_plain c ≡ true → is_colon c ≡ false
colon_lem c h = ground arith

cons-AreTokens :
    (p : ℕ → Bool) (m : ℕ) (cmd s : List ℕ) (ss : List (List ℕ))
    → ((c : ℕ) → is_plain c ≡ true → p c ≡ false)
    → ltb 0 m ≡ true
    → all is_plain cmd ≡ true
    → is_spelling m cmd s ≡ true
    → AreTokens p ss
    → AreTokens p (s ∷ ss)
cons-AreTokens p m cmd [] ss f given plain e h = absurd (not_empty m cmd given e)
cons-AreTokens p m cmd (c ∷ s) ss f given plain e h =
    (all_plain-IsFree p (c ∷ s) f (all_plain-spelling m cmd (c ∷ s) plain e), h)

-- The subcommands of a spelled route are tokens.
Route-AreTokens :
    {S : Type 0} {l q : Level S} {t : Title} {ts : List Title} {h : Handler S} (p : ℕ → Bool)
    (s : List ℕ) (ss : List (List ℕ))
    → ((c : ℕ) → is_plain c ≡ true → p c ≡ false)
    → is_clear l ≡ true
    → Route l t ts h q
    → are_spellings (t ∷ ts) (s ∷ ss) ≡ true
    → AreTokens p (s ∷ ss)
unfolding are_spellings
Route-AreTokens p s [] f c (stop {cmd = cmd} {m = m} q) e =
    let entry = plain-Has c q in
    cons-AreTokens p m cmd s [] f entry.0 entry.1 (and_both (is_spelling m cmd s) true e).0 tt
Route-AreTokens p s (u ∷ ss) f c (stop {cmd = cmd} {m = m} q) e =
    absurd (not_both (is_spelling m cmd s) e)
Route-AreTokens p s [] f c (descend {cmd = cmd} {m = m} q r) e =
    absurd (not_both (is_spelling m cmd s) e)
Route-AreTokens p s (u ∷ ss) f c (descend {cmd = cmd} {m = m} {t = t} {ts = ts} q r) e =
    let both = and_both (is_spelling m cmd s) (are_spellings (t ∷ ts) (u ∷ ss)) e in
    let entry = plain-Has c q in
    cons-AreTokens p m cmd s (u ∷ ss) f entry.0 entry.1 both.0
      (Route-AreTokens p u ss f (below-Has c q) r both.1)

-- The line `s:t:…` with nothing or a blank and arguments behind it, where the subcommands spell a route from the
-- level where the line begins: the route's handler is called.
pub run_cmd-Route :
    {S : Type 0} {p : Level S} {t : Title} {ts : List Title} {h : Handler S} (behind : List ℕ)
    (c : ℕ) (s : List ℕ) (ss : List (List ℕ)) (args : Option (List ℕ)) (commands : Level S)
    (r : Run S)
    → is_clear (from_level c commands r) ≡ true
    → Route (from_level c commands r) t ts h p
    → are_spellings (t ∷ ts) ((c ∷ s) ∷ ss) ≡ true
    → IsFree is_nul (args_of args)
    → let last : List ℕ = last_of (c ∷ s) ss in
      let stack : PrevCmd = push_path (c ∷ s) ss (from_stack c r.cmd_stack) in
      let result = h last (args_of args) (is_query last) stack r.state in
      run_cmd behind (join b':' (c ∷ s) ss ++ tail_of args) commands r
      ≡ record { cmd_level = p; cmd_stack = stack; res = error_num result.0; state = result.1 }
run_cmd-Route behind c s ss args commands r clear q e ha =
    run_cmd-Resolves behind c s ss args commands r
      (Route-AreTokens is_colon (c ∷ s) ss colon_lem clear q e)
      (Route-AreTokens is_blank (c ∷ s) ss blank_lem clear q e) ha
      (Route-Resolves (c ∷ s) ss clear q e)
