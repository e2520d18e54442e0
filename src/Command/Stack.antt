-- ===== src/Command/Stack.antt =====
-- The stack of subcommands: it stays in its array, and gives the subcommands back.
use lcdpico_34401a.Common.{
  ℕ, zero, suc, ◌+◌, ◌-◌, ◌<◌, ◌≤◌, ◌≡◌, refl, ap, ◌∙◌, arith, Bool, true, false, List, [], ◌∷◌,
  length, get_or, length-set, get_or-set_self, get_or-set_ne, Option, none, some, tokens, drop, set,
  ltb, Bool-cases, inl, inr,
}
use lcdpico_34401a.Common.Int.{negsuc}
use lcdpico_34401a.Command.Tree.{
  PrevCmd, Handler, Level, Subcommands, null, level, Found, find, push, get_prev_cmd,
}
use lcdpico_34401a.Command.Interpreter.{
  is_colon, is_semicolon, trim_str, first_token, arguments, Run, call, visit, is_more, walk,
  at_root, run_token, run_cmd, process_one, process_all, process_command,
}
use lcdpico_34401a.Command.Paths.{push_path}

-- The stack stays in its array: there are at most 16 entries, and what lies behind the 16 entries
-- in memory, which `cmds` may go on with, is as it was.
pub record IsKept (old st : PrevCmd) : Type 0 where
  pub bound : st.depth ≤ 16
  pub cells : length st.cmds ≡ length old.cmds
  pub behind : drop 16 st.cmds ≡ drop 16 old.cmds

drop-set : {A : Type 0} (xs : List A) (i n : ℕ) (x : A) → i < n → drop n (set xs i x) ≡ drop n xs
drop-set xs i zero x h = absurd (omega (arith, h))
drop-set [] i (suc n) x h = refl
drop-set (y ∷ xs) zero (suc n) x h = refl
drop-set (y ∷ xs) (suc i) (suc n) x h = drop-set xs i n x (omega (arith, h))

push-IsKept : (s : List ℕ) (old st : PrevCmd) → IsKept old st → IsKept old (push s st)
unfolding push
push-IsKept s old st v = elim (Bool-cases (ltb st.depth 16)) [
  | inl room ↦ rw room (record {
    bound = ground (arith, room);
    cells = length-set st.cmds st.depth s ∙ v.cells;
    behind = drop-set st.cmds st.depth 16 s (ground (arith, room)) ∙ v.behind;
  })
  | inr full ↦ rw full v
]

call-stack :
    {S : Type 0} (arg s : List ℕ) (f : Option (Handler S)) (r : Run S)
    → (call arg s f r).cmd_stack ≡ r.cmd_stack
unfolding call
call-stack arg s none r = refl
call-stack arg s (some h) r = refl

visit-IsKept :
    {S : Type 0} (old : PrevCmd) (arg s : List ℕ) (more : Bool) (sub : Subcommands S)
    (f : Option (Handler S)) (r : Run S)
    → IsKept old r.cmd_stack
    → IsKept old (visit arg s more sub f r).cmd_stack
unfolding visit
visit-IsKept old arg s true (level sub) f r v = push-IsKept s old r.cmd_stack v
visit-IsKept old arg s true null f r v = rw (call-stack arg s f r) v
visit-IsKept old arg s false sub f r v = rw (call-stack arg s f r) v

walk-IsKept :
    {S : Type 0} (old : PrevCmd) (arg : List ℕ) (ts : List (List ℕ)) (r : Run S)
    → IsKept old r.cmd_stack
    → IsKept old (walk arg ts r).cmd_stack
unfolding walk
walk-IsKept old arg [] r v = v
walk-IsKept {S = S} old arg (s ∷ ts) r v =
    let after : Option (Found S) → Run S = λ o. elim o [
      | none ↦ r
      | some f ↦ walk arg ts (visit arg s (is_more ts) f.subcmds f.func r)
    ] in
    elim (find r.cmd_level s) as (λ o. IsKept old (after o).cmd_stack) [
      | none ↦ v
      | some f ↦
          walk-IsKept old arg ts (visit arg s (is_more ts) f.subcmds f.func r)
            (visit-IsKept old arg s (is_more ts) f.subcmds f.func r v)
    ]

at_root-IsKept :
    {S : Type 0} (old : PrevCmd) (commands : Level S) (t : List ℕ) (r : Run S)
    → IsKept old r.cmd_stack
    → IsKept old (at_root commands t r).cmd_stack
unfolding at_root
at_root-IsKept old commands t r v = ground arith

run_cmd-IsKept :
    {S : Type 0} (old : PrevCmd) (behind cmd : List ℕ) (commands : Level S) (r : Run S)
    → IsKept old r.cmd_stack
    → IsKept old (run_cmd behind cmd commands r).cmd_stack
unfolding run_cmd run_token
run_cmd-IsKept old behind cmd commands r v =
    let t : List ℕ = first_token cmd in
    let start = record r { res = negsuc 0 } in
    ground (
      arith,
      walk-IsKept old (arguments behind cmd t) (tokens is_colon t) (at_root commands t start)
          (at_root-IsKept old commands t start v),
    )

process_all-IsKept :
    {S : Type 0} (old : PrevCmd) (behind : List ℕ) (cs : List (List ℕ)) (commands : Level S)
    (r : Run S)
    → IsKept old r.cmd_stack
    → IsKept old (process_all behind cs commands r).cmd_stack
unfolding process_all process_one
process_all-IsKept old behind [] commands r v = v
process_all-IsKept old behind (c ∷ cs) commands r v =
    process_all-IsKept old behind cs commands (process_one behind c commands r) (
      ground (
        arith,
        run_cmd-IsKept old behind (trim_str c) commands
            (record r { cmd_stack = record (r.cmd_stack) { depth = 0 } })
            (record { bound = omega arith; cells = v.cells; behind = v.behind }),
      ))

-- Whatever the command tree, the handlers and the line from the user, no subcommand is written
-- outside the 16 entries of the stack: the depth stays at most 16, and what lies behind the 16
-- entries stays as it is.
pub process_command-IsKept :
    {S : Type 0} (behind command : List ℕ) (commands : Level S) (r : Run S)
    → r.cmd_stack.depth ≤ 16
    → IsKept r.cmd_stack (process_command behind command commands r).cmd_stack
unfolding process_command
process_command-IsKept behind command commands r h =
    process_all-IsKept r.cmd_stack behind (tokens is_semicolon command) commands
      (record r { cmd_level = commands }) (record { bound = h; cells = refl; behind = refl })

-- A subcommand that is pushed is the one at depth 0, and those before it are one deeper.
get_prev_cmd-push :
    (s : List ℕ) (st : PrevCmd) (k : ℕ)
    → length st.cmds ≡ 16
    → st.depth < 16
    → (get_prev_cmd (push s st) 0 ≡ s) × (get_prev_cmd (push s st) (suc k) ≡ get_prev_cmd st k)
unfolding get_prev_cmd push
get_prev_cmd-push s st k e h = ground (
  arith,
  get_or-set_self st.cmds st.depth s [],
  get_or-set_ne st.cmds st.depth (st.depth + 1 - suc k - 1) s [],
  ap (λ i. get_or st.cmds i []) minus,
)
  where
    minus : st.depth + 1 - suc k - 1 ≡ st.depth - k - 1
    minus = omega arith

-- All subcommands but the last, the last of them first, in front of those in `acc`.
abbrev pub above : List ℕ → List (List ℕ) → List (List ℕ) → List (List ℕ)
above s [] acc = acc
above s (t ∷ ts) acc = above t ts (s ∷ acc)

push-above :
    (s : List ℕ) (st : PrevCmd) (acc : List (List ℕ))
    → length st.cmds ≡ 16
    → st.depth < 16
    → ((k : ℕ) → get_prev_cmd st k ≡ get_or acc k [])
    → (k : ℕ) → get_prev_cmd (push s st) k ≡ get_or (s ∷ acc) k []
push-above s st acc e h same zero = (get_prev_cmd-push s st 0 e h).0
push-above s st acc e h same (suc k) = (get_prev_cmd-push s st k e h).1 ∙ same k

depth-push :
    (s : List ℕ) (st : PrevCmd)
    → st.depth < 16
    → ((push s st).depth ≡ st.depth + 1) × (length (push s st).cmds ≡ length st.cmds)
unfolding push
depth-push s st h = ground (arith, length-set st.cmds st.depth s)

path-above :
    (s : List ℕ) (ts : List (List ℕ)) (st : PrevCmd) (acc : List (List ℕ))
    → length st.cmds ≡ 16
    → st.depth + length ts ≤ 16
    → ((k : ℕ) → get_prev_cmd st k ≡ get_or acc k [])
    → (k : ℕ) → get_prev_cmd (push_path s ts st) k ≡ get_or (above s ts acc) k []
path-above s [] st acc e h same k = same k
path-above s (t ∷ ts) st acc e h same k =
    let d = depth-push s st (omega arith) in
    path-above t ts (push s st) (s ∷ acc) (omega arith) (omega arith)
      (push-above s st acc e (omega arith) same) k

-- After a path of at most 17 subcommands from the empty stack, depth `k` gives the subcommand
-- that stands `k + 1` before the last, and the empty string beyond the first.
pub get_prev_cmd-path :
    (s : List ℕ) (ts : List (List ℕ)) (st : PrevCmd) (k : ℕ)
    → length st.cmds ≡ 16
    → st.depth ≡ 0
    → length ts ≤ 16
    → get_prev_cmd (push_path s ts st) k ≡ get_or (above s ts []) k []
unfolding get_prev_cmd
get_prev_cmd-path s ts st k e z h = path-above s ts st [] e (omega arith) (λ i. ground arith) k
