-- ===== src/Decoder/Valid/Runs.antt =====
-- Interrupts and the main loop, in any order.
use lcdpico_34401a.Common.{ℕ, arith, if◌then◌else◌, List, [], ◌∷◌}
use lcdpico_34401a.Decoder.State.{Context, init}
use lcdpico_34401a.Decoder.Edge.{Edge, sckedge, reset, int}
use lcdpico_34401a.Decoder.Publish.{process_shift_window, process_reset}
use lcdpico_34401a.Decoder.Process.{Scanners, consume, has_work}
use lcdpico_34401a.Decoder.Valid.{IsValid}

-- What can happen to the context. An interrupt comes between two rounds of the loop; a round is
-- the loop's body, with its test.
pub data Event : Type 0 where
  clock_edge : Edge → Event
  reset_line : ℕ → Event
  int_line : ℕ → Event
  window_check : ℕ → Event
  round : ℕ → ℕ → Event

pub handle_round : Scanners → ℕ → ℕ → Context → Context
handle_round rx any_us event_us ctx =
    if has_work ctx.sniff
    then (if ctx.sniff.reset_received then process_reset ctx else consume rx any_us event_us ctx)
    else ctx

pub handle : Scanners → Event → Context → Context
handle rx (clock_edge e) ctx = sckedge e ctx
handle rx (reset_line now) ctx = reset now ctx
handle rx (int_line now) ctx = int now ctx
handle rx (window_check now) ctx = process_shift_window now ctx
handle rx (round any_us event_us) ctx = handle_round rx any_us event_us ctx

pub run : Scanners → List Event → Context → Context
run rx [] ctx = ctx
run rx (e ∷ es) ctx = run rx es (handle rx e ctx)

-- The context that `decoder34401_init` leaves is valid.
pub init-IsValid : IsValid init
init-IsValid = omega arith
