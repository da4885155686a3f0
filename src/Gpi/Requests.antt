-- ===== src/Gpi/Requests.antt =====
-- What is asked of the simulator at a registration: `simtime`, `sim_time_steps` and the `register_*` functions of
-- rustdv/rustdv-gpi/src/rustdv_gpi.rs. A request is the `t_cb_data` that `vpi_register_cb` gets, less its constant fields.
use Prim.Native.Nat.{bit_or}
use rustdv.Base.{ℕ, ◌*◌, ◌/◌, ◌%◌, ◌^◌, ◌<◌, ◌≡◌, ap, ◌∙◌, arith, Option, none, some, bit_or-below}
use rustdv.Gpi.Callbacks.{CbKind, one_shot, recurring}

pub data TimeType : Type 0 where
  sim_time suppress_time : TimeType

pub record VpiTime : Type 0 where
  pub time_type : TimeType
  pub high : ℕ
  pub low : ℕ

unfoldable pub simtime : ℕ → VpiTime
simtime steps = record {
  time_type = sim_time;
  high = steps / 2 ^ 32 % 2 ^ 32;
  low = steps % 2 ^ 32;
}

-- From what `vpi_get_time` leaves
unfoldable pub sim_time_steps : VpiTime → ℕ
sim_time_steps t = bit_or (t.high * 2 ^ 32 % 2 ^ 64) t.low

pub data Reason : Type 0 where
  after_delay value_change read_write_synch read_only_synch next_sim_time at_end_of_sim_time :
      Reason
  start_of_simulation end_of_simulation : Reason

-- The simulator's object is absent where the handle is null.
pub record Request : Type 0 where
  pub kind : CbKind
  pub reason : Reason
  pub obj : Option ℕ
  pub time : VpiTime

abbrev pub suppressed : VpiTime
suppressed = record { time_type = suppress_time; high = 0; low = 0 }

-- The request that `register` makes, where a time may be given
unfoldable pub request : CbKind → Reason → Option ℕ → Option VpiTime → Request
request kind reason obj none = record { kind = kind; reason = reason; obj = obj; time = suppressed }
request kind reason obj (some t) = record { kind = kind; reason = reason; obj = obj; time = t }

unfoldable pub register_timer : ℕ → Request
unfolding request simtime
register_timer steps = request one_shot after_delay none (some (simtime steps))

unfoldable pub register_value_change : ℕ → Request
unfolding request simtime
register_value_change sig = request recurring value_change (some sig) (some (simtime 0))

unfoldable pub register_read_write : Request
unfolding request simtime
register_read_write = request one_shot read_write_synch none (some (simtime 0))

unfoldable pub register_read_only : Request
unfolding request simtime
register_read_only = request one_shot read_only_synch none (some (simtime 0))

unfoldable pub register_next_sim_time : Request
unfolding request
register_next_sim_time = request one_shot next_sim_time none none

-- At the time `now` that the simulator gives
unfoldable pub register_at_end_of_sim_time : VpiTime → Request
unfolding request simtime sim_time_steps
register_at_end_of_sim_time now =
    request one_shot at_end_of_sim_time none (some (simtime (sim_time_steps now)))

unfoldable pub register_start_of_simulation : Request
unfolding request
register_start_of_simulation = request one_shot start_of_simulation none none

unfoldable pub register_end_of_simulation : Request
unfolding request
register_end_of_simulation = request one_shot end_of_simulation none none

-- A time of 64 bits goes through the two words of the interface and back unchanged.
pub sim_time_steps-simtime : (steps : ℕ) → steps < 2 ^ 64 → sim_time_steps (simtime steps) ≡ steps
unfolding sim_time_steps simtime
sim_time_steps-simtime steps h =
    let high = steps / 2 ^ 32 in
    ap (λ k. bit_or k (steps % 2 ^ 32)) (omega (arith, h))
    ∙ bit_or-below 32 (steps % 2 ^ 32) high (omega arith)
    ∙ omega arith
