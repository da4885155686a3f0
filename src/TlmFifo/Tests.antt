-- ===== src/TlmFifo/Tests.antt =====
-- Runs of a FIFO with taps, and its theorems at concrete inputs.
use rustdv.Base.{ℕ, ◌≡◌, refl, false, List, [], ◌∷◌, ◌++◌, some}
use rustdv.Wake.{World, wake_all}
use rustdv.Queue.{done, item, waits, refused, size}
use rustdv.TlmFifo.{
  FifoInner, Call, try_puts, puts, gets, useds, try_peeks, call, run, connect_tap, default_fifo,
}
use rustdv.TlmFifo.Taps.{all_observed, run_observed}

-- Depth 1, with subscribers 10 and 11 on the way in and 12 on the way out.
abbrev tapped : World (FifoInner ℕ)
tapped = record {
  inner = record {
    q = record { buf = []; cap = some 1; get_waiters = 7 ∷ []; put_waiters = [] };
    depth = some 1;
    put_taps = 10 ∷ 11 ∷ [];
    get_taps = 12 ∷ [];
    log = [];
  };
  woken = [];
}

abbrev script : List (Call ℕ)
script = try_puts 5 ∷ try_puts 6 ∷ puts 8 3 ∷ try_peeks ∷ gets 7 ∷ puts 8 3 ∷ useds ∷ []

script_runs : run tapped script ≡ (
  record {
    inner = record tapped.inner {
      q = record { buf = 8 ∷ []; cap = some 1; get_waiters = []; put_waiters = [] };
      log = (10, 5) ∷ (11, 5) ∷ (12, 5) ∷ (10, 8) ∷ (11, 8) ∷ [];
    };
    woken = 7 ∷ 3 ∷ [];
  },
  done ∷ refused 6 ∷ waits ∷ item 5 ∷ item 5 ∷ done ∷ size 1 ∷ [],
)
unfolding run call wake_all
script_runs = refl

connected : connect_tap false (default_fifo {A = ℕ}) 9 ≡ record default_fifo { get_taps = 9 ∷ [] }
unfolding connect_tap default_fifo
connected = refl

run_observed_example :
    let (w, rs) = run tapped script in
    w.inner.log ≡ [] ++ all_observed (10 ∷ 11 ∷ []) (12 ∷ []) script rs
run_observed_example = run_observed tapped script

abbrev loaded : World (FifoInner ℕ)
loaded = record tapped {
  inner = record tapped.inner {
    q = record { buf = 1 ∷ 2 ∷ []; cap = some 2; get_waiters = []; put_waiters = 4 ∷ [] };
    depth = some 2;
  };
}
