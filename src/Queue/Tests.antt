-- ===== src/Queue/Tests.antt =====
-- Runs of the queue, and its theorems at concrete inputs.
use rustdv.Base.{ℕ, ◌+◌, ◌≡◌, refl, inl, inr, List, [], ◌∷◌, ◌++◌, some}
use rustdv.Wake.{World, wake_all}
use rustdv.Queue.{
  QInner, Call, try_puts, puts, gets, lens, call, run, item, done, waits, refused, size,
}
use rustdv.Queue.Refine.{all_accepted, all_delivered, run_fifo}
use rustdv.Queue.Wakeups.{IsAwake, wakers, all_left, run-IsAwake}

-- A bounded queue of depth 1, and a task 7 that waits for its item.
abbrev depth_one : World (QInner ℕ)
depth_one = record {
  inner = record { buf = []; cap = some 1; get_waiters = 7 ∷ []; put_waiters = [] };
  woken = [];
}

abbrev script : List (Call ℕ)
script = try_puts 5 ∷ try_puts 6 ∷ puts 8 3 ∷ gets 7 ∷ puts 8 3 ∷ lens ∷ []

script_replies : run depth_one script ≡ (
  record {
    inner = record { buf = 8 ∷ []; cap = some 1; get_waiters = []; put_waiters = [] };
    woken = 7 ∷ 3 ∷ [];
  },
  done ∷ refused 6 ∷ waits ∷ item 5 ∷ done ∷ size 1 ∷ [],
)
unfolding run call wake_all
script_replies = refl

run_fifo_example :
    let (w, rs) = run depth_one script in
    [] ++ all_accepted script rs ≡ all_delivered script rs ++ w.inner.buf
run_fifo_example = run_fifo depth_one script

run-IsAwake_example :
    let (w', rs) = run depth_one script in
    IsAwake w' × (wakers 7 w' ≡ wakers 7 depth_one + all_left 7 script rs)
run-IsAwake_example =
    run-IsAwake 7 depth_one script (record { getters = inr refl; putters = inl refl })
