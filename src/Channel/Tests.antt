-- ===== src/Channel/Tests.antt =====
-- Runs of a channel, and its theorems at concrete inputs.
use rustdv.Base.{ℕ, ◌+◌, ◌≤◌, ◌≡◌, refl, inl, List, [], ◌∷◌, ◌++◌}
use rustdv.Wake.{World, wake_all}
use rustdv.Channel.{
  ChanInner, Call, try_sends, sends, recvs, drops_sender, call, Ran, finish, after, Reply, done,
  item, closed, waits, refused, channel,
}
use rustdv.Channel.Refine.{all_accepted, all_delivered, Ran_fifo}
use rustdv.Channel.Wakeups.{IsAwake, wakers, all_left, Ran-IsAwake}

abbrev fresh : World (ChanInner ℕ)
fresh = record {
  inner = record {
    buf = [];
    cap = 1;
    senders = 1;
    receivers = 1;
    send_waiters = [];
    recv_waiters = [];
  };
  woken = [];
}

-- Capacity 0 is coerced to 1.
channel_zero : channel 0 ≡ fresh.inner
unfolding channel
channel_zero = refl

abbrev script : List (Call ℕ)
script = recvs 4 ∷ try_sends 7 ∷ try_sends 8 ∷ sends 9 5 ∷ recvs 4 ∷ drops_sender ∷ recvs 4 ∷ []

abbrev replies : List (Reply ℕ)
replies = waits ∷ done ∷ refused 8 ∷ waits ∷ item 7 ∷ done ∷ closed ∷ []

abbrev final : World (ChanInner ℕ)
final = record { inner = record fresh.inner { senders = 0 }; woken = 4 ∷ 5 ∷ [] }

script_runs : Ran fresh script replies final
unfolding call wake_all
script_runs =
    after refl (after refl (after refl (after refl (after refl (after refl (after refl finish))))))

Ran_fifo_example :
    ([] ++ all_accepted script replies ≡ all_delivered script replies ++ [])
    × (0 ≤ 1 → 0 ≤ 1)
    × (final.inner.cap ≡ 1)
Ran_fifo_example = Ran_fifo script_runs

fresh-IsAwake : IsAwake fresh
fresh-IsAwake = record { receiving = inl refl; sending = inl refl }

Ran-IsAwake_example : IsAwake final × (wakers 4 final ≡ wakers 4 fresh + all_left 4 script replies)
Ran-IsAwake_example = Ran-IsAwake 4 script_runs fresh-IsAwake
