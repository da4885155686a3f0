-- ===== src/Sequencer/Tests.antt =====
-- Runs of the sequencer of rustdv/rustdv-methodology/src/sequence.rs.
use rustdv.Base.{
  ℕ, ◌≡◌, refl, Bool, true, false, List, [], ◌∷◌, ◌++◌, none, some, Option-cases, arith, inl, inr,
  In,
}
use rustdv.Wake
use rustdv.Wake.{World}
use rustdv.Sequencer.Context
use rustdv.Sequencer.Responses.{RespInner}
use rustdv.Sequencer.Bench.{
  Bench, Call, starts, finishes, waits_granted, waits_done, gets, dones, opens, Reply, waits, done,
  item, ticket, call, at_rest, Ran, finish, after,
}
use rustdv.Sequencer.Order.{all_taken, tickets, line, Ran_order}
use rustdv.Sequencer.Steps.{all_given, all_released}
use rustdv.Sequencer.Handshake.{finish_item-delivered}
use rustdv.Sequencer.Answers.{Call as Request, pushes, tries, polls}

-- Running the calls, up to a panic
replies : Bench ℕ ℕ → List (Call ℕ ℕ) → List (Reply ℕ)
replies b [] = []
replies b (c ∷ cs) = elim (call b c) [
  | none ↦ []
  | some hit ↦ let (b', r) = hit in r ∷ replies b' cs
]

last : Bench ℕ ℕ → List (Call ℕ ℕ) → Bench ℕ ℕ
last b [] = b
last b (c ∷ cs) = elim (call b c) [ none ↦ b | some hit ↦ last hit.0 cs ]

no_panic : Bench ℕ ℕ → List (Call ℕ ℕ) → Bool
no_panic b [] = true
no_panic b (c ∷ cs) = elim (call b c) [ none ↦ false | some hit ↦ no_panic hit.0 cs ]

ran :
    (b : Bench ℕ ℕ) (cs : List (Call ℕ ℕ))
    → no_panic b cs ≡ true
    → Ran b cs (replies b cs) (last b cs)
unfolding replies last no_panic
ran b [] h = finish
ran b (c ∷ cs) h = elim (Option-cases (call b c)) [
  | inl e ↦ absurd (ground (arith, e))
  | inr ((b', r), e) ↦ rw (last, replies, e) (after e (ran b' cs (rw (no_panic, e) at h)))
]

-- Two sequences send an item each; the driver takes the first, answers it, and waits for the second.
abbrev script : List (Call ℕ ℕ)
script =
    opens 0 true
    ∷ opens 1 true
    ∷ gets 9
    ∷ starts 0 5
    ∷ starts 1 6
    ∷ gets 9
    ∷ waits_granted 1 5
    ∷ finishes 0 42 5
    ∷ gets 9
    ∷ dones (some 7)
    ∷ waits_done 1 5
    ∷ gets 9
    ∷ []

script-replies :
    replies at_rest script
    ≡ done
      ∷ done
      ∷ waits
      ∷ waits
      ∷ waits
      ∷ waits
      ∷ done
      ∷ waits
      ∷ item 1 42
      ∷ done
      ∷ ticket 1
      ∷ waits
      ∷ []
unfolding replies call at_rest Wake.wake_all
script-replies = refl

script_fine : no_panic at_rest script ≡ true
unfolding no_panic call at_rest Wake.wake_all
script_fine = refl

Ran_order_example :
    all_taken (replies at_rest script) ++ line (last at_rest script)
    ≡ tickets (last at_rest script).seqr.inner.next_id
Ran_order_example = Ran_order (ran at_rest script script_fine) refl

ticket_given : In (ticket 1) (replies at_rest script)
ticket_given =
    rw script-replies (inr (inr (inr (inr (inr (inr (inr (inr (inr (inr (inl refl)))))))))))

finish_item-delivered_example :
    let h = ran at_rest script script_fine in
    In 1 (all_released h)
    × ((p : ℕ) × In (item 1 p) (replies at_rest script) × In (1, p) (all_given h))
finish_item-delivered_example =
    finish_item-delivered (ran at_rest script script_fine) 1 ticket_given

abbrev no_answers : World (RespInner ℕ)
no_answers = record { inner = record { items = []; waiters = [] }; woken = [] }

abbrev requests : List (Request ℕ)
requests =
    polls (some 2) 5 ∷ pushes 1 10 ∷ pushes 2 20 ∷ pushes 1 11 ∷ tries (some 2) ∷ tries none ∷ []

-- A virtual sequence has no responses, and waiting for one is a panic.
virtual :
    ((Context.try_get_response
        (at_rest {REQ = ℕ} {RSP = ℕ}).seqr
        (record { has_sequencer = false; current = none })
        none).1
      ≡ none)
    × (Context.poll_get_response
          (at_rest {REQ = ℕ} {RSP = ℕ}).seqr
          (record { has_sequencer = false; current = none })
          none
          4
        ≡ none)
unfolding Context.try_get_response Context.poll_get_response
virtual = (refl, refl)
