-- ===== src/Objection/Tests.antt =====
-- Runs of rustdv/rustdv-methodology/src/objection.rs.

use rustdv.Base.{◌≡◌, refl, true, List, [], ◌∷◌, ◌==◌, ◌&&◌, if◌then◌else◌, ready, pending, length}
use rustdv.Wake
use rustdv.Wake.{World}
use rustdv.Objection
use rustdv.Objection.{
  ObjInner, Call, new, raises, drops, waits, run, poll_drained, poll_all_dropped,
}
use rustdv.Objection.Consensus.{IsLedger, poll_drained-run}

abbrev fresh : World ObjInner
fresh = record { inner = new; woken = [] }

fresh-IsLedger : IsLedger fresh []
unfolding new
fresh-IsLedger = record {
  counted = refl;
  listed = refl;
  fired = refl;
  raised = λ h. refl;
  asleep = λ h. refl;
}

-- Two phases' objections, of which one is left when task 7 waits, and then none.
abbrev calls : List Call
calls =
    raises "stimulus"
    ∷ raises "drain"
    ∷ drops "stimulus"
    ∷ waits true 7
    ∷ drops "drain"
    ∷ drops "drain"
    ∷ []

poll_drained-run_example :
    let (w', live') = run (fresh, []) calls in
    IsLedger w' live'
    × ((poll_drained w' 7).1
        ≡ (if w'.inner.raised_ever && length live' == 0 then ready tt else pending))
poll_drained-run_example = poll_drained-run fresh [] calls 7 fresh-IsLedger

-- The last drop wakes the task that waited.
calls-woken : (run (fresh, []) calls).0.woken ≡ 7 ∷ []
unfolding run new rustdv.Objection.call rustdv.Wake.wake_all
calls-woken = refl
