-- ===== src/Objection/Consensus.antt =====
-- rustdv/rustdv-methodology/src/objection.rs: when the objections count as dropped.
use Prim.Native.String.{String}
use rustdv.Base.{
  ◌+◌, ◌≡◌, true, false, ◌&&◌, List, [], ◌∷◌, arith, ◌==◌, if◌then◌else◌, ready, pending, length,
  length-append,
}
use rustdv.Wake.{TaskId, World}
use rustdv.Objection.{
  ObjInner, Call, raises, drops, waits, call, run, holds, remove_first, poll_drained,
  poll_all_dropped,
}

-- The registry's books agree with the live guards: it counts them, it lists them, and the event is
-- set exactly if there was one and none is left; nobody waits while it is set.
pub record IsLedger (w : World ObjInner) (live : List String) : Type 0 where
  pub counted : w.inner.count ≡ length live
  pub listed : w.inner.active ≡ live
  pub fired : w.inner.drained.is_set ≡ (w.inner.raised_ever && w.inner.count == 0)
  pub raised : w.inner.raised_ever ≡ false → live ≡ []
  pub asleep : w.inner.drained.is_set ≡ true → w.inner.drained.waiters ≡ []

length-remove_first :
    (d : String) (xs : List String) → holds d xs ≡ true → length (remove_first d xs) + 1 ≡ length xs
unfolding holds remove_first
length-remove_first d [] h = ground arith
length-remove_first d (x ∷ xs) h = ground (arith, length-remove_first d xs)

call-IsLedger :
    (w : World ObjInner) (live : List String) (c : Call)
    → IsLedger w live
    → let (w', live') = call (w, live) c in IsLedger w' live'
unfolding call
call-IsLedger w live (raises d) h = ground (arith, length-append live (d ∷ []))
call-IsLedger w live (drops d) h = ground (arith, length-remove_first d live)
call-IsLedger w live (waits first id) h = ground arith

run-IsLedger :
    (w : World ObjInner) (live : List String) (cs : List Call)
    → IsLedger w live
    → let (w', live') = run (w, live) cs in IsLedger w' live'
unfolding run
run-IsLedger w live [] h = h
run-IsLedger w live (c ∷ cs) h =
    let (w', live') = call (w, live) c in run-IsLedger w' live' cs (call-IsLedger w live c h)

-- After any history of raises, drops and waits, from a registry whose books agree with its guards, the
-- books still agree, and waiting for the drained event completes exactly if an objection was ever
-- raised and no guard is left.
pub poll_drained-run :
    (w : World ObjInner) (live : List String) (cs : List Call) (id : TaskId)
    → IsLedger w live
    → let (w', live') = run (w, live) cs in
      IsLedger w' live'
      × ((poll_drained w' id).1
          ≡ (if w'.inner.raised_ever && length live' == 0 then ready tt else pending))
unfolding poll_drained
poll_drained-run w live cs id h = let v = run-IsLedger w live cs h in (v, ground (arith, v))

-- `wait_all_dropped`, polled first after any history, waits exactly if some guard is still alive; a
-- test that never objects is not held up.
pub poll_all_dropped-run :
    (w : World ObjInner) (live : List String) (cs : List Call) (id : TaskId)
    → IsLedger w live
    → let (w', live') = run (w, live) cs in
      (poll_all_dropped w' true id).1 ≡ (if length live' == 0 then ready tt else pending)
unfolding poll_all_dropped
poll_all_dropped-run w live cs id h = let v = run-IsLedger w live cs h in ground (arith, v)
