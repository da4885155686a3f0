-- ===== src/Objection.antt =====
-- `ObjectionRegistry` of rustdv/rustdv-methodology/src/objection.rs: a test phase ends when every
-- raised objection was dropped. Clones and guards share one `ObjInner`; a guard holds its description.
pub mod Consensus
mod Tests
use Prim.Native.String.{String}
use text.Mathlib.Text.{◌==◌ as str_eq}
use rustdv.Base.{
  ℕ, ◌+◌, ◌-◌, ◌&&◌, ◌||◌, Bool, true, false, not, List, [], ◌∷◌, ◌++◌, ◌==◌, if◌then◌else◌, Poll,
  ready, pending,
}
use rustdv.Wake.{TaskId, World}
use rustdv.Event
use rustdv.Event.{EventInner}

pub record ObjInner : Type 0 where
  pub count : ℕ
  pub drained : EventInner
  pub raised_ever : Bool
  pub active : List String

unfoldable pub new : ObjInner
unfolding Event.new
new = record { count = 0; drained = Event.new; raised_ever = false; active = [] }

abbrev pub drained_event : World ObjInner → World EventInner
drained_event w = record { inner = w.inner.drained; woken = w.woken }

abbrev pub with_drained : World ObjInner → World EventInner → World ObjInner
with_drained w e = record { inner = record w.inner { drained = e.inner }; woken = e.woken }

-- `raise`; the guard that it returns is its description.
unfoldable pub raise : World ObjInner → String → World ObjInner
unfolding Event.clear
raise w description =
    let e = Event.clear (drained_event w) in
    record {
      inner = record {
        count = w.inner.count + 1;
        drained = e.inner;
        raised_ever = true;
        active = w.inner.active ++ description ∷ [];
      };
      woken = e.woken;
    }

-- `active.remove(active.iter().position(|d| *d == description))`
unfoldable pub remove_first : String → List String → List String
remove_first d [] = []
remove_first d (x ∷ xs) = if str_eq x d then xs else x ∷ remove_first d xs

-- `impl Drop for ObjectionGuard`; `-` stops at 0, as `saturating_sub` does.
unfoldable pub drop_guard : World ObjInner → String → World ObjInner
unfolding remove_first Event.set
drop_guard w description =
    let n = w.inner.count - 1 in
    let w' : World ObjInner = record w {
      inner = record w.inner { count = n; active = remove_first description w.inner.active };
    } in
    if n == 0 then with_drained w' (Event.set (drained_event w')) else w'

unfoldable pub ever_raised : ObjInner → Bool
ever_raised o = o.raised_ever

-- One poll of `wait_drained_event`
unfoldable pub poll_drained : World ObjInner → TaskId → World ObjInner × Poll (Unit {0})
unfolding Event.poll_wait
poll_drained w id = let (e, p) = Event.poll_wait (drained_event w) id in (with_drained w e, p)

-- One poll of `wait_all_dropped`: the first looks at the counters, and later ones are within the wait
-- on the event. (The warning of the first branch goes to the log.)
unfoldable pub poll_all_dropped : World ObjInner → Bool → TaskId → World ObjInner × Poll (Unit {0})
unfolding poll_drained
poll_all_dropped w first id =
    if first && not w.inner.raised_ever
    then (w, ready tt)
    else if first && w.inner.count == 0
    then (w, ready tt)
    else poll_drained w id

-- What the tasks do with the registry; a `drops` is the end of some live guard's life.
pub data Call : Type 0 where
  raises drops : String → Call
  waits : Bool → TaskId → Call

unfoldable pub holds : String → List String → Bool
holds d [] = false
holds d (x ∷ xs) = str_eq x d || holds d xs

-- A call on the registry beside the descriptions of the live guards. A guard is dropped once, so a
-- `drops` with no such guard is no call at all.
unfoldable pub call : World ObjInner × List String → Call → World ObjInner × List String
unfolding raise drop_guard holds remove_first poll_all_dropped
call (w, live) (raises d) = (raise w d, live ++ d ∷ [])
call (w, live) (drops d) = if holds d live then (drop_guard w d, remove_first d live) else (w, live)
call (w, live) (waits first id) = ((poll_all_dropped w first id).0, live)

unfoldable pub run : World ObjInner × List String → List Call → World ObjInner × List String
run s [] = s
run s (c ∷ cs) = run (call s c) cs
