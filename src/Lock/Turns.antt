-- ===== src/Lock/Turns.antt =====
-- What a FIFO-fair lock promises, with no futures, wakers or waiters: who holds it, and who is in line.
use rustdv.Base.{
  ℕ, Bool, true, false, List, [], ◌∷◌, ◌++◌, Option, none, some, ◌==◌, ltb, count, if◌then◌else◌,
}
use rustdv.Lock.{retain_ne}

pub record Turn : Type 0 where
  pub holder : Option ℕ
  pub line : List ℕ

abbrev pub holds : Option ℕ → ℕ → Bool
holds none c = false
holds (some h) c = h == c

abbrev pub is_free : Option ℕ → Bool
is_free none = true
is_free (some h) = false

-- The next in line takes over.
abbrev pub pass_on : List ℕ → Turn
pass_on [] = record { holder = none; line = [] }
pass_on (c ∷ cs) = record { holder = some c; line = cs }

-- A client that wants the lock and is not in line takes it if it is free, and else joins at the end.
abbrev pub request : Turn → ℕ → Turn
request t c =
    if holds t.holder c
    then t
    else if ltb 0 (count c t.line)
    then t
    else if is_free t.holder
    then record t { holder = some c }
    else record t { line = t.line ++ c ∷ [] }

-- A holder passes it on, and anybody else leaves the line.
abbrev pub leave : Turn → ℕ → Turn
leave t c = if holds t.holder c then pass_on t.line else record t { line = retain_ne c t.line }
