-- ===== src/Assurance/States.antt =====
-- The state machine of a change session, and the operations of the service in it.
use switch_ops.Prelude.{◌≡◌, refl, true, false, List, [], ◌∷◌, ◌++◌, arith}
use switch_ops.Assurance.Model
use switch_ops.Assurance.Model.{Status, preflight, ready, executing, ChangeSession}
use switch_ops.Assurance.Service.{is_at_work, is_complete, is_open}

-- The steps that a session may take. A session that is complete takes none.
pub data Next : Status → Status → Type 0 where
  -- a preflight begins, again if one was made before, and ends
  begin : {s : Status} → is_at_work s ≡ false → is_complete s ≡ false → Next s preflight
  pass : Next preflight ready
  fail : Next preflight Model.blocked
  -- a gate is closed before the execution
  close : {s : Status} → is_open s ≡ true → Next s Model.blocked
  -- an execution begins, works on, is stopped, and ends
  start : Next ready executing
  work : {s t : Status} → is_at_work s ≡ true → is_at_work t ≡ true → Next s t
  stop : Next executing Model.blocked
  complete : {s t : Status} → is_at_work s ≡ true → is_complete t ≡ true → Next s t

-- Sessions that are saved one after another, each a step from the one before.
abbrev pub Follows : Status → List ChangeSession → Type 0
Follows s [] = Unit
Follows s (next ∷ rest) = Next s next.status × Follows next.status rest

-- The status after them.
abbrev pub last : Status → List ChangeSession → Status
last s [] = s
last s (next ∷ rest) = last next.status rest

pub Follows-append :
    (s : Status) (first second : List ChangeSession)
    → Follows s first
    → Follows (last s first) second
    → Follows s (first ++ second)
Follows-append s [] second f g = g
Follows-append s (next ∷ first) second f g = (f.0, Follows-append next.status first second f.1 g)

pub last-append :
    (s : Status) (first second : List ChangeSession)
    → last s (first ++ second) ≡ last (last s first) second
last-append s [] second = refl
last-append s (next ∷ first) second = last-append next.status first second

-- No step leads out of a complete session.
pub Next-incomplete : {s t : Status} → Next s t → is_complete s ≡ false
unfolding is_complete is_at_work is_open
Next-incomplete (begin f c) = c
Next-incomplete pass = refl
Next-incomplete fail = refl
Next-incomplete (close {s} o) = ground arith
Next-incomplete start = refl
Next-incomplete (work {s} a b) = ground arith
Next-incomplete stop = refl
Next-incomplete (complete {s} a b) = ground arith
