-- ===== src/Event.antt =====
-- src/event.c: trigger_event. The environment that the child builds for the script is in Environment.
pub mod Environment
pub mod Frame
use open_hybrid.Base.{[], ◌∷◌}
use open_hybrid.Runtime.{Event, Call, State}
use open_hybrid.Os.{called}

-- Without a script nothing happens; else a child process is forked that runs it with the name.
-- A path of 128 characters fills its array without a zero behind it; strlen, which reads on there, does
-- not give 0 for it, and only that is used here. Environment has what becomes of such a path.
unfoldable pub trigger_event : Event → State → State
trigger_event name s = elim s.runtime.event_script_path [
  | [] ↦ s
  | _ ∷ _ ↦ called (Call.fork_event name) s
]
