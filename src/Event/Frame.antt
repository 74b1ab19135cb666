-- ===== src/Event/Frame.antt =====
-- trigger_event of src/event.c changes nothing but the calls that were made.
use open_hybrid.Base.{◌≡◌, refl, List, ℕ, [], ◌∷◌}
use open_hybrid.Runtime.{Event, Call, State}
use open_hybrid.Os.{called}
use open_hybrid.Event.{trigger_event}

-- trigger_event, by the path of the script.
unfoldable pub forked : List ℕ → Event → State → State
forked path name s = elim path [ [] ↦ s | _ ∷ _ ↦ called (Call.fork_event name) s ]

forked-runtime :
    (path : List ℕ) (name : Event) (s : State) → (forked path name s).runtime ≡ s.runtime
unfolding forked
forked-runtime [] name s = refl
forked-runtime (_ ∷ _) name s = refl

pub trigger_event-runtime : (name : Event) (s : State) → (trigger_event name s).runtime ≡ s.runtime
unfolding trigger_event forked
trigger_event-runtime name s = forked-runtime s.runtime.event_script_path name s
