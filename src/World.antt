-- ===== src/World.antt =====
-- What the services of src/etf_platform/execution_manager share: the store, the broker, the
-- recorder of events, the notifications sent, the clock, and the caller's `ExecutionRecord`, which
-- they change in place, so that its changes outlive an exception. The broker records its own
-- events. A clock reading does not change during a call.
use etf_platform_paper_mode.Common.{none, some, List, [], ◌∷◌, ◌++◌, Result, ok, raised, Exec}
use etf_platform_paper_mode.Events.{ExecutionEvent, Recorder, record_event}
use etf_platform_paper_mode.Lifecycle.{State, Error}
use etf_platform_paper_mode.Ports.{Message, Notifications}
use etf_platform_paper_mode.Record.{ExecutionRecord, transition_to}
use etf_platform_paper_mode.Store.{Store, save_execution_record}
use etf_platform_paper_mode.Time.{Datetime}

pub record World (B : Type 0) : Type 0 where
  pub store : Store
  pub broker : B
  pub events : Recorder
  pub sent : List Message
  pub now : Datetime
  pub current : ExecutionRecord

abbrev pub Action : Type 0 → Type 0 → Type 0
Action B A = Exec Error (World B) A

abbrev pub sending : Notifications → Message → Result Error (Unit {0})
sending none m = ok tt
sending (some send) m = send m

abbrev pub logged : Notifications → Message → List Message → List Message
logged none m log = log
logged (some _) m log = log ++ m ∷ []

module _ {B : Type 0} where
  abbrev pub on_broker : {A : Type 0} → Exec Error B A → Action B A
  on_broker m w = let (r, b) = m w.broker in (r, record w { broker = b })

  abbrev pub on_store : {A : Type 0} → Exec Error Store A → Action B A
  on_store m w = let (r, s) = m w.store in (r, record w { store = s })

  abbrev pub change : (ExecutionRecord → ExecutionRecord) → Action B (Unit {0})
  change f w = (ok tt, record w { current = f w.current })

  -- `record.transition_to(…)`
  abbrev pub transition : State → Action B (Unit {0})
  transition s w = elim (transition_to s w.current) [
    | ok r ↦ (ok tt, record w { current = r })
    | raised e ↦ (raised e, w)
  ]

  -- `self._store.save_execution_record(record)`
  abbrev pub save : Action B (Unit {0})
  save w = on_store (save_execution_record w.current) w

  abbrev pub emit : ExecutionEvent → Action B (Unit {0})
  emit e w = (ok tt, record w { events = record_event e w.events })

  -- `self._notifications.send(…)`, if there is a port; a message that raises was sent too.
  abbrev pub notify : Notifications → Message → Action B (Unit {0})
  notify port m w = (sending port m, record w { sent = logged port m w.sent })
