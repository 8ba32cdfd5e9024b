-- ===== src/Examples/Requests.antt =====
-- Examples on the text of a request and its way through the queue.
use mathlib.Core.List.{Memᴰ}
use mathlib.Core.List.Memᴰ
use onyx_engine.Prelude.{
  zero, suc, ◌-◌, ◌≤◌, ◌≡◌, refl, sym, subst, true, none, [], ◌∷◌, ◌++◌, All, length, arith,
}
use onyx_engine.Prelude.Bytes.{Bytes, bytes, starts, search, find_from}
use onyx_engine.Prelude.Search.{Absent, occurs_beyond}
use onyx_engine.Engine.Holdback.{stop_holdback}
use onyx_engine.Engine.Holdback.Laws.{IsStop, stop_holdback_max}
use onyx_engine.Engine.Emit.{first_stop, on_sampled}
use onyx_engine.Engine.Emit.Stops.{Clean, IsStopAt, first_stop-full, first_stop-IsStopAt}
use onyx_engine.Engine.Emit.Heard.{spoken}
use onyx_engine.Engine.Emit.Streaming.{Streams, IsComplete, GoesOn, on_sampled-Streams}
use onyx_engine.Engine.Queue.{submit, sweep_queue}
use onyx_engine.Engine.Queue.Submit.{SubmitResult, submit-SubmitResult}
use onyx_engine.Engine.Queue.Sweep.{Swept, sweep_queue-Swept}
use onyx_engine.Examples.Data.{toy, params, request, second_request, talking, core, config}

stops-IsStop : All IsStop (bytes "ab" ∷ [])
stops-IsStop = ((omega arith, omega arith), tt)

a-Absent : Absent (bytes "ab") (bytes "a")
unfolding starts
a-Absent zero = refl
a-Absent (suc j) = occurs_beyond (bytes "ab") (bytes "a") (suc j) (omega arith) (omega arith)

a-Clean : Clean (bytes "ab" ∷ []) (bytes "a")
a-Clean stop (Memᴰ.head e) = subst (λ (s : Bytes). Absent s (bytes "a")) (sym e) a-Absent
a-Clean stop (Memᴰ.tail m) = absurd (Memᴰ.not-nil m)

-- The text "a" begins the stop word, so all of it is held back.
a_held : length (bytes "a") - stop_holdback (bytes "a") (bytes "ab" ∷ []) ≡ 0
a_held = omega (
  arith,
  stop_holdback_max (bytes "a") (bytes "ab" ∷ []) (bytes "ab") 1 stops-IsStop (Memᴰ.head refl)
      (omega arith, omega arith, refl),
)

talking-Streams : Streams talking request
unfolding spoken
talking-Streams = record {
  stops = stops-IsStop;
  clean = a-Clean;
  no_error = refl;
  sent = sym a_held;
  said = refl;
}

on_sampled-Streams_example :
    GoesOn {L = toy} Streams IsComplete core (on_sampled toy core talking request none)
on_sampled-Streams_example = on_sampled-Streams core talking request none talking-Streams

first_stop-full_example :
    first_stop (bytes "a" ++ bytes "b") 0 (bytes "ab" ∷ [])
    ≡ first_stop (bytes "a" ++ bytes "b") 0 (bytes "ab" ∷ [])
first_stop-full_example =
    first_stop-full (bytes "a") (bytes "b") 0 (bytes "ab" ∷ []) stops-IsStop a-Clean (omega arith)

first_stop-IsStopAt_example : IsStopAt (bytes "a" ++ bytes "b") (bytes "ab" ∷ []) 0 (bytes "ab", 0)
unfolding first_stop find_from search starts
first_stop-IsStopAt_example =
    first_stop-IsStopAt (bytes "a") (bytes "b") (bytes "ab" ∷ []) 0 stops-IsStop a-Clean
      (omega arith) (bytes "ab", 0) refl

stop_holdback_max_example : 1 ≤ stop_holdback (bytes "xa") (bytes "ab" ∷ [])
stop_holdback_max_example =
    stop_holdback_max (bytes "xa") (bytes "ab" ∷ []) (bytes "ab") 1 stops-IsStop (Memᴰ.head refl)
      (omega arith, omega arith, refl)

submit-SubmitResult_example :
    SubmitResult toy config
      (second_request ∷ [])
      (submit toy config core (second_request ∷ []) 5 params true true)
submit-SubmitResult_example =
    submit-SubmitResult toy config core (second_request ∷ []) 5 params true true

sweep_queue-Swept_example :
    Swept toy config 10 core
      (request ∷ second_request ∷ [])
      (sweep_queue toy config core (request ∷ second_request ∷ [])).0
      (sweep_queue toy config core (request ∷ second_request ∷ [])).1
sweep_queue-Swept_example = sweep_queue-Swept toy config core (request ∷ second_request ∷ [])
