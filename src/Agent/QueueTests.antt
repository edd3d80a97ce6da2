-- ===== src/Agent/QueueTests.antt =====
-- A sink whose queue has two places, with three events, one of them too many, and its end: the theorems on
-- the queue and its worker at work.
use tapio.Prelude.{
  zero, suc, ◌≤◌, ℕ, ◌≡◌, refl, String, true, false, List, [], length, Result, ok, err, arith,
}
use tapio.Wire.Types.{EventBatchRequest, EventBatchResponse}
use tapio.Agent.Sink.{HttpResponse}
use tapio.Agent.Queue.{
  ControllerSink, with_limits, offer, try_enqueue_controller_event, try_send, enqueued, take_sender,
}
use tapio.Agent.Turns.{Log, no_log, log_send, Reach, here, step, run_down, sends, drops}
use tapio.Agent.Queued.{IsKept}
use tapio.Agent.Delivered.{Reach-IsKept}
use tapio.Agent.RunDown.{run_down-delivers}
use tapio.Agent.Tests.{oom_kill, event_to_vec}

abbrev from_slice : List ℕ → Result String EventBatchResponse
from_slice body = err "not JSON"

abbrev post : List ℕ → ℕ → Result String HttpResponse
post payload attempt = err "connect: refused"

abbrev to_vec : EventBatchRequest → Result String (List ℕ)
to_vec request = ok []

abbrev now : ℕ → ℕ
now attempt = 9

abbrev began : ControllerSink
began = with_limits "agent-a" "node-a" 2 1000 5

-- A sink so far, with what was logged of it.
abbrev Reached : ControllerSink → Log → Type 0
Reached s log = Reach from_slice post to_vec now event_to_vec 2 began s log

abbrev offered : ControllerSink → ControllerSink
offered s = offer oom_kill s

abbrev noted : ControllerSink → Log → Log
noted s log = log_send oom_kill s log

abbrev packed : ControllerSink
packed = offered (offered (offered began))

abbrev packed_log : Log
packed_log = noted (offered (offered began)) (noted (offered began) (noted began no_log))

abbrev packed-Reached : Reached packed packed_log
packed-Reached = step (step (step here (sends oom_kill)) (sends oom_kill)) (sends oom_kill)

third_dropped : (length packed.queue ≡ 2) × (packed.dropped_queue_full ≡ 1)
unfolding with_limits offer try_enqueue_controller_event try_send enqueued
third_dropped = (refl, refl)

Reach-IsKept_example : IsKept 2 2 packed packed_log
Reach-IsKept_example =
    Reach-IsKept from_slice post to_vec now event_to_vec "agent-a" "node-a" 2 1000 5 2 (omega arith)
      packed-Reached

sender_taken : (take_sender packed).has_sender ≡ false
unfolding take_sender
sender_taken = refl

worker_lives : (take_sender packed).alive ≡ true
unfolding take_sender with_limits offer try_enqueue_controller_event try_send enqueued
worker_lives = refl

-- Full batches, but for the last turn, each at its own time.
abbrev batching : ℕ → ℕ
batching zero = 1
batching (suc n) = 2

abbrev due : ℕ → ℕ
due n = n

batching-within : (n : ℕ) → (1 ≤ batching n) × (batching n ≤ 2)
batching-within zero = (omega arith, omega arith)
batching-within (suc n) = (omega arith, omega arith)

abbrev left : ControllerSink
left = take_sender packed

abbrev ended : ControllerSink
ended = run_down from_slice post to_vec now event_to_vec batching due left.queue left

run_down-delivers_example :
    (more : Log) × Reached ended more
    × (ended.alive ≡ false)
    × (more.accepts ≡ packed_log.accepts)
    × (more.takes ≡ packed_log.accepts)
run_down-delivers_example =
    run_down-delivers from_slice post to_vec now event_to_vec 2 batching due batching-within
      "agent-a" "node-a" 2 1000 5 (step packed-Reached drops) sender_taken worker_lives
