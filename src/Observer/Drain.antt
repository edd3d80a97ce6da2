-- ===== src/Observer/Drain.antt =====
-- The loop that the four `run` functions of tapio-agent/src/observer share: every tick drains the ring
-- buffer up to a cap, and every thousandth tick reads the lost events. The decoder and what is observed
-- are the observer's; the records of a tick are a list, in the order in which the buffer gives them.
use tapio.Prelude.{
  ℕ, zero, suc, ◌+◌, ◌-◌, ◌^◌, ◌%◌, List, [], ◌∷◌, ◌++◌, Option, none, some, Bool, false, ◌||◌, ltb,
  leb, ◌==◌, if◌then◌else◌, length,
}
use tapio.Observer.Occurrence.{Occurrence}

abbrev pub max_drain_per_tick : ℕ
max_drain_per_tick = 2048

abbrev pub lost_events_check_interval : ℕ
lost_events_check_interval = 1000

-- The counters of `run`, the metrics it moves, and the occurrences it has given to the sink.
pub record Counters : Type 0 where
  pub malformed_count : ℕ
  pub event_count : ℕ
  pub anomaly_count : ℕ
  pub warnings : ℕ
  pub drain_cap_total : ℕ
  pub sent : List Occurrence

-- `u64::is_power_of_two`, by the powers below 2 ^ 64.
abbrev is_power : ℕ → ℕ → Bool
is_power zero n = false
is_power (suc k) n = n == 2 ^ k || is_power k n

unfoldable pub should_warn_malformed_event : ℕ → Bool
should_warn_malformed_event count = leb count 10 || is_power 64 count

-- A record too short for the event.
unfoldable pub drop_malformed : Counters → Counters
unfolding should_warn_malformed_event
drop_malformed s = record s {
  malformed_count = s.malformed_count + 1;
  warnings =
      if should_warn_malformed_event (s.malformed_count + 1) then s.warnings + 1 else s.warnings;
}

-- A record that is an event, with what is observed in it; the sink's answer is only logged.
unfoldable pub take_event : Option Occurrence → Counters → Counters
take_event none s = record s { event_count = s.event_count + 1 }
take_event (some occ) s = record s {
  event_count = s.event_count + 1;
  anomaly_count = s.anomaly_count + 1;
  sent = s.sent ++ occ ∷ [];
}

-- The event's size, and what is observed in a record; the number of the event stands for the
-- identifier and the time that the occurrence is given.
module _ (expected_len : ℕ) (observe : ℕ → List ℕ → Option Occurrence) where
  unfoldable pub handle : List ℕ → Counters → Counters
  unfolding drop_malformed take_event
  handle data_ s =
      if ltb (length data_) expected_len
      then drop_malformed s
      else take_event (observe s.event_count data_) s

  -- The loop, from the number of records drained: the counters, that number, and the records left.
  unfoldable pub drain_from : ℕ → List (List ℕ) → Counters → Counters × ℕ × List (List ℕ)
  unfolding handle
  drain_from count [] s = (s, count, [])
  drain_from count (data_ ∷ rest) s =
      let more = drain_from (count + 1) rest (handle data_ s) in
      if leb max_drain_per_tick (count + 1) then (handle data_ s, count + 1, rest) else more

  -- A tick: the drain, and the metric when it was capped.
  unfoldable pub drain_tick : List (List ℕ) → Counters → Counters × ℕ × List (List ℕ)
  unfolding drain_from
  drain_tick items s =
      let (after, drained, left) = drain_from 0 items s in
      (
        if leb max_drain_per_tick drained
            then record after { drain_cap_total = after.drain_cap_total + 1 }
            else after,
        drained,
        left,
      )

  -- So many ticks, on a buffer that nothing is added to.
  unfoldable pub ticks : ℕ → List (List ℕ) → Counters → Counters × List (List ℕ)
  unfolding drain_tick
  ticks zero items s = (s, items)
  ticks (suc n) items s = let (after, drained, left) = drain_tick items s in ticks n left after

-- The lost events: the metric, the last total, and the tick.
pub record Lost : Type 0 where
  pub tick_count : ℕ
  pub prev_lost : ℕ
  pub lost_events_total : ℕ

-- A tick with the total that the kernel's map would give now.
unfoldable pub lost_tick : ℕ → Lost → Lost
lost_tick lost s =
    let ticked : Lost = record s { tick_count = s.tick_count + 1 } in
    if ticked.tick_count % lost_events_check_interval == 0
    then (if ltb ticked.prev_lost lost
        then record ticked {
          prev_lost = lost;
          lost_events_total = ticked.lost_events_total + (lost - ticked.prev_lost);
        }
        else ticked)
    else ticked
