-- ===== src/Kafka/Lanes/Steps.antt =====
-- The lanes of a Kafka source through any history of their steps.
use pyservicelib.Base.{
  ℕ, suc, ◌-◌, ◌≡◌, refl, ap, sym, subst, Bool, true, false, ◌||◌, ◌∷◌, ltb, ◌==◌, if◌then◌else◌,
  arith,
}
use pyservicelib.Pool.Queued.{without}
use pyservicelib.Pool.Queued.Steps.{occurs, occurs-without, length-without}
use pyservicelib.Kafka.Lanes.{
  created, awaits_turn, handling, Lanes, write, records, lane_starts, dispatched, acquire,
  request_done, cancel, stop,
}
use pyservicelib.Kafka.Lanes.Histories.{
  arrives, starts, gets_turn, turned_away, ends, cancels_waiting, cancels_handling, stops, fresh,
  after, History, after_round, drops, Step, Reachable, IsSound, fresh-IsSound,
}
use pyservicelib.Kafka.Lanes.Rounds.{
  arrives-IsSound, round-IsSound, started-IsSound, dropped-IsSound,
}

lane_starts-IsSound :
    (limit : ℕ) (h : History) (a : Bool) (p : ℕ)
    → h.source.lanes p ≡ created
    → IsSound limit h
    → IsSound limit (after_round h p h.running (lane_starts h.source a p))
unfolding lane_starts
lane_starts-IsSound limit h a p e v =
    started-IsSound limit h a p (records (h.source.queues p)) refl e v

gets_turn-IsSound :
    (limit : ℕ) (h : History) (a : Bool) (p : ℕ)
    → h.source.lanes p ≡ awaits_turn
    → h.source.stopped ≡ false
    → IsSound limit h
    → IsSound limit (record h {
      source = acquire h.source limit a p;
      running =
          if (limit == 0) || ltb h.source.active_count limit then p ∷ h.running else h.running;
    })
unfolding acquire
gets_turn-IsSound limit h a p e going v = rw going (record {
  laned = λ q. ground (arith, v.laned q);
  resumed = λ q f. ground (arith, v.resumed q);
  told = λ q f. ground (arith, v.told q);
  positive = ground (arith, v.positive);
  prefetched = λ q. ground (arith, v.prefetched q);
  ordered = λ q. ground (arith, v.ordered q);
  counted = ground (arith, v.counted);
  placed = λ q. ground (arith, v.placed q);
  limited = ground (arith, v.limited);
})

acquire_stopped :
    (s : Lanes) (limit : ℕ) (a : Bool) (p : ℕ)
    → s.stopped ≡ true
    → acquire s limit a p ≡ dispatched s a p
unfolding acquire
acquire_stopped s limit a p over =
    let else_branch : Lanes =
      if (limit == 0) || ltb s.active_count limit
      then record s { active_count = suc s.active_count; lanes = write s.lanes p handling }
      else s in
    ap (λ b. if b then dispatched s a p else else_branch) over

turned_away-IsSound :
    (limit : ℕ) (h : History) (a : Bool) (p : ℕ)
    → h.source.lanes p ≡ awaits_turn
    → h.source.stopped ≡ true
    → IsSound limit h
    → IsSound limit (after_round h p h.running (acquire h.source limit a p))
unfolding acquire
turned_away-IsSound limit h a p e over v =
    let rs = records (h.source.queues p) in
    let done =
      round-IsSound limit h a p h.source.active_count h.running rs refl (ground arith) v.counted
        (omega arith) (λ q. ground (arith, v.placed q)) v in
    subst (λ s. IsSound limit (after_round h p h.running s))
      (sym (acquire_stopped h.source limit a p over)) done

ends-IsSound :
    (limit : ℕ) (h : History) (a : Bool) (p : ℕ)
    → h.source.lanes p ≡ handling
    → IsSound limit h
    → IsSound limit (after_round h p (without p h.running) (request_done h.source a p))
unfolding request_done
ends-IsSound limit h a p e v =
    let one : occurs p h.running ≡ 1 = ground (arith, v.placed p) in
    let fewer = length-without p h.running (omega arith) in
    round-IsSound limit h a p (h.source.active_count - 1) (without p h.running)
      (records (h.source.queues p)) refl (ground arith) (omega (arith, v.counted, fewer))
      (omega arith) (λ q. ground (arith, occurs-without p q h.running (omega arith))) v

cancels_waiting-IsSound :
    (limit : ℕ) (h : History) (a : Bool) (p : ℕ)
    → h.source.lanes p ≡ awaits_turn
    → IsSound limit h
    → IsSound limit (drops h p h.running (cancel h.source a p))
unfolding cancel
cancels_waiting-IsSound limit h a p e v = rw e (
    dropped-IsSound limit h a p h.source.active_count h.running (ground arith) v.counted
      (omega arith) (λ q. ground (arith, v.placed q)) v)

cancels_handling-IsSound :
    (limit : ℕ) (h : History) (a : Bool) (p : ℕ)
    → h.source.lanes p ≡ handling
    → IsSound limit h
    → IsSound limit (drops h p (without p h.running) (cancel h.source a p))
unfolding cancel
cancels_handling-IsSound limit h a p e v =
    let one : occurs p h.running ≡ 1 = ground (arith, v.placed p) in
    let fewer = length-without p h.running (omega arith) in
    rw e (
      dropped-IsSound limit h a p (h.source.active_count - 1) (without p h.running) (ground arith)
        (omega (arith, v.counted, fewer)) (omega arith)
        (λ q. ground (arith, occurs-without p q h.running (omega arith))) v)

stops-IsSound :
    (limit : ℕ) (h : History)
    → IsSound limit h
    → IsSound limit (record h { source = stop h.source })
unfolding stop
stops-IsSound limit h v = record {
  laned = v.laned;
  resumed = v.resumed;
  told = v.told;
  positive = v.positive;
  prefetched = v.prefetched;
  ordered = v.ordered;
  counted = v.counted;
  placed = v.placed;
  limited = v.limited;
}

pub Step-IsSound : (limit : ℕ) (h k : History) → Step limit h k → IsSound limit h → IsSound limit k
Step-IsSound limit h _ (arrives assigned p r e) v = arrives-IsSound limit h assigned p r e v
Step-IsSound limit h _ (starts a p e) v = lane_starts-IsSound limit h a p e v
Step-IsSound limit h _ (gets_turn a p e going) v = gets_turn-IsSound limit h a p e going v
Step-IsSound limit h _ (turned_away a p e over) v = turned_away-IsSound limit h a p e over v
Step-IsSound limit h _ (ends a p e) v = ends-IsSound limit h a p e v
Step-IsSound limit h _ (cancels_waiting a p e) v = cancels_waiting-IsSound limit h a p e v
Step-IsSound limit h _ (cancels_handling a p e) v = cancels_handling-IsSound limit h a p e v
Step-IsSound limit h _ stops v = stops-IsSound limit h v

-- Through every history of a Kafka source in which no lane is cancelled before it has run, and in
-- whatever order its steps come: the requests that run are at most the limit of the handler, where
-- it sets one, and the count is exact; a partition runs one request at a time; its records are
-- taken up in the order in which they came, none twice and none left out, unless some of its
-- records were given up when its lane was cancelled, a request of it raised or the source stopped; its queue holds no more
-- than the prefetch, and is there exactly while the partition has a lane; and a paused partition
-- has a lane, which resumes it.
pub lanes-IsSound : (limit : ℕ) (h : History) → Reachable limit h → IsSound limit h
lanes-IsSound limit _ fresh = fresh-IsSound limit
lanes-IsSound limit _ (after h k past step) =
    Step-IsSound limit h k step (lanes-IsSound limit h past)
