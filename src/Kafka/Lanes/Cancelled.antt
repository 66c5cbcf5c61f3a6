-- ===== src/Kafka/Lanes/Cancelled.antt =====
-- A Kafka source whose lane is cancelled before its task has run.
use pyservicelib.Base.{ℕ, ◌≡◌, Bool, true, List, [], ◌∷◌, arith}
use pyservicelib.Base.Dicts.{is_some}
use pyservicelib.Kafka.Lanes.{absent, created, Lanes, process_record, cancel}
use pyservicelib.Kafka.Lanes.Histories.{History, Reachable, is_lane}
use pyservicelib.Kafka.Lanes.Steps.{lanes-IsSound}

-- Records that come one after the other: whether each is admitted, its partition, its offset.
abbrev pub arrivals : Lanes → List (Bool × ℕ × ℕ) → Lanes
arrivals s [] = s
arrivals s ((assigned, p, r) ∷ rest) = arrivals (process_record s assigned p r) rest

process_keeps :
    (s : Lanes) (assigned : Bool) (p q r : ℕ)
    → is_some (s.queues p) ≡ true
    → is_some ((process_record s assigned q r).queues p) ≡ true
unfolding process_record
process_keeps s assigned p q r there = ground arith

process_lanes :
    (s : Lanes) (assigned : Bool) (p q r : ℕ)
    → is_some (s.queues p) ≡ true
    → s.lanes p ≡ absent
    → (process_record s assigned q r).lanes p ≡ absent
unfolding process_record
process_lanes s assigned p q r there gone = ground arith

cancel_keeps :
    (s : Lanes) (a : Bool) (p : ℕ)
    → s.lanes p ≡ created
    → ((q : ℕ) → is_some (s.queues q) ≡ is_lane (s.lanes q))
    → is_some ((cancel s a p).queues p) ≡ true
unfolding cancel
cancel_keeps s a p e laned = ground (arith, laned p)

cancel_absent :
    (s : Lanes) (a : Bool) (p : ℕ) → s.lanes p ≡ created → (cancel s a p).lanes p ≡ absent
unfolding cancel
cancel_absent s a p e = ground arith

left_behind :
    (s : Lanes) (p : ℕ) (rest : List (Bool × ℕ × ℕ))
    → is_some (s.queues p) ≡ true
    → s.lanes p ≡ absent
    → (arrivals s rest).lanes p ≡ absent
left_behind s p [] there gone = gone
left_behind s p ((assigned, q, r) ∷ rest) there gone =
    left_behind (process_record s assigned q r) p rest (process_keeps s assigned p q r there)
      (process_lanes s assigned p q r there gone)

-- In every history in which no lane was cancelled before it had run: where now such a lane is, its
-- partition gets no lane again, however many records come after that and for which partitions.
pub cancel-arrivals :
    (limit : ℕ) (h : History) (a : Bool) (p : ℕ) (rest : List (Bool × ℕ × ℕ))
    → Reachable limit h
    → h.source.lanes p ≡ created
    → (arrivals (cancel h.source a p) rest).lanes p ≡ absent
cancel-arrivals limit h a p rest past e =
    left_behind (cancel h.source a p) p rest
      (cancel_keeps h.source a p e (lanes-IsSound limit h past).laned)
      (cancel_absent h.source a p e)
