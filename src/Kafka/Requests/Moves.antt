-- ===== src/Kafka/Requests/Moves.antt =====
-- A Kafka source: a request that goes from one phase to the next.
use pyservicelib.Base.{
  ℕ, suc, ◌≡◌, inl, inr, Bool, true, false, ◌&&◌, ◌∷◌, none, ℕ_discrete, arith, Bool-cases,
}
use pyservicelib.Pool.Queued.{without}
use pyservicelib.Pool.Queued.Steps.{occurs, occurs-without, length-without}
use pyservicelib.Store.Rotating.{rotate, find}
use pyservicelib.Store.Rotating.View.{
  rotate-IsValid, find-rotate, inserted, inserted-IsValid, find-inserted, pop-IsValid, find-pop,
  set-inserted,
}
use pyservicelib.Runtime.Endpoint.{
  on_pending_add, on_pending_remove, on_request_start, on_request_end,
}
use pyservicelib.Kafka.Lanes.{write}
use pyservicelib.Kafka.Requests.{removed, request_ends}
use pyservicelib.Kafka.Requests.Histories.{
  unseen, consuming, waiting, ending, Phase, is_open, is_pending, History, waits_in, IsSound,
}

-- A request that starts: its result context, where there is one, is put into the map.
pub started_plain :
    (h : History) (sid : ℕ)
    → h.phase sid ≡ unseen
    → h.source.has_result ≡ false
    → IsSound h
    → IsSound (record {
      source = record h.source { endpoint = on_request_start h.source.endpoint };
      phase = write h.phase sid consuming;
      active = sid ∷ h.active;
      held = h.held;
      started = suc h.started;
    })
unfolding on_request_start
started_plain h sid new plain v = record {
  valid = v.valid;
  found = λ t. ground (arith, v.found t);
  patient = λ t e. ground (arith, v.patient t);
  placed = λ t. ground (arith, v.placed t);
  waits = λ t. ground (arith, v.waits t);
  counted = elim v.counted [
    | inl off ↦ inl (ground arith)
    | inr c ↦ elim (Bool-cases h.source.endpoint.metrics_enabled) [
      | inl on ↦ inr (record {
        running = ground (arith, c.running);
        waiting_now = ground (arith, c.waiting_now);
        summed = ground (arith, c.summed);
      })
      | inr off ↦ inl (ground arith)
    ]
  ];
}

pub started_waiting :
    (h : History) (sid time : ℕ)
    → h.phase sid ≡ unseen
    → h.source.has_result ≡ true
    → IsSound h
    → IsSound (record {
      source = record h.source {
        pending = inserted ℕ_discrete h.source.pending sid sid;
        endpoint = on_pending_add (on_request_start h.source.endpoint) sid time;
      };
      phase = write h.phase sid consuming;
      active = sid ∷ h.active;
      held = sid ∷ h.held;
      started = suc h.started;
    })
unfolding on_request_start on_pending_add
started_waiting h sid time new result v =
    let absent : find ℕ_discrete h.source.pending sid ≡ none = ground (arith, v.found sid) in
    let (set_, apart) = set-inserted ℕ_discrete h.source.pending sid sid absent in
    record {
      valid = inserted-IsValid ℕ_discrete h.source.pending sid sid apart v.valid;
      found = λ t. ground (arith, v.found t, find-inserted ℕ_discrete h.source.pending sid sid t);
      patient = λ t e. ground (arith, v.patient t);
      placed = λ t. ground (arith, v.placed t);
      waits = λ t. ground (arith, v.waits t);
      counted = elim v.counted [
        | inl off ↦ inl (ground arith)
        | inr c ↦ elim (Bool-cases h.source.endpoint.metrics_enabled) [
          | inl on ↦ inr (record {
            running = ground (arith, c.running);
            waiting_now = ground (arith, c.waiting_now);
            summed = ground (arith, c.summed);
          })
          | inr off ↦ inl (ground arith)
        ]
      ];
    }

-- A request that leaves the map for end_request.
pub removed-IsSound :
    (h : History) (sid : ℕ) (failed : Bool)
    → waits_in h sid ≡ true
    → is_open (h.phase sid) ≡ true
    → IsSound h
    → IsSound (record h {
      source = removed h.source sid;
      phase = write h.phase sid (ending failed);
      held = without sid h.held;
    })
unfolding on_pending_remove
removed-IsSound h sid failed there opened v =
    let one : occurs sid h.held ≡ 1 = ground (arith, v.waits sid) in
    let fewer = length-without sid h.held (omega arith) in
    record {
      valid = pop-IsValid ℕ_discrete h.source.pending sid v.valid;
      found = λ t. ground (arith, v.found t, find-pop ℕ_discrete h.source.pending sid t v.valid);
      patient = λ t e. ground (arith, v.patient t);
      placed = λ t. ground (arith, v.placed t, v.placed sid);
      waits = λ t. ground (arith, v.waits t, occurs-without sid t h.held (omega arith));
      counted = elim v.counted [
        | inl off ↦ inl (ground arith)
        | inr c ↦ elim (Bool-cases h.source.endpoint.metrics_enabled) [
          | inl on ↦ inr (record {
            running = ground (arith, c.running);
            waiting_now = ground (arith, c.waiting_now, fewer);
            summed = ground (arith, c.summed);
          })
          | inr off ↦ inl (ground arith)
        ]
      ];
    }

-- One that goes on to another phase, in the map or out of it as before.
pub moved-IsSound :
    (h : History) (sid : ℕ) (next : Phase)
    → is_open (h.phase sid) ≡ true
    → is_open next ≡ true
    → h.source.has_result && is_pending next ≡ waits_in h sid
    → (next ≡ waiting → h.source.has_result ≡ true)
    → IsSound h
    → IsSound (record h { phase = write h.phase sid next })
moved-IsSound h sid next opened stays same patient v = record {
  valid = v.valid;
  found = λ t. ground (arith, v.found t);
  patient = λ t e. ground (arith, v.patient t, patient);
  placed = λ t. ground (arith, v.placed t);
  waits = λ t. ground (arith, v.waits t);
  counted = v.counted;
}

-- One that ends, in the map or out of it as before.
pub ended-IsSound :
    (h : History) (sid : ℕ) (failed : Bool) (next : Phase)
    → is_open (h.phase sid) ≡ true
    → is_open next ≡ false
    → is_pending next ≡ is_pending (h.phase sid)
    → IsSound h
    → IsSound (record h {
      source = request_ends h.source failed;
      phase = write h.phase sid next;
      active = without sid h.active;
    })
unfolding request_ends on_request_end
ended-IsSound h sid failed next opened closed same v =
    let one : occurs sid h.active ≡ 1 = ground (arith, v.placed sid) in
    let fewer = length-without sid h.active (omega arith) in
    record {
      valid = v.valid;
      found = λ t. ground (arith, v.found t);
      patient = λ t e. ground (arith, v.patient t);
      placed = λ t. ground (arith, v.placed t, occurs-without sid t h.active (omega arith));
      waits = λ t. ground (arith, v.waits t);
      counted = elim v.counted [
        | inl off ↦ inl (ground arith)
        | inr c ↦ elim (Bool-cases h.source.endpoint.metrics_enabled) [
          | inl on ↦ inr (record {
            running = ground (arith, c.running, fewer);
            waiting_now = ground (arith, c.waiting_now);
            summed = ground (arith, c.summed, fewer);
          })
          | inr off ↦ inl (ground arith)
        ]
      ];
    }

pub rotated-IsSound :
    (h : History)
    → IsSound h
    → IsSound
        (record h { source = record h.source { pending = rotate ℕ_discrete h.source.pending } })
rotated-IsSound h v = record {
  valid = rotate-IsValid ℕ_discrete h.source.pending v.valid;
  found = λ t. ground (arith, v.found t, find-rotate ℕ_discrete h.source.pending t v.valid);
  patient = v.patient;
  placed = v.placed;
  waits = v.waits;
  counted = v.counted;
}
