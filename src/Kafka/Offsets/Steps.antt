-- ===== src/Kafka/Offsets/Steps.antt =====
-- The marked offsets of a Kafka source through any history of its steps.
use pyservicelib.Base.{
  ℕ, ◌+◌, max, ◌≤◌, ◌≡◌, inl, inr, subst, Bool, List, [], ◌∷◌, some, if◌then◌else◌, ℕ_discrete,
  arith, Bool-cases,
}
use pyservicelib.Base.Dicts.{
  Dict, get, delete, get-put, get-delete, IsUnique, put-IsUnique, delete-IsUnique,
}
use pyservicelib.Kafka.Lanes.{write}
use pyservicelib.Kafka.Offsets.{
  init, or_default, is_current, mark_message, mark, flush_begin, flush_end, flush_failed, unassign,
  next_epochs, revoke, delete_all, revoked, assign_begin,
}
use pyservicelib.Kafka.Offsets.Histories.{
  marks, flush_begins, flush_ends, flush_fails, commits, revokes, revocation_ends,
  assignment_begins, assigns, History, raise_to, raise_all, clear_all, Step, fresh_history,
  marked_at, in_flight, IsFlight, IsSound,
}
use pyservicelib.Kafka.Offsets.Forgetting.{
  in_flight-nonempty, nonempty-IsFlight, get-forget, raise_all_at, forget-IsUnique,
}
use pyservicelib.Kafka.Offsets.Assigning.{same-IsSound, assigns-IsSound}

pub fresh-IsSound : (restoring : Bool) → IsSound (fresh_history restoring)
unfolding init get
fresh-IsSound restoring = record {
  kept = λ p. inl (omega arith);
  bounded = λ p. omega arith;
  reached = λ p. omega arith;
  flown = λ p. omega arith;
  earned = λ p. omega arith;
  unique = tt;
  unique_flight = tt;
}

marks-IsSound :
    (h : History) (p epoch offset : ℕ)
    → IsSound h
    → IsSound (record h {
      source = mark h.source p epoch offset;
      highest =
          if is_current h.source p epoch then raise_to h.highest p (offset + 1) else h.highest;
      ever = if is_current h.source p epoch then raise_to h.ever p (offset + 1) else h.ever;
    })
unfolding mark mark_message
marks-IsSound h p epoch offset v =
    let next = max (offset + 1) (or_default (marked_at h.source p) (offset + 1)) in
    elim (Bool-cases (is_current h.source p epoch)) [
      | inl e ↦ rw e (record {
        kept =
            λ q. ground (arith, v.kept q, v.bounded p, get-put ℕ_discrete h.source.marked p next q);
        bounded = λ q.
            ground (arith, v.bounded q, v.bounded p, get-put ℕ_discrete h.source.marked p next q);
        reached = λ q. ground (arith, v.reached q);
        flown = λ q. ground (arith, v.flown q);
        earned = λ q. ground (arith, v.earned q);
        unique = put-IsUnique ℕ_discrete h.source.marked p next v.unique;
        unique_flight = v.unique_flight;
      })
      | inr e ↦ rw e v
    ]

flush_begins-IsSound :
    (h : History) → IsSound h → IsSound (record h { source = flush_begin h.source })
unfolding flush_begin
flush_begins-IsSound h v = record {
  kept = v.kept;
  bounded = v.bounded;
  reached = v.reached;
  flown = λ p. ground (arith, v.bounded p, v.reached p, in_flight-nonempty h.source.marked p);
  earned = v.earned;
  unique = v.unique;
  unique_flight = nonempty-IsFlight h.source.marked v.unique;
}

flush_ends-IsSound :
    (h : History) (offsets : Dict ℕ ℕ)
    → h.source.committing ≡ some offsets
    → IsSound h
    → IsSound (record h {
      source = flush_end h.source offsets;
      committed = raise_all h.committed offsets;
    })
unfolding flush_end
flush_ends-IsSound h offsets e v =
    let u : IsUnique ℕ_discrete offsets = subst IsFlight e v.unique_flight in
    let flying : (p : ℕ) → or_default (get ℕ_discrete offsets p) 0 ≤ h.ever p =
      λ p. subst (λ o. or_default (in_flight o p) 0 ≤ h.ever p) e (v.flown p) in
    record {
      kept = λ p. ground (
        arith,
        v.kept p,
        v.bounded p,
        get-forget h.source.marked offsets p u,
        raise_all_at h.committed offsets p u,
      );
      bounded = λ p. ground (arith, v.bounded p, get-forget h.source.marked offsets p u);
      reached = v.reached;
      flown = λ p. omega arith;
      earned = λ p. ground (arith, v.earned p, flying p, raise_all_at h.committed offsets p u);
      unique = forget-IsUnique h.source.marked offsets v.unique;
      unique_flight = tt;
    }

commits-IsSound :
    (h : History) (p next : ℕ)
    → IsSound h
    → IsSound (record h { committed = raise_to h.committed p next; ever = raise_to h.ever p next })
commits-IsSound h p next v = record {
  kept = λ q. ground (arith, v.kept q);
  bounded = v.bounded;
  reached = λ q. ground (arith, v.reached q);
  flown = λ q. ground (arith, v.flown q);
  earned = λ q. ground (arith, v.earned q);
  unique = v.unique;
  unique_flight = v.unique_flight;
}

revocation_ends-IsSound :
    (h : History) (ps : List ℕ)
    → IsSound h
    → IsSound (record h {
      source = record h.source { marked = delete_all h.source.marked ps };
      highest = clear_all h.highest ps;
    })
revocation_ends-IsSound h [] v = v
revocation_ends-IsSound h (p ∷ ps) v =
    revocation_ends-IsSound
      (record h {
        source = record h.source { marked = delete ℕ_discrete h.source.marked p };
        highest = write h.highest p 0;
      })
      ps
      (record {
        kept = λ q. ground (arith, v.kept q, get-delete ℕ_discrete h.source.marked p q);
        bounded = λ q. ground (arith, v.bounded q, get-delete ℕ_discrete h.source.marked p q);
        reached = λ q. ground (arith, v.reached q);
        flown = v.flown;
        earned = v.earned;
        unique = delete-IsUnique ℕ_discrete h.source.marked p v.unique;
        unique_flight = v.unique_flight;
      })

pub Step-IsSound : (h k : History) → Step h k → IsSound h → IsSound k
unfolding flush_failed revoke revoked assign_begin
Step-IsSound h _ (marks p epoch offset) v = marks-IsSound h p epoch offset v
Step-IsSound h _ (flush_begins free) v = flush_begins-IsSound h v
Step-IsSound h _ (flush_ends offsets e) v = flush_ends-IsSound h offsets e v
Step-IsSound h _ flush_fails v = record {
  kept = v.kept;
  bounded = v.bounded;
  reached = v.reached;
  flown = λ p. omega arith;
  earned = v.earned;
  unique = v.unique;
  unique_flight = tt;
}
Step-IsSound h _ (commits p epoch offset next free e) v = commits-IsSound h p next v
Step-IsSound h _ (revokes ps) v =
    same-IsSound h (next_epochs h.source.epochs ps) (unassign h.source.assigned ps) h.source.failed
      v
Step-IsSound h _ (revocation_ends ps free) v = revocation_ends-IsSound h ps v
Step-IsSound h _ (assignment_begins ps) v =
    same-IsSound h h.source.epochs (unassign h.source.assigned ps) h.source.failed v
Step-IsSound h _ (assigns ps r) v = assigns-IsSound h ps r v
