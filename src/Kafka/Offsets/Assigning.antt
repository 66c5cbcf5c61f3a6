-- ===== src/Kafka/Offsets/Assigning.antt =====
-- The marked offsets of a Kafka source through an assignment of partitions.
use pyservicelib.Base.{
  ℕ, inl, inr, Bool, true, false, List, [], ◌∷◌, if◌then◌else◌, ℕ_discrete, Result, ok, err, arith,
  Bool-cases,
}
use pyservicelib.Base.Dicts.{Dict, get-put, put-IsUnique}
use pyservicelib.Kafka.Lanes.{write}
use pyservicelib.Kafka.Offsets.{
  seek_one, seek, seek_ended, assign_all, Offsets, fail, Reading, positions, seek_or_fail, assign,
}
use pyservicelib.Kafka.Offsets.Histories.{
  History, raise_to, raise_all, write_all, reached_by, sought, IsSound,
}

pub same-IsSound :
    (h : History) (epochs : ℕ → ℕ) (assigned : ℕ → Bool) (failed : Bool)
    → IsSound h
    → IsSound (record h {
      source = record h.source { epochs = epochs; assigned = assigned; failed = failed };
    })
same-IsSound h epochs assigned failed v = record {
  kept = v.kept;
  bounded = v.bounded;
  reached = v.reached;
  flown = v.flown;
  earned = v.earned;
  unique = v.unique;
  unique_flight = v.unique_flight;
}

seek-IsSound :
    (h : History) (raises : ℕ → Bool) (selected : Dict ℕ ℕ)
    → IsSound h
    → IsSound (record h {
      source = (seek raises h.source selected).0;
      highest = write_all h.highest (reached_by raises selected);
      ever = raise_all h.ever (reached_by raises selected);
    })
seek-IsSound h raises [] v = v
seek-IsSound h raises ((p, next) ∷ selected) v = elim (Bool-cases (raises p)) [
  | inl e ↦ rw e v
  | inr e ↦ rw e (
      seek-IsSound
        (record h {
          source = seek_one h.source p next;
          highest = write h.highest p next;
          ever = raise_to h.ever p next;
        })
        raises selected
        (record {
          kept = λ q. ground (arith, v.kept q, get-put ℕ_discrete h.source.marked p next q);
          bounded = λ q. ground (arith, v.bounded q, get-put ℕ_discrete h.source.marked p next q);
          reached = λ q. ground (arith, v.reached q);
          flown = λ q. ground (arith, v.flown q);
          earned = λ q. ground (arith, v.earned q);
          unique = put-IsUnique ℕ_discrete h.source.marked p next v.unique;
          unique_flight = v.unique_flight;
        }))
]

seek_ended-IsSound :
    (h : History) (selected : Dict ℕ ℕ) (s : Offsets) (through : Bool)
    → IsSound (record h { source = s })
    → IsSound (record h { source = seek_ended selected (s, through) })
unfolding fail
seek_ended-IsSound h selected s true v =
    same-IsSound (record h { source = s }) s.epochs (assign_all s.assigned selected) s.failed v
seek_ended-IsSound h selected s false v =
    same-IsSound (record h { source = s }) s.epochs (λ p. false) true v

assigned-IsSound :
    (h : History) (raises : ℕ → Bool) (failed : Bool) (r : Result (Dict ℕ ℕ))
    → IsSound h
    → IsSound (record h {
      source = if failed then h.source else seek_or_fail raises h.source r;
      highest = write_all h.highest (sought (record h.source { failed = failed }) raises r);
      ever = raise_all h.ever (sought (record h.source { failed = failed }) raises r);
    })
unfolding fail
assigned-IsSound h raises true (err e) v = v
assigned-IsSound h raises true (ok selected) v = v
assigned-IsSound h raises false (err e) v = same-IsSound h h.source.epochs (λ p. false) true v
assigned-IsSound h raises false (ok selected) v =
    let (s, through) = seek raises h.source selected in
    seek_ended-IsSound
      (record h {
        highest = write_all h.highest (reached_by raises selected);
        ever = raise_all h.ever (reached_by raises selected);
      })
      selected s through (seek-IsSound h raises selected v)

pub assigns-IsSound :
    (h : History) (ps : List ℕ) (r : Reading)
    → IsSound h
    → IsSound (record h {
      source = assign h.source ps r;
      highest = write_all h.highest (sought h.source r.seek_raises (positions r ps));
      ever = raise_all h.ever (sought h.source r.seek_raises (positions r ps));
    })
unfolding assign
assigns-IsSound h ps r v = assigned-IsSound h r.seek_raises h.source.failed (positions r ps) v
