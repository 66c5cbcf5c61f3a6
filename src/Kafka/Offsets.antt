-- ===== src/Kafka/Offsets.antt =====
-- datasource/kafka/aiokafkads.py, _AIOKafkaTypedEndpointConsumer: the offsets that are marked for
-- the periodic commit, and the assignment of partitions to a source that restores a checkpoint.
-- Each function is what runs between two awaits.
pub mod Histories
pub mod Forgetting
pub mod Assigning
pub mod Steps
pub mod Stale
use pyservicelib.Base.{
  ℕ, suc, ◌+◌, max, Bool, true, false, not, ◌&&◌, ◌||◌, List, [], ◌∷◌, Option, none, some, leb,
  ◌==◌, if◌then◌else◌, ℕ_discrete, Result, ok, err, runtime_error,
}
use pyservicelib.Base.Dicts.{Dict, get, put, delete}
use pyservicelib.Kafka.Lanes.{write}

pub record Offsets : Type 0 where
  pub marked : Dict ℕ ℕ
  pub epochs : ℕ → ℕ
  pub assigned : ℕ → Bool
  pub restoring : Bool
  -- `_checkpoint_error` is set.
  pub failed : Bool
  -- What the flush that holds the commit lock waits to see committed.
  pub committing : Option (Dict ℕ ℕ)

unfoldable pub init : (restoring : Bool) → Offsets
init restoring = record {
  marked = [];
  epochs = λ p. 0;
  assigned = λ p. false;
  restoring = restoring;
  failed = false;
  committing = none;
}

abbrev pub or_default : Option ℕ → ℕ → ℕ
or_default none d = d
or_default (some n) d = n

-- `current_assignment`, for a message that came in the given epoch.
abbrev pub is_current : Offsets → (partition epoch : ℕ) → Bool
is_current s p epoch = not s.restoring || (not s.failed && (s.assigned p && (s.epochs p == epoch)))

-- `_mark_message`
pub mark_message : Offsets → (partition offset : ℕ) → Offsets
mark_message s p offset = record s {
  marked =
      put ℕ_discrete s.marked p
        (max (offset + 1) (or_default (get ℕ_discrete s.marked p) (offset + 1)));
}

-- `mark_message` of a message.
pub mark : Offsets → (partition epoch offset : ℕ) → Offsets
mark s p epoch offset = if is_current s p epoch then mark_message s p offset else s

-- `commit_message`, once it has the lock: what it asks the consumer to commit.
abbrev pub commit_message : Offsets → (partition epoch offset : ℕ) → Result ℕ
commit_message s p epoch offset =
    if is_current s p epoch then ok (offset + 1) else err runtime_error

abbrev pub nonempty : Dict ℕ ℕ → Option (Dict ℕ ℕ)
nonempty [] = none
nonempty (entry ∷ m) = some (entry ∷ m)

-- `_flush_marked_offsets` up to the commit, once it has the lock.
pub flush_begin : Offsets → Offsets
flush_begin s = record s { committing = nonempty s.marked }

-- Its loop after the commit.
abbrev pub forget : Dict ℕ ℕ → Dict ℕ ℕ → Dict ℕ ℕ
forget marked [] = marked
forget marked ((p, offset) ∷ offsets) =
    forget
      (if leb (or_default (get ℕ_discrete marked p) 0) offset
        then delete ℕ_discrete marked p
        else marked)
      offsets

pub flush_end : Offsets → Dict ℕ ℕ → Offsets
flush_end s offsets = record s { marked = forget s.marked offsets; committing = none }

-- The commit raised.
pub flush_failed : Offsets → Offsets
flush_failed s = record s { committing = none }

-- `difference_update`
abbrev pub unassign : (ℕ → Bool) → List ℕ → ℕ → Bool
unassign assigned [] = assigned
unassign assigned (p ∷ ps) = unassign (write assigned p false) ps

abbrev pub next_epochs : (ℕ → ℕ) → List ℕ → ℕ → ℕ
next_epochs epochs [] = epochs
next_epochs epochs (p ∷ ps) = next_epochs (write epochs p (suc (epochs p))) ps

-- `_checkpoint_revoked` before it waits for the lanes.
pub revoke : Offsets → List ℕ → Offsets
revoke s ps = record s { assigned = unassign s.assigned ps; epochs = next_epochs s.epochs ps }

abbrev pub delete_all : Dict ℕ ℕ → List ℕ → Dict ℕ ℕ
delete_all marked [] = marked
delete_all marked (p ∷ ps) = delete_all (delete ℕ_discrete marked p) ps

-- What it does then, once it has the lock.
pub revoked : Offsets → List ℕ → Offsets
revoked s ps = record s { marked = delete_all s.marked ps }

-- `_checkpoint_assigned`: the position of each partition, which the checkpoint has to cover.
abbrev pub select : Dict ℕ ℕ → List ℕ → Result (Dict ℕ ℕ)
select offsets [] = ok []
select offsets (p ∷ ps) = elim (get ℕ_discrete offsets p) [
  | none ↦ err runtime_error
  | some next ↦ elim (select offsets ps) [ err e ↦ err e | ok selected ↦ ok ((p, next) ∷ selected) ]
]

-- Each is in the log that the broker still has.
abbrev pub is_retained : (low high : ℕ → ℕ) → Dict ℕ ℕ → Bool
is_retained low high [] = true
is_retained low high ((p, next) ∷ selected) =
    (leb (low p) next && leb next (high p)) && is_retained low high selected

abbrev pub seek_one : Offsets → (partition next : ℕ) → Offsets
seek_one s p next = record s {
  epochs = write s.epochs p (suc (s.epochs p));
  marked = put ℕ_discrete s.marked p next;
}

-- The loop of `seek`, which stops where `consumer.seek` raises; whether it came to its end.
abbrev pub seek : (raises : ℕ → Bool) → Offsets → Dict ℕ ℕ → Offsets × Bool
seek raises s [] = (s, true)
seek raises s ((p, next) ∷ selected) =
    let rest = seek raises (seek_one s p next) selected in if raises p then (s, false) else rest

-- `_assigned_partitions.update`
abbrev pub assign_all : (ℕ → Bool) → Dict ℕ ℕ → ℕ → Bool
assign_all assigned [] = assigned
assign_all assigned ((p, next) ∷ selected) = assign_all (write assigned p true) selected

-- The restoration failed: no message is admitted any more.
pub fail : Offsets → Offsets
fail s = record s { failed = true; assigned = λ p. false }

-- What `_checkpoint_assigned` reads and finds on its way: whether the source is still active, the
-- checkpoint, the bounds of the log, whether it has expired once it has the lock, and for which partitions `consumer.seek`
-- raises.
pub record Reading : Type 0 where
  pub active : Bool
  pub checkpoint : Option (Dict ℕ ℕ)
  pub low : ℕ → ℕ
  pub high : ℕ → ℕ
  pub expired : Bool
  pub seek_raises : ℕ → Bool

abbrev pub checked : Reading → Result (Dict ℕ ℕ) → Result (Dict ℕ ℕ)
checked r (err e) = err e
checked r (ok []) = ok []
checked r (ok (entry ∷ selected)) =
    if is_retained r.low r.high (entry ∷ selected) && not r.expired
    then ok (entry ∷ selected)
    else err runtime_error

abbrev pub covered : Option (Dict ℕ ℕ) → List ℕ → Result (Dict ℕ ℕ)
covered none ps = err runtime_error
covered (some offsets) ps = select offsets ps

-- The positions to go on from, or the error.
abbrev pub positions : Reading → List ℕ → Result (Dict ℕ ℕ)
positions r ps = if r.active then checked r (covered r.checkpoint ps) else err runtime_error

abbrev pub seek_ended : Dict ℕ ℕ → Offsets × Bool → Offsets
seek_ended selected (s, true) = record s { assigned = assign_all s.assigned selected }
seek_ended selected (s, false) = fail s

abbrev pub seek_or_fail : (raises : ℕ → Bool) → Offsets → Result (Dict ℕ ℕ) → Offsets
seek_or_fail raises s (err e) = fail s
seek_or_fail raises s (ok selected) = seek_ended selected (seek raises s selected)

-- `_checkpoint_assigned` before it reads anything.
pub assign_begin : Offsets → List ℕ → Offsets
assign_begin s ps = record s { assigned = unassign s.assigned ps }

-- What it does then: with the lock where it succeeds.
unfoldable pub assign : Offsets → List ℕ → Reading → Offsets
assign s ps r = if s.failed then s else seek_or_fail r.seek_raises s (positions r ps)

-- `_flush_marked_offsets`, where the commit succeeds and nothing else runs meanwhile, with the
-- offsets that the consumer is asked to commit.
abbrev pub flush_committed : Offsets → Option (Dict ℕ ℕ) → Offsets × Dict ℕ ℕ
flush_committed s none = (s, [])
flush_committed s (some offsets) = (flush_end s offsets, offsets)

pub flush : Offsets → Offsets × Dict ℕ ℕ
flush s = flush_committed (flush_begin s) (flush_begin s).committing
