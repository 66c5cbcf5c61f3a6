-- ===== src/Kafka/Offsets/Stale.antt =====
-- A Kafka source that restores a checkpoint: messages of a revoked assignment, and a flush.
use pyservicelib.Base.{
  ℕ, suc, ◌≤◌, ◌<◌, ◌≡◌, refl, Bool, true, false, List, [], ◌∷◌, Result, ok, err, runtime_error,
  arith,
}
use pyservicelib.Base.Dicts.{Dict}
use pyservicelib.Pool.Queued.Steps.{occurs}
use pyservicelib.Kafka.Lanes.{write}
use pyservicelib.Kafka.Offsets.{
  Offsets, mark, mark_message, commit_message, next_epochs, revoke, revoked, seek_one, seek,
  seek_ended, seek_or_fail, fail, positions, assign_begin, assign, flush_begin, flush_end,
  flush_failed, is_current,
}
use pyservicelib.Kafka.Offsets.Histories.{
  History, Step, marks, flush_begins, flush_ends, flush_fails, commits, revokes, revocation_ends,
  assignment_begins, assigns, Later, now, after,
}

-- The epoch of a partition never goes back, and the source does not change its way of starting.
record IsOlder (p : ℕ) (s t : Offsets) : Type 0 where
  older : s.epochs p ≤ t.epochs p
  alike : s.restoring ≡ t.restoring

next_epochs_le : (epochs : ℕ → ℕ) (ps : List ℕ) (p : ℕ) → epochs p ≤ next_epochs epochs ps p
next_epochs_le epochs [] p = omega arith
next_epochs_le epochs (q ∷ ps) p =
    ground (arith, next_epochs_le (write epochs q (suc (epochs q))) ps p)

next_epochs_lt :
    (epochs : ℕ → ℕ) (ps : List ℕ) (p : ℕ) → 0 < occurs p ps → epochs p < next_epochs epochs ps p
next_epochs_lt epochs [] p there = absurd (omega arith)
next_epochs_lt epochs (q ∷ ps) p there = ground (
  arith,
  next_epochs_le (write epochs q (suc (epochs q))) ps p,
  next_epochs_lt (write epochs q (suc (epochs q))) ps p,
)

IsOlder-seek :
    (p : ℕ) (raises : ℕ → Bool) (s : Offsets) (selected : Dict ℕ ℕ)
    → IsOlder p s (seek raises s selected).0
IsOlder-seek p raises s [] = record { older = omega arith; alike = refl }
IsOlder-seek p raises s ((q, next) ∷ selected) =
    let rest = IsOlder-seek p raises (seek_one s q next) selected in
    record { older = ground (arith, rest.older); alike = ground (arith, rest.alike) }

IsOlder-seek_ended :
    (p : ℕ) (s t : Offsets) (selected : Dict ℕ ℕ) (through : Bool)
    → IsOlder p s t
    → IsOlder p s (seek_ended selected (t, through))
unfolding fail
IsOlder-seek_ended p s t selected true o = record { older = o.older; alike = o.alike }
IsOlder-seek_ended p s t selected false o = record { older = o.older; alike = o.alike }

IsOlder-seek_or_fail :
    (p : ℕ) (raises : ℕ → Bool) (s : Offsets) (r : Result (Dict ℕ ℕ))
    → IsOlder p s (seek_or_fail raises s r)
unfolding fail
IsOlder-seek_or_fail p raises s (err e) = record { older = omega arith; alike = refl }
IsOlder-seek_or_fail p raises s (ok selected) =
    let (t, through) = seek raises s selected in
    IsOlder-seek_ended p s t selected through (IsOlder-seek p raises s selected)

Step-IsOlder : (p : ℕ) (h k : History) → Step h k → IsOlder p h.source k.source
unfolding mark mark_message flush_begin flush_end flush_failed revoke revoked assign_begin assign
Step-IsOlder p h _ (marks q epoch offset) = record { older = ground arith; alike = ground arith }
Step-IsOlder p h _ (flush_begins free) = record { older = omega arith; alike = refl }
Step-IsOlder p h _ (flush_ends offsets e) = record { older = omega arith; alike = refl }
Step-IsOlder p h _ flush_fails = record { older = omega arith; alike = refl }
Step-IsOlder p h _ (commits q epoch offset next free e) = record {
  older = omega arith;
  alike = refl;
}
Step-IsOlder p h _ (revokes ps) = record {
  older = next_epochs_le h.source.epochs ps p;
  alike = refl;
}
Step-IsOlder p h _ (revocation_ends ps free) = record { older = omega arith; alike = refl }
Step-IsOlder p h _ (assignment_begins ps) = record { older = omega arith; alike = refl }
Step-IsOlder p h _ (assigns ps r) =
    let sought = IsOlder-seek_or_fail p r.seek_raises h.source (positions r ps) in
    record { older = ground (arith, sought.older); alike = ground (arith, sought.alike) }

Later-IsOlder : (p : ℕ) (h k : History) → Later h k → IsOlder p h.source k.source
Later-IsOlder p h _ now = record { older = omega arith; alike = refl }
Later-IsOlder p h _ (after k l past step) =
    let first = Later-IsOlder p h k past in
    let then_ = Step-IsOlder p k l step in
    record {
      older = omega (arith, first.older, then_.older);
      alike = cc (first.alike, then_.alike);
    }

-- Once a partition is revoked from a source that restores a checkpoint, a message that came from it
-- before can neither mark its offset nor commit it, whatever has happened since, a new assignment
-- of the partition included.
pub mark-revoke :
    (h k : History) (ps : List ℕ) (p epoch offset : ℕ)
    → h.source.restoring ≡ true
    → 0 < occurs p ps
    → epoch ≤ h.source.epochs p
    → Later (record h { source = revoke h.source ps }) k
    → (mark k.source p epoch offset ≡ k.source)
      × (commit_message k.source p epoch offset ≡ err runtime_error)
unfolding mark revoke
mark-revoke h k ps p epoch offset restoring there old later =
    let since = Later-IsOlder p (record h { source = revoke h.source ps }) k later in
    let stale : is_current k.source p epoch ≡ false =
      ground (arith, since.older, since.alike, next_epochs_lt h.source.epochs ps p there) in
    (ground arith, ground arith)
