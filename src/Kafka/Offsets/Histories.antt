-- ===== src/Kafka/Offsets/Histories.antt =====
-- The offsets of a Kafka source: the steps, and what holds between two.
use pyservicelib.Base.{
  ℕ, ◌+◌, max, ◌≤◌, ◌≡◌, ◌⊎◌, Bool, List, [], ◌∷◌, Option, none, some, if◌then◌else◌, ℕ_discrete,
  Result, ok, err,
}
use pyservicelib.Base.Dicts.{Dict, get, IsUnique}
use pyservicelib.Kafka.Lanes.{write}
use pyservicelib.Kafka.Offsets.{
  Offsets, init, or_default, is_current, mark, commit_message, flush_begin, flush_end, flush_failed,
  revoke, revoked, Reading, positions, assign_begin, assign,
}

-- The source; the highest offset that was committed for each partition, the highest that was marked
-- or restored since the partition was last revoked, and the highest ever marked, restored or
-- committed by hand.
pub record History : Type 0 where
  pub source : Offsets
  pub committed : ℕ → ℕ
  pub highest : ℕ → ℕ
  pub ever : ℕ → ℕ

abbrev pub raise_to : (ℕ → ℕ) → ℕ → ℕ → ℕ → ℕ
raise_to f p n = write f p (max (f p) n)

abbrev pub raise_all : (ℕ → ℕ) → Dict ℕ ℕ → ℕ → ℕ
raise_all f [] = f
raise_all f ((p, n) ∷ m) = raise_all (raise_to f p n) m

abbrev pub write_all : (ℕ → ℕ) → Dict ℕ ℕ → ℕ → ℕ
write_all f [] = f
write_all f ((p, n) ∷ m) = write_all (write f p n) m

abbrev pub clear_all : (ℕ → ℕ) → List ℕ → ℕ → ℕ
clear_all f [] = f
clear_all f (p ∷ ps) = clear_all (write f p 0) ps

-- The positions before the first one that `consumer.seek` refuses.
abbrev pub reached_by : (raises : ℕ → Bool) → Dict ℕ ℕ → Dict ℕ ℕ
reached_by raises [] = []
reached_by raises ((p, next) ∷ selected) =
    let rest = reached_by raises selected in if raises p then [] else (p, next) ∷ rest

-- The positions that an assignment restores.
abbrev pub sought : Offsets → (raises : ℕ → Bool) → Result (Dict ℕ ℕ) → Dict ℕ ℕ
sought s raises (err e) = []
sought s raises (ok selected) = if s.failed then [] else reached_by raises selected

pub data Step (h : History) : History → Type 0 where
  marks :
      (p epoch offset : ℕ)
      → Step h (record h {
        source = mark h.source p epoch offset;
        highest =
            if is_current h.source p epoch then raise_to h.highest p (offset + 1) else h.highest;
        ever = if is_current h.source p epoch then raise_to h.ever p (offset + 1) else h.ever;
      })
  flush_begins : h.source.committing ≡ none → Step h (record h { source = flush_begin h.source })
  flush_ends :
      (offsets : Dict ℕ ℕ)
      → h.source.committing ≡ some offsets
      → Step h (record h {
        source = flush_end h.source offsets;
        committed = raise_all h.committed offsets;
      })
  flush_fails : Step h (record h { source = flush_failed h.source })
  commits :
      (p epoch offset next : ℕ)
      → h.source.committing ≡ none
      → commit_message h.source p epoch offset ≡ ok next
      → Step h (record h { committed = raise_to h.committed p next; ever = raise_to h.ever p next })
  revokes : (ps : List ℕ) → Step h (record h { source = revoke h.source ps })
  revocation_ends :
      (ps : List ℕ)
      → h.source.committing ≡ none
      → Step h (record h { source = revoked h.source ps; highest = clear_all h.highest ps })
  assignment_begins : (ps : List ℕ) → Step h (record h { source = assign_begin h.source ps })
  assigns :
      (ps : List ℕ) (r : Reading)
      → Step h (record h {
        source = assign h.source ps r;
        highest = write_all h.highest (sought h.source r.seek_raises (positions r ps));
        ever = raise_all h.ever (sought h.source r.seek_raises (positions r ps));
      })

pub data Later (h : History) : History → Type 0 where
  now : Later h h
  after : (k l : History) → Later h k → Step k l → Later h l

abbrev pub fresh_history : Bool → History
fresh_history restoring = record {
  source = init restoring;
  committed = λ p. 0;
  highest = λ p. 0;
  ever = λ p. 0;
}

abbrev pub marked_at : Offsets → ℕ → Option ℕ
marked_at s p = get ℕ_discrete s.marked p

abbrev pub in_flight : Option (Dict ℕ ℕ) → ℕ → Option ℕ
in_flight none p = none
in_flight (some offsets) p = get ℕ_discrete offsets p

abbrev pub IsFlight : Option (Dict ℕ ℕ) → Type 0
IsFlight none = Unit {0}
IsFlight (some offsets) = IsUnique ℕ_discrete offsets

pub record IsSound (h : History) : Type 0 where
  -- Nothing that was marked is lost: the highest offset is committed or still marked.
  pub kept : (p : ℕ) → (h.highest p ≤ h.committed p) ⊎ (marked_at h.source p ≡ some (h.highest p))
  pub bounded : (p : ℕ) → or_default (marked_at h.source p) 0 ≤ h.highest p
  -- Nothing is committed that was not marked or restored.
  pub reached : (p : ℕ) → h.highest p ≤ h.ever p
  pub flown : (p : ℕ) → or_default (in_flight h.source.committing p) 0 ≤ h.ever p
  pub earned : (p : ℕ) → h.committed p ≤ h.ever p
  pub unique : IsUnique ℕ_discrete h.source.marked
  pub unique_flight : IsFlight h.source.committing
