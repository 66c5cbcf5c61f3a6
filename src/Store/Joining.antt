-- ===== src/Store/Joining.antt =====
-- runtime/store/hashmap.py: HashMapJoinStorage, step by step. A step is what runs between two
-- awaits; the clock readings are arguments. An item is shared by the buckets, by the call that
-- holds its lock and by its expiry task, so it lives in a store of its own and is named by a
-- number; `is` compares these.
pub mod Inv
pub mod Rotation
pub mod Rounds
pub mod Spin
pub mod Steps
use pyservicelib.Base.{
  ℕ, zero, suc, ◌+◌, ◌-◌, ◌*◌, ◌++◌, max, Bool, true, false, not, ◌&&◌, ◌||◌, List, [], ◌∷◌, ltb,
  leb, ◌==◌, if◌then◌else◌, length, replicate, Option, none, some, ℕ_discrete, Result, ok, err,
  Error,
}
use pyservicelib.Base.Dicts.{Dict, get, put, delete, has, is_some}

abbrev pub shrink_factor : ℕ
shrink_factor = 4

pub record Item (V : Type 0) : Type 0 where
  -- `none` is `float('inf')`.
  pub deadline : Option ℕ
  pub values : List (List V)
  pub processed : Bool
  -- The expiry task is there and has not been cancelled.
  pub after_task : Bool
  -- `none` is `None`.
  pub context_deadline : Option (Option ℕ)

pub record Storage (K V : Type 0) : Type 0 where
  pub items : ℕ → Item V
  pub next_id : ℕ
  pub current : Dict K ℕ
  pub prev : Dict K ℕ
  pub high_water_mark : ℕ
  pub stopped : Bool
  pub renew_ttl : Bool
  pub metrics_enabled : Bool
  -- The gauge `count` is `count_added` less `count_removed`.
  pub count_added : ℕ
  pub count_removed : ℕ
  pub evictions_total : ℕ

abbrev pub expired : Option ℕ → ℕ → Bool
expired none now = false
expired (some d) now = leb d now

abbrev pub later : ℕ → ℕ → Option ℕ
later now ttl = if ltb 0 ttl then some (now + ttl) else none

abbrev pub if_metrics : Bool → ℕ → ℕ
if_metrics enabled n = if enabled then n else 0

abbrev pub same_item : Option ℕ → ℕ → Bool
same_item none i = false
same_item (some j) i = j == i

module _ {V : Type 0} where
  abbrev pub assign : (ℕ → Item V) → ℕ → Item V → ℕ → Item V
  assign items i item j = if j == i then item else items j

  -- `values.extend([] for _ in range(index - len(values) + 1))` and `values[index].append(value)`.
  abbrev pub append_at : List (List V) → ℕ → V → List (List V)
  append_at [] zero v = (v ∷ []) ∷ []
  append_at [] (suc n) v = [] ∷ append_at [] n v
  append_at (xs ∷ rest) zero v = (xs ++ (v ∷ [])) ∷ rest
  append_at (xs ∷ rest) (suc n) v = xs ∷ append_at rest n v

-- The readings of `loop.time()` in one round of `_join_value`, in their order.
pub record Times : Type 0 where
  pub looked : ℕ
  pub created : ℕ
  pub locked : ℕ
  pub renewed : ℕ

-- How a round ends: another one, an exception of the callback, or its answer.
pub data Outcome : Type 0 where
  retry : Outcome
  raised : Error → Outcome
  returned : Bool → Outcome

module _ {K : Type 0} (dec : Discrete K) where
  -- `for k, v in self._prev.items(): if k not in self._current: ...`, with the number rescued.
  pub rescue : Dict K ℕ → Dict K ℕ → Dict K ℕ × ℕ
  rescue current [] = (current, 0)
  rescue current ((k, i) ∷ prev) =
      if has dec current k
      then rescue current prev
      else let (m, n) = rescue (put dec current k i) prev in (m, suc n)

module _ {K V : Type 0} (dec : Discrete K) where
  -- A new item, in the current bucket, with an expiry task if its deadline is finite. The request
  -- that creates it may have a deadline of its own.
  unfoldable pub create :
      Storage K V → K → (index ttl now : ℕ) (in_request : Bool) → Storage K V × ℕ
  create s key index ttl now in_request =
      let deadline = later now ttl in
      let item : Item V = record {
        deadline = deadline;
        values = replicate (index + 1) [];
        processed = false;
        after_task = is_some deadline;
        context_deadline = if in_request then some deadline else none;
      } in
      (
        record s {
          items = assign s.items s.next_id item;
          next_id = suc s.next_id;
          current = put dec s.current key s.next_id;
          count_added =
              s.count_added + if_metrics (s.metrics_enabled && not (has dec s.current key)) 1;
        },
        s.next_id,
      )

  -- The lookup: a live item of either bucket, moved to the current one, or a new item.
  unfoldable pub from_prev :
      Storage K V → K → (index ttl : ℕ) → Times → (in_request : Bool) → Storage K V × ℕ
  unfolding create
  from_prev s key index ttl t in_request = elim (get dec s.prev key) [
    | none ↦ create s key index ttl t.created in_request
    | some i ↦
        if expired (s.items i).deadline t.looked
        then create
            (record s {
              prev = delete dec s.prev key;
              count_removed = s.count_removed + if_metrics s.metrics_enabled 1;
            })
            key index ttl t.created in_request
        else (record s { current = put dec s.current key i; prev = delete dec s.prev key }, i)
  ]

  unfoldable pub admit :
      Storage K V → K → (index ttl : ℕ) → Times → (in_request : Bool) → Storage K V × ℕ
  unfolding from_prev
  admit s key index ttl t in_request = elim (get dec s.current key) [
    | none ↦ from_prev s key index ttl t in_request
    | some i ↦
        if expired (s.items i).deadline t.looked
        then from_prev s key index ttl t in_request
        else (s, i)
  ]

  -- `_remove_item`
  pub remove_item : Storage K V → K → ℕ → Storage K V × Bool
  remove_item s key i =
      let removed = s.count_removed + if_metrics s.metrics_enabled 1 in
      if same_item (get dec s.current key) i
      then (record s { current = delete dec s.current key; count_removed = removed }, true)
      else if same_item (get dec s.prev key) i
      then (record s { prev = delete dec s.prev key; count_removed = removed }, true)
      else (s, false)

  -- The value is put behind those of its stream.
  pub deposited : Storage K V → (i index : ℕ) → V → Storage K V
  deposited s i index value = record s {
    items =
        assign s.items i (record (s.items i) { values = append_at (s.items i).values index value });
  }

  -- Under the item's lock, before the callback: `none` is another round of the loop.
  pub deposit : Storage K V → (i index : ℕ) → V → (now : ℕ) → Option (Storage K V)
  deposit s i index value now =
      if not (s.items i).processed && not (expired (s.items i).deadline now)
      then some (deposited s i index value)
      else none

  -- `renew_ttl` is set, the time to live is positive, and a bucket still holds the item.
  pub renews : Storage K V → K → (i ttl : ℕ) → Bool
  renews s key i ttl =
      s.renew_ttl
      && ltb 0 ttl
      && (same_item (get dec s.current key) i || same_item (get dec s.prev key) i)

  -- A new deadline, in the current bucket.
  pub renewed : Storage K V → K → (i ttl now : ℕ) → Storage K V
  renewed s key i ttl now = record s {
    items =
        assign s.items i (record (s.items i) { processed = false; deadline = some (now + ttl) });
    current = put dec s.current key i;
    prev = delete dec s.prev key;
  }

  -- After the callback has answered.
  pub finish : Storage K V → K → (i ttl : ℕ) → (processed : Bool) → (now : ℕ) → Storage K V
  finish s key i ttl processed now =
      let item = s.items i in
      if processed
      then (remove_item
          (record s {
            items = assign s.items i (record item { processed = true; after_task = false });
          })
          key i).0
      else let kept = record s { items = assign s.items i (record item { processed = false }) } in
        if renews s key i ttl then renewed s key i ttl now else kept

  -- The callback's answer, or its exception, which leaves the item as it is.
  abbrev pub settle : Storage K V → K → (i ttl now : ℕ) → Result Bool → Storage K V × Outcome
  settle s key i ttl now (ok b) = (finish s key i ttl b now, returned b)
  settle s key i ttl now (err e) = (s, raised e)

  -- One round of `_join_value` that nothing interrupts: the callback is asked about all values.
  pub join_round :
      Storage K V
      → K
      → (index : ℕ) → V
      → (callback : List (List V) → Result Bool) → (ttl : ℕ) → Times
      → (in_request : Bool) → Storage K V × Outcome
  join_round s key index value callback ttl t in_request =
      let (s', i) = admit s key index ttl t in_request in
      elim (deposit s' i index value t.locked) [
        | none ↦ (s', retry)
        | some s'' ↦ settle s'' key i ttl t.renewed (callback (s''.items i).values)
      ]

  -- The loop of `_join_value`, by the clock readings of its rounds. `none` is a loop that still
  -- runs when they are used up.
  pub join_value :
      Storage K V
      → K
      → (index : ℕ) → V
      → (callback : List (List V) → Result Bool) → (ttl : ℕ) → (in_request : Bool) → List Times
      → Option (Storage K V × Outcome)
  join_value s key index value callback ttl in_request [] = none
  join_value s key index value callback ttl in_request (t ∷ ts) =
      let (s', outcome) = join_round s key index value callback ttl t in_request in
      elim outcome [
        | retry ↦ join_value s' key index value callback ttl in_request ts
        | other ↦ some (s', other)
      ]

  -- The expiry task under the item's lock, after it slept. `none` is another sleep or the end; the
  -- list is what the stored callback is called with.
  unfoldable pub expire : Storage K V → (i now : ℕ) → Option (Storage K V × List (List V))
  expire s i now =
      let item = s.items i in
      if item.processed || (not (is_some item.context_deadline) && not (expired item.deadline now))
      then none
      else some
          (record s { items = assign s.items i (record item { processed = true }) }, item.values)

  -- After that callback, also when it failed.
  pub expire_cleanup : Storage K V → K → ℕ → Storage K V
  unfolding remove_item
  expire_cleanup s key i =
      let (s', removed) = remove_item s key i in
      record s' {
        evictions_total = s'.evictions_total + if_metrics (removed && s'.metrics_enabled) 1;
      }

  -- One tick of the timer of `_rotate`.
  unfoldable pub rotate : Storage K V → Storage K V
  rotate s =
      let total = length s.current + length s.prev in
      let should_rotate = s.high_water_mark == 0 || ltb (total * shrink_factor) s.high_water_mark in
      let (merged, rescued) = rescue dec s.current s.prev in
      let evicted = length s.prev - rescued in
      if s.stopped
      then s
      else if should_rotate
      then record s {
        current = [];
        prev = merged;
        high_water_mark = total;
        count_removed = s.count_removed + if_metrics s.metrics_enabled evicted;
        evictions_total = s.evictions_total + if_metrics s.metrics_enabled evicted;
      }
      else record s { high_water_mark = max total s.high_water_mark }

-- `__init__`
unfoldable pub init : {K V : Type 0} → (renew_ttl metrics_enabled : Bool) → Storage K V
init renew_ttl metrics_enabled = record {
  items = λ i. record {
    deadline = none;
    values = [];
    processed = false;
    after_task = false;
    context_deadline = none;
  };
  next_id = 0;
  current = [];
  prev = [];
  high_water_mark = 0;
  stopped = false;
  renew_ttl = renew_ttl;
  metrics_enabled = metrics_enabled;
  count_added = 0;
  count_removed = 0;
  evictions_total = 0;
}

-- `stop`: what it changes besides the timer's task, which it cancels.
unfoldable pub stop : {K V : Type 0} → Storage K V → Storage K V
stop s = record s { stopped = true }
