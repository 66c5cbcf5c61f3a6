-- ===== src/Store/Rotating/Refinement.antt =====
-- A RotatingMap answers every history of calls as one dict would, wherever rotations fall.
use pyservicelib.Base.{
  ℕ, ◌≡◌, refl, sym, ap, ap₂, ◌∙◌, Bool, true, false, List, [], ◌∷◌, Option, none, some, Result, ok,
  err, inl, inr, Option-cases,
}
use pyservicelib.Base.Dicts.{Dict, get, put, delete, get-put, get-delete}
use pyservicelib.Store.Rotating.{RotatingMap, init, rotate, set, get_or_create, find, pop}
use pyservicelib.Store.Rotating.View.{
  IsValid, init-IsValid, rotate-IsValid, find-rotate, inserted, inserted-IsValid, find-inserted,
  pop-IsValid, find-pop, pop-find, set-inserted, set-taken, get_or_create-find,
}

pub data Call (K V : Type 0) : Type 0 where
  set_call : K → V → Call K V
  create_call : K → V → Call K V
  get_call : K → Call K V
  pop_call : K → Call K V
  rotate_timer : Call K V

pub data Answer (V : Type 0) : Type 0 where
  done : Answer V
  duplicate : Answer V
  found : Option V → Answer V
  created : V → Bool → Answer V

module _ {K V : Type 0} (dec : Discrete K) where
  abbrev set_answer : RotatingMap K V → Result (RotatingMap K V) → RotatingMap K V × Answer V
  set_answer m (ok m') = (m', done)
  set_answer m (err e) = (m, duplicate)

  pub step : RotatingMap K V → Call K V → RotatingMap K V × Answer V
  step m (set_call key value) = set_answer m (set dec m key value)
  step m (create_call key value) =
      let (m', (v, old)) = get_or_create dec m key value in (m', created v old)
  step m (get_call key) = (m, found (find dec m key))
  step m (pop_call key) = let (m', v) = pop dec m key in (m', found v)
  step m rotate_timer = (rotate dec m, done)

  -- The same calls on one dict.
  pub dict_step : Dict K V → Call K V → Dict K V × Answer V
  dict_step d (set_call key value) = elim (get dec d key) [
    | some w ↦ (d, duplicate)
    | none ↦ (put dec d key value, done)
  ]
  dict_step d (create_call key value) = elim (get dec d key) [
    | some w ↦ (d, created w true)
    | none ↦ (put dec d key value, created value false)
  ]
  dict_step d (get_call key) = (d, found (get dec d key))
  dict_step d (pop_call key) = (delete dec d key, found (get dec d key))
  dict_step d rotate_timer = (d, done)

  pub run : RotatingMap K V → List (Call K V) → List (Answer V)
  run m [] = []
  run m (c ∷ cs) = let (m', a) = step m c in a ∷ run m' cs

  pub dict_run : Dict K V → List (Call K V) → List (Answer V)
  dict_run d [] = []
  dict_run d (c ∷ cs) = let (d', a) = dict_step d c in a ∷ dict_run d' cs

  record Refines (m : RotatingMap K V) (d : Dict K V) : Type 0 where
    valid : IsValid dec m
    same : (j : K) → find dec m j ≡ get dec d j

  inserted-Refines :
      (m : RotatingMap K V) (d : Dict K V) (key : K) (value : V)
      → Refines m d
      → get dec m.prev key ≡ none
      → Refines (inserted dec m key value) (put dec d key value)
  inserted-Refines m d key value r absent = record {
    valid = inserted-IsValid dec m key value absent r.valid;
    same = λ j. rw (find-inserted dec m key value j, get-put dec d key value j, r.same j);
  }

  abbrev StepRefines : RotatingMap K V × Answer V → Dict K V × Answer V → Type 0
  StepRefines (m, a) (d, b) = Refines m d × (a ≡ b)

  step-Refines :
      (m : RotatingMap K V) (d : Dict K V) (c : Call K V)
      → Refines m d
      → StepRefines (step m c) (dict_step d c)
  unfolding step dict_step
  step-Refines m d (set_call key value) r = elim (Option-cases (find dec m key)) [
    | inl e ↦
        let (put_in, absent) = set-inserted dec m key value e in
        let missing : get dec d key ≡ none = sym (r.same key) ∙ e in
        rw (put_in, missing, dict_step) (inserted-Refines m d key value r absent, refl)
    | inr (w, e) ↦
        let there : get dec d key ≡ some w = sym (r.same key) ∙ e in
        rw (set-taken dec m key value w e, there, dict_step) (r, refl)
  ]
  step-Refines m d (create_call key value) r = elim (Option-cases (find dec m key)) [
    | inl e ↦
        let (put_in, absent) = set-inserted dec m key value e in
        let missing : get dec d key ≡ none = sym (r.same key) ∙ e in
        rw (get_or_create-find dec m key value, e, missing, dict_step)
          (inserted-Refines m d key value r absent, refl)
    | inr (w, e) ↦
        let there : get dec d key ≡ some w = sym (r.same key) ∙ e in
        rw (get_or_create-find dec m key value, e, there, dict_step) (r, refl)
  ]
  step-Refines m d (get_call key) r = (r, ap found (r.same key))
  step-Refines m d (pop_call key) r = (
    record {
      valid = pop-IsValid dec m key r.valid;
      same = λ j. rw (find-pop dec m key j r.valid, get-delete dec d key j, r.same j);
    },
    ap found (pop-find dec m key ∙ r.same key),
  )
  step-Refines m d rotate_timer r = (
    record {
      valid = rotate-IsValid dec m r.valid;
      same = λ j. find-rotate dec m j r.valid ∙ r.same j;
    },
    refl,
  )

  run-Refines :
      (m : RotatingMap K V) (d : Dict K V) (cs : List (Call K V))
      → Refines m d
      → run m cs ≡ dict_run d cs
  unfolding run dict_run
  run-Refines m d [] r = refl
  run-Refines m d (c ∷ cs) r =
      let (r', same) = step-Refines m d c r in
      ap₂ ◌∷◌ same (run-Refines (step m c).0 (dict_step d c).0 cs r')

  -- From the empty map on, a history of calls of set, get_or_create, get and pop, with rotations
  -- of the timer anywhere between them, is answered as the same calls on one dict are answered,
  -- whatever the minimum capacity.
  pub run-dict_run :
      (min_capacity : ℕ) (cs : List (Call K V)) → run (init min_capacity) cs ≡ dict_run [] cs
  unfolding init find get
  run-dict_run n cs =
      run-Refines (init n) [] cs (record { valid = init-IsValid dec n; same = λ j. refl })
