-- ===== src/Pool/Delay/Sound.antt =====
-- DelayPoolImpl: a pool whose timer is set.
use pyservicelib.Base.{ℕ, ◌≡◌, inl, inr, refl, true, List, Option, none, some, arith, Bool-cases}
use pyservicelib.Pool.Heap.Keys.{Floats}
use pyservicelib.Pool.Delay.{DelayPool, first_when, same_when, arm}
use pyservicelib.Pool.Delay.Dispatch.{IsKept}

-- The timer is set to the time of the task that is due first, and there is none where none waits.
abbrev pub IsArmed : {F : Type 0} → Floats F → DelayPool F → Type 0
IsArmed floats p = same_when floats (first_when p.queue.items) p.armed_at ≡ true

pub record IsSound {F : Type 0} (floats : Floats F) (finished : List ℕ) (p : DelayPool F)
    : Type 0 where
  pub kept : IsKept floats finished p
  pub armed : IsArmed floats p

module _ {F : Type 0} (floats : Floats F) where
  same_when_refl : (o : Option F) → same_when floats o o ≡ true
  same_when_refl none = refl
  same_when_refl (some a) = ground (arith, floats.total a a)

  pub rearmed-IsKept :
      (finished : List ℕ) (p : DelayPool F) (armed_at : Option F)
      → IsKept floats finished p
      → IsKept floats finished (record p { armed_at = armed_at })
  rearmed-IsKept finished p armed_at v = record {
    valid = v.valid;
    placed = v.placed;
    marked = v.marked;
    counted = v.counted;
    drained = v.drained;
    gauged = v.gauged;
  }

  pub arm-IsSound :
      (finished : List ℕ) (p : DelayPool F)
      → IsKept floats finished p
      → IsSound floats finished (arm floats p)
  arm-IsSound finished p v =
      elim (Bool-cases (same_when floats (first_when p.queue.items) p.armed_at)) [
        | inl e ↦ rw e (record { kept = v; armed = e })
        | inr e ↦ rw e (record {
          kept = rearmed-IsKept finished p (first_when p.queue.items) v;
          armed = same_when_refl (first_when p.queue.items);
        })
      ]

  pub arm-queue : (p : DelayPool F) → (arm floats p).queue ≡ p.queue
  arm-queue p = ground arith

  pub arm-counter : (p : DelayPool F) → (arm floats p).counter ≡ p.counter
  arm-counter p = ground arith

  pub arm-running : (p : DelayPool F) → (arm floats p).running_tasks ≡ p.running_tasks
  arm-running p = ground arith
