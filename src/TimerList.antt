-- ===== src/TimerList.antt =====
-- Timed events, crates/timer_list/src/lib.rs. The `BinaryHeap` of the standard library is a list
-- from which the event of the earliest deadline is taken; among equal deadlines the heap promises no
-- order, and here the one that stands first is taken. A deadline is a number of nanoseconds.
pub mod Expiry
mod Tests
use chenlongos.Prelude.{
  ℕ, zero, suc, Bool, true, false, not, Option, none, some, List, [], ◌∷◌, ltb, leb, if◌then◌else◌,
}

pub record TimerEventWrapper {ℓ} (E : Type ℓ) : Type ℓ where
  pub deadline : ℕ
  pub event : E

pub record TimerList {ℓ} (E : Type ℓ) : Type ℓ where
  pub events : List (TimerEventWrapper E)

module _ {ℓ} {E : Type ℓ} where
  -- The earliest event of a list with at least one, and the others in their order.
  unfoldable pub earliest :
      TimerEventWrapper E
      → List (TimerEventWrapper E)
      → TimerEventWrapper E × List (TimerEventWrapper E)
  earliest e [] = (e, [])
  earliest e (f ∷ rest) =
      let (m, others) = earliest f rest in
      if ltb m.deadline e.deadline then (m, e ∷ others) else (e, f ∷ rest)

  -- `BinaryHeap::peek` and `pop`
  unfoldable pub peek : List (TimerEventWrapper E) → Option (TimerEventWrapper E)
  unfolding earliest
  peek [] = none
  peek (e ∷ rest) = some (earliest e rest).0

  unfoldable pub pop :
      List (TimerEventWrapper E) → Option (TimerEventWrapper E × List (TimerEventWrapper E))
  unfolding earliest
  pop [] = none
  pop (e ∷ rest) = some (earliest e rest)

  retain : (E → Bool) → List (TimerEventWrapper E) → List (TimerEventWrapper E)
  retain keep [] = []
  retain keep (e ∷ rest) = if keep e.event then e ∷ retain keep rest else retain keep rest

  pub is_empty : TimerList E → Bool
  is_empty l = elim l.events [ [] ↦ true | e ∷ rest ↦ false ]

  unfoldable pub set : TimerList E → ℕ → E → TimerList E
  set l deadline event = record {
    events = record { deadline = deadline; event = event } ∷ l.events;
  }

  pub cancel : TimerList E → (E → Bool) → TimerList E
  unfolding retain
  cancel l condition = record { events = retain (λ e. not (condition e)) l.events }

  pub next_deadline : TimerList E → Option ℕ
  unfolding peek
  next_deadline l = elim (peek l.events) [ none ↦ none | some e ↦ some e.deadline ]

  abbrev popped :
      TimerList E
      → Option (TimerEventWrapper E × List (TimerEventWrapper E))
      → TimerList E × Option (ℕ × E)
  popped l none = (l, none)
  popped l (some (e, rest)) = (record { events = rest }, some (e.deadline, e.event))

  unfoldable pub expire_one : TimerList E → ℕ → TimerList E × Option (ℕ × E)
  unfolding peek pop
  expire_one l now = elim (peek l.events) [
    | none ↦ (l, none)
    | some e ↦ if leb e.deadline now then popped l (pop l.events) else (l, none)
  ]

  abbrev pub then_expire :
      (TimerList E → TimerList E × List (ℕ × E))
      → TimerList E × Option (ℕ × E)
      → TimerList E × List (ℕ × E)
  then_expire rest (l, none) = (l, [])
  then_expire rest (l, some e) = let (l', es) = rest l in (l', e ∷ es)

  -- `expire_one` called until it gives nothing, with fuel: the events that went off.
  pub expire_all : ℕ → TimerList E → ℕ → TimerList E × List (ℕ × E)
  unfolding expire_one
  expire_all zero l now = (l, [])
  expire_all (suc fuel) l now = then_expire (λ l'. expire_all fuel l' now) (expire_one l now)
