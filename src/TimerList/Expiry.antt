-- ===== src/TimerList/Expiry.antt =====
-- Which events go off, and in which order.
use chenlongos.Prelude.{
  ℕ, zero, suc, ◌+◌, ◌≤◌, ◌<◌, ◌≡◌, refl, Bool, true, false, none, some, List, [], ◌∷◌, ltb, leb,
  if◌then◌else◌, arith, length, length-perm, Perm, inl, inr, Bool-cases, ltb→lt, leb→le, ◌++◌,
  ltb-false→le, map,
}
use mathlib.Core.List.Perm
use chenlongos.TimerList.{TimerEventWrapper, TimerList, earliest, expire_one, expire_all}

-- Every deadline of a list is after a time, or not before it.
abbrev pub AllFrom {ℓ} : {E : Type ℓ} → ℕ → List (TimerEventWrapper E) → Type 0
AllFrom t [] = Unit {0}
AllFrom t (e ∷ es) = (t ≤ e.deadline) × AllFrom t es

module _ {ℓ} {E : Type ℓ} where
  AllFrom-mono : (a b : ℕ) (es : List (TimerEventWrapper E)) → a ≤ b → AllFrom b es → AllFrom a es
  AllFrom-mono a b [] h p = tt
  AllFrom-mono a b (e ∷ es) h p = (omega arith, AllFrom-mono a b es h p.1)

  -- The first part of a pair is an earliest event of `e ∷ es`, the second is all the others.
  record Least (e : TimerEventWrapper E) (es : List (TimerEventWrapper E))
      (p : TimerEventWrapper E × List (TimerEventWrapper E)) : Type ℓ where
    pub first : p.0.deadline ≤ e.deadline
    pub before : AllFrom p.0.deadline es
    pub behind : AllFrom p.0.deadline p.1
    pub same : Perm (p.0 ∷ p.1) (e ∷ es)

  Least-if :
      (e : TimerEventWrapper E) (es : List (TimerEventWrapper E)) (b : Bool)
      {p q : TimerEventWrapper E × List (TimerEventWrapper E)}
      → (b ≡ true → Least e es p)
      → (b ≡ false → Least e es q)
      → Least e es (if b then p else q)
  Least-if e es true p q = p refl
  Least-if e es false p q = q refl

  earliest-Least :
      (e : TimerEventWrapper E) (es : List (TimerEventWrapper E)) → Least e es (earliest e es)
  unfolding earliest
  earliest-Least e [] = record { first = omega arith; before = tt; behind = tt; same = Perm.refl _ }
  earliest-Least e (f ∷ es) =
      let m = (earliest f es).0 in
      let h = earliest-Least f es in
      Least-if e (f ∷ es) (ltb m.deadline e.deadline)
        (λ lt.
          let below = ltb→lt m.deadline e.deadline lt in
          record {
            first = omega arith;
            before = (h.first, h.before);
            behind = (omega arith, h.behind);
            same = Perm.trans (Perm.swap e m (earliest f es).1) (Perm.cons e h.same);
          })
        (λ ge.
          let le = ltb-false→le m.deadline e.deadline ge in
          let first : e.deadline ≤ f.deadline = omega (arith, h.first) in
          let all : AllFrom e.deadline (f ∷ es) =
            (first, AllFrom-mono e.deadline m.deadline es le h.before) in
          record { first = omega arith; before = all; behind = all; same = Perm.refl _ })

  earliest-from :
      (d : ℕ) (e : TimerEventWrapper E) (es : List (TimerEventWrapper E))
      → d ≤ e.deadline
      → AllFrom d es
      → d ≤ (earliest e es).0.deadline
  unfolding earliest
  earliest-from d e [] h p = h
  earliest-from d e (f ∷ es) h p = ground (arith, earliest-from d f es p.0 p.1)

  -- What `expire_one` does to a list of timers.
  pub data ExpiredOne (l : TimerList E) (now : ℕ) : Type ℓ where
    went_off :
        (e : TimerEventWrapper E) (rest : List (TimerEventWrapper E))
        → expire_one l now ≡ (record { events = rest }, some (e.deadline, e.event))
        → e.deadline ≤ now
        → AllFrom e.deadline rest
        → ((d : ℕ) → AllFrom d l.events → d ≤ e.deadline)
        → Perm (e ∷ rest) l.events
        → ExpiredOne l now
    not_yet : expire_one l now ≡ (l, none) → AllFrom (now + 1) l.events → ExpiredOne l now

  expire_one-cases :
      (es : List (TimerEventWrapper E)) (now : ℕ) → ExpiredOne (record { events = es }) now
  unfolding expire_one
  expire_one-cases [] now = not_yet refl tt
  expire_one-cases (e ∷ es) now =
      let h = earliest-Least e es in
      let m = (earliest e es).0 in
      elim (Bool-cases (leb m.deadline now)) [
        | inl due ↦
            went_off m (earliest e es).1 (rw due refl) (leb→le m.deadline now due) h.behind
              (λ d p. earliest-from d e es p.0 p.1) h.same
        | inr later ↦
            let after : now + 1 ≤ m.deadline = ground arith in
            not_yet (rw later refl)
              (omega (arith, h.first), AllFrom-mono (now + 1) m.deadline es after h.before)
      ]

  -- `expire_one` takes out an event of the earliest deadline if that is not after `now`, and leaves
  -- all others; if no event is due it changes nothing.
  pub expire_one_lem : (l : TimerList E) (now : ℕ) → ExpiredOne l now
  expire_one_lem l now = expire_one-cases l.events now

  abbrev pub wrap : ℕ × E → TimerEventWrapper E
  wrap (t, e) = record { deadline = t; event = e }

  -- The deadlines do not fall, from the first bound on, and none is after the second.
  abbrev pub Ascends : ℕ → ℕ → List (ℕ × E) → Type 0
  Ascends d now [] = Unit {0}
  Ascends d now ((t, e) ∷ es) = (d ≤ t) × (t ≤ now) × Ascends t now es

  -- With more fuel than there are events, and no event before `d`, expiring one event after
  -- another at the time `now` ends: all events that are due go off, in the order of their
  -- deadlines, those that are left are later, and none is lost or doubled.
  pub expire_all_lem :
      (fuel : ℕ) (l : TimerList E) (d now : ℕ)
      → length l.events < fuel
      → AllFrom d l.events
      → let (l', out) = expire_all fuel l now in
        Ascends d now out × AllFrom (now + 1) l'.events × Perm (map wrap out ++ l'.events) l.events
  unfolding expire_all
  expire_all_lem zero l d now h p = absurd (omega arith)
  expire_all_lem (suc fuel) l d now h p =
      cases (expire_one_lem l now)
        (λ rest e b q. expire_all_lem fuel (record { events = rest }) e now b q)
    where
      cases :
          ExpiredOne l now
          → ((rest : List (TimerEventWrapper E)) (e : ℕ)
              → length rest < fuel
              → AllFrom e rest
              → let (l', out) = expire_all fuel (record { events = rest }) now in
                Ascends e now out
                × AllFrom (now + 1) l'.events
                × Perm (map wrap out ++ l'.events) rest)
          → let (l', out) = expire_all (suc fuel) l now in
            Ascends d now out
            × AllFrom (now + 1) l'.events
            × Perm (map wrap out ++ l'.events) l.events
      cases (not_yet runs later) ih = rw runs (tt, later, Perm.refl _)
      cases (went_off e rest runs due behind least same) ih =
          let (a, b, c) = ih rest e.deadline (omega (arith, length-perm same)) behind in
          rw runs ((least d p, due, a), b, Perm.trans (Perm.cons e c) same)
