-- ===== src/Encryption/Slots/Bounded.antt =====
-- At most two keys are computed at once, and every call comes to its end.
use casa_os_user_service.Common.{
  ℕ, zero, suc, ◌+◌, ◌*◌, ◌-◌, ◌≡◌, ◌⊎◌, ◌≤◌, refl, sym, subst, inl, inr, true, Option, none, some,
  List, [], ◌∷◌, length, ltb, arith, Bool-cases,
}
use casa_os_user_service.Encryption.Slots.{
  Phase, waiting, computing, returned, Slots, SlotEvent, sends, receives, argon_slots, enter, leave,
  with_head, with_tail, advance, with_taken, slot_step, bind_slots, run_slots, called, slots_of,
  at_once, remaining,
}

-- The places that are taken are those of the calls that compute.
pub record IsSound (s : Slots) : Type 0 where
  pub held : s.taken ≡ at_once s.calls
  pub at_most : s.taken ≤ 2

-- The calls before and after a step of one of them, in which the number of those that compute goes
-- from `a` less to `b` more.
record Moved (a b : ℕ) (ps qs : List Phase) : Type 0 where
  computes : at_once qs + a ≡ at_once ps + b
  closer : remaining ps ≡ remaining qs + 1

with_head-Moved :
    (a b : ℕ) (p : Phase) (ps qs : List Phase) (o : Option Phase)
    → ((q : Phase) → o ≡ some q → Moved a b (p ∷ ps) (q ∷ ps))
    → with_head ps o ≡ some qs
    → Moved a b (p ∷ ps) qs
with_head-Moved a b p ps qs none h e = cc
with_head-Moved a b p ps qs (some q) h e = subst (Moved a b (p ∷ ps)) (cc e) (h q refl)

cons-Moved :
    (a b : ℕ) (p : Phase) (ps qs : List Phase) → Moved a b ps qs → Moved a b (p ∷ ps) (p ∷ qs)
unfolding at_once remaining
cons-Moved a b waiting ps qs h = record { computes = h.computes; closer = omega (arith, h.closer) }
cons-Moved a b computing ps qs h = record {
  computes = omega (arith, h.computes);
  closer = omega (arith, h.closer);
}
cons-Moved a b returned ps qs h = record { computes = h.computes; closer = h.closer }

with_tail-Moved :
    (a b : ℕ) (p : Phase) (ps qs : List Phase) (o : Option (List Phase))
    → ((rs : List Phase) → o ≡ some rs → Moved a b ps rs)
    → with_tail p o ≡ some qs
    → Moved a b (p ∷ ps) qs
with_tail-Moved a b p ps qs none h e = cc
with_tail-Moved a b p ps qs (some rs) h e =
    subst (Moved a b (p ∷ ps)) (cc e) (cons-Moved a b p ps rs (h rs refl))

advance-Moved :
    (a b : ℕ) (next : Phase → Option Phase)
    → ((p q : Phase) (ps : List Phase) → next p ≡ some q → Moved a b (p ∷ ps) (q ∷ ps))
    → (i : ℕ) (ps qs : List Phase) → advance next i ps ≡ some qs
    → Moved a b ps qs
unfolding advance
advance-Moved a b next one i [] qs h = cc
advance-Moved a b next one zero (p ∷ ps) qs h =
    with_head-Moved a b p ps qs (next p) (λ q e. one p q ps e) h
advance-Moved a b next one (suc i) (p ∷ ps) qs h =
    with_tail-Moved a b p ps qs (advance next i ps) (λ rs e. advance-Moved a b next one i ps rs e) h

enter-Moved : (p q : Phase) (ps : List Phase) → enter p ≡ some q → Moved 0 1 (p ∷ ps) (q ∷ ps)
unfolding at_once remaining
enter-Moved waiting waiting ps h = cc
enter-Moved waiting computing ps h = record { computes = omega arith; closer = omega arith }
enter-Moved waiting returned ps h = cc
enter-Moved computing q ps h = cc
enter-Moved returned q ps h = cc

leave-Moved : (p q : Phase) (ps : List Phase) → leave p ≡ some q → Moved 1 0 (p ∷ ps) (q ∷ ps)
unfolding at_once remaining
leave-Moved computing waiting ps h = cc
leave-Moved computing computing ps h = cc
leave-Moved computing returned ps h = record { computes = omega arith; closer = omega arith }
leave-Moved waiting q ps h = cc
leave-Moved returned q ps h = cc

-- A step keeps the books, and brings the calls one step closer to their end.
record Stepped (s t : Slots) : Type 0 where
  sound : IsSound t
  closer : remaining s.calls ≡ remaining t.calls + 1

with_taken-Stepped :
    (a b n : ℕ) (s t : Slots) (o : Option (List Phase))
    → IsSound s
    → ((qs : List Phase) → Moved a b s.calls qs → n + a ≡ s.taken + b)
    → n ≤ 2
    → ((qs : List Phase) → o ≡ some qs → Moved a b s.calls qs)
    → with_taken n o ≡ some t
    → Stepped s t
with_taken-Stepped a b n s t none v sum le moved h = cc
with_taken-Stepped a b n s t (some qs) v sum le moved h =
    let go = moved qs refl in
    let sum_here = sum qs go in
    subst (Stepped s) (cc h) (record {
      sound = record { held = omega (arith, v.held, sum_here, go.computes); at_most = le };
      closer = go.closer;
    })

slot_step-Stepped : (e : SlotEvent) (s t : Slots) → IsSound s → slot_step e s ≡ some t → Stepped s t
unfolding slot_step
slot_step-Stepped (sends i) s t v h = elim (Bool-cases (ltb s.taken argon_slots)) [
  | inr full ↦ cc (rw full at h)
  | inl free ↦
      with_taken-Stepped 0 1 (s.taken + 1) s t (advance enter i s.calls) v (λ qs g. omega arith)
        (ground arith) (advance-Moved 0 1 enter enter-Moved i s.calls) (rw free at h)
]
slot_step-Stepped (receives i) s t v h =
    with_taken-Stepped 1 0 (s.taken - 1) s t (advance leave i s.calls) v
      (λ qs g. omega (arith, v.held, g.computes)) (omega (arith, v.at_most))
      (advance-Moved 1 0 leave leave-Moved i s.calls) h

bind_slots-some :
    (o : Option Slots) (k : Slots → Option Slots) (t : Slots)
    → bind_slots o k ≡ some t
    → (u : Slots) × (o ≡ some u) × (k u ≡ some t)
bind_slots-some none k t h = cc
bind_slots-some (some u) k t h = (u, refl, h)

run_slots-Stepped :
    (es : List SlotEvent) (s t : Slots)
    → IsSound s
    → run_slots es s ≡ some t
    → IsSound t × (remaining s.calls ≡ remaining t.calls + length es)
unfolding run_slots
run_slots-Stepped [] s t v h =
    subst (λ x. IsSound x × (remaining s.calls ≡ remaining x.calls + 0)) (cc h) (v, omega arith)
run_slots-Stepped (e ∷ es) s t v h =
    let (u, first, rest) = bind_slots-some (slot_step e s) (run_slots es) t h in
    let one = slot_step-Stepped e s u v first in
    let (w, more) = run_slots-Stepped es u t one.sound rest in (w, omega (arith, one.closer, more))

-- A call that computes can return, and with none there is one that waits, unless all have returned.
leaves :
    (ps : List Phase)
    → (at_once ps ≡ 0) ⊎ ((i : ℕ) × (qs : List Phase) × (advance leave i ps ≡ some qs))
unfolding advance at_once
leaves [] = inl refl
leaves (computing ∷ ps) = inr (0, returned ∷ ps, refl)
leaves (waiting ∷ ps) = elim (leaves ps) [
  | inl none' ↦ inl none'
  | inr (i, qs, h) ↦ inr (suc i, waiting ∷ qs, rw h refl)
]
leaves (returned ∷ ps) = elim (leaves ps) [
  | inl none' ↦ inl none'
  | inr (i, qs, h) ↦ inr (suc i, returned ∷ qs, rw h refl)
]

enters :
    (ps : List Phase)
    → (remaining ps ≡ at_once ps) ⊎ ((i : ℕ) × (qs : List Phase) × (advance enter i ps ≡ some qs))
unfolding advance at_once remaining
enters [] = inl refl
enters (waiting ∷ ps) = inr (0, computing ∷ ps, refl)
enters (computing ∷ ps) = elim (enters ps) [
  | inl same ↦ inl (omega (arith, same))
  | inr (i, qs, h) ↦ inr (suc i, computing ∷ qs, rw h refl)
]
enters (returned ∷ ps) = elim (enters ps) [
  | inl same ↦ inl same
  | inr (i, qs, h) ↦ inr (suc i, returned ∷ qs, rw h refl)
]

goes_on :
    (s : Slots)
    → IsSound s
    → (remaining s.calls ≡ 0) ⊎ ((e : SlotEvent) × (t : Slots) × (slot_step e s ≡ some t))
unfolding slot_step
goes_on s v = elim (leaves s.calls) [
  | inr (i, qs, h) ↦ inr (receives i, record { taken = s.taken - 1; calls = qs }, rw h refl)
  | inl idle ↦ elim (enters s.calls) [
    | inl same ↦ inl (omega (arith, same, idle))
    | inr (i, qs, h) ↦
        let free : (ltb s.taken argon_slots ≡ true) = ground (arith, v.held, idle) in
        inr (sends i, record { taken = s.taken + 1; calls = qs }, rw (free, h) refl)
  ]
]

called_counts : (n : ℕ) → (at_once (called n) ≡ 0) × (remaining (called n) ≡ 2 * n)
unfolding called at_once remaining
called_counts zero = (refl, refl)
called_counts (suc n) = let (idle, left) = called_counts n in (idle, omega (arith, left))

-- However the steps of any number of calls at once are interleaved: at most two of them compute at
-- any time; and each step brings them closer to the end, which is after two steps for each, and
-- until then some call can make a step.
pub run_slots-at_once :
    (n : ℕ) (es : List SlotEvent) (s : Slots)
    → run_slots es (slots_of n) ≡ some s
    → (at_once s.calls ≤ 2)
      × (remaining s.calls + length es ≡ 2 * n)
      × ((remaining s.calls ≡ 0) ⊎ ((e : SlotEvent) × (t : Slots) × (slot_step e s ≡ some t)))
run_slots-at_once n es s h =
    let (idle, left) = called_counts n in
    let (v, closer) =
      run_slots-Stepped es (slots_of n) s (record { held = sym idle; at_most = omega arith }) h in
    (omega (arith, v.held, v.at_most), omega (arith, closer, left), goes_on s v)
