-- ===== src/Encryption/Slots.antt =====
-- `idKey` of pkg/utils/encryption/password.go: a channel of two places bounds how many keys are
-- computed at once. Any number of calls run beside each other, and an event is one step of one of
-- them.
pub mod Bounded
use casa_os_user_service.Common.{
  ℕ, zero, suc, ◌+◌, ◌-◌, Option, none, some, List, [], ◌∷◌, ltb, if◌then◌else◌,
}

-- Before the send, between the send and the return, and after it.
pub data Phase : Type 0 where
  waiting computing returned : Phase

-- How many places of the channel are taken, and the calls.
pub record Slots : Type 0 where
  pub taken : ℕ
  pub calls : List Phase

pub data SlotEvent : Type 0 where
  sends receives : ℕ → SlotEvent

abbrev pub argon_slots : ℕ
argon_slots = 2

abbrev pub enter : Phase → Option Phase
enter waiting = some computing
enter _ = none

-- The deferred receive, at the return.
abbrev pub leave : Phase → Option Phase
leave computing = some returned
leave _ = none

-- The step of one call, by its number.
abbrev pub with_head : List Phase → Option Phase → Option (List Phase)
with_head ps none = none
with_head ps (some p) = some (p ∷ ps)

abbrev pub with_tail : Phase → Option (List Phase) → Option (List Phase)
with_tail p none = none
with_tail p (some ps) = some (p ∷ ps)

unfoldable pub advance : (Phase → Option Phase) → ℕ → List Phase → Option (List Phase)
advance next i [] = none
advance next zero (p ∷ ps) = with_head ps (next p)
advance next (suc i) (p ∷ ps) = with_tail p (advance next i ps)

abbrev pub with_taken : ℕ → Option (List Phase) → Option Slots
with_taken n none = none
with_taken n (some ps) = some (record { taken = n; calls = ps })

-- An event that cannot happen is none: a send blocks while the channel is full.
unfoldable pub slot_step : SlotEvent → Slots → Option Slots
unfolding advance
slot_step (sends i) s =
    if ltb s.taken argon_slots then with_taken (s.taken + 1) (advance enter i s.calls) else none
slot_step (receives i) s = with_taken (s.taken - 1) (advance leave i s.calls)

abbrev pub bind_slots : Option Slots → (Slots → Option Slots) → Option Slots
bind_slots none k = none
bind_slots (some s) k = k s

unfoldable pub run_slots : List SlotEvent → Slots → Option Slots
unfolding slot_step
run_slots [] s = some s
run_slots (e ∷ es) s = bind_slots (slot_step e s) (run_slots es)

unfoldable pub called : ℕ → List Phase
called zero = []
called (suc n) = waiting ∷ called n

-- Some calls at once, and an empty channel.
abbrev pub slots_of : ℕ → Slots
slots_of n = record { taken = 0; calls = called n }

unfoldable pub at_once : List Phase → ℕ
at_once [] = 0
at_once (computing ∷ ps) = 1 + at_once ps
at_once (_ ∷ ps) = at_once ps

-- The steps that the calls have left.
unfoldable pub remaining : List Phase → ℕ
remaining [] = 0
remaining (waiting ∷ ps) = 2 + remaining ps
remaining (computing ∷ ps) = 1 + remaining ps
remaining (returned ∷ ps) = remaining ps
