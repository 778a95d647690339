-- ===== src/Events/Listened.antt =====
-- When the listener ends, what it stores, and whom it tells the secret.
use casa_os_user_service.Common.{
  ℕ, zero, suc, ◌+◌, ◌≤◌, ◌<◌, ◌≡◌, ◌⊎◌, refl, ◌∙◌, sym, ap, Bool, true, false, not, ◌&&◌, Option,
  none, some, List, [], ◌∷◌, ◌++◌, All, ltb, arith, Bool-cases, inl, inr, subst,
}
use casa_os_user_service.Common.Text.{Text, bytes, text_eq, text_eq_iff, is_empty}
use casa_os_user_service.Events.{
  EventModel, Store, Codec, IsLawful, Avoids, HasUuids, has_uuid, create_event, event_stored,
  event_decoded, receive, Round, no_address, no_dial, subscribed, Listening, returned, gave_up,
  goes_on, max_dials, event_listen, is_loopback, is_loopback_host, dial_message_bus,
}

-- So many dials that fail.
abbrev pub failures : ℕ → List Round
failures zero = []
failures (suc n) = no_dial ∷ failures n

goes_on-injective :
    {S : Type 0} → (i j : ℕ) (s s' : S) → goes_on i s ≡ goes_on j s' → (i ≡ j) × (s ≡ s')
goes_on-injective i j s s' h = (cc, cc)

module _ (e : Store) (c : Codec) where
  spent :
      (i : ℕ) (rounds : List Round) (s : e.State)
      → max_dials ≤ i
      → event_listen e c i rounds s ≡ gave_up s
  unfolding event_listen
  spent i [] s le = ground arith
  spent i (no_address ∷ rounds) s le = ground arith
  spent i (no_dial ∷ rounds) s le = ground arith
  spent i (subscribed ts ∷ rounds) s le = ground arith

  failures-gave_up :
      (n i : ℕ) (rounds : List Round) (s : e.State)
      → max_dials ≤ i + n
      → event_listen e c i (failures n ++ rounds) s ≡ gave_up s
  unfolding event_listen
  failures-gave_up zero i rounds s le = spent i rounds s (omega arith)
  failures-gave_up (suc n) i rounds s le =
      ground (arith, failures-gave_up n (i + 1) rounds s (omega arith))

  failures-goes_on :
      (n i j : ℕ) (s : e.State)
      → i + n ≡ j
      → j < max_dials
      → event_listen e c i (failures n) s ≡ goes_on j s
  unfolding event_listen
  failures-goes_on zero i j s sum lt =
      let same : i ≡ j = omega (arith, sum) in rw same (ground arith)
  failures-goes_on (suc n) i j s sum lt =
      ground (arith, failures-goes_on n (i + 1) j s (omega (arith, sum)) lt)

  -- Rounds after which the listener goes on lead to where the rounds after them start.
  event_listen-append :
      (i j : ℕ) (before rest : List Round) (s s' : e.State)
      → event_listen e c i before s ≡ goes_on j s'
      → (ltb j max_dials ≡ true)
        × (event_listen e c i (before ++ rest) s ≡ event_listen e c j rest s')
  unfolding event_listen
  event_listen-append i j [] rest s s' h = elim (Bool-cases (ltb i max_dials)) [
    | inl on ↦
        let (m, t) = goes_on-injective i j s s' (rw on at h) in (rw (sym m) on, rw (m, t) refl)
    | inr over ↦ cc (rw over at h)
  ]
  event_listen-append i j (no_address ∷ before) rest s s' h = elim (Bool-cases (ltb i max_dials)) [
    | inl on ↦ cc (rw on at h)
    | inr over ↦ cc (rw over at h)
  ]
  event_listen-append i j (no_dial ∷ before) rest s s' h = elim (Bool-cases (ltb i max_dials)) [
    | inl on ↦ rw on (event_listen-append (i + 1) j before rest s s' (rw on at h))
    | inr over ↦ cc (rw over at h)
  ]
  event_listen-append i j (subscribed ts ∷ before) rest s s' h =
      elim (Bool-cases (ltb i max_dials)) [
        | inl on ↦ rw on (event_listen-append 1 j before rest (receive e c ts s) s' (rw on at h))
        | inr over ↦ cc (rw over at h)
      ]

  subscribed-resets :
      (j : ℕ) (ts : List Text) (rest : List Round) (s : e.State)
      → ltb j max_dials ≡ true
      → event_listen e c j (subscribed ts ∷ rest) s ≡ event_listen e c 1 rest (receive e c ts s)
  unfolding event_listen
  subscribed-resets j ts rest s on = rw on refl

  -- The listener gives up after 1000 dials in a row that fail, and after any fewer it goes on. But
  -- from a subscription on, at whatever round the listener has it, it gives up after 999 dials in a
  -- row that fail, and after any fewer it goes on: what it counted before is forgotten.
  pub event_listen-budget :
      (n j : ℕ) (ts : List Text) (before rounds : List Round) (s s' : e.State)
      → n < 999
      → event_listen e c 0 before s ≡ goes_on j s'
      → (event_listen e c 0 (failures 1000 ++ rounds) s ≡ gave_up s)
        × (event_listen e c 0 (failures (suc n)) s ≡ goes_on (suc n) s)
        × (event_listen e c 0 (before ++ subscribed ts ∷ (failures 999 ++ rounds)) s
            ≡ gave_up (receive e c ts s'))
        × (event_listen e c 0 (before ++ subscribed ts ∷ failures n) s
            ≡ goes_on (suc n) (receive e c ts s'))
  event_listen-budget n j ts before rounds s s' lt h = (
    failures-gave_up 1000 0 rounds s (omega arith),
    failures-goes_on (suc n) 0 (suc n) s (omega arith) (omega arith),
    resumed (failures 999 ++ rounds)
        (failures-gave_up 999 1 rounds (receive e c ts s') (omega arith)),
    resumed (failures n)
        (failures-goes_on n 1 (suc n) (receive e c ts s') (omega arith) (omega arith)),
  )
    where
      resumed :
          (rest : List Round) {l : Listening e.State}
          → event_listen e c 1 rest (receive e c ts s') ≡ l
          → event_listen e c 0 (before ++ subscribed ts ∷ rest) s ≡ l
      resumed rest k =
          let (on, same) = event_listen-append 0 j before (subscribed ts ∷ rest) s s' h in
          same ∙ subscribed-resets j ts rest s' on ∙ k

HasUuids-append :
    (ms : List EventModel) (m : EventModel)
    → HasUuids ms
    → Avoids m.uuid ms
    → HasUuids (ms ++ m ∷ [])
HasUuids-append ms m u a = go ms u a
  where
    Avoids-append :
        (k : Text) (xs : List EventModel)
        → Avoids k xs
        → has_uuid k m ≡ false
        → Avoids k (xs ++ m ∷ [])
    Avoids-append k [] a h = (h, tt)
    Avoids-append k (x ∷ xs) (b, a) h = (b, Avoids-append k xs a h)

    other : (k : Text) → text_eq k m.uuid ≡ false → text_eq m.uuid k ≡ false
    other k h = ground (arith, text_eq_iff k m.uuid, text_eq_iff m.uuid k)

    go : (xs : List EventModel) → HasUuids xs → Avoids m.uuid xs → HasUuids (xs ++ m ∷ [])
    go [] u a = (tt, tt)
    go (x ∷ xs) (b, u) (h, a) = (Avoids-append x.uuid xs b (other x.uuid h), go xs u a)

-- The keys are distinct and no event is a status of a RAID.
abbrev pub IsSound : List EventModel → Type 0
IsSound ms = HasUuids ms × All (λ m. text_eq m.name (bytes "local-storage:raid_status") ≡ false) ms

IsSound-append :
    (ms : List EventModel) (m : EventModel)
    → IsSound ms
    → Avoids m.uuid ms
    → text_eq m.name (bytes "local-storage:raid_status") ≡ false
    → IsSound (ms ++ m ∷ [])
IsSound-append ms m (u, h) a k = (HasUuids-append ms m u a, go ms h)
  where
    go :
        (xs : List EventModel)
        → All (λ x. text_eq x.name (bytes "local-storage:raid_status") ≡ false) xs
        → All (λ x. text_eq x.name (bytes "local-storage:raid_status") ≡ false) (xs ++ m ∷ [])
    go [] g = (k, tt)
    go (x ∷ xs) (g, gs) = (g, go xs gs)

abbrev pub state_of : {S : Type 0} → Listening S → S
state_of (returned s) = s
state_of (gave_up s) = s
state_of (goes_on i s) = s

module _ (e : Store) (c : Codec) (law : IsLawful e) where
  create_event-IsSound :
      (m : EventModel) (s : e.State)
      → text_eq m.name (bytes "local-storage:raid_status") ≡ false
      → IsSound (e.rows s)
      → IsSound (e.rows (create_event e c m s).1)
  unfolding create_event
  create_event-IsSound m s k h = elim (law.create-rows m s) [
    | inl same ↦ subst IsSound (sym same) h
    | inr (added, a) ↦ subst IsSound (sym added) (IsSound-append (e.rows s) m h a k)
  ]

  event_stored-IsSound :
      (source name uuid : Text) (properties : Option Text) (s : e.State)
      → IsSound (e.rows s)
      → IsSound (e.rows (event_stored e c source name uuid properties s))
  event_stored-IsSound source name uuid none s h = h
  event_stored-IsSound source name uuid (some properties) s h =
      elim (Bool-cases (text_eq name (bytes "local-storage:raid_status"))) [
        | inl raid ↦ rw raid h
        | inr other ↦ rw other (
            create_event-IsSound
              (record { source_id = source; name = name; properties = properties; uuid = uuid }) s
              other h)
      ]

  event_decoded-IsSound :
      (event : Option (Text × Text × Option Text × c.Properties)) (s : e.State)
      → IsSound (e.rows s)
      → IsSound (e.rows (event_decoded e c event s))
  event_decoded-IsSound none s h = h
  event_decoded-IsSound (some (source, name, none, properties)) s h = h
  event_decoded-IsSound (some (source, name, some uuid, properties)) s h =
      event_stored-IsSound source name uuid (c.marshal properties) s h

  receive-IsSound :
      (ts : List Text) (s : e.State) → IsSound (e.rows s) → IsSound (e.rows (receive e c ts s))
  unfolding receive
  receive-IsSound [] s h = h
  receive-IsSound (t ∷ ts) s h =
      receive-IsSound ts (event_decoded e c (c.unmarshal_event t) s)
        (event_decoded-IsSound (c.unmarshal_event t) s h)

  -- Whatever the listener meets, and wherever it then is, the keys of the table stay distinct and no
  -- status of a RAID is stored.
  pub event_listen-IsSound :
      (i : ℕ) (rounds : List Round) (s : e.State)
      → IsSound (e.rows s)
      → IsSound (e.rows (state_of (event_listen e c i rounds s)))
  unfolding event_listen
  event_listen-IsSound i [] s h = elim (Bool-cases (ltb i max_dials)) [
    | inl on ↦ rw on h
    | inr over ↦ rw over h
  ]
  event_listen-IsSound i (no_address ∷ rounds) s h = elim (Bool-cases (ltb i max_dials)) [
    | inl on ↦ rw on h
    | inr over ↦ rw over h
  ]
  event_listen-IsSound i (no_dial ∷ rounds) s h = elim (Bool-cases (ltb i max_dials)) [
    | inl on ↦ rw on (event_listen-IsSound (i + 1) rounds s h)
    | inr over ↦ rw over h
  ]
  event_listen-IsSound i (subscribed ts ∷ rounds) s h = elim (Bool-cases (ltb i max_dials)) [
    | inl on ↦ rw on (event_listen-IsSound 1 rounds (receive e c ts s) (receive-IsSound ts s h))
    | inr over ↦ rw over h
  ]

is_loopback-some : (o : Option Bool) → is_loopback o ≡ true → o ≡ some true
is_loopback-some none h = cc
is_loopback-some (some b) h = ap some h

is_loopback_host-cases :
    (parse_ip : Text → Option Bool) (host : Text)
    → is_loopback_host parse_ip host ≡ true
    → (host ≡ bytes "localhost") ⊎ (parse_ip host ≡ some true)
unfolding is_loopback_host
is_loopback_host-cases parse_ip host h = elim (Bool-cases (text_eq host (bytes "localhost"))) [
  | inl e ↦ inl ((text_eq_iff host (bytes "localhost")).0 e)
  | inr e ↦ inr (is_loopback-some (parse_ip host) (rw e at h))
]

-- The secret is sent with a dial only if there is one, and only to "localhost" or to an address
-- that is a loopback address.
pub dial_message_bus-loopback :
    (parse_ip : Text → Option Bool) (authorization host header : Text)
    → dial_message_bus parse_ip authorization (some host) ≡ some (some header)
    → (header ≡ authorization)
      × (is_empty authorization ≡ false)
      × ((host ≡ bytes "localhost") ⊎ (parse_ip host ≡ some true))
unfolding dial_message_bus
dial_message_bus-loopback parse_ip authorization host header h =
    elim (Bool-cases (not (is_empty authorization) && is_loopback_host parse_ip host)) [
      | inl sent ↦
          (cc (rw sent at h), ground arith, is_loopback_host-cases parse_ip host (ground arith))
      | inr bare ↦ cc (rw bare at h)
    ]
