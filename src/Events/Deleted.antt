-- ===== src/Events/Deleted.antt =====
-- `DeleteEventBySerial` deletes one row at a time what it would delete at once.
use casa_os_user_service.Common.{
  ◌≡◌, refl, sym, ap, ◌∙◌, Bool, false, ◌&&◌, ◌||◌, List, [], ◌∷◌, All, reject, if◌then◌else◌,
  arith, Bool-cases, inl, inr,
}
use casa_os_user_service.Common.Text.{Text, text_eq, text_eq_refl, text_eq_iff}
use casa_os_user_service.Events.{
  EventModel, Store, Codec, Avoids, HasUuids, has_uuid, matches, delete_each,
  delete_event_by_serial,
}

module _ (c : Codec) (serial : Text) where
  -- The row has the key of a row of the list that matches.
  abbrev pub doomed : List EventModel → EventModel → Bool
  doomed [] m = false
  doomed (v ∷ vs) m = (matches c serial v && has_uuid v.uuid m) || doomed vs m

  doomed-Avoids : (m : EventModel) (vs : List EventModel) → Avoids m.uuid vs → doomed vs m ≡ false
  unfolding text_eq
  doomed-Avoids m [] a = refl
  doomed-Avoids m (v ∷ vs) (h, a) =
      ground (arith, doomed-Avoids m vs a, text_eq_iff v.uuid m.uuid, text_eq_iff m.uuid v.uuid)

  doomed_tail :
      (v : EventModel) (vs ms : List EventModel)
      → Avoids v.uuid ms
      → All (λ m. doomed vs m ≡ matches c serial m) ms
      → All (λ m. doomed (v ∷ vs) m ≡ matches c serial m) ms
  doomed_tail v vs [] a h = tt
  doomed_tail v vs (m ∷ ms) (a, as') (h, hs) = (ground arith, doomed_tail v vs ms as' hs)

  -- Among rows with distinct keys only the rows that match have the key of one that matches.
  doomed-matches :
      (ms : List EventModel) → HasUuids ms → All (λ m. doomed ms m ≡ matches c serial m) ms
  doomed-matches [] u = tt
  doomed-matches (m ∷ ms) (a, u) = (
    ground (arith, doomed-Avoids m ms a, text_eq_refl m.uuid),
    doomed_tail m ms ms a (doomed-matches ms u),
  )

reject-cong :
    (p q : EventModel → Bool) (ms : List EventModel)
    → All (λ m. p m ≡ q m) ms
    → reject p ms ≡ reject q ms
reject-cong p q [] h = refl
reject-cong p q (m ∷ ms) (h, hs) = ground (arith, reject-cong p q ms hs)

reject-ext :
    (p q : EventModel → Bool)
    → ((m : EventModel) → p m ≡ q m)
    → (ms : List EventModel) → reject p ms ≡ reject q ms
reject-ext p q h [] = refl
reject-ext p q h (m ∷ ms) = ground (arith, h m, reject-ext p q h ms)

reject-reject :
    (p q : EventModel → Bool) (ms : List EventModel)
    → reject p (reject q ms) ≡ reject (λ m. q m || p m) ms
reject-reject p q [] = refl
reject-reject p q (m ∷ ms) = ground (arith, reject-reject p q ms)

reject-false : (ms : List EventModel) → reject (λ m. false) ms ≡ ms
reject-false [] = refl
reject-false (m ∷ ms) = ap (λ (t : List EventModel). m ∷ t) (reject-false ms)

module _ (e : Store) (c : Codec) where
  -- No statement fails.
  pub record IsReliable : Type 0 where
    pub find_all-rows : (s : e.State) → e.find_all s ≡ e.rows s
    pub delete_row-rows :
        (m : EventModel) (s : e.State)
        → e.rows (e.delete_row m s) ≡ reject (has_uuid m.uuid) (e.rows s)

  delete_each-rows :
      (serial : Text) (vs : List EventModel) (s : e.State)
      → IsReliable
      → e.rows (delete_each e c serial vs s) ≡ reject (doomed c serial vs) (e.rows s)
  unfolding delete_each
  delete_each-rows serial [] s sure = sym (reject-false (e.rows s))
  delete_each-rows serial (v ∷ vs) s sure = elim (Bool-cases (matches c serial v)) [
    | inl hit ↦ rw (ap (λ b. if b then e.delete_row v s else s) hit) (
        delete_each-rows serial vs (e.delete_row v s) sure
        ∙ ap (reject (doomed c serial vs)) (sure.delete_row-rows v s)
        ∙ reject-reject (doomed c serial vs) (has_uuid v.uuid) (e.rows s)
        ∙ reject-ext (λ m. has_uuid v.uuid m || doomed c serial vs m) (doomed c serial (v ∷ vs))
            (λ m. rw hit refl) (e.rows s))
    | inr miss ↦ rw (ap (λ b. if b then e.delete_row v s else s) miss) (
        delete_each-rows serial vs s sure
        ∙ reject-ext (doomed c serial vs) (doomed c serial (v ∷ vs)) (λ m. rw miss refl) (e.rows s))
  ]

  -- On a table whose keys are distinct, if no statement fails, exactly the events of local storage
  -- whose properties are an object of texts with this serial are deleted, and the others stay in
  -- their order.
  pub delete_event_by_serial-reject :
      (serial : Text) (s : e.State)
      → IsReliable
      → HasUuids (e.rows s)
      → e.rows (delete_event_by_serial e c serial s) ≡ reject (matches c serial) (e.rows s)
  unfolding delete_event_by_serial
  delete_event_by_serial-reject serial s sure u = rw (sure.find_all-rows s) (
      delete_each-rows serial (e.rows s) s sure
      ∙ reject-cong (doomed c serial (e.rows s)) (matches c serial) (e.rows s)
          (doomed-matches c serial (e.rows s) u))
