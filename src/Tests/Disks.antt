-- ===== src/Tests/Disks.antt =====
-- A table of events in memory, and the listener and the deletion by serial on it.
use casa_os_user_service.Common.{
  suc, ◌≡◌, refl, Bool, true, false, some, List, [], ◌∷◌, ◌++◌, find, reject, arith, if◌then◌else◌,
}
use casa_os_user_service.Common.Text.{Text, bytes, text_eq}
use casa_os_user_service.Events.{
  EventModel, Store, Codec, HasUuids, has_uuid, matches, delete_event_by_serial, receive,
  subscribed, goes_on, gave_up, event_listen,
}
use casa_os_user_service.Events.Deleted.{IsReliable, delete_event_by_serial-reject}
use casa_os_user_service.Events.Listened.{failures, event_listen-budget}

abbrev is_taken : Text → List EventModel → Bool
is_taken uuid [] = false
is_taken uuid (m ∷ ms) = if has_uuid uuid m then true else is_taken uuid ms

abbrev store : Store
store = record {
  State = List EventModel;
  rows = λ s. s;
  create = λ m s. if is_taken m.uuid s then s else s ++ m ∷ [];
  find_all = λ s. s;
  first = λ uuid s. find (has_uuid uuid) s;
  delete_where = λ uuid s. reject (has_uuid uuid) s;
  delete_row = λ m s. reject (has_uuid m.uuid) s;
}

-- The properties are the serial, and an event is its UUID.
abbrev codec : Codec
codec = record {
  Properties = Text;
  unmarshal_texts = λ t. some (λ key. t);
  unmarshal_event = λ t. some (bytes "local-storage", bytes "local-storage:added", some t, t);
  marshal = λ t. some t;
}

store-IsReliable : IsReliable store codec
store-IsReliable = record { find_all-rows = λ s. refl; delete_row-rows = λ m s. refl }

abbrev disk : Text → Text → EventModel
disk uuid serial = record {
  uuid = uuid;
  source_id = bytes "local-storage";
  name = bytes "local-storage:added";
  properties = serial;
}

abbrev disks : List EventModel
disks =
    disk (bytes "a") (bytes "S1")
    ∷ disk (bytes "b") (bytes "S2")
    ∷ disk (bytes "c") (bytes "S1")
    ∷ []

disks-HasUuids : HasUuids disks
unfolding text_eq
disks-HasUuids = ((refl, (refl, tt)), ((refl, tt), (tt, tt)))

delete_event_by_serial-reject_example :
    delete_event_by_serial store codec (bytes "S1") disks
    ≡ reject (matches codec (bytes "S1")) disks
delete_event_by_serial-reject_example =
    delete_event_by_serial-reject store codec (bytes "S1") disks store-IsReliable disks-HasUuids

event_listen-budget_example :
    (event_listen store codec 0 (failures 1000 ++ []) [] ≡ gave_up [])
    × (event_listen store codec 0 (failures (suc 2)) [] ≡ goes_on (suc 2) [])
    × (event_listen store codec 0
          (failures 3 ++ subscribed (bytes "a" ∷ []) ∷ (failures 999 ++ []))
          []
        ≡ gave_up (receive store codec (bytes "a" ∷ []) []))
    × (event_listen store codec 0 (failures 3 ++ subscribed (bytes "a" ∷ []) ∷ failures 2) []
        ≡ goes_on (suc 2) (receive store codec (bytes "a" ∷ []) []))
unfolding event_listen
event_listen-budget_example =
    event_listen-budget store codec 2 3 (bytes "a" ∷ []) (failures 3) [] [] [] (omega arith) refl
