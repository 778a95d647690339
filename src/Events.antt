-- ===== src/Events.antt =====
-- The events of local storage: model/event.go, service/event.go, the handlers of
-- route/v2/api_route_event.go and the listener of route/event_listen.go.
--
-- `Store` is what service/event.go calls of gorm, with what is documented of it as laws. The time
-- stamp of an event is read by nothing here and is left out.
pub mod Deleted
pub mod Listened
use casa_os_user_service.Common.{
  ℕ, zero, suc, ◌+◌, ◌≡◌, ◌≢◌, ◌⊎◌, Bool, true, false, not, ◌&&◌, ◌||◌, Option, none, some, List,
  [], ◌∷◌, ◌++◌, All, ltb, reject, find, if◌then◌else◌,
}
use casa_os_user_service.Common.Text.{Text, bytes, text_eq, is_empty}

pub record EventModel : Type 0 where
  pub uuid : Text
  pub source_id : Text
  pub name : Text
  pub properties : Text

abbrev pub zero_event : EventModel
zero_event = record { uuid = []; source_id = []; name = []; properties = [] }

pub record Store : Type 1 where
  pub State : Type 0
  -- The table, a means of stating the laws.
  pub rows : State → List EventModel
  pub create : EventModel → State → State
  pub find_all : State → List EventModel
  -- Where("uuid = ?", uuid).First
  pub first : Text → State → Option EventModel
  -- Where("uuid = ?", uuid).Delete
  pub delete_where : Text → State → State
  -- Delete(&v), by the primary key of the row
  pub delete_row : EventModel → State → State

abbrev pub has_uuid : Text → EventModel → Bool
has_uuid uuid m = text_eq m.uuid uuid

abbrev pub Avoids : Text → List EventModel → Type 0
Avoids uuid = All (λ m. has_uuid uuid m ≡ false)

-- The primary keys are distinct.
abbrev pub HasUuids : List EventModel → Type 0
HasUuids [] = Unit {0}
HasUuids (m ∷ ms) = Avoids m.uuid ms × HasUuids ms

module _ (e : Store) where
  pub record IsLawful : Type 0 where
    -- A key that is taken, or an error, leaves the table as it is.
    pub create-rows :
        (m : EventModel) (s : e.State)
        → (e.rows (e.create m s) ≡ e.rows s)
          ⊎ ((e.rows (e.create m s) ≡ e.rows s ++ m ∷ []) × Avoids m.uuid (e.rows s))
    pub delete_where-rows :
        (uuid : Text) (s : e.State)
        → (e.rows (e.delete_where uuid s) ≡ e.rows s)
          ⊎ (e.rows (e.delete_where uuid s) ≡ reject (has_uuid uuid) (e.rows s))
    pub delete_row-rows :
        (m : EventModel) (s : e.State)
        → (e.rows (e.delete_row m s) ≡ e.rows s)
          ⊎ (e.rows (e.delete_row m s) ≡ reject (has_uuid m.uuid) (e.rows s))

-- The codecs of encoding/json that the service and the listener use: an object of texts, read as
-- the empty text at a missing key, and the events of the message bus.
pub record Codec : Type 1 where
  pub Properties : Type 0
  pub unmarshal_texts : Text → Option (Text → Text)
  -- source, name, uuid if any, properties
  pub unmarshal_event : Text → Option (Text × Text × Option Text × Properties)
  pub marshal : Properties → Option Text

abbrev pub serial_matches : Text → Option (Text → Text) → Bool
serial_matches serial none = false
serial_matches serial (some properties) = text_eq (properties (bytes "serial")) serial

-- The rows that `DeleteEventBySerial` deletes.
unfoldable pub matches : Codec → Text → EventModel → Bool
matches c serial m =
    text_eq m.source_id (bytes "local-storage")
    && serial_matches serial (c.unmarshal_texts m.properties)

module _ (e : Store) (c : Codec) where
  unfoldable pub create_event : EventModel → e.State → EventModel × e.State
  create_event m s = (m, e.create m s)

  unfoldable pub get_events : e.State → List EventModel
  get_events s = e.find_all s

  abbrev pub event_or_zero : Option EventModel → EventModel
  event_or_zero none = zero_event
  event_or_zero (some m) = m

  unfoldable pub get_event_by_uuid : Text → e.State → EventModel
  get_event_by_uuid uuid s = event_or_zero (e.first uuid s)

  unfoldable pub delete_event : Text → e.State → e.State
  delete_event uuid s = e.delete_where uuid s

  unfoldable pub delete_each : Text → List EventModel → e.State → e.State
  unfolding matches
  delete_each serial [] s = s
  delete_each serial (m ∷ ms) s =
      delete_each serial ms (if matches c serial m then e.delete_row m s else s)

  unfoldable pub delete_event_by_serial : Text → e.State → e.State
  unfolding delete_each
  delete_event_by_serial serial s = delete_each serial (e.find_all s) s

  -- `DeleteEvent`, `GetEvents` and `DeleteEventBySerial` of route/v2: what they reply with status
  -- 200, and the table afterwards.
  unfoldable pub delete_event_handler : Text → e.State → EventModel × e.State
  delete_event_handler uuid s = (get_event_by_uuid uuid s, delete_event uuid s)

  unfoldable pub get_events_handler : e.State → List EventModel × e.State
  get_events_handler s = (get_events s, s)

  unfoldable pub delete_event_by_serial_handler : Text → e.State → Text × e.State
  delete_event_by_serial_handler serial s = (serial, delete_event_by_serial serial s)

  -- The listener.
  abbrev pub raid_status : Text
  raid_status = bytes "local-storage:raid_status"

  abbrev pub event_stored : Text → Text → Text → Option Text → e.State → e.State
  event_stored source name uuid none s = s
  event_stored source name uuid (some properties) s =
      if text_eq name raid_status
      then s
      else (create_event
          (record { source_id = source; name = name; properties = properties; uuid = uuid }) s).1

  -- What is no event, or has no UUID, is passed over.
  abbrev pub event_decoded : Option (Text × Text × Option Text × c.Properties) → e.State → e.State
  event_decoded none s = s
  event_decoded (some (source, name, none, properties)) s = s
  event_decoded (some (source, name, some uuid, properties)) s =
      event_stored source name uuid (c.marshal properties) s

  -- The messages of one subscription, until it is lost.
  unfoldable pub receive : List Text → e.State → e.State
  receive [] s = s
  receive (t ∷ ts) s = receive ts (event_decoded (c.unmarshal_event t) s)

-- What one round of the listener meets: no address of the message bus, a dial that fails, or a
-- subscription with its messages.
pub data Round : Type 0 where
  no_address no_dial : Round
  subscribed : List Text → Round

-- Where the listener is after some rounds: it returned, it gave up, or it goes on.
pub data Listening (S : Type 0) : Type 0 where
  returned gave_up : S → Listening S
  goes_on : ℕ → S → Listening S

abbrev pub max_dials : ℕ
max_dials = 1000

module _ (e : Store) (c : Codec) where
  -- A subscription sets the counter to 0, and the end of the round adds 1 to it.
  unfoldable pub event_listen : ℕ → List Round → e.State → Listening e.State
  event_listen i [] s = if ltb i max_dials then goes_on i s else gave_up s
  event_listen i (no_address ∷ rounds) s = if ltb i max_dials then returned s else gave_up s
  event_listen i (no_dial ∷ rounds) s =
      let rest = event_listen (i + 1) rounds s in if ltb i max_dials then rest else gave_up s
  event_listen i (subscribed ts ∷ rounds) s =
      let rest = event_listen (0 + 1) rounds (receive e c ts s) in
      if ltb i max_dials then rest else gave_up s

abbrev pub is_loopback : Option Bool → Bool
is_loopback none = false
is_loopback (some loopback) = loopback

-- `isLoopbackHost`, over net.ParseIP and IsLoopback: none if the host is no address.
unfoldable pub is_loopback_host : (Text → Option Bool) → Text → Bool
is_loopback_host parse_ip host = text_eq host (bytes "localhost") || is_loopback (parse_ip host)

-- `dialMessageBus`: the Authorization header that the dial is made with, if any, from the secret
-- and the host of the URL; none at all if the URL is refused.
unfoldable pub dial_message_bus : (Text → Option Bool) → Text → Option Text → Option (Option Text)
dial_message_bus parse_ip authorization none = none
dial_message_bus parse_ip authorization (some host) = some (
    if not (is_empty authorization) && is_loopback_host parse_ip host
    then some authorization
    else none)
