-- ===== src/Server/Second.antt =====
-- The routers of route/v2.go: the events behind the same middleware, and the documents. The check of
-- a request against the OpenAPI document is a parameter: the status and message of a refusal.
use casa_os_user_service.Common.{ℕ, Option, none, some, List, [], ◌∷◌, ◌++◌, if◌then◌else◌}
use casa_os_user_service.Common.Text.{Text, bytes, text_eq}
use casa_os_user_service.Events.{
  EventModel, Store, Codec, delete_event_handler, get_events_handler,
  delete_event_by_serial_handler,
}
use casa_os_user_service.Route.{Deps}
use casa_os_user_service.Server.{
  Admission, skipped, admitted, refused, Gate, Request, parse_token_func,
}

-- The operations of the OpenAPI document.
pub data Operation : Type 0 where
  list_events : Operation
  remove_event remove_by_serial : Text → Operation

-- The body of a reply with status 200, or a refusal.
pub data Answer : Type 0 where
  events : List EventModel → Answer
  event : EventModel → Answer
  serial : Text → Answer
  denied : ℕ → Text → Answer

module _ (d : Deps) (gate : Gate d) (e : Store) (c : Codec) where
  -- The token of the query is not looked at here.
  unfoldable pub admission_v2 : Request → Admission d.jwt.Claims
  unfolding parse_token_func
  admission_v2 r =
      gate.jwt_middleware (gate.is_internal_request r.real_ip r.authorization)
        (gate.token_from_authorization r.authorization ∷ []) (parse_token_func d gate r.now)

  abbrev pub operate : Operation → e.State → Answer × e.State
  operate list_events s = (events (get_events_handler e c s).0, (get_events_handler e c s).1)
  operate (remove_event uuid) s =
      (event (delete_event_handler e c uuid s).0, (delete_event_handler e c uuid s).1)
  operate (remove_by_serial which) s = (
    serial (delete_event_by_serial_handler e c which s).0,
    (delete_event_by_serial_handler e c which s).1,
  )

  abbrev pub checked : Option (ℕ × Text) → Operation → e.State → Answer × e.State
  checked none operation s = operate operation s
  checked (some (code, why)) operation s = (denied code why, s)

  abbrev pub behind_gate_v2 :
      Admission d.jwt.Claims → Option (ℕ × Text) → Operation → e.State → Answer × e.State
  behind_gate_v2 skipped invalid operation s = checked invalid operation s
  behind_gate_v2 (admitted claims) invalid operation s = checked invalid operation s
  behind_gate_v2 (refused code why) invalid operation s = (denied code why, s)

  unfoldable pub serve_v2 : Request → Option (ℕ × Text) → Operation → e.State → Answer × e.State
  serve_v2 r invalid operation s = behind_gate_v2 (admission_v2 r) invalid operation s

-- `InitV2DocRouter`: what is written for a path, if anything.
unfoldable pub init_v2_doc_router : Text → Text → Text → Text → Option Text
init_v2_doc_router v2_doc_path doc_html doc_yaml path =
    if text_eq path v2_doc_path
    then some doc_html
    else if text_eq path (v2_doc_path ++ bytes "/openapi.yaml")
    then some doc_yaml
    else none
