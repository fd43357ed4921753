-- ===== src/Orchestration/EventDispatcher.antt =====
-- packages/runtime/src/orchestration/event-dispatcher/index.ts: the handlers of an event, the store of
-- the events, and the check of its chain. A handler answers the message of what it throws, or none.
use Prim.Native.String.{◌++◌ as join}
use sovr_protocol.Prelude.{
  ℕ, suc, String, Bool, true, false, Option, none, some, List, [], ◌∷◌, ◌++◌, ◌==◌, select,
  or_default, if◌then◌else◌,
}
use sovr_protocol.Prelude.Maps.{Map, insert, lookup}
use sovr_protocol.Orchestration.{SovrEvent}

abbrev pub Handler : Type 0
Handler = SovrEvent → Option String

pub data EventStatus : Type 0 where
  created dispatched processed replayed : EventStatus

pub record DispatchResult : Type 0 where
  pub event_id : String
  pub status : EventStatus
  pub handlers_invoked : ℕ
  pub errors : List String

pub record EventDispatcher : Type 0 where
  pub handlers : Map (List Handler)
  pub events : List SovrEvent
  pub dispatch_log : List DispatchResult

unfoldable pub new_dispatcher : EventDispatcher
new_dispatcher = record { handlers = []; events = []; dispatch_log = [] }

unfoldable pub handlers_of : EventDispatcher → String → List Handler
handlers_of d event_type = or_default (lookup event_type d.handlers) []

unfoldable pub register_handler : String → Handler → EventDispatcher → EventDispatcher
register_handler event_type handler d = record d {
  handlers = insert event_type (handlers_of d event_type ++ handler ∷ []) d.handlers;
}

-- How many handlers returned, and what the others threw, in order.
unfoldable pub invoke : SovrEvent → List Handler → ℕ × List String
invoke e [] = (0, [])
invoke e (handler ∷ hs) =
    let (invoked, errors) = invoke e hs in
    elim (handler e) [ none ↦ (suc invoked, errors) | some message ↦ (invoked, message ∷ errors) ]

abbrev status_of : List String → EventStatus
status_of [] = dispatched
status_of (_ ∷ _) = processed

unfoldable pub dispatch : SovrEvent → EventDispatcher → DispatchResult × EventDispatcher
dispatch e d =
    let (invoked, errors) = invoke e (handlers_of d e.event_type) in
    let result : DispatchResult = record {
      event_id = e.event_id;
      status = status_of errors;
      handlers_invoked = invoked;
      errors = errors;
    } in
    (result, record d { events = d.events ++ e ∷ []; dispatch_log = d.dispatch_log ++ result ∷ [] })

unfoldable pub dispatch_many :
    List SovrEvent → EventDispatcher → List DispatchResult × EventDispatcher
dispatch_many [] d = ([], d)
dispatch_many (e ∷ es) d =
    let (result, d') = dispatch e d in
    let (results, d'') = dispatch_many es d' in (result ∷ results, d'')

unfoldable pub get_events_by_command : EventDispatcher → String → List SovrEvent
get_events_by_command d id = select (λ e. e.command_id == id) d.events

unfoldable pub get_events_by_domain : EventDispatcher → String → List SovrEvent
get_events_by_domain d domain = select (λ e. e.source_domain == domain) d.events

-- The links of `prev` with what follows it that do not fit.
unfoldable pub broken_after : SovrEvent → List SovrEvent → List String
broken_after prev [] = []
broken_after prev (curr ∷ es) =
    let rest = broken_after curr es in
    if curr.previous_hash == prev.event_hash
    then rest
    else join prev.event_id (join " -> " curr.event_id) ∷ rest

unfoldable pub broken_links : List SovrEvent → List String
broken_links [] = []
broken_links (e ∷ es) = broken_after e es

abbrev is_empty : List String → Bool
is_empty [] = true
is_empty (_ ∷ _) = false

unfoldable pub validate_chain : EventDispatcher → Bool × List String
validate_chain d = let broken = broken_links d.events in (is_empty broken, broken)
