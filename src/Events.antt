-- ===== src/Events.antt =====
-- backend-core/src/common/events/event-publisher.service.ts: business events on the Redis stream.
-- The log line of a failed publication is not modelled.
use skillhunt.Common.{String, List, [], ◌∷◌}
use skillhunt.Redis.{Redis}

pub data DomainEventType : Type 0 where
  gear_validated gear_rejected freelance_updated : DomainEventType

-- The enum's strings.
abbrev pub type_name : DomainEventType → String
type_name gear_validated = "gear.validated"
type_name gear_rejected = "gear.rejected"
type_name freelance_updated = "freelance.updated"

-- The loop over `Object.entries(payload)`.
abbrev pub flat_fields : List (String × String) → List String
flat_fields [] = []
flat_fields ((key, value) ∷ payload) = key ∷ value ∷ flat_fields payload

abbrev pub event_fields : DomainEventType → List (String × String) → List String
event_fields type payload = "type" ∷ type_name type ∷ flat_fields payload

-- Best effort: a rejected XADD is caught, so the caller goes on either way.
unfoldable pub publish : {R : Type 0} → Redis R → DomainEventType → List (String × String) → R → R
publish redis type payload s = (redis.xadd (event_fields type payload) s).1
