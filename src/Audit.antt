-- ===== src/Audit.antt =====
-- app/infrastructure/audit.py: the two kinds of audit rows that a session adds.
use ioka.Prelude.{ℕ, String, Option, none, some, [], ◌∷◌, ◌++◌}
use ioka.Json.{Json, Fields, null, text, nil, field}
use ioka.Domain.Enums.{provider_request, status_change}
use ioka.Models.{Db, AuditLog}

abbrev pub text_or_null : Option String → Json
text_or_null none = null
text_or_null (some s) = text s

-- The arguments are entity_type, entity_id, action, before and after.
unfoldable pub add_status_audit : String → String → String → Option String → String → Db → Db
add_status_audit entity_type entity_id action before after db = record db {
  audit_logs = db.audit_logs ++ row ∷ [];
}
  where
    row : AuditLog
    row = record {
      kind = status_change;
      action = action;
      entity_type = entity_type;
      entity_id = entity_id;
      request_payload = some (field "before" (text_or_null before) nil);
      response_payload = some (field "after" (text after) nil);
      status_code = some 200;
      duration_ms = none;
      error_message = none;
    }

-- The keyword arguments of `add_provider_audit`.
pub record ProviderCall : Type 0 where
  pub action : String
  pub entity_type : String
  pub entity_id : String
  pub request_payload : Fields
  pub response_payload : Option Fields
  pub duration_ms : ℕ
  pub status_code : ℕ
  pub error_message : Option String

unfoldable pub add_provider_audit : ProviderCall → Db → Db
add_provider_audit c db = record db { audit_logs = db.audit_logs ++ row ∷ [] }
  where
    row : AuditLog
    row = record {
      kind = provider_request;
      action = c.action;
      entity_type = c.entity_type;
      entity_id = c.entity_id;
      request_payload = some c.request_payload;
      response_payload = c.response_payload;
      status_code = some c.status_code;
      duration_ms = some c.duration_ms;
      error_message = c.error_message;
    }
