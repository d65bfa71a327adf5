-- ===== src/Domain/Enums.antt =====
-- app/domain/enums.py, with the comparisons that the services make. A `StrEnum` compares by its
-- text, and the texts of one enumeration differ, so a comparison is one of constructors.
use ioka.Prelude.{Bool, true, false, String}

pub data SearchStatus : Type 0 where
  pending in_progress completed failed timed_out : SearchStatus

pub data OrderStatus : Type 0 where
  booked issuing issued cancelled : OrderStatus

pub data PaymentStatus : Type 0 where
  held captured released : PaymentStatus

pub data AuditKind : Type 0 where
  provider_request status_change : AuditKind

abbrev pub is_issued : OrderStatus → Bool
is_issued issued = true
is_issued _ = false

abbrev pub is_held : PaymentStatus → Bool
is_held held = true
is_held _ = false

abbrev pub is_released : PaymentStatus → Bool
is_released released = true
is_released _ = false

-- `search.status in final_statuses`
abbrev pub is_final : SearchStatus → Bool
is_final completed = true
is_final failed = true
is_final timed_out = true
is_final _ = false

-- The texts of the members, which the audit rows hold.
abbrev pub search_text : SearchStatus → String
search_text pending = "PENDING"
search_text in_progress = "IN_PROGRESS"
search_text completed = "COMPLETED"
search_text failed = "FAILED"
search_text timed_out = "TIMED_OUT"

abbrev pub order_text : OrderStatus → String
order_text booked = "BOOKED"
order_text issuing = "ISSUING"
order_text issued = "ISSUED"
order_text cancelled = "CANCELLED"
