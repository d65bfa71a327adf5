-- ===== src/Booking/Idempotency.antt =====
-- `_idempotent_order`: the order that an earlier request with the same key made.
use ioka.Prelude.{String, Bool, Option, none, some, not, ◌==◌, ◌&&◌, if◌then◌else◌}
use ioka.Prelude.Rows.{scalar}
use ioka.Models.{Db, Order, IdempotencyRecord, order_by_id}
use ioka.Exceptions.{Result, ok, err, error, conflict}

-- the three columns of `uq_idempotency_scope_key`
abbrev pub recorded : String → String → String → IdempotencyRecord → Bool
recorded agent_id scope key r = r.agent_id == agent_id && (r.scope == scope && r.key == key)

unfoldable pub replayed : String → Db → Option IdempotencyRecord → Result (Option Order)
replayed payload_hash db none = ok none
replayed payload_hash db (some r) =
    if not (r.request_hash == payload_hash)
    then err (error conflict "Idempotency key was already used with a different request")
    else ok (scalar (order_by_id r.resource_id) db.orders)

unfoldable pub idempotent_order : String → String → String → String → Db → Result (Option Order)
unfolding replayed
idempotent_order agent_id scope key payload_hash db =
    replayed payload_hash db (scalar (recorded agent_id scope key) db.idempotency_records)
