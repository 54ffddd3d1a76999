-- ===== src/Ingester/Reorder.antt =====
-- services/telemetry-ingester/reorder_buffer.go. The mutex makes an addition and the taking of the
-- pending events atomic; a tick or the stop of `Run` is one `flush`, whose batch goes to `flushFn`.
pub mod Batches
use alpha_exchange.Base.{
  if◌then◌else◌, is_empty, List, [], ◌∷◌, ◌++◌, Option, none, some, sort_stable,
}
use alpha_exchange.Ingester.Validator.{TelemetryEvent, earlier}

pub record ReorderBuffer : Type 0 where
  pub pending : List TelemetryEvent

unfoldable pub new_reorder_buffer : ReorderBuffer
new_reorder_buffer = record { pending = [] }

unfoldable pub add : TelemetryEvent → ReorderBuffer → ReorderBuffer
add e rb = record { pending = rb.pending ++ (e ∷ []) }

-- The buffer, and the batch that `flushFn` gets, if it is called.
unfoldable pub flush : ReorderBuffer → ReorderBuffer × Option (List TelemetryEvent)
unfolding earlier sort_stable
flush rb =
    if is_empty rb.pending
    then (rb, none)
    else (record { pending = [] }, some (sort_stable earlier rb.pending))
