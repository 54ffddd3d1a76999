-- ===== src/Ingester/Offsets.antt =====
-- services/telemetry-ingester/kafka/offset_tracker.go. The map is a list of pairs with one pair a
-- partition; a missing key reads as 0.
pub mod Marks
use alpha_exchange.Base.{ℕ, ◌==◌, ltb, if◌then◌else◌, List, [], ◌∷◌}

-- The map `pending` of an OffsetTracker.
pub record OffsetTracker : Type 0 where
  pub pending : List (ℕ × ℕ)

unfoldable pub new_offset_tracker : OffsetTracker
new_offset_tracker = record { pending = [] }

-- The read `t.pending[partition]`.
unfoldable pub offset_of : ℕ → List (ℕ × ℕ) → ℕ
offset_of partition [] = 0
offset_of partition (entry ∷ rest) =
    if entry.0 == partition then entry.1 else offset_of partition rest

-- The write `t.pending[partition] = offset`.
unfoldable pub set_offset : ℕ → ℕ → List (ℕ × ℕ) → List (ℕ × ℕ)
set_offset partition offset [] = (partition, offset) ∷ []
set_offset partition offset (entry ∷ rest) =
    let others = set_offset partition offset rest in
    if entry.0 == partition then (partition, offset) ∷ rest else entry ∷ others

unfoldable pub mark_processed : ℕ → ℕ → OffsetTracker → OffsetTracker
unfolding offset_of set_offset
mark_processed partition offset t =
    if ltb (offset_of partition t.pending) offset
    then record { pending = set_offset partition offset t.pending }
    else t

-- The method `Snapshot`: the map, and the tracker with an empty one.
unfoldable pub snapshot : OffsetTracker → OffsetTracker × List (ℕ × ℕ)
snapshot t = (record { pending = [] }, t.pending)
