-- ===== src/Ingester/Offsets/Marks.antt =====
-- What the tracker hands out after some messages.
use alpha_exchange.Base.{ℕ, ◌≡◌, refl, ◌==◌, ltb, if◌then◌else◌, List, [], ◌∷◌, arith, ◌∙◌}
use alpha_exchange.Ingester.Offsets.{
  OffsetTracker, new_offset_tracker, offset_of, set_offset, mark_processed, snapshot,
}

-- The tracker after messages, each a partition and an offset, the latest first.
unfoldable pub after : List (ℕ × ℕ) → OffsetTracker
after [] = new_offset_tracker
after (m ∷ earlier) = mark_processed m.0 m.1 (after earlier)

-- The highest offset of a partition's messages, and 0 without any.
unfoldable pub highest : ℕ → List (ℕ × ℕ) → ℕ
highest partition [] = 0
highest partition (m ∷ earlier) =
    let best = highest partition earlier in
    if m.0 == partition then (if ltb best m.1 then m.1 else best) else best

offset_of-set_offset :
    (p q offset : ℕ) (entries : List (ℕ × ℕ))
    → offset_of q (set_offset p offset entries) ≡ (if p == q then offset else offset_of q entries)
unfolding offset_of set_offset
offset_of-set_offset p q offset [] = ground arith
offset_of-set_offset p q offset (e ∷ es) = ground (arith, offset_of-set_offset p q offset es)

mark_processed-offset :
    (p q offset : ℕ) (t : OffsetTracker)
    → offset_of q (mark_processed p offset t).pending ≡ (
        if p == q
        then (if ltb (offset_of q t.pending) offset then offset else offset_of q t.pending)
        else offset_of q t.pending)
unfolding mark_processed
mark_processed-offset p q offset t = ground (arith, offset_of-set_offset p q offset t.pending)

-- In whatever order messages are marked, the snapshot reads for each partition the highest offset
-- marked, and the tracker is empty after it.
pub snapshot-highest :
    (ms : List (ℕ × ℕ)) (q : ℕ)
    → (offset_of q (snapshot (after ms)).1 ≡ highest q ms)
      × ((snapshot (after ms)).0 ≡ new_offset_tracker)
unfolding snapshot after highest new_offset_tracker offset_of
snapshot-highest [] q = (refl, refl)
snapshot-highest (m ∷ ms) q =
    (mark_processed-offset m.0 q m.1 (after ms) ∙ ground (arith, (snapshot-highest ms q).0), refl)
