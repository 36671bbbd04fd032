-- ===== src/Stream/Invariant.antt =====
-- The outbox stays ordered: ids rise from above the pruned part up to the sequence.
use j_messenger.Common.{
  ℕ, suc, ◌≤◌, ◌<◌, ◌≡◌, refl, List, [], ◌∷◌, ◌++◌, some, String, arith, leb, if◌then◌else◌, delete,
  Bool-cases, inl, inr,
}
use j_messenger.Common.Results.{ok}
use j_messenger.Stream.{
  EventAppend, EventRow, Stream, append, prune_events, consumer_position, upsert_position,
  advance_consumer_position,
}

-- The ids rise strictly from above `lo` and end at or below `hi`.
abbrev pub Between : ℕ → List EventRow → ℕ → Type 0
Between lo [] hi = lo ≤ hi
Between lo (r ∷ rs) hi = (lo < r.id) × Between r.id rs hi

abbrev pub IsOrdered : Stream → Type 0
IsOrdered s = Between s.min_valid_position s.rows s.seq

pub Between-le : (lo : ℕ) (rs : List EventRow) (hi : ℕ) → Between lo rs hi → lo ≤ hi
Between-le lo [] hi h = h
Between-le lo (r ∷ rs) hi h = omega (arith, Between-le r.id rs hi h.1)

Between-snoc :
    (lo : ℕ) (rs : List EventRow) (hi : ℕ) (r : EventRow)
    → Between lo rs hi
    → hi < r.id
    → Between lo (rs ++ r ∷ []) r.id
Between-snoc lo [] hi r h lt = (omega arith, omega arith)
Between-snoc lo (x ∷ rs) hi r h lt = (h.0, Between-snoc x.id rs hi r h.1 lt)

-- Above the cut nothing is deleted.
delete_above :
    (cut lo : ℕ) (rs : List EventRow) (hi : ℕ)
    → cut ≤ lo
    → Between lo rs hi
    → delete (λ (r : EventRow). leb r.id cut) rs ≡ rs
delete_above cut lo [] hi le h = refl
delete_above cut lo (r ∷ rs) hi le h = ground (arith, delete_above cut r.id rs hi)

Between-delete :
    (cut lo : ℕ) (rs : List EventRow) (hi : ℕ)
    → lo ≤ cut
    → cut ≤ hi
    → Between lo rs hi
    → Between cut (delete (λ (r : EventRow). leb r.id cut) rs) hi
Between-delete cut lo [] hi le ge h = ge
Between-delete cut lo (r ∷ rs) hi le ge h = elim (Bool-cases (leb r.id cut)) [
  | inl old ↦ rw old (Between-delete cut r.id rs hi (ground arith) ge h.1)
  | inr new ↦ rw (new, delete_above cut r.id rs hi (ground arith) h.1) (ground arith, h.1)
]

-- Appending an event keeps the outbox ordered.
pub append-IsOrdered : (e : EventAppend) (s : Stream) → IsOrdered s → IsOrdered (append e s)
unfolding append
append-IsOrdered e s h =
    Between-snoc s.min_valid_position s.rows s.seq (record { id = suc s.seq; event = e }) h
      (omega arith)

-- Pruning keeps the outbox ordered, and moves the first valid position to the cut.
pub prune_events-IsOrdered :
    (cut n : ℕ) (s t : Stream)
    → IsOrdered s
    → prune_events cut s ≡ ok (n, t)
    → IsOrdered t × (t.min_valid_position ≡ cut) × (t.seq ≡ s.seq) × (s.min_valid_position ≤ cut)
unfolding prune_events
prune_events-IsOrdered cut n s t h e =
    ground (arith, Between-delete cut s.min_valid_position s.rows s.seq)

-- A consumer's position never goes back: it becomes the larger of the old one and the new one.
pub advance_consumer_position_max :
    (c : String) (p : ℕ) (s : Stream) {old : ℕ}
    → consumer_position c s.consumers ≡ some old
    → consumer_position c (advance_consumer_position c p s).consumers
      ≡ some (if leb p old then old else p)
unfolding consumer_position advance_consumer_position
advance_consumer_position_max c p s {old} e = upserted s.consumers e
  where
    upserted :
        (ps : List (String × ℕ))
        → consumer_position c ps ≡ some old
        → consumer_position c (upsert_position c p ps) ≡ some (if leb p old then old else p)
    upserted [] h = cc
    upserted ((k, v) ∷ ps) h = ground (arith, upserted ps)
