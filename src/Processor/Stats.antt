-- ===== src/Processor/Stats.antt =====
-- `processing_stats` of the in-memory reconstruction store.
use razor_trust.Processor.Store.{Reconstruction, pending_ids, processing_stats, count_status}
use razor_trust.Processor.Records.{
  other_status, skipped, failed, processed, processing, retry, received, RazorpayStoredEvent,
  RazorpayProcessingStats,
}
use razor_trust.Common.{suc, ℕ, ◌+◌, ◌≡◌, refl, [], ◌∷◌, arith, length}
use razor_trust.Common.Exec.{ok}
use razor_trust.Common.Dict.{Dict}

-- The six counts, added up.
abbrev pub all_counts : RazorpayProcessingStats → ℕ
all_counts x =
    x.pending_events + x.processing_events + x.processed_events + x.retry_events + x.failed_events
    + x.skipped_events

abbrev counts : Dict RazorpayStoredEvent → ℕ
counts d =
    count_status received d
    + count_status processing d
    + count_status processed d
    + count_status retry d
    + count_status failed d
    + count_status skipped d

-- The events whose status is none of the six.
pub uncounted : Dict RazorpayStoredEvent → ℕ
uncounted [] = 0
uncounted ((k, e) ∷ d) = elim e.processing_status [
  | other_status s ↦ suc (uncounted d)
  | _ ↦ uncounted d
]

counts_lem : (d : Dict RazorpayStoredEvent) → counts d + uncounted d ≡ length d
unfolding count_status uncounted
counts_lem [] = refl
counts_lem ((k, e) ∷ d) = ground (arith, counts_lem d)

waiting_lem :
    (d : Dict RazorpayStoredEvent)
    → count_status received d + count_status retry d ≡ length (pending_ids d)
unfolding count_status pending_ids
waiting_lem [] = refl
waiting_lem ((k, e) ∷ d) = ground (arith, waiting_lem d)

-- The six counts of `processing_stats`, with the events whose status is none of the six, add up
-- to the number of events, and the pending and retried ones to the number of events that wait.
pub processing_stats_partition :
    (s : Reconstruction)
    → (x : RazorpayProcessingStats) × (processing_stats s ≡ (ok x, s))
      × (all_counts x + uncounted s.events ≡ length s.events)
      × (x.pending_events + x.retry_events ≡ length (pending_ids s.events))
unfolding processing_stats
processing_stats_partition s = (_, refl, counts_lem s.events, waiting_lem s.events)
