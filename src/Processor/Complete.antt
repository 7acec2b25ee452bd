-- ===== src/Processor/Complete.antt =====
-- `sync_reconciliation` on a list that the provider serves page by page.
use razor_trust.Processor.Reconciliation.{normalize_reconciliation_item}
use razor_trust.Processor.Pages.{all_pages, Serves}
use razor_trust.Processor.Store.{upserted, Reconstruction}
use razor_trust.Processor.Sync.{sync_pages, sync_result, sync_reconciliation}
use razor_trust.Processor.Records.{ReconciliationSyncResult, NormalizedReconciliationItem}
use razor_trust.Processor.Json.{Json, Fields}
use razor_trust.Processor.Read.{Codec}
use razor_trust.Common.{
  length-map, ℕ, ◌*◌, ◌≤◌, ◌≡◌, true, ◌&&◌, Option, List, map, arith, leb, length, All,
}
use razor_trust.Common.Exec.{bind_ok, Result, ok, pure}
use razor_trust.Common.Platform.{Platform}

in_range : (low high n : ℕ) → low ≤ n → n ≤ high → (leb low n && leb n high) ≡ true
in_range low high n a b = ground arith

module _ (p : Platform) (c : Codec)
    (fetch : (year month : ℕ) → Option ℕ → (count skip : ℕ) → Result Fields) (t : ℕ)
    (good : Json → NormalizedReconciliationItem) (year month : ℕ) (day : Option ℕ) (xs : List Json)
    (page_size max_pages : ℕ) where
  -- Where the arguments are in range and the provider serves a list by offset and count, at most
  -- `max_pages` pages of it, every item of which normalizes, with one time for all pages,
  -- `sync_reconciliation` returns with as many items fetched and stored as the list has, and
  -- leaves the store that one upsert of the whole list leaves.
  pub sync_reconciliation_complete :
      (s : Reconstruction)
      → 1 ≤ page_size
      → page_size ≤ 1000
      → 1 ≤ max_pages
      → max_pages ≤ 100
      → Serves (fetch year month day) xs page_size 0
      → All (λ x. normalize_reconciliation_item p c x year month day t ≡ ok (good x)) xs
      → length xs ≤ page_size * max_pages
      → (r : ReconciliationSyncResult) × (sync_reconciliation p c fetch
            (λ k. t)
            year
            month
            day
            page_size
            max_pages
            s
          ≡ (
            ok r,
            record s { reconciliation_items = upserted (map good xs) s.reconciliation_items },
          ))
        × (r.fetched_items ≡ length xs)
        × (r.stored_items ≡ length xs)
  unfolding sync_reconciliation
  sync_reconciliation_complete s a b d e serves h bound =
      let (v, r, f, g) =
        all_pages (fetch year month day) (λ x. normalize_reconciliation_item p c x year month day t)
          good page_size max_pages xs (record { fetched = 0; stored = 0; page_count = 0; skip = 0 })
          s a serves h bound in
      rw (in_range 1 1000 page_size a b) (
        rw (in_range 1 100 max_pages d e) (
          sync_result v,
          bind_ok
              (sync_pages (fetch year month day)
                (λ k x. normalize_reconciliation_item p c x year month day t) page_size max_pages
                (record { fetched = 0; stored = 0; page_count = 0; skip = 0 }))
              (λ v'. pure (sync_result v')) s _ v r,
          omega (arith, f, length-map good xs),
          omega (arith, g, length-map good xs),
        ))
