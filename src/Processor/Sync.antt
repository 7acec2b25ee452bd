-- ===== src/Processor/Sync.antt =====
-- `sync_reconciliation` of `RazorpayPaymentReconstructor`, src/razortrust/razorpay_processor.py.
use razor_trust.Processor.Reconciliation.{normalize_reconciliation_item}
use razor_trust.Processor.Read.{Codec}
use razor_trust.Common.Platform.{Platform}
use razor_trust.Processor.Store.{upsert_reconciliation_items, Reconstruction}
use razor_trust.Processor.Records.{NormalizedReconciliationItem, ReconciliationSyncResult}
use razor_trust.Processor.Json.{nil, array, item, get_or, Json, Items, Fields}
use razor_trust.Common.{
  Option, ℕ, zero, suc, ◌+◌, not, ◌&&◌, List, [], ◌∷◌, ltb, leb, if◌then◌else◌, length,
}
use razor_trust.Common.Exec.{
  Result, ok, err, and_then, Exec, pure, lift, raise_if, ◌>>=◌, ◌>>◌, value_error,
}

abbrev pub items_length : Items → ℕ
items_length nil = 0
items_length (item x xs) = suc (items_length xs)

-- `payload.get("items", [])`, which must be a list
abbrev pub page_of : Json → Result Items
page_of (array xs) = ok xs
page_of _ = err value_error

abbrev pub raw_items : Fields → Result Items
raw_items payload = page_of (get_or (array nil) "items" payload)

-- The list comprehension: the first item that raises ends it.
unfoldable pub normalize_all :
    (Json → Result NormalizedReconciliationItem)
    → Items
    → Result (List NormalizedReconciliationItem)
normalize_all norm nil = ok []
normalize_all norm (item x xs) =
    and_then (norm x) λ y. and_then (normalize_all norm xs) λ ys. ok (y ∷ ys)

-- The loop's variables.
pub record SyncProgress : Type 0 where
  pub fetched : ℕ
  pub stored : ℕ
  pub page_count : ℕ
  pub skip : ℕ

abbrev pub advanced : SyncProgress → (stored_items item_count raw_count : ℕ) → SyncProgress
advanced v stored_items item_count raw_count = record {
  fetched = v.fetched + item_count;
  stored = v.stored + stored_items;
  page_count = v.page_count + 1;
  skip = v.skip + raw_count;
}

abbrev pub sync_result : SyncProgress → ReconciliationSyncResult
sync_result v = record { fetched_items = v.fetched; stored_items = v.stored; pages = v.page_count }

-- The provider's answers, for a page size and an offset, and the normalization of an item at the
-- time of the page that holds it.
module _ (fetch : (count skip : ℕ) → Result Fields)
    (norm : (skip : ℕ) → Json → Result NormalizedReconciliationItem) (page_size : ℕ) where
  abbrev pub sync_items :
      (SyncProgress → Exec Reconstruction SyncProgress)
      → SyncProgress
      → Items
      → Exec Reconstruction SyncProgress
  sync_items next v nil = pure v
  sync_items next v (item x xs) = do
    items ← lift (normalize_all (norm v.skip) (item x xs))
    stored ← upsert_reconciliation_items items
    let v' = advanced v stored (length items) (items_length (item x xs)) in
        if ltb (items_length (item x xs)) page_size then pure v' else next v'

  -- The loop over the pages.
  unfoldable pub sync_pages : ℕ → SyncProgress → Exec Reconstruction SyncProgress
  sync_pages zero v = pure v
  sync_pages (suc n) v = do
    payload ← lift (fetch page_size v.skip)
    raw ← lift (raw_items payload)
    sync_items (sync_pages n) v raw

-- The provider's answers, and the clock when the page at an offset is read.
module _ (p : Platform) (c : Codec)
    (fetch_settlement_recon : (year month : ℕ) → Option ℕ → (count skip : ℕ) → Result Fields)
    (now : (skip : ℕ) → ℕ) where
  unfoldable pub sync_reconciliation :
      (year month : ℕ)
      → Option ℕ
      → (page_size max_pages : ℕ) → Exec Reconstruction ReconciliationSyncResult
  sync_reconciliation year month day page_size max_pages = do
    raise_if (not (leb 1 page_size && leb page_size 1000)) value_error
    raise_if (not (leb 1 max_pages && leb max_pages 100)) value_error
    v ←
        sync_pages (fetch_settlement_recon year month day)
          (λ skip x. normalize_reconciliation_item p c x year month day (now skip)) page_size
          max_pages (record { fetched = 0; stored = 0; page_count = 0; skip = 0 })
    pure (sync_result v)
