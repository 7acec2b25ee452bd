-- ===== src/Processor/Pages.antt =====
-- `sync_reconciliation` against a provider that serves a list page by page.
use razor_trust.Common.Slices.{
  length-drop, All-drop, full_take, short_take, length-take, drop-drop, All-take, drop,
}
use mathlib.Core.Path.{subst}
use native.Mathlib.Nat.{mul-suc}
use razor_trust.Common.Table.{Table}
use razor_trust.Processor.Records.{NormalizedReconciliationItem}
use razor_trust.Processor.Sync.{
  sync_items, advanced, sync_pages, SyncProgress, normalize_all, items_length,
}
use razor_trust.Processor.Store.{upsert_reconciliation_items, Reconstruction, upserted}
use razor_trust.Processor.Json.{item, array, nil, get_or, Items, Fields, Json}
use razor_trust.Common.{
  length-map, ℕ, zero, suc, ◌+◌, ◌-◌, ◌*◌, ◌≤◌, ◌≡◌, refl, sym, ap, ◌∙◌, inl, inr, List, [], ◌∷◌,
  map, arith, ltb, if◌then◌else◌, Bool-cases, length, take, All,
}
use razor_trust.Common.Exec.{Result, ok, Exec}

abbrev pub to_items : List Json → Items
to_items [] = nil
to_items (x ∷ xs) = item x (to_items xs)

-- The pages of a list: the answer at an offset holds the entries from there on, at most a page.
abbrev pub Serves : ((count skip : ℕ) → Result Fields) → List Json → (page_size skip : ℕ) → Type 0
Serves fetch xs page_size skip =
    (k : ℕ)
    → (payload : Fields) × (fetch page_size (skip + k) ≡ ok payload)
      × (get_or (array nil) "items" payload ≡ array (to_items (take page_size (drop k xs))))

items_length-to_items : (xs : List Json) → items_length (to_items xs) ≡ length xs
items_length-to_items [] = refl
items_length-to_items (x ∷ xs) = ap suc (items_length-to_items xs)

upserted_parts :
    (good : Json → NormalizedReconciliationItem) (n : ℕ) (xs : List Json)
    (t : Table NormalizedReconciliationItem)
    → upserted (map good (drop n xs)) (upserted (map good (take n xs)) t) ≡ upserted (map good xs) t
unfolding upserted
upserted_parts good zero xs t = refl
upserted_parts good (suc n) [] t = refl
upserted_parts good (suc n) (x ∷ xs) t = upserted_parts good n xs _

module _ (norm : Json → Result NormalizedReconciliationItem)
    (good : Json → NormalizedReconciliationItem) where
  normalize_all-map :
      (xs : List Json)
      → All (λ x. norm x ≡ ok (good x)) xs
      → normalize_all norm (to_items xs) ≡ ok (map good xs)
  unfolding normalize_all
  normalize_all-map [] h = refl
  normalize_all-map (x ∷ xs) (hx, h) = rw hx (rw (normalize_all-map xs h) refl)

-- How the loop ends when it reads all of a list.
abbrev pub Reads :
    List NormalizedReconciliationItem
    → SyncProgress
    → Reconstruction
    → Result SyncProgress × Reconstruction
    → Type 0
Reads items v s res =
    (v' : SyncProgress) × (res
      ≡ (ok v', record s { reconciliation_items = upserted items s.reconciliation_items }))
    × (v'.fetched ≡ v.fetched + length items)
    × (v'.stored ≡ v.stored + length items)

fewer_pages : (l r size n : ℕ) → l ≤ size * suc n → r ≡ l - size → r ≤ size * n
fewer_pages l r size n h e = omega (arith, rw (mul-suc size n) at h)

-- The answer at the offset itself.
Serves-here :
    (fetch : (count skip : ℕ) → Result Fields) (xs : List Json) (size skip : ℕ)
    → Serves fetch xs size skip
    → (payload : Fields) × (fetch size skip ≡ ok payload)
      × (get_or (array nil) "items" payload ≡ array (to_items (take size xs)))
Serves-here fetch xs size skip h =
    let (payload, f, e) = h 0 in
    (payload, subst (λ k. fetch size k ≡ ok payload) (omega arith) f, e)

Serves-next :
    (fetch : (count skip : ℕ) → Result Fields) (xs : List Json) (size skip n : ℕ)
    → Serves fetch xs size skip
    → Serves fetch (drop n xs) size (skip + n)
Serves-next fetch xs size skip n h k =
    let (payload, f, e) = h (n + k) in
    (payload, subst (λ j. fetch size j ≡ ok payload) (omega arith) f, rw (drop-drop k n xs) e)

-- The store with these items.
abbrev with_items : List NormalizedReconciliationItem → Reconstruction → Reconstruction
with_items items s = record s { reconciliation_items = upserted items s.reconciliation_items }

module _ (fetch : (count skip : ℕ) → Result Fields)
    (norm : Json → Result NormalizedReconciliationItem) (good : Json → NormalizedReconciliationItem)
    (w : ℕ) where
  abbrev size : ℕ
  size = suc w

  abbrev Good : List Json → Type 0
  Good xs = All (λ x. norm x ≡ ok (good x)) xs

  abbrev moved : SyncProgress → List Json → SyncProgress
  moved v page = advanced v (length page) (length page) (length page)

  page-step :
      (next : SyncProgress → Exec Reconstruction SyncProgress) (v : SyncProgress)
      (s : Reconstruction) (x : Json) (xs : List Json)
      → Good (x ∷ xs)
      → sync_items fetch (λ k. norm) size next v (to_items (x ∷ xs)) s ≡ (
          if ltb (length (x ∷ xs)) size
          then (ok (moved v (x ∷ xs)), with_items (map good (x ∷ xs)) s)
          else next (moved v (x ∷ xs)) (with_items (map good (x ∷ xs)) s))
  unfolding upsert_reconciliation_items
  page-step next v s x xs h = rw (normalize_all-map norm good (x ∷ xs) h) (
      rw (length-map good xs) (
        rw (items_length-to_items xs) (elim (Bool-cases (ltb (suc (length xs)) size)) [
          | inl b ↦ rw b refl
          | inr b ↦ rw b refl
        ])))

  last_page :
      (y : Json) (ys : List Json) (v : SyncProgress) (s : Reconstruction)
      → take w ys ≡ ys
      → Reads
          (map good (y ∷ ys))
          v
          s
          (ok (moved v (y ∷ take w ys)), with_items (map good (y ∷ take w ys)) s)
  last_page y ys v s e =
      rw e (
        moved v (y ∷ ys),
        refl,
        omega (arith, length-map good ys),
        omega (arith, length-map good ys),
      )

  more_pages :
      (y : Json) (ys : List Json) (v : SyncProgress) (s : Reconstruction)
      (res : Result SyncProgress × Reconstruction)
      → length (take w ys) ≡ w
      → Reads
          (map good (drop w ys))
          (moved v (y ∷ take w ys))
          (with_items (map good (y ∷ take w ys)) s)
          res
      → Reads (map good (y ∷ ys)) v s res
  more_pages y ys v s res full (v', r, f, g) = (
    v',
    r
        ∙ ap (λ t. (ok v', record s { reconciliation_items = t }))
            (upserted_parts good (suc w) (y ∷ ys) s.reconciliation_items),
    omega (arith, f, length-map good ys, length-map good (drop w ys), length-take w ys),
    omega (arith, g, length-map good ys, length-map good (drop w ys), length-take w ys),
  )

  pages-Reads :
      (n : ℕ) (ys : List Json) (v : SyncProgress) (s : Reconstruction)
      → Serves fetch ys size v.skip
      → Good ys
      → length ys ≤ size * n
      → Reads (map good ys) v s (sync_pages fetch (λ k. norm) size n v s)
  unfolding sync_pages upserted
  pages-Reads zero [] v s serves h bound = (v, refl, omega arith, omega arith)
  pages-Reads zero (y ∷ ys) v s serves h bound = ground arith
  pages-Reads (suc n) [] v s serves h bound =
      let (payload, f, e) = Serves-here fetch [] size v.skip serves in
      rw f (rw e (v, refl, omega arith, omega arith))
  pages-Reads (suc n) (y ∷ ys) v s serves h bound =
      let (payload, f, e) = Serves-here fetch (y ∷ ys) size v.skip serves in
      rw f (
        rw e (
          rw
            (page-step (sync_pages fetch (λ k. norm) size n) v s y (take w ys)
              (h.0, All-take (λ x. norm x ≡ ok (good x)) w ys h.1))
            (elim (Bool-cases (ltb (suc (length (take w ys))) size)) [
              | inl b ↦ rw b (last_page y ys v s (short_take w ys (ground arith)))
              | inr b ↦
                  let full = full_take w ys (ground arith) in
                  rw b (
                    more_pages y ys v s _ full (
                      pages-Reads n (drop w ys) (moved v (y ∷ take w ys))
                        (with_items (map good (y ∷ take w ys)) s)
                        (subst (λ k. Serves fetch (drop w ys) size (v.skip + suc k)) (sym full)
                          (Serves-next fetch (y ∷ ys) size v.skip size serves))
                        (All-drop (λ x. norm x ≡ ok (good x)) w ys h.1)
                        (fewer_pages (suc (length ys)) _ size n bound (length-drop size (y ∷ ys)))))
            ])))

pub all_pages :
    (fetch : (count skip : ℕ) → Result Fields) (norm : Json → Result NormalizedReconciliationItem)
    (good : Json → NormalizedReconciliationItem) (size n : ℕ) (xs : List Json) (v : SyncProgress)
    (s : Reconstruction)
    → 1 ≤ size
    → Serves fetch xs size v.skip
    → All (λ x. norm x ≡ ok (good x)) xs
    → length xs ≤ size * n
    → Reads (map good xs) v s (sync_pages fetch (λ k. norm) size n v s)
all_pages fetch norm good zero n xs v s pos serves h bound = ground arith
all_pages fetch norm good (suc w) n xs v s pos serves h bound =
    pages-Reads fetch norm good w n xs v s serves h bound
