-- ===== src/Timeline/Latest.antt =====
-- `_latest_as_of` and `_in_event_window` of src/razortrust/processor_timeline.py.
use razor_trust.Common.Table.{put_entry, entry_at, Table}
use razor_trust.Common.{
  ℕ, String, ◌≡◌, refl, ap, ◌∙◌, inl, inr, Bool, true, false, ◌&&◌, ◌||◌, Option, none, some, List,
  [], ◌∷◌, map, arith, ltb, leb, if◌then◌else◌, is_some, Bool-cases,
}

module _ {A : Type 0} where
  unfoldable pub keep_if : (A → Bool) → List A → List A
  keep_if p [] = []
  keep_if p (x ∷ xs) = let rest = keep_if p xs in if p x then x ∷ rest else rest

  -- `sorted`, which keeps the order of what is equal
  unfoldable pub insert_by : (A → A → Bool) → A → List A → List A
  insert_by before x [] = x ∷ []
  insert_by before x (y ∷ ys) =
      let rest = insert_by before x ys in if before x y then x ∷ y ∷ ys else y ∷ rest

  unfoldable pub sort_by : (A → A → Bool) → List A → List A
  sort_by before [] = []
  sort_by before (x ∷ xs) = insert_by before x (sort_by before xs)

-- The attributes that the function reads of an item.
module _ {A : Type 0} (entity_id : A → String) (observed_at : A → ℕ) where
  abbrev pub newer_first : A → A → Bool
  newer_first x y = leb (observed_at y) (observed_at x)

  abbrev pub older_first : A → A → Bool
  older_first x y = leb (observed_at x) (observed_at y)

  -- The loop, with `latest`
  unfoldable pub collect_latest : (as_of : ℕ) → List A → Table A → Table A
  collect_latest as_of [] latest = latest
  collect_latest as_of (x ∷ xs) latest = collect_latest as_of xs (
      if ltb as_of (observed_at x) || is_some (entry_at (entity_id x) latest)
      then latest
      else put_entry (entity_id x) x latest)

  -- `latest.values()`
  abbrev pub table_values : Table A → List A
  table_values t = map (λ e. e.1) t

  unfoldable pub latest_as_of : (as_of : ℕ) → List A → List A
  unfolding collect_latest
  latest_as_of as_of items =
      sort_by older_first (table_values (collect_latest as_of (sort_by newer_first items) []))

  -- Observations that were made up to a time.
  abbrev pub known_as_of : ℕ → List A → List A
  known_as_of as_of = keep_if (λ x. leb (observed_at x) as_of)

  known-insert_by :
      (as_of : ℕ) (x : A) (ys : List A)
      → known_as_of as_of (insert_by newer_first x ys) ≡ (
          if leb (observed_at x) as_of
          then insert_by newer_first x (known_as_of as_of ys)
          else known_as_of as_of ys)
  unfolding keep_if insert_by
  known-insert_by as_of x [] = ground arith
  known-insert_by as_of x (y ∷ ys) = ground (arith, known-insert_by as_of x ys)

  known-sort_by :
      (as_of : ℕ) (xs : List A)
      → known_as_of as_of (sort_by newer_first xs) ≡ sort_by newer_first (known_as_of as_of xs)
  unfolding keep_if sort_by
  known-sort_by as_of [] = refl
  known-sort_by as_of (x ∷ xs) =
      known-insert_by as_of x (sort_by newer_first xs)
      ∙ elim (Bool-cases (leb (observed_at x) as_of)) [
        | inl known ↦ rw known (ap (insert_by newer_first x) (known-sort_by as_of xs))
        | inr later ↦ rw later (known-sort_by as_of xs)
      ]

  later_lem : (t as_of : ℕ) → leb t as_of ≡ false → ltb as_of t ≡ true
  later_lem t as_of h = ground arith

  collect_latest-known :
      (as_of : ℕ) (xs : List A) (t : Table A)
      → collect_latest as_of (known_as_of as_of xs) t ≡ collect_latest as_of xs t
  unfolding keep_if collect_latest
  collect_latest-known as_of [] t = refl
  collect_latest-known as_of (x ∷ xs) t = elim (Bool-cases (leb (observed_at x) as_of)) [
    | inl known ↦ rw known (collect_latest-known as_of xs _)
    | inr later ↦
        rw later (rw (later_lem (observed_at x) as_of later) (collect_latest-known as_of xs t))
  ]

  pub latest_as_of-known :
      (as_of : ℕ) (xs : List A) → latest_as_of as_of (known_as_of as_of xs) ≡ latest_as_of as_of xs
  unfolding latest_as_of
  latest_as_of-known as_of xs =
      rw⁻¹ (known-sort_by as_of xs)
        (rw (collect_latest-known as_of (sort_by newer_first xs) []) refl)

abbrev pub in_event_window : (window_start as_of : ℕ) → Option ℕ → Bool
in_event_window window_start as_of none = false
in_event_window window_start as_of (some event_time) =
    leb window_start event_time && leb event_time as_of
