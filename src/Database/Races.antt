-- ===== src/Database/Races.antt =====
-- Creation while other sessions commit.
use razor_trust.Repository.Cases.{new_case}
use razor_trust.Database.Holds.{with_hold, commit_hold, create}
use razor_trust.Database.Tables.{Database}
use razor_trust.Database.Queries.{find_request, find_hold, first_where}
use razor_trust.Common.{
  ℕ, ◌≡◌, refl, ◌⊎◌, inl, inr, Bool, true, false, none, some, List, [], ◌∷◌, ◌++◌, arith, ==_refl,
  Option-cases,
}
use razor_trust.Common.Exec.{Result, ok}
use razor_trust.Domain.{HoldCase, HoldCreate}

module _ {A : Type 0} (p : A → Bool) where
  pub first_where-append :
      (xs : List A) (x : A)
      → first_where p xs ≡ none
      → p x ≡ true
      → first_where p (xs ++ x ∷ []) ≡ some x
  unfolding first_where
  first_where-append [] x e h = rw h refl
  first_where-append (y ∷ xs) x e h = ground (arith, first_where-append xs x)

module _ {F X : Type 0} (r : HoldCreate) (fresh now : ℕ) (others : Database F X → Database F X)
    (s : Database F X) where
  -- The call returns the hold that the table has for the request.
  abbrev Returns : Result (HoldCase × Bool) × Database F X → Type 0
  Returns res =
      (hold : HoldCase) × (new : Bool) × (s' : Database F X) × (res ≡ (ok (hold, new), s'))
      × (find_request r.request_id s'.holds ≡ some hold)
      × ((s' ≡ s) ⊎ (s' ≡ others s) ⊎ (s' ≡ with_hold hold (others s)))

  commit_hold-Returns :
      find_hold fresh (others s).holds ≡ none
      → Returns (commit_hold r (new_case r fresh now now) (others s))
  commit_hold-Returns f = elim (Option-cases (find_request r.request_id (others s).holds)) [
    | inl e ↦ rw f (
        rw e (
          new_case r fresh now now,
          true,
          with_hold (new_case r fresh now now) (others s),
          refl,
          first_where-append _ (others s).holds (new_case r fresh now now) e (==_refl r.request_id),
          inr (inr refl),
        ))
    | inr (x, e) ↦ rw f (rw e (x, false, others s, refl, e, inr (inl refl)))
  ]

  -- Whatever other sessions commit between the query and the commit of a creation, if the new
  -- identifier is not in the table, `create` returns the hold that the table then has for the
  -- request, and writes nothing but that hold.
  pub create_returns :
      find_hold fresh (others s).holds ≡ none
      → (hold : HoldCase) × (new : Bool) × (s' : Database F X) × (create r fresh now others s
          ≡ (ok (hold, new), s'))
        × (find_request r.request_id s'.holds ≡ some hold)
        × ((s' ≡ s) ⊎ (s' ≡ others s) ⊎ (s' ≡ with_hold hold (others s)))
  unfolding create
  create_returns f = elim (Option-cases (find_request r.request_id s.holds)) [
    | inl e ↦ rw e (commit_hold-Returns f)
    | inr (x, e) ↦ rw e (x, false, s, refl, e, inl refl)
  ]
