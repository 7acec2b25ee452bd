-- ===== src/Database/Chain.antt =====
-- The audit trail of a case: its rows are numbered from 1 and linked by their hashes.
use mathlib.Core.Path.{subst}
use razor_trust.Timeline.Latest.{keep_if}
use razor_trust.Audit.{genesis_hash}
use razor_trust.Database.Decisions.{previous_of, hash_row, next_sequence}
use razor_trust.Database.Queries.{events_of_case, latest_event, latest_by}
use razor_trust.Database.Tables.{
  empty_database, OutboxEventRow, Database, AuditEventRow, SqlHashing,
}
use razor_trust.Common.{
  ℕ, ◌+◌, ◌≡◌, refl, sym, ap, ◌∙◌, inl, inr, Bool, false, Option, none, some, List, [], ◌∷◌, ◌++◌,
  map, arith, ltb, ◌==◌, if◌then◌else◌, ==_iff, Bool-cases, length,
}
use razor_trust.Common.Exec.{ok}

keep_if-append :
    {A : Type 0} (p : A → Bool) (xs : List A) (x : A)
    → keep_if p (xs ++ x ∷ []) ≡ (if p x then keep_if p xs ++ x ∷ [] else keep_if p xs)
unfolding keep_if
keep_if-append p [] x = refl
keep_if-append p (y ∷ xs) x = ground (arith, keep_if-append p xs x)

module _ {F X : Type 0} (h : SqlHashing F X) where
  -- From a number and a hash on, the rows are numbered without a gap, and each names the hash of the
  -- one before and has the hash of its own event.
  pub IsTrail : ℕ → List ℕ → List (AuditEventRow F X) → Type 0
  IsTrail n prev [] = Unit
  IsTrail n prev (r ∷ rs) =
      (r.event.sequence_no ≡ n)
      × (r.previous_hash ≡ prev)
      × (hash_row h r.event prev ≡ ok r.record_hash)
      × IsTrail (n + 1) r.record_hash rs

  -- The hash that the next row names.
  abbrev head_after : List ℕ → List (AuditEventRow F X) → List ℕ
  head_after prev [] = prev
  head_after prev (r ∷ rs) = head_after r.record_hash rs

  -- The latest row is the last one.
  abbrev IsLast : ℕ → List ℕ → List (AuditEventRow F X) → Option (AuditEventRow F X) → Type 0
  IsLast n prev rs none = (length rs ≡ 0) × (head_after prev rs ≡ prev)
  IsLast n prev rs (some y) =
      (y.event.sequence_no + 1 ≡ n + length rs) × (y.record_hash ≡ head_after prev rs)

  latest_by-IsLast :
      (n : ℕ) (prev : List ℕ) (rs : List (AuditEventRow F X))
      → IsTrail n prev rs
      → IsLast n prev rs (latest_by (λ r. r.event.sequence_no) rs)
  unfolding IsTrail latest_by
  latest_by-IsLast n prev [] t = (refl, refl)
  latest_by-IsLast n prev (r ∷ rs) (a, b, c, t) =
      pick (latest_by (λ x. x.event.sequence_no) rs) (latest_by-IsLast (n + 1) r.record_hash rs t)
    where
      pick :
          (o : Option (AuditEventRow F X))
          → IsLast (n + 1) r.record_hash rs o
          → IsLast n prev (r ∷ rs) (elim o [
            | none ↦ some r
            | some y ↦ some (if ltb y.event.sequence_no r.event.sequence_no then r else y)
          ])
      pick none (d, e) = (omega (arith, a, d), sym e)
      pick (some y) (d, e) =
          let old : ltb y.event.sequence_no r.event.sequence_no ≡ false = ground arith in
          rw old (omega (arith, d), e)

  IsTrail-append :
      (n : ℕ) (prev : List ℕ) (rs : List (AuditEventRow F X)) (r : AuditEventRow F X)
      → IsTrail n prev rs
      → r.event.sequence_no ≡ n + length rs
      → r.previous_hash ≡ head_after prev rs
      → hash_row h r.event r.previous_hash ≡ ok r.record_hash
      → IsTrail n prev (rs ++ r ∷ [])
  unfolding IsTrail
  IsTrail-append n prev [] r t a b c =
      (omega (arith, a), b, subst (λ q. hash_row h r.event q ≡ ok r.record_hash) b c, tt)
  IsTrail-append n prev (x ∷ rs) r (d, e, f, t) a b c =
      (d, e, f, IsTrail-append (n + 1) x.record_hash rs r t (omega (arith, a)) b c)

  -- The trail of every case, and the outbox: it has the rows of the trail, in their order.
  pub record IsAudited (s : Database F X) : Type 0 where
    pub trails : (id : ℕ) → IsTrail 1 genesis_hash (events_of_case id s.audit_events)
    pub published : map (λ x. x.payload) s.outbox_events ≡ s.audit_events

  -- A row as the two methods that write one make it.
  abbrev pub IsNext : Database F X → AuditEventRow F X → Type 0
  IsNext s r =
      let latest = latest_event r.event.case_id s in
      (r.event.sequence_no ≡ next_sequence latest)
      × (r.previous_hash ≡ previous_of latest)
      × (hash_row h r.event r.previous_hash ≡ ok r.record_hash)

  -- What a method does to the trail: nothing, or one more row, in the outbox too.
  pub data AuditStep (s s' : Database F X) : Type 0 where
    kept : s'.audit_events ≡ s.audit_events → s'.outbox_events ≡ s.outbox_events → AuditStep s s'
    added :
        (r : AuditEventRow F X) (x : OutboxEventRow F X)
        → IsNext s r
        → x.payload ≡ r
        → s'.audit_events ≡ s.audit_events ++ r ∷ []
        → s'.outbox_events ≡ s.outbox_events ++ x ∷ []
        → AuditStep s s'

  IsNext-case :
      (s : Database F X) (r : AuditEventRow F X)
      → IsAudited s
      → IsNext s r
      → IsTrail 1 genesis_hash (events_of_case r.event.case_id s.audit_events ++ r ∷ [])
  unfolding latest_event
  IsNext-case s r good next =
      from_last (latest_event r.event.case_id s)
        (latest_by-IsLast 1 genesis_hash _ (good.trails r.event.case_id)) next
    where
      from_last :
          (o : Option (AuditEventRow F X))
          → IsLast 1 genesis_hash (events_of_case r.event.case_id s.audit_events) o
          → (r.event.sequence_no ≡ next_sequence o)
            × (r.previous_hash ≡ previous_of o)
            × (hash_row h r.event r.previous_hash ≡ ok r.record_hash)
          → IsTrail 1 genesis_hash (events_of_case r.event.case_id s.audit_events ++ r ∷ [])
      from_last none (d, e) (a, b, c) =
          IsTrail-append 1 genesis_hash _ r (good.trails r.event.case_id) (omega (arith, a, d))
            (b ∙ sym e) c
      from_last (some y) (d, e) (a, b, c) =
          IsTrail-append 1 genesis_hash _ r (good.trails r.event.case_id) (omega (arith, a, d))
            (b ∙ e) c

  pub AuditStep-IsAudited : (s s' : Database F X) → AuditStep s s' → IsAudited s → IsAudited s'
  AuditStep-IsAudited s s' (kept a b) good = record {
    trails = λ id. rw a (good.trails id);
    published = rw a (rw b good.published);
  }
  AuditStep-IsAudited s s' (added r x next e a b) good = record {
    trails = λ id. rw a (grown id);
    published =
        rw (a, b)
          (map-append s.outbox_events
            ∙ ap (λ rs. rs ++ x.payload ∷ []) good.published
            ∙ ap (λ y. s.audit_events ++ y ∷ []) e);
  }
    where
      grown : (id : ℕ) → IsTrail 1 genesis_hash (events_of_case id (s.audit_events ++ r ∷ []))
      grown id = elim (Bool-cases (r.event.case_id == id)) [
        | inl here ↦ rw (keep_if-append _ s.audit_events r) (
            rw here (
              subst (λ k. IsTrail 1 genesis_hash (events_of_case k s.audit_events ++ r ∷ []))
                ((==_iff r.event.case_id id).0 here) (IsNext-case s r good next)))
        | inr there ↦ rw (keep_if-append _ s.audit_events r) (rw there (good.trails id))
      ]

      map-append :
          (xs : List (OutboxEventRow F X))
          → map (λ y. y.payload) (xs ++ x ∷ []) ≡ map (λ y. y.payload) xs ++ x.payload ∷ []
      map-append [] = refl
      map-append (y ∷ xs) = ap (λ l. y.payload ∷ l) (map-append xs)

  pub empty-IsAudited : IsAudited empty_database
  unfolding IsTrail keep_if
  empty-IsAudited = record { trails = λ id. tt; published = refl }
