-- ===== src/Versions/Histories.antt =====
-- What a write does to the histories.
use astartis_codex_control_p.Base.{
  ℕ, ◌+◌, String, ◌≡◌, refl, subst, ◌↔◌, ◌⊎◌, inl, inr, Bool, true, false, none, some, List, [],
  ◌∷◌, ◌++◌, arith, ◌==◌, eq_iff, if◌then◌else◌, Option-cases, if_cases, is_empty, length,
  length-append, lookup, replace, place, insert, lookup-insert,
}
use astartis_codex_control_p.Callbacks.{AuditAdder}
use astartis_codex_control_p.Versions.{
  RecordVersion, VersionResult, Store, succeeded, get_history, read_current, version_in,
  read_version, total_version_count, new_version, append_version, write,
}
use astartis_codex_control_p.Versions.Reads.{
  IsNumbered, IsOrdered, version_in-snoc, current_of-snoc,
}

IsNumbered-snoc :
    (record_id : String) (n : ℕ) (vs : List RecordVersion) (v : RecordVersion)
    → IsNumbered record_id n vs
    → v.version_number ≡ n + length vs + 1
    → v.record_id ≡ record_id
    → IsNumbered record_id n (vs ++ v ∷ [])
IsNumbered-snoc record_id n [] v h k e = (omega (arith, k), e, tt)
IsNumbered-snoc record_id n (u ∷ vs) v h k e =
    (h.0, h.1, IsNumbered-snoc record_id (n + 1) vs v h.2 (omega (arith, k)) e)

pub get_history-insert :
    (k j : String) (vs : List RecordVersion) (store : Store)
    → get_history j (insert k vs store) ≡ (if k == j then vs else get_history j store)
unfolding get_history
get_history-insert k j vs store = ground (arith, lookup-insert k j vs store)

get_history-none : (k : String) (store : Store) → lookup k store ≡ none → get_history k store ≡ []
unfolding get_history
get_history-none k store h = rw (h, get_history) refl

get_history-some :
    (k : String) (store : Store) (us : List RecordVersion)
    → lookup k store ≡ some us
    → get_history k store ≡ us
unfolding get_history
get_history-some k store us h = rw (h, get_history) refl

total-replace :
    (k : String) (vs us : List RecordVersion) (store : Store)
    → lookup k store ≡ some us
    → total_version_count (replace k vs store) + length us ≡ total_version_count store + length vs
unfolding total_version_count replace lookup
total-replace k vs us [] h = cc
total-replace k vs us ((j, w) ∷ store) h = ground (arith, total-replace k vs us store)

total-place :
    (k : String) (vs : List RecordVersion) (store : Store)
    → total_version_count (place k vs store) ≡ total_version_count store + length vs
unfolding total_version_count place
total-place k vs [] = omega arith
total-place k vs ((j, w) ∷ store) = ground (arith, total-place k vs store)

total-insert :
    (k : String) (vs : List RecordVersion) (store : Store)
    → total_version_count (insert k vs store) + length (get_history k store)
      ≡ total_version_count store + length vs
unfolding insert
total-insert k vs store = elim (Option-cases (lookup k store)) [
  | inl new ↦ ground (arith, total-place k vs store, get_history-none k store new)
  | inr (us, old) ↦ ground (arith, get_history-some k store us old, total-replace k vs us store old)
]

module _ {W : Type 0} (sha256 : String → List ℕ) (audit_adder : AuditAdder W) where
  -- The version that a write appends.
  abbrev pub appended : String → String → String → ℕ → Store → RecordVersion
  appended record_id payload author now store =
      new_version sha256 record_id (length (get_history record_id store) + 1) now payload author

  pub append-history :
      (record_id j payload author : String) (now : ℕ) (store : Store) (w : W)
      → get_history j (append_version sha256 audit_adder record_id payload author now store w).1 ≡ (
          if record_id == j
          then get_history record_id store ++ appended record_id payload author now store ∷ []
          else get_history j store)
  unfolding append_version
  append-history record_id j payload author now store w = get_history-insert record_id j _ store

  numbered :
      (record_id payload author : String) (now : ℕ) (store : Store)
      → IsNumbered record_id 0 (get_history record_id store)
      → IsNumbered record_id 0
          (get_history record_id store ++ appended record_id payload author now store ∷ [])
  unfolding new_version
  numbered record_id payload author now store h =
      IsNumbered-snoc record_id 0 (get_history record_id store) _ h (omega arith) refl

  append-IsOrdered :
      (record_id payload author : String) (now : ℕ) (store : Store) (w : W)
      → IsOrdered store
      → IsOrdered (append_version sha256 audit_adder record_id payload author now store w).1
  append-IsOrdered record_id payload author now store w h = record {
    at = λ j. rw append-history (
        if_cases (IsNumbered j 0) (record_id == j) _ _
          (λ same.
            subst
              (λ (k : String).
                IsNumbered k 0
                  (get_history record_id store ++ appended record_id payload author now store ∷ []))
              ((eq_iff record_id j).0 same)
              (numbered record_id payload author now store (h.at record_id)))
          (λ _. h.at j));
  }

  module _ (lock_check : W → Bool) (record_id payload author : String) (now : ℕ) (store : Store)
      (w : W) where
    abbrev pub written : VersionResult × Store × W
    written = write sha256 audit_adder lock_check record_id payload author now store w

    -- Each record's versions are numbered 1, 2, 3, ... in the order of their writes and carry the
    -- id of the record; a write keeps it so, whether or not it is refused.
    pub write-IsOrdered : IsOrdered store → IsOrdered written.1
    unfolding write
    write-IsOrdered h =
        if_cases (λ (r : VersionResult × Store × W). IsOrdered r.1) (is_empty record_id) _ _
          (λ _. h)
          λ _.
            if_cases (λ (r : VersionResult × Store × W). IsOrdered r.1) (lock_check w) _ _ (λ _. h)
              λ _. append-IsOrdered record_id payload author now store w h

    -- A write is refused exactly when the record id is empty or the WORM lock is engaged, and a
    -- refused write changes neither the store nor the outside.
    pub write-refused :
        ((written.0.is_ok ≡ false) ↔ ((record_id ≡ "") ⊎ (lock_check w ≡ true)))
        × ((written.0.is_ok ≡ true) ⊎ ((written.1 ≡ store) × (written.2 ≡ w)))
    unfolding write append_version
    write-refused = (
      (λ h. ground (arith, eq_iff record_id ""), λ h. ground (arith, eq_iff record_id "")),
      ground arith,
    )

    -- No write, of this record or another, changes what a version that is there reads.
    pub read_version-write :
        (j : String) (n : ℕ) (v : RecordVersion)
        → read_version j n store ≡ (succeeded v.version_number, some v)
        → read_version j n written.1 ≡ (succeeded v.version_number, some v)
    unfolding write read_version
    read_version-write j n v h =
        if_cases
          (λ (r : VersionResult × Store × W).
            read_version j n r.1 ≡ (succeeded v.version_number, some v))
          (is_empty record_id) _ _ (λ _. h)
          λ _.
            if_cases
              (λ (r : VersionResult × Store × W).
                read_version j n r.1 ≡ (succeeded v.version_number, some v))
              (lock_check w) _ _ (λ _. h)
              λ _. rw (get_history-insert record_id j) (
                if_cases
                  (λ (hs : List RecordVersion).
                    version_in j n hs ≡ (succeeded v.version_number, some v))
                  (record_id == j) _ _
                  (λ same.
                    version_in-snoc j n (get_history record_id store) _ v
                      (rw ((eq_iff record_id j).0 same) h))
                  (λ _. h))

    written-ok :
        written.0.is_ok ≡ true
        → written ≡ append_version sha256 audit_adder record_id payload author now store w
    unfolding write
    written-ok h = ground arith

    latest :
        read_current record_id
          (append_version sha256 audit_adder record_id payload author now store w).1
        ≡ (
          succeeded (appended record_id payload author now store).version_number,
          some (appended record_id payload author now store),
        )
    unfolding read_current
    latest =
        rw
          (
            append-history record_id record_id payload author now store w,
            (eq_iff record_id record_id).1 refl,
          )
          (current_of-snoc record_id (get_history record_id store)
            (appended record_id payload author now store))

    -- A write that is not refused is read back: read_current then returns a version with the number,
    -- the payload, the author and the time of the write.
    pub read_current-write :
        written.0.is_ok ≡ true
        → (v : RecordVersion) × (read_current record_id written.1
            ≡ (succeeded v.version_number, some v))
          × (v.version_number ≡ written.0.version_number)
          × (v.payload ≡ payload)
          × (v.author ≡ author)
          × (v.timestamp ≡ now)
    unfolding append_version new_version
    read_current-write h =
        rw (written-ok h)
          (appended record_id payload author now store, latest, refl, refl, refl, refl)

    -- A write adds one version to the total if it succeeds and none if it is refused.
    pub total-write :
        total_version_count written.1
        ≡ total_version_count store + (if written.0.is_ok then 1 else 0)
    unfolding write append_version
    total-write = ground (
      arith,
      total-insert record_id
          (get_history record_id store ++ appended record_id payload author now store ∷ []) store,
      length-append (get_history record_id store)
          (appended record_id payload author now store ∷ []),
    )
