-- ===== src/Versions/Reads.antt =====
-- The order of a history, and what the reads return.
use astartis_codex_control_p.Base.{
  ℕ, zero, suc, ◌+◌, ◌≤◌, String, ◌≡◌, refl, ap, ◌∙◌, inl, inr, some, List, [], ◌∷◌, ◌++◌, arith,
  Option-cases, length, get_elem?, back?, back?-snoc, get_elem?-append_left, get_elem?-known,
  get_elem?-lt,
}
use astartis_codex_control_p.Versions.{
  RecordVersion, VersionResult, Store, succeeded, get_history, not_found, current_of, version_of,
  version_in, read_version,
}

-- The versions of a record are numbered from `n + 1` in order, and carry its id.
abbrev pub IsNumbered : String → ℕ → List RecordVersion → Type 0
IsNumbered record_id n [] = Unit {0}
IsNumbered record_id n (v ∷ vs) =
    (v.version_number ≡ n + 1) × (v.record_id ≡ record_id) × IsNumbered record_id (n + 1) vs

pub record IsOrdered (store : Store) : Type 0 where
  pub at : (record_id : String) → IsNumbered record_id 0 (get_history record_id store)

IsNumbered-at :
    (record_id : String) (n i : ℕ) (vs : List RecordVersion) {v : RecordVersion}
    → IsNumbered record_id n vs
    → get_elem? vs i ≡ some v
    → (v.version_number ≡ n + i + 1) × (v.record_id ≡ record_id)
IsNumbered-at record_id n i [] h e = cc
IsNumbered-at record_id n zero (u ∷ vs) h e = ground arith
IsNumbered-at record_id n (suc i) (u ∷ vs) h e =
    ground (arith, IsNumbered-at record_id (n + 1) i vs h.2 e)

get_elem?-append_some :
    (vs us : List RecordVersion) (i : ℕ) {v : RecordVersion}
    → get_elem? vs i ≡ some v
    → get_elem? (vs ++ us) i ≡ some v
get_elem?-append_some vs us i h =
    ground (arith, h, get_elem?-append_left vs us i (get_elem?-lt vs i h))

version_of-append :
    (n : ℕ) (vs us : List RecordVersion) {r : VersionResult} {v : RecordVersion}
    → version_of n vs ≡ (r, some v)
    → version_of n (vs ++ us) ≡ (r, some v)
unfolding version_of
version_of-append zero vs us h = cc
version_of-append (suc i) vs us h = elim (Option-cases (get_elem? vs i)) [
  | inl missing ↦ ground (arith, missing)
  | inr (w, found) ↦ ground (arith, found, get_elem?-append_some vs us i found)
]

pub version_in-snoc :
    (j : String) (n : ℕ) (vs : List RecordVersion) (u v : RecordVersion) {r : VersionResult}
    → version_in j n vs ≡ (r, some v)
    → version_in j n (vs ++ u ∷ []) ≡ (r, some v)
unfolding version_in not_found
version_in-snoc j n [] u v h = cc
version_in-snoc j n (x ∷ vs) u v h = version_of-append n (x ∷ vs) (u ∷ []) h

-- What read_current returns when the history ends in a version.
pub current_of-snoc :
    (j : String) (vs : List RecordVersion) (v : RecordVersion)
    → current_of j (back? (vs ++ v ∷ [])) ≡ (succeeded v.version_number, some v)
unfolding current_of
current_of-snoc j vs v = rw (back?-snoc vs v) refl

version_of-known :
    (i : ℕ) (vs : List RecordVersion) (v : RecordVersion)
    → get_elem? vs i ≡ some v
    → version_of (suc i) vs ≡ (succeeded v.version_number, some v)
unfolding version_of
version_of-known i vs v h = rw (h, version_of) refl

version_in-known :
    (j : String) (i : ℕ) (vs : List RecordVersion) (v : RecordVersion)
    → get_elem? vs i ≡ some v
    → version_in j (suc i) vs ≡ (succeeded v.version_number, some v)
unfolding version_in
version_in-known j i [] v h = cc
version_in-known j i (x ∷ vs) v h = version_of-known i (x ∷ vs) v h

-- In a store whose versions are numbered in order, read_version succeeds for every number from 1 to
-- the length of the history, and returns the version of the record with that number.
pub read_version-number :
    (j : String) (n : ℕ) (store : Store)
    → IsOrdered store
    → 1 ≤ n
    → n ≤ length (get_history j store)
    → (v : RecordVersion) × (read_version j n store ≡ (succeeded n, some v))
      × (v.version_number ≡ n)
      × (v.record_id ≡ j)
unfolding read_version
read_version-number j zero store h low high = absurd (omega (arith, low))
read_version-number j (suc i) store h low high =
    let found = get_elem?-known (get_history j store) i (omega (arith, high)) in
    let numbered = IsNumbered-at j 0 i (get_history j store) (h.at j) found.1 in
    let number : found.0.version_number ≡ suc i = omega (arith, numbered.0) in
    (
      found.0,
      version_in-known j i (get_history j store) found.0 found.1
          ∙ ap (λ (n : ℕ). (succeeded n, some found.0)) number,
      number,
      numbered.1,
    )
