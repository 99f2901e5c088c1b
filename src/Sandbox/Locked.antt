-- ===== src/Sandbox/Locked.antt =====
-- What the operations do to the entries: locked entries, and what a write leaves to be read.
use astartis_codex_control_p.Base.{
  ℕ, String, ◌≡◌, refl, sym, ap, ◌∙◌, subst, ◌≢◌, ◌↔◌, ◌⊎◌, inl, inr, Bool, true, false, ◌&&◌, not,
  Option, some, List, [], ◌∷◌, arith, ◌==◌, eq_iff, is_some, Bool-cases, Option-cases, if_cases,
  is_empty, Dict, lookup, insert, lookup-insert, lookup-insert_self,
}
use astartis_codex_control_p.Callbacks.{AuditAdder}
use astartis_codex_control_p.Sandbox.Paths.{is_inside, to_rel}
use astartis_codex_control_p.Sandbox.Files.{SynthFile, synthetic_files}
use astartis_codex_control_p.Sandbox.Contained.{Call, after, run}
use astartis_codex_control_p.Sandbox.{
  SandboxEntry, SandboxResult, Sandbox, done, read, write, store, updated, lock_entry, unlock_entry,
  lock_all, lock_entries, populate, create, create_one, set_lock, is_locked,
}

abbrev locked : SandboxEntry → SandboxEntry
locked e = record e { locked = true }

same_entry : (g e : SandboxEntry) → some g ≡ some e → g ≡ e
same_entry g e h = cc

locked_same : (e : SandboxEntry) → e.locked ≡ true → locked e ≡ e
locked_same e h = λ i. record e { locked = sym h i }

lookup-lock_entries :
    (rel : String) (m : Dict SandboxEntry) (e : SandboxEntry)
    → lookup rel m ≡ some e
    → lookup rel (lock_entries m).1 ≡ some (locked e)
unfolding lookup lock_entries
lookup-lock_entries rel [] e h = cc
lookup-lock_entries rel ((j, f) ∷ m) e h = ground (arith, lookup-lock_entries rel m e)

insert-keeps :
    (k rel : String) (v : SandboxEntry) (m : Dict SandboxEntry) (e : SandboxEntry)
    → is_some (lookup k m) ≡ false
    → lookup rel m ≡ some e
    → lookup rel (insert k v m) ≡ some e
insert-keeps k rel v m e h q = ground (arith, lookup-insert k rel v m, eq_iff k rel)

insert-locked :
    (k rel : String) (v : SandboxEntry) (m : Dict SandboxEntry) (e : SandboxEntry)
    → is_locked (lookup k m) ≡ false
    → e.locked ≡ true
    → lookup rel m ≡ some e
    → lookup rel (insert k v m) ≡ some e
insert-locked k rel v m e h l q = ground (arith, lookup-insert k rel v m, eq_iff k rel)

module _ {W : Type 0} (audit_adder : AuditAdder W) (write_to_disk : String → String → W → W)
    (lock_check : W → Bool) (scaled : String → ℕ → Option ℕ) where
  -- The call unlocks the entry.
  unfoldable pub frees : String → String → Call → Bool
  unfolding to_rel
  frees root rel (Call.unlock_call abs reason) = to_rel root abs == rel
  frees root rel _ = false

  unfoldable pub none_frees : String → String → List Call → Bool
  unfolding frees
  none_frees root rel [] = true
  none_frees root rel (c ∷ cs) = not (frees root rel c) && none_frees root rel cs

  create_one-keeps :
      (root rel : String) (now : ℕ) (f : SynthFile) (m : Dict SandboxEntry) (w : W)
      (e : SandboxEntry)
      → lookup rel m ≡ some e
      → lookup rel (create_one audit_adder write_to_disk scaled root now f m w).1 ≡ some e
  unfolding create_one
  create_one-keeps root rel now f m w e h =
      if_cases (λ (r : ℕ × Dict SandboxEntry × W). lookup rel r.1 ≡ some e)
        (is_some (lookup f.rel_path m)) _ _ (λ _. h) λ new. insert-keeps f.rel_path rel _ m e new h

  create-keeps :
      (root rel : String) (now : ℕ) (fs : List SynthFile) (m : Dict SandboxEntry) (w : W)
      (e : SandboxEntry)
      → lookup rel m ≡ some e
      → lookup rel (create audit_adder write_to_disk scaled root now fs m w).1 ≡ some e
  unfolding create
  create-keeps root rel now [] m w e h = h
  create-keeps root rel now (f ∷ fs) m w e h =
      create-keeps root rel now fs _ _ e (create_one-keeps root rel now f m w e h)

  -- Whatever holds of the entries before a write, and of the entries with the updated one in its
  -- place where the guards let the write through, holds behind it.
  write_cases :
      (abs content author : String) (now : ℕ) (sb : Sandbox) (w : W)
      (P : Dict SandboxEntry → Type 0)
      → P sb.entries
      → (is_locked (lookup (to_rel sb.root_path abs) sb.entries) ≡ false
          → P (
              insert
                (to_rel sb.root_path abs)
                (updated
                  (lookup (to_rel sb.root_path abs) sb.entries)
                  (to_rel sb.root_path abs)
                  content
                  now)
                sb.entries))
      → P (write audit_adder write_to_disk lock_check abs content author now sb w).1.entries
  unfolding write store
  write_cases abs content author now sb w P h k =
      let Q : SandboxResult × Sandbox × W → Type 0 = λ r. P r.1.entries in
      let rel = to_rel sb.root_path abs in
      if_cases Q (not (is_inside abs sb.root_path)) _ _ (λ _. h)
        λ _.
          if_cases Q (is_empty rel) _ _ (λ _. h)
            λ _.
              if_cases Q (lock_check w) _ _ (λ _. h)
                λ _. if_cases Q (is_locked (lookup rel sb.entries)) _ _ (λ _. h) k

  set_lock_cases :
      (locked : Bool) (event_type abs reason : String) (sb : Sandbox) (w : W)
      (P : Dict SandboxEntry → Type 0)
      → P sb.entries
      → ((e : SandboxEntry)
          → lookup (to_rel sb.root_path abs) sb.entries ≡ some e
          → P (insert (to_rel sb.root_path abs) (record e { locked = locked }) sb.entries))
      → P (set_lock audit_adder locked event_type abs reason sb w).1.entries
  unfolding set_lock
  set_lock_cases locked event_type abs reason sb w P h k =
      let Q : SandboxResult × Sandbox × W → Type 0 = λ r. P r.1.entries in
      if_cases Q (not (is_inside abs sb.root_path)) _ _ (λ _. h)
        λ _. elim (Option-cases (lookup (to_rel sb.root_path abs) sb.entries)) [
          | inl new ↦ rw new h
          | inr (e, old) ↦ rw old (k e old)
        ]

  after-keeps :
      (c : Call) (sb : Sandbox) (w : W) (rel : String) (e : SandboxEntry)
      → e.locked ≡ true
      → frees sb.root_path rel c ≡ false
      → lookup rel sb.entries ≡ some e
      → lookup rel (after audit_adder write_to_disk lock_check scaled c sb w).0.entries ≡ some e
  unfolding after frees lock_entry unlock_entry lock_all populate
  after-keeps (Call.write_call abs content author now) sb w rel e l f h =
      write_cases abs content author now sb w (λ m. lookup rel m ≡ some e) h
        λ free. insert-locked _ rel _ sb.entries e free l h
  after-keeps (Call.populate_call now) sb w rel e l f h =
      create-keeps sb.root_path rel now synthetic_files sb.entries w e h
  after-keeps (Call.lock_call abs reason) sb w rel e l f h =
      set_lock_cases true "sandbox_entry_locked" abs reason sb w (λ m. lookup rel m ≡ some e) h
        λ g q. rw lookup-insert (
          if_cases (λ (x : Option SandboxEntry). x ≡ some e) (to_rel sb.root_path abs == rel) _ _
            (λ same.
              ap (λ x. some (locked x))
                (same_entry g e (
                  sym q
                  ∙ ap (λ x. lookup x sb.entries) ((eq_iff (to_rel sb.root_path abs) rel).0 same)
                  ∙ h))
              ∙ ap some (locked_same e l))
            (λ _. h))
  after-keeps (Call.unlock_call abs reason) sb w rel e l f h =
      set_lock_cases false "sandbox_entry_unlocked" abs reason sb w (λ m. lookup rel m ≡ some e) h
        λ g q. ground (
          arith,
          f,
          h,
          q,
          lookup-insert (to_rel sb.root_path abs) rel (record g { locked = false }) sb.entries,
        )
  after-keeps (Call.lock_all_call reason) sb w rel e l f h =
      lookup-lock_entries rel sb.entries e h ∙ ap some (locked_same e l)

  after-root :
      (c : Call) (sb : Sandbox) (w : W)
      → (after audit_adder write_to_disk lock_check scaled c sb w).0.root_path ≡ sb.root_path
  unfolding after write store lock_entry unlock_entry set_lock lock_all populate
  after-root (Call.write_call abs content author now) sb w = ground arith
  after-root (Call.populate_call now) sb w = refl
  after-root (Call.lock_call abs reason) sb w = ground arith
  after-root (Call.unlock_call abs reason) sb w = ground arith
  after-root (Call.lock_all_call reason) sb w = refl

  -- A locked entry stays as it is, content, version and lock, through every run of operations in
  -- which no call is unlock_entry on its path, whatever is written, populated or locked meanwhile.
  pub run-locked :
      (cs : List Call) (sb : Sandbox) (w : W) (rel : String) (e : SandboxEntry)
      → e.locked ≡ true
      → none_frees sb.root_path rel cs ≡ true
      → lookup rel sb.entries ≡ some e
      → lookup rel (run audit_adder write_to_disk lock_check scaled cs sb w).0.entries ≡ some e
  unfolding run none_frees
  run-locked [] sb w rel e l f h = h
  run-locked (c ∷ cs) sb w rel e l f h =
      let next = after audit_adder write_to_disk lock_check scaled c sb w in
      run-locked cs next.0 next.1 rel e l
        (subst (λ r. none_frees r rel cs ≡ true) (sym (after-root c sb w)) (ground (arith, f)))
        (after-keeps c sb w rel e l (ground (arith, f)) h)

  module _ (abs content author : String) (now : ℕ) (sb : Sandbox) (w : W) where
    abbrev pub written : SandboxResult × Sandbox × W
    written = write audit_adder write_to_disk lock_check abs content author now sb w

    abbrev pub rel : String
    rel = to_rel sb.root_path abs

    not_named : rel ≢ "" → is_empty rel ≡ false
    not_named h = elim (Bool-cases (is_empty rel)) [
      | inl e ↦ absurd (h ((eq_iff rel "").0 e))
      | inr e ↦ e
    ]

    -- A write goes through exactly when the path is inside the root and has a name there, the WORM
    -- lock is open, and the entry is not locked; a write that does not changes neither the entries
    -- nor the outside.
    pub write-allowed :
        ((written.0.is_ok ≡ true) ↔ (
          (is_inside abs sb.root_path ≡ true)
          × ((rel ≢ "") × ((lock_check w ≡ false) × (is_locked (lookup rel sb.entries) ≡ false)))))
        × ((written.0.is_ok ≡ true) ⊎ ((written.1 ≡ sb) × (written.2 ≡ w)))
    unfolding write store
    write-allowed = (
      (
        λ h. (
          ground (arith, h),
          ((λ e. ground (arith, h, (eq_iff rel "").1 e)), (ground (arith, h), ground (arith, h))),
        ),
        λ h. ground (arith, h.0, h.1.1.0, h.1.1.1, not_named h.1.0),
      ),
      ground arith,
    )

    -- A write that goes through is read back under its path: the new content, its length, and the
    -- version one higher modulo 2^64 than the entry had, or 1 where there was none.
    pub read-write :
        written.0.is_ok ≡ true
        → read abs written.1 ≡ (done, some (updated (lookup rel sb.entries) rel content now))
    unfolding read write store
    read-write =
        if_cases Reads (not (is_inside abs sb.root_path)) _ _ (λ _ h. ground (arith, h))
          λ inside.
            if_cases Reads (is_empty rel) _ _ (λ _ h. ground (arith, h))
              λ _.
                if_cases Reads (lock_check w) _ _ (λ _ h. ground (arith, h))
                  λ _.
                    if_cases Reads (is_locked (lookup rel sb.entries)) _ _
                      (λ _ h. ground (arith, h)) λ _ _. rw (inside, lookup-insert_self) refl
      where
        Reads : SandboxResult × Sandbox × W → Type 0
        Reads r =
            r.0.is_ok ≡ true
            → read abs r.1 ≡ (done, some (updated (lookup rel sb.entries) rel content now))
