-- ===== src/Sandbox/Contained.antt =====
-- Where the sandbox writes on the disk, over any run of its operations.
use astartis_codex_control_p.Base.{
  ℕ, String, ◌≡◌, refl, sym, subst, inl, inr, Bool, true, false, ◌&&◌, not, Option, List, [], ◌∷◌,
  arith, ◌==◌, eq_iff, ltb, is_some, Option-cases, if_cases, concat, is_empty, nat_text, Dict,
  lookup,
}
use text.Mathlib.TextLemmas.{append-nil}
use astartis_codex_control_p.Callbacks.{AuditAdder}
use astartis_codex_control_p.Sandbox.Paths.{
  to_rel, normalise, has_dotdot, is_inside, slashed, stripped,
}
use astartis_codex_control_p.Sandbox.{
  is_locked, SandboxEntry, SandboxResult, Sandbox, new_sandbox, write, store, lock_entry,
  unlock_entry, lock_all, populate, create, create_one, set_lock, note,
}
use astartis_codex_control_p.Sandbox.Normal.{IsRelative, is_inside-under}
use astartis_codex_control_p.Sandbox.Files.{SynthFile, synthetic_files}

-- A call of an operation that may change the sandbox.
pub data Call : Type 0 where
  write_call : String → String → String → ℕ → Call
  populate_call : ℕ → Call
  lock_call unlock_call : String → String → Call
  lock_all_call : String → Call

module _ {W : Type 0} (audit_adder : AuditAdder W) (write_to_disk : String → String → W → W)
    (lock_check : W → Bool) (scaled : String → ℕ → Option ℕ) where
  unfoldable pub after : Call → Sandbox → W → Sandbox × W
  unfolding write populate lock_entry unlock_entry lock_all
  after (Call.write_call abs content author now) sb w =
      let r = write audit_adder write_to_disk lock_check abs content author now sb w in (r.1, r.2)
  after (Call.populate_call now) sb w =
      let r = populate audit_adder write_to_disk scaled now sb w in (r.1, r.2)
  after (Call.lock_call abs reason) sb w =
      let r = lock_entry audit_adder abs reason sb w in (r.1, r.2)
  after (Call.unlock_call abs reason) sb w =
      let r = unlock_entry audit_adder abs reason sb w in (r.1, r.2)
  after (Call.lock_all_call reason) sb w = let r = lock_all audit_adder reason sb w in (r.1, r.2)

  unfoldable pub run : List Call → Sandbox → W → Sandbox × W
  unfolding after
  run [] sb w = (sb, w)
  run (c ∷ cs) sb w = let next = after c sb w in run cs next.0 next.1

unfoldable pub is_relative : String → Bool
unfolding slashed stripped has_dotdot
is_relative u = slashed u == u && (stripped u == u && (not (u == "") && not (has_dotdot u)))

pub is_relative→IsRelative : (u : String) → is_relative u ≡ true → IsRelative u
unfolding is_relative
is_relative→IsRelative u h = record {
  is_slashed = (eq_iff (slashed u) u).0 (ground arith);
  is_stripped = (eq_iff (stripped u) u).0 (ground arith);
  is_named = λ e. ground (arith, (eq_iff u "").1 e);
  is_straight = ground arith;
}

all_relative : List SynthFile → Bool
unfolding is_relative
all_relative [] = true
all_relative (f ∷ fs) = is_relative f.rel_path && all_relative fs

synthetic_relative : all_relative synthetic_files ≡ true
unfolding all_relative
synthetic_relative = refl

module _ {W : Type 0} (audit_adder : AuditAdder W) (write_to_disk : String → String → W → W)
    (lock_check : W → Bool) (scaled : String → ℕ → Option ℕ) (root : String) (P : W → Type 0)
    (told : (event_type payload : String) (w : W) → P w → P (audit_adder event_type payload w).1)
    (written : (path content : String) (w : W)
      → is_inside path (normalise root) ≡ true
      → P w
      → P (write_to_disk path content w)) where
  -- What the calls keep, of the state that an operation leaves.
  record Kept {A : Type 0} (r : A × Sandbox × W) : Type 0 where
    pub same_root : r.1.root_path ≡ normalise root
    pub holds : P r.2

  create_one-P :
      (now : ℕ) (f : SynthFile) (m : Dict SandboxEntry) (w : W)
      → has_dotdot (normalise root) ≡ false
      → is_relative f.rel_path ≡ true
      → P w
      → P (create_one audit_adder write_to_disk scaled (normalise root) now f m w).2
  unfolding create_one concat
  create_one-P now f m w h k p =
      if_cases (λ (r : ℕ × Dict SandboxEntry × W). P r.2) (is_some (lookup f.rel_path m)) _ _
        (λ _. p)
        λ _.
          written _ _ w
            (rw (append-nil f.rel_path)
              (is_inside-under root f.rel_path h (is_relative→IsRelative f.rel_path k)))
            p

  create-P :
      (now : ℕ) (fs : List SynthFile) (m : Dict SandboxEntry) (w : W)
      → has_dotdot (normalise root) ≡ false
      → all_relative fs ≡ true
      → P w
      → P (create audit_adder write_to_disk scaled (normalise root) now fs m w).2
  unfolding create all_relative
  create-P now [] m w h k p = p
  create-P now (f ∷ fs) m w h k p =
      create-P now fs _ _ h (ground arith) (create_one-P now f m w h (ground arith) p)

  populate-P :
      (now : ℕ) (sb : Sandbox) (w : W)
      → has_dotdot (normalise root) ≡ false
      → sb.root_path ≡ normalise root
      → P w
      → Kept (populate audit_adder write_to_disk scaled now sb w)
  unfolding populate note
  populate-P now sb w h k p =
      let root_now = sb.root_path in
      let r = create audit_adder write_to_disk scaled root_now now synthetic_files sb.entries w in
      let created : P r.2 =
        subst
          (λ (x : String).
            P (create audit_adder write_to_disk scaled x now synthetic_files sb.entries w).2)
          (sym k) (create-P now synthetic_files sb.entries w h synthetic_relative p) in
      record {
        same_root = k;
        holds =
            if_cases P (ltb 0 r.0)
              (note audit_adder "sandbox_populated"
                ("root=" ∷ root_now ∷ " entries_created=" ∷ nat_text r.0 ∷ []) r.2)
              r.2 (λ _. told _ _ _ created) (λ _. created);
      }

  write-P :
      (abs content author : String) (now : ℕ) (sb : Sandbox) (w : W)
      → sb.root_path ≡ normalise root
      → P w
      → Kept (write audit_adder write_to_disk lock_check abs content author now sb w)
  unfolding write store note
  write-P abs content author now sb w k p =
      if_cases Kept (not (is_inside abs sb.root_path)) _ _ (λ _. same)
        λ inside.
          if_cases Kept (is_empty (to_rel sb.root_path abs)) _ _ (λ _. same)
            λ _.
              if_cases Kept (lock_check w) _ _ (λ _. same)
                λ _.
                  if_cases Kept (is_locked (lookup (to_rel sb.root_path abs) sb.entries)) _ _
                    (λ _. same)
                    λ _. record {
                      same_root = k;
                      holds = told "sandbox_write" _ _ (
                          written abs content w
                            (subst (λ r. is_inside abs r ≡ true) k (ground (arith, inside))) p);
                    }
    where
      same : {r : SandboxResult} → Kept (r, sb, w)
      same = record { same_root = k; holds = p }

  set_lock-P :
      (locked : Bool) (event_type abs reason : String) (sb : Sandbox) (w : W)
      → sb.root_path ≡ normalise root
      → P w
      → Kept (set_lock audit_adder locked event_type abs reason sb w)
  unfolding set_lock note
  set_lock-P locked event_type abs reason sb w k p =
      if_cases Kept (not (is_inside abs sb.root_path)) _ _
        (λ _. record { same_root = k; holds = p })
        λ _. elim (Option-cases (lookup (to_rel sb.root_path abs) sb.entries)) [
          | inl new ↦ rw new (record { same_root = k; holds = p })
          | inr (e, old) ↦ rw old (record { same_root = k; holds = told event_type _ _ p })
        ]

  after-P :
      (c : Call) (sb : Sandbox) (w : W)
      → has_dotdot (normalise root) ≡ false
      → sb.root_path ≡ normalise root
      → P w
      → (let r = after audit_adder write_to_disk lock_check scaled c sb w in
          (r.0.root_path ≡ normalise root) × P r.1)
  unfolding after lock_entry unlock_entry lock_all note
  after-P (Call.write_call abs content author now) sb w h k p =
      let r = write-P abs content author now sb w k p in (r.same_root, r.holds)
  after-P (Call.populate_call now) sb w h k p =
      let r = populate-P now sb w h k p in (r.same_root, r.holds)
  after-P (Call.lock_call abs reason) sb w h k p =
      let r = set_lock-P true "sandbox_entry_locked" abs reason sb w k p in (r.same_root, r.holds)
  after-P (Call.unlock_call abs reason) sb w h k p =
      let r = set_lock-P false "sandbox_entry_unlocked" abs reason sb w k p in
      (r.same_root, r.holds)
  after-P (Call.lock_all_call reason) sb w h k p = (k, told "sandbox_worm_lock_all" _ _ p)

  run-P :
      (cs : List Call) (sb : Sandbox) (w : W)
      → has_dotdot (normalise root) ≡ false
      → sb.root_path ≡ normalise root
      → P w
      → P (run audit_adder write_to_disk lock_check scaled cs sb w).1
  unfolding run
  run-P [] sb w h k p = p
  run-P (c ∷ cs) sb w h k p = let r = after-P c sb w h k p in run-P cs _ _ h r.0 r.1

  -- Whatever the audit entries keep, and the writes on the disk to paths that pass the guard of the
  -- root, every run of operations on a new sandbox keeps, if the root has no "..".
  pub run-contained :
      (cs : List Call) (w : W)
      → has_dotdot (normalise root) ≡ false
      → P w
      → P (run audit_adder write_to_disk lock_check scaled cs (new_sandbox root) w).1
  unfolding new_sandbox
  run-contained cs w h p = run-P cs (new_sandbox root) w h refl p
