-- ===== src/Decoy/Bait.antt =====
-- Every poisoned path has its file in the sandbox.
use astartis_codex_control_p.Base.{
  ℕ, String, append, ◌≡◌, refl, sym, ap, ◌∙◌, inl, inr, Bool, true, false, ◌&&◌, not, List, [], ◌∷◌,
  arith, ◌==◌, eq_iff, is_some, Bool-cases, if_cases, concat, is_empty, Dict, lookup, insert,
  lookup-insert, lookup-insert_self,
}
use text.Mathlib.TextLemmas.{append-nil}
use astartis_codex_control_p.Callbacks.{AuditAdder}
use astartis_codex_control_p.Sandbox.{Sandbox, SandboxEntry, SandboxResult, write, store, is_locked}
use astartis_codex_control_p.Sandbox.Paths.{normalise, has_dotdot, is_inside, to_rel}
use astartis_codex_control_p.Sandbox.Normal.{to_rel-under}
use astartis_codex_control_p.Sandbox.Contained.{is_relative, is_relative→IsRelative}
use astartis_codex_control_p.Decoy.{new_environment, is_poisoned, plant, plant_all, plant_one}
use astartis_codex_control_p.Decoy.Files.{PoisonType, PoisonSpec, poisoned_files}

all_relative : List PoisonSpec → Bool
all_relative [] = true
all_relative (s ∷ ss) = is_relative s.rel_path && all_relative ss

poisoned_relative : all_relative poisoned_files ≡ true
unfolding all_relative is_relative
poisoned_relative = refl

-- What is poisoned is an entry of the sandbox.
record IsBaited (poisoned : Dict PoisonType) (entries : Dict SandboxEntry) : Type 0 where
  pub there :
      (rel : String) → is_some (lookup rel poisoned) ≡ true → is_some (lookup rel entries) ≡ true

none-IsBaited : {m : Dict SandboxEntry} → IsBaited [] m
unfolding lookup
none-IsBaited = record { there = λ rel h. cc }

false-not : (b : Bool) → not b ≡ false → b ≡ true
false-not true h = refl
false-not false h = cc

module _ {W : Type 0} (audit_adder : AuditAdder W) (write_to_disk : String → String → W → W)
    (lock_check : W → Bool) (times : String → ℕ) where
  -- Whether the entry of a path is there, behind a write.
  record Written (rel : String) (sb : Sandbox) (r : SandboxResult × Sandbox × W) : Type 0 where
    pub root : r.1.root_path ≡ sb.root_path
    pub stored : r.0.is_ok ≡ true → is_some (lookup rel r.1.entries) ≡ true
    pub kept :
        (j : String) → is_some (lookup j sb.entries) ≡ true → is_some (lookup j r.1.entries) ≡ true

  stored_insert :
      (j rel : String) (e : SandboxEntry) (m : Dict SandboxEntry)
      → is_some (lookup j m) ≡ true
      → is_some (lookup j (insert rel e m)) ≡ true
  stored_insert j rel e m h = ground (arith, lookup-insert rel j e m)

  write-Written :
      (abs content author : String) (now : ℕ) (sb : Sandbox) (w : W)
      → Written
          (to_rel sb.root_path abs)
          sb
          (write audit_adder write_to_disk lock_check abs content author now sb w)
  unfolding write store
  write-Written abs content author now sb w =
      if_cases (Written rel sb) (not (is_inside abs sb.root_path)) _ _ (λ _. same)
        λ _.
          if_cases (Written rel sb) (is_empty rel) _ _ (λ _. same)
            λ _.
              if_cases (Written rel sb) (lock_check w) _ _ (λ _. same)
                λ _.
                  if_cases (Written rel sb) (is_locked (lookup rel sb.entries)) _ _ (λ _. same)
                    λ _. record {
                      root = refl;
                      stored = λ _. ap is_some (lookup-insert_self rel _ sb.entries);
                      kept = λ j h. stored_insert j rel _ sb.entries h;
                    }
    where
      rel : String
      rel = to_rel sb.root_path abs

      same : {error : String} → Written rel sb (record { is_ok = false; error = error }, sb, w)
      same = record { root = refl; stored = λ h. cc; kept = λ j h. h }

  -- What planting keeps, of the poisoned paths and the sandbox behind it.
  record Baits (root : String) (r : ℕ × Dict PoisonType × Sandbox × W) : Type 0 where
    pub same_root : r.2.root_path ≡ normalise root
    pub baited : IsBaited r.1 r.2.entries

  kept-IsBaited :
      (p : Dict PoisonType) (m m' : Dict SandboxEntry)
      → ((j : String) → is_some (lookup j m) ≡ true → is_some (lookup j m') ≡ true)
      → IsBaited p m
      → IsBaited p m'
  kept-IsBaited p m m' k b = record { there = λ rel h. k rel (b.there rel h) }

  insert-IsBaited :
      (rel : String) (t : PoisonType) (p : Dict PoisonType) (m : Dict SandboxEntry)
      → is_some (lookup rel m) ≡ true
      → IsBaited p m
      → IsBaited (insert rel t p) m
  insert-IsBaited rel t p m h b = record {
    there = λ j k. elim (Bool-cases (rel == j)) [
      | inl e ↦ ap (λ x. is_some (lookup x m)) (sym ((eq_iff rel j).0 e)) ∙ h
      | inr e ↦ b.there j (sym (ap is_some (lookup-insert rel j t p ∙ rw e refl)) ∙ k)
    ];
  }

  plant_one-Baits :
      (root : String) (s : PoisonSpec) (p : Dict PoisonType) (sb : Sandbox) (w : W)
      → has_dotdot (normalise root) ≡ false
      → is_relative s.rel_path ≡ true
      → sb.root_path ≡ normalise root
      → IsBaited p sb.entries
      → Baits root (plant_one audit_adder write_to_disk lock_check times s p sb w)
  unfolding plant_one concat
  plant_one-Baits root s p sb w h k q b =
      let abs = append sb.root_path (append "/" (append s.rel_path "")) in
      let r =
        write audit_adder write_to_disk lock_check abs s.content "decoy_system" (times s.rel_path)
          sb w in
      let h' = write-Written abs s.content "decoy_system" (times s.rel_path) sb w in
      let kept = kept-IsBaited p sb.entries r.1.entries h'.kept b in
      let rel_is : to_rel sb.root_path abs ≡ s.rel_path =
        ap (λ x. to_rel x (append x (append "/" (append s.rel_path "")))) q
        ∙ ap (λ x. to_rel (normalise root) (append (normalise root) (append "/" x)))
            (append-nil s.rel_path)
        ∙ to_rel-under root s.rel_path h (is_relative→IsRelative s.rel_path k) in
      if_cases (Baits root) (not r.0.is_ok) _ _
        (λ _. record { same_root = h'.root ∙ q; baited = kept })
        λ ok. record {
          same_root = h'.root ∙ q;
          baited =
              insert-IsBaited s.rel_path s.poison_type p r.1.entries
                (ap (λ x. is_some (lookup x r.1.entries)) (sym rel_is)
                  ∙ h'.stored (false-not r.0.is_ok ok))
                kept;
        }

  plant_all-Baits :
      (root : String) (ss : List PoisonSpec) (p : Dict PoisonType) (sb : Sandbox) (w : W)
      → has_dotdot (normalise root) ≡ false
      → all_relative ss ≡ true
      → sb.root_path ≡ normalise root
      → IsBaited p sb.entries
      → Baits root (plant_all audit_adder write_to_disk lock_check times ss p sb w)
  unfolding plant_all all_relative
  plant_all-Baits root [] p sb w h k q b = record { same_root = q; baited = b }
  plant_all-Baits root (s ∷ ss) p sb w h k q b =
      let one = plant_one-Baits root s p sb w h (ground (arith, k)) q b in
      let rest = plant_all-Baits root ss _ _ _ h (ground (arith, k)) one.same_root one.baited in
      record { same_root = rest.same_root; baited = rest.baited }

  -- After the first plant, every path that is poisoned is an entry of the sandbox, also where the lock
  -- or a locked entry kept some of the files from being written, if the root has no "..".
  pub plant-baited :
      (root rel : String) (sb : Sandbox) (w : W)
      → has_dotdot (normalise root) ≡ false
      → sb.root_path ≡ normalise root
      → is_poisoned rel (plant audit_adder write_to_disk lock_check times new_environment sb w).1
        ≡ true
      → is_some (
          lookup rel
            (plant audit_adder write_to_disk lock_check times new_environment sb w).2.entries)
        ≡ true
  unfolding plant is_poisoned
  plant-baited root rel sb w h q k =
      (plant_all-Baits root poisoned_files [] sb w h poisoned_relative q none-IsBaited).baited.there
        rel k
