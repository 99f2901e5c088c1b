-- ===== src/Decoy.antt =====
-- astartis/core/decoy: DecoyEnvironment on top of the sandbox that sb_ refers to. `times` is the clock's
-- reading at the write of each file, `now` its reading at an event.
pub mod Files
pub mod Bait
use astartis_codex_control_p.Base.{
  ℕ, ◌+◌, String, Bool, true, false, not, none, some, List, [], ◌∷◌, ◌++◌, if◌then◌else◌, is_some,
  concat, nat_text, length, Dict, lookup, insert,
}
use astartis_codex_control_p.Callbacks.{AuditAdder}
use astartis_codex_control_p.Result.{Exception, Result}
use astartis_codex_control_p.Sandbox.{Sandbox, write}
use astartis_codex_control_p.Decoy.Files.{PoisonType, PoisonSpec, poisoned_files}

pub record DecoyEvent : Type 0 where
  pub timestamp_ms : ℕ
  pub rel_path : String
  pub poison_type : PoisonType
  pub action : String
  pub attacker_tag : String
  pub detail : String

pub record DecoyEnvironment : Type 0 where
  pub poisoned : Dict PoisonType
  pub forensic_log : List DecoyEvent

abbrev pub lateral_movement_root : String
lateral_movement_root = "decoy/server-02"

unfoldable pub poison_type_name : PoisonType → String
poison_type_name PoisonType.data_valuation = "DATA_VALUATION"
poison_type_name PoisonType.lateral_movement = "LATERAL_MOVEMENT"
poison_type_name PoisonType.credential = "CREDENTIAL"

abbrev pub new_environment : DecoyEnvironment
new_environment = record { poisoned = []; forensic_log = [] }

unfoldable pub event_count : DecoyEnvironment → ℕ
event_count d = length d.forensic_log

unfoldable pub is_poisoned : String → DecoyEnvironment → Bool
is_poisoned rel_path d = is_some (lookup rel_path d.poisoned)

unfoldable pub poison_type_of : String → DecoyEnvironment → Result PoisonType
poison_type_of rel_path d = elim (lookup rel_path d.poisoned) [
  | none ↦
      Result.throws (Exception.invalid_argument (concat ("not a poisoned path: " ∷ rel_path ∷ [])))
  | some t ↦ Result.ok t
]

module _ {W : Type 0} (audit_adder : AuditAdder W) where
  unfoldable pub log_event : DecoyEvent → DecoyEnvironment → W → DecoyEnvironment × W
  unfolding poison_type_name concat
  log_event ev d w = (
    record d { forensic_log = d.forensic_log ++ ev ∷ [] },
    (audit_adder "decoy_event"
        (concat (
          "rel="
          ∷ ev.rel_path
          ∷ " poison_type="
          ∷ poison_type_name ev.poison_type
          ∷ " action="
          ∷ ev.action
          ∷ " attacker="
          ∷ ev.attacker_tag
          ∷ " detail=\""
          ∷ ev.detail
          ∷ "\""
          ∷ []))
        w).1,
  )

  unfoldable pub touch :
      String → String → String → String → ℕ → DecoyEnvironment → W → Bool × DecoyEnvironment × W
  unfolding log_event
  touch rel_path action attacker_tag detail now d w = elim (lookup rel_path d.poisoned) [
    | none ↦ (false, d, w)
    | some t ↦
        let (d', w') =
          log_event
            (record {
              timestamp_ms = now;
              rel_path = rel_path;
              poison_type = t;
              action = action;
              attacker_tag = attacker_tag;
              detail = detail;
            })
            d w in
        (true, d', w')
  ]

  unfoldable pub redirect :
      String → String → ℕ → DecoyEnvironment → W → String × DecoyEnvironment × W
  unfolding log_event concat
  redirect attacker_tag trigger_path now d w =
      let (d', w') =
        log_event
          (record {
            timestamp_ms = now;
            rel_path = lateral_movement_root;
            poison_type = PoisonType.lateral_movement;
            action = "redirect";
            attacker_tag = attacker_tag;
            detail = concat ("triggered_by=" ∷ trigger_path ∷ []);
          })
          d w in
      (lateral_movement_root, d', w')

  module _ (write_to_disk : String → String → W → W) (lock_check : W → Bool)
      (times : String → ℕ) where
    -- One turn of the loop in plant: the number planted, the poisoned paths, the sandbox.
    unfoldable pub plant_one :
        PoisonSpec → Dict PoisonType → Sandbox → W → ℕ × Dict PoisonType × Sandbox × W
    unfolding concat write
    plant_one s poisoned sb w =
        let (r, sb', w') =
          write audit_adder write_to_disk lock_check (concat (sb.root_path ∷ "/" ∷ s.rel_path ∷ []))
            s.content "decoy_system" (times s.rel_path) sb w in
        if not r.is_ok
        then (0, poisoned, sb', w')
        else (1, insert s.rel_path s.poison_type poisoned, sb', w')

    unfoldable pub plant_all :
        List PoisonSpec → Dict PoisonType → Sandbox → W → ℕ × Dict PoisonType × Sandbox × W
    unfolding plant_one
    plant_all [] poisoned sb w = (0, poisoned, sb, w)
    plant_all (s ∷ ss) poisoned sb w =
        let one = plant_one s poisoned sb w in
        let rest = plant_all ss one.1 one.2 one.3 in (one.0 + rest.0, rest.1, rest.2, rest.3)

    unfoldable pub plant : DecoyEnvironment → Sandbox → W → ℕ × DecoyEnvironment × Sandbox × W
    unfolding plant_all concat
    plant d sb w =
        let (planted, poisoned, sb', w') = plant_all poisoned_files d.poisoned sb w in
        (
          planted,
          record d { poisoned = poisoned },
          sb',
          (audit_adder "decoy_planted"
              (concat (
                "planted="
                ∷ nat_text planted
                ∷ " data_valuation=4 lateral_movement=5 credential=4"
                ∷ []))
              w').1,
        )
