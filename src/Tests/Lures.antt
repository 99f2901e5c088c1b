-- ===== src/Tests/Lures.antt =====
-- The decoys.
use astartis_codex_control_p.Sandbox.Paths.{normalise, has_dotdot}
use astartis_codex_control_p.Base.{ℕ, String, ◌≡◌, refl, true, List, [], is_some, lookup, insert}
use astartis_codex_control_p.Sandbox.{Sandbox, new_sandbox}
use astartis_codex_control_p.Decoy.{DecoyEnvironment, plant, is_poisoned, new_environment}
use astartis_codex_control_p.Decoy.Bait.{plant-baited}
use astartis_codex_control_p.Tests.Mirror.{silent, disk, open_lock}

abbrev planted : ℕ × DecoyEnvironment × Sandbox × List String
planted = plant silent disk open_lock (λ rel. 5) new_environment (new_sandbox "/srv/box") []

bait_is_poisoned : is_poisoned "decoy/credentials/etc/shadow" planted.1 ≡ true
unfolding is_poisoned lookup plant new_sandbox insert
bait_is_poisoned = refl

plant-baited_example : is_some (lookup "decoy/credentials/etc/shadow" planted.2.entries) ≡ true
unfolding has_dotdot normalise new_sandbox
plant-baited_example =
    plant-baited silent disk open_lock (λ rel. 5) "/srv/box" "decoy/credentials/etc/shadow"
      (new_sandbox "/srv/box") [] refl refl bait_is_poisoned
