-- ===== src/Tests/Histories.antt =====
-- The version store.
use astartis_codex_control_p.Base.{
  String, ◌≡◌, refl, Bool, true, false, some, List, [], ◌∷◌, length, lookup, insert,
}
use astartis_codex_control_p.Versions.{
  write, RecordVersion, VersionResult, Store, succeeded, get_history, read_version, new_version,
}
use astartis_codex_control_p.Callbacks.{Log, logging}
use astartis_codex_control_p.Versions.Reads.{IsOrdered}
use astartis_codex_control_p.Versions.Histories.{written, write-IsOrdered}
use astartis_codex_control_p.Versions.Accepted.{
  WriteCall, accepted_of, versions_from, run, run-accepted,
}
use astartis_codex_control_p.Tests.Fixtures.{checksum}

abbrev record_id : String
record_id = "case-1"

abbrev never : Log → Bool
never log = false

abbrev first_write : VersionResult × Store × Log
first_write = written checksum logging never "case-1" "opened" "ada" 10 [] []

empty-IsOrdered : IsOrdered []
unfolding get_history lookup
empty-IsOrdered = record { at = λ j. tt }

abbrev first_version : RecordVersion
first_version = new_version checksum "case-1" 1 10 "opened" "ada"

first_reads : read_version "case-1" 1 first_write.1 ≡ (succeeded 1, some first_version)
unfolding read_version lookup write insert
first_reads = refl

abbrev second_write : VersionResult × Store × Log
second_write = written checksum logging never "case-1" "closed" "bob" 20 first_write.1 first_write.2

second_ok : second_write.0.is_ok ≡ true
unfolding write
second_ok = refl

first-IsOrdered : IsOrdered first_write.1
first-IsOrdered =
    write-IsOrdered checksum logging never "case-1" "opened" "ada" 10 [] [] empty-IsOrdered

first_length : length (get_history "case-1" first_write.1) ≡ 1
unfolding get_history lookup write insert
first_length = refl

-- The second call meets an engaged lock, the third is on another record, the fourth has no id.
abbrev calls : List WriteCall
calls =
    record { locked = false; record_id = "case-1"; payload = "opened"; author = "ada"; now = 10 }
    ∷ record { locked = true; record_id = "case-1"; payload = "lost"; author = "eve"; now = 15 }
    ∷ record { locked = false; record_id = "case-2"; payload = "opened"; author = "bob"; now = 16 }
    ∷ record { locked = false; record_id = ""; payload = "nowhere"; author = "bob"; now = 17 }
    ∷ record { locked = false; record_id = "case-1"; payload = "closed"; author = "bob"; now = 20 }
    ∷ []

two_versions : length (versions_from checksum 0 (accepted_of "case-1" calls)) ≡ 2
unfolding versions_from accepted_of
two_versions = refl

run-accepted_example :
    get_history "case-1" (run checksum logging calls [] []).0
    ≡ versions_from checksum 0 (accepted_of "case-1" calls)
run-accepted_example = run-accepted checksum logging calls "case-1" []
