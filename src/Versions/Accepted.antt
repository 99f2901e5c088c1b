-- ===== src/Versions/Accepted.antt =====
-- The version store against its specification: the list of the writes that were accepted.
use astartis_codex_control_p.Base.{
  ℕ, ◌+◌, String, ◌≡◌, refl, sym, Bool, ◌&&◌, not, List, [], ◌∷◌, ◌++◌, arith, ◌==◌, eq_iff,
  if◌then◌else◌, if_cases, is_empty, length, length-append, lookup,
}
use mathlib.Core.List.{append-nil, append_assoc}
use astartis_codex_control_p.Callbacks.{AuditAdder}
use astartis_codex_control_p.Versions.{RecordVersion, Store, get_history, new_version, write}
use astartis_codex_control_p.Versions.Histories.{append-history, appended}

-- A call of write, with the reading of the WORM lock that it gets.
pub record WriteCall : Type 0 where
  pub locked : Bool
  pub record_id : String
  pub payload : String
  pub author : String
  pub now : ℕ

unfoldable pub is_accepted : WriteCall → Bool
is_accepted c = not (is_empty c.record_id) && not c.locked

-- The accepted writes on a record, in their order.
unfoldable pub accepted_of : String → List WriteCall → List WriteCall
unfolding is_accepted
accepted_of j [] = []
accepted_of j (c ∷ cs) =
    let rest = accepted_of j cs in if is_accepted c && c.record_id == j then c ∷ rest else rest

module _ (sha256 : String → List ℕ) where
  -- The versions that a list of writes makes, numbered from `n + 1`.
  unfoldable pub versions_from : ℕ → List WriteCall → List RecordVersion
  versions_from n [] = []
  versions_from n (c ∷ cs) =
      new_version sha256 c.record_id (n + 1) c.now c.payload c.author ∷ versions_from (n + 1) cs

  module _ {W : Type 0} (audit_adder : AuditAdder W) where
    unfoldable pub run : List WriteCall → Store → W → Store × W
    run [] store w = (store, w)
    run (c ∷ cs) store w =
        let r =
          write sha256 audit_adder (λ _. c.locked) c.record_id c.payload c.author c.now store w in
        run cs r.1 r.2

    module _ (j : String) (c : WriteCall) (store : Store) (w : W) where
      same_history :
          c.record_id ≡ j
          → get_history c.record_id store
              ++ appended sha256 audit_adder c.record_id c.payload c.author c.now store ∷ []
            ≡ get_history j store
              ++ new_version sha256 c.record_id
                  (length (get_history j store) + 1)
                  c.now
                  c.payload
                  c.author
                ∷ []
      same_history e = rw e refl

      -- One write adds its version to the history of its record, if it is accepted.
      write-history :
          get_history j
            (write sha256 audit_adder
              (λ _. c.locked)
              c.record_id
              c.payload
              c.author
              c.now
              store
              w).1
          ≡ (if is_accepted c && c.record_id == j
              then get_history j store
                ++ new_version sha256 c.record_id
                    (length (get_history j store) + 1)
                    c.now
                    c.payload
                    c.author
                  ∷ []
              else get_history j store)
      unfolding write is_accepted
      write-history = ground (
        arith,
        append-history sha256 audit_adder c.record_id j c.payload c.author c.now store w,
        eq_iff c.record_id j,
        same_history,
      )

    run-history :
        (j : String) (cs : List WriteCall) (store : Store) (w : W)
        → get_history j (run cs store w).0
          ≡ get_history j store ++ versions_from (length (get_history j store)) (accepted_of j cs)
    unfolding run accepted_of versions_from
    run-history j [] store w = sym (append-nil (get_history j store))
    run-history j (c ∷ cs) store w =
        let hs = get_history j store in
        let v = new_version sha256 c.record_id (length hs + 1) c.now c.payload c.author in
        rw (run-history j cs, write-history j c store w)
          (if_cases
            (λ (us : List RecordVersion).
              us ++ versions_from (length us) (accepted_of j cs)
              ≡ hs ++ versions_from (length hs) (accepted_of j (c ∷ cs)))
            (is_accepted c && c.record_id == j) _ _
            (λ here. rw (here, length-append hs (v ∷ []), append_assoc hs (v ∷ [])) refl)
            (λ elsewhere. rw elsewhere refl))

    -- After any calls of write on an empty store, whatever the lock says at each of them, the history
    -- of a record is made of exactly the writes on it with a non-empty id that met an open lock, in
    -- their order, numbered from 1.
    pub run-accepted :
        (cs : List WriteCall) (j : String) (w : W)
        → get_history j (run cs [] w).0 ≡ versions_from 0 (accepted_of j cs)
    unfolding get_history lookup
    run-accepted cs j w = run-history j cs [] w
