-- ===== src/Response/Sessions.antt =====
-- The interactions of a session over a history of calls.
use astartis_codex_control_p.Base.{
  ℕ, ◌+◌, String, ◌≡◌, refl, ap, ◌≢◌, ◌↔◌, inl, inr, true, List, [], ◌∷◌, ◌++◌, map, arith, ◌==◌,
  eq_iff, if◌then◌else◌, is_some, Bool-cases, has_text, count_if, lookup, lookup-insert,
}
use astartis_codex_control_p.Callbacks.{AuditAdder}
use astartis_codex_control_p.Response.{
  IocEntry, ResponseEvent, ActiveResponse, new_response, response_tier_of,
  session_interaction_count, hinted, find_ioc, serve, check_ioc,
}

abbrev pub events_of : String → List ResponseEvent → ℕ
events_of sid log = count_if (λ (e : ResponseEvent). e.session_id == sid) log

events_of-snoc :
    (sid : String) (log : List ResponseEvent) (e : ResponseEvent)
    → events_of sid (log ++ e ∷ []) ≡ events_of sid log + (if e.session_id == sid then 1 else 0)
events_of-snoc sid [] e = ground arith
events_of-snoc sid (x ∷ log) e = ground (arith, events_of-snoc sid log e)

-- The counters count the events of the forensic log.
pub record IsCounted (r : ActiveResponse) : Type 0 where
  pub counted : (sid : String) → session_interaction_count sid r ≡ events_of sid r.forensic_log

new_response-IsCounted : IsCounted new_response
unfolding session_interaction_count lookup
new_response-IsCounted = record { counted = λ k. refl }

module _ {W : Type 0} (audit_adder : AuditAdder W) where
  pub data Call : Type 0 where
    serves : String → String → String → ℕ → Call
    checks : String → Call

  unfoldable pub step : Call → ActiveResponse × W → ActiveResponse × W
  step (serves sid res ioc_hint now) (r, w) =
      let s = serve audit_adder sid res ioc_hint now r w in (s.1, s.2)
  step (checks indicator) (r, w) = (r, (check_ioc audit_adder indicator r w).1)

  unfoldable pub run : List Call → ActiveResponse × W → ActiveResponse × W
  run [] s = s
  run (c ∷ cs) s = run cs (step c s)

  interactions-serve :
      (sid k res ioc_hint : String) (now : ℕ) (r : ActiveResponse) (w : W)
      → session_interaction_count k (serve audit_adder sid res ioc_hint now r w).1
        ≡ session_interaction_count k r + (if sid == k then 1 else 0)
  unfolding serve session_interaction_count
  interactions-serve sid k res ioc_hint now r w = elim (Bool-cases (sid == k)) [
    | inl same ↦ rw ((eq_iff sid k).0 same) (
        ground (
          arith,
          lookup-insert k k (session_interaction_count k r + 1) r.session_counts,
          eq_iff k k,
        ))
    | inr other ↦
        ground
          (arith, other, lookup-insert sid k (session_interaction_count sid r + 1) r.session_counts)
  ]

  serve-IsCounted :
      (sid res ioc_hint : String) (now : ℕ) (r : ActiveResponse) (w : W)
      → IsCounted r
      → IsCounted (serve audit_adder sid res ioc_hint now r w).1
  unfolding serve
  serve-IsCounted sid res ioc_hint now r w h = record {
    counted = λ k. ground (
      arith,
      interactions-serve sid k res ioc_hint now r w,
      events_of-snoc k r.forensic_log (serve audit_adder sid res ioc_hint now r w).0,
      h.counted k,
    );
  }

  step-IsCounted : (c : Call) (s : ActiveResponse × W) → IsCounted s.0 → IsCounted (step c s).0
  unfolding step
  step-IsCounted (serves sid res ioc_hint now) (r, w) h = serve-IsCounted sid res ioc_hint now r w h
  step-IsCounted (checks indicator) (r, w) h = h

  run-IsCounted : (cs : List Call) (s : ActiveResponse × W) → IsCounted s.0 → IsCounted (run cs s).0
  unfolding run
  run-IsCounted [] s h = h
  run-IsCounted (c ∷ cs) s h = run-IsCounted cs (step c s) (step-IsCounted c s h)

  -- The answer to a session, after any calls on a new object, has the tier that response_tier gives
  -- for the number of the events of this session in the forensic log, this one included.
  pub serve-tier :
      (cs : List Call) (w v : W) (sid res ioc_hint : String) (now : ℕ)
      → (serve audit_adder sid res ioc_hint now (run cs (new_response, w)).0 v).0.response_tier
        ≡ response_tier_of (events_of sid (run cs (new_response, w)).0.forensic_log + 1)
  unfolding serve
  serve-tier cs w v sid res ioc_hint now =
      let h = run-IsCounted cs (new_response, w) new_response-IsCounted in
      ap (λ (n : ℕ). response_tier_of (n + 1)) (h.counted sid)

-- The first entry with an indicator is found exactly when there is one.
find_ioc-some :
    (indicator : String) (es : List IocEntry)
    → (is_some (find_ioc indicator es) ≡ true)
      ↔ (has_text indicator (map (λ (e : IocEntry). e.indicator) es) ≡ true)
unfolding find_ioc has_text
find_ioc-some indicator [] = ((λ h. h), λ h. h)
find_ioc-some indicator (e ∷ es) = ground (arith, find_ioc-some indicator es)

-- The answer reports a match exactly when the hint is not empty and is an indicator of the list.
pub serve-match :
    {W : Type 0} (audit_adder : AuditAdder W) (sid res ioc_hint : String) (now : ℕ)
    (r : ActiveResponse) (w : W)
    → ((serve audit_adder sid res ioc_hint now r w).0.ioc_match ≡ true) ↔ (
        (ioc_hint ≢ "")
        × (has_text ioc_hint (map (λ (e : IocEntry). e.indicator) r.ioc_list) ≡ true))
unfolding serve hinted
serve-match audit_adder sid res ioc_hint now r w =
    ground (arith, find_ioc-some ioc_hint r.ioc_list, eq_iff ioc_hint "")
