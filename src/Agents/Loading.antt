-- ===== src/Agents/Loading.antt =====
-- Which personas are taken in, and how many tokens a task may use.
use astartis_codex_control_p.Base.{
  ◌≡◌, refl, sym, ◌∙◌, subst, ◌≢◌, ◌↔◌, ◌⊎◌, inl, inr, Bool, true, false, ◌&&◌, ◌||◌, Option, none,
  some, arith, eq_iff, if◌then◌else◌, Bool-cases, Option-cases, is_empty, ◌≤ℤ◌, ltb_ℤ, ℤ, pos,
}
use mathlib.Core.Bool.{true≢false}
use astartis_codex_control_p.Callbacks.{AuditAdder}
use astartis_codex_control_p.Doubles.{Doubles}
use astartis_codex_control_p.Agents.{GraniteModel, AgentPersona, AgentController, Outside}
use astartis_codex_control_p.Agents.Personas.{
  same_model, is_granite_only, validate_persona, load_persona, register,
}
use astartis_codex_control_p.Agents.Tasks.{configured_token_cap, capped_tokens, note_capped}

any_model :
    (m : GraniteModel)
    → same_model m GraniteModel.fast
        || (same_model m GraniteModel.heavy
            || (same_model m GraniteModel.accuracy || same_model m GraniteModel.orchestrator))
      ≡ true
any_model GraniteModel.fast = refl
any_model GraniteModel.heavy = refl
any_model GraniteModel.accuracy = refl
any_model GraniteModel.orchestrator = refl

module _ (D : Doubles) where
  -- What a persona needs.
  abbrev pub IsComplete : AgentPersona D.Double → Type 0
  IsComplete p =
      (p.name ≢ "")
      × (p.system_prompt ≢ "")
      × (pos 1 ≤ℤ p.max_tokens)
      × (D.lt p.temperature (D.literal "0.0") ≡ false)
      × (D.lt (D.literal "2.0") p.temperature ≡ false)

  validate_persona-IsComplete :
      (p : AgentPersona D.Double) → (validate_persona D p ≡ true) ↔ IsComplete p
  unfolding validate_persona
  validate_persona-IsComplete p = (
    λ h. (
      λ e. ground (arith, h, e, eq_iff p.name ""),
      λ e. ground (arith, h, e, eq_iff p.system_prompt ""),
      ground (arith, h),
      ground (arith, h),
      ground (arith, h),
    ),
    λ h. ground (arith, h.0, h.1, h.2, h.3, h.4, eq_iff p.name "", eq_iff p.system_prompt ""),
  )

  module _ {W : Type 0} (audit_adder : AuditAdder W) where
    taken_in :
        (p : AgentPersona D.Double) (c : AgentController D.Double) (w : W)
        → load_persona D audit_adder (some p) c w
          ≡ (if validate_persona D p then (true, register p c, w) else (false, c, w))
    unfolding load_persona is_granite_only
    taken_in p c w = rw (any_model p.preferred_model) (ground arith)

    -- A persona is taken in exactly if it could be read, has a name and a prompt, at least one token,
    -- and a temperature that is neither below 0.0 nor above 2.0; if it is not, the controller stays as
    -- it is. No persona is rejected for its model: the outside stays as it is in every case.
    pub load_persona-taken :
        (f : Option (AgentPersona D.Double)) (c : AgentController D.Double) (w : W)
        → (let r = load_persona D audit_adder f c w in
            ((r.0 ≡ true) ↔ ((p : AgentPersona D.Double) × (f ≡ some p) × IsComplete p))
            × ((r.0 ≡ true) ⊎ (r.1 ≡ c))
            × (r.2 ≡ w))
    unfolding load_persona
    load_persona-taken none c w = ((λ h. cc, λ h. cc), inr refl, refl)
    load_persona-taken (some p) c w = elim (Bool-cases (validate_persona D p)) [
      | inl valid ↦
          rw (taken_in p c w, valid)
            ((λ _. (p, refl, (validate_persona-IsComplete p).0 valid), λ _. refl), inl refl, refl)
      | inr invalid ↦
          rw (taken_in p c w, invalid)
            (
              (
                λ h. cc,
                λ h.
                    let same : h.0 ≡ p = cc (h.1) in
                    let complete : IsComplete p = subst IsComplete same h.2 in
                    absurd
                      (true≢false (sym ((validate_persona-IsComplete p).1 complete) ∙ invalid)),
              ),
              inr refl,
              refl,
            )
    ]

abbrev capped : {W : Type 0} → ℤ → ℤ → W → W → ℤ × W
capped cap most v w = if ltb_ℤ (pos 0) cap && ltb_ℤ cap most then (cap, v) else (most, w)

capped-bound :
    {W : Type 0} (cap most : ℤ) (v w : W)
    → ((capped cap most v w).0 ≤ℤ most)
      × (pos 1 ≤ℤ cap → (capped cap most v w).0 ≤ℤ cap)
      × ((cap ≤ℤ pos 0) ⊎ (most ≤ℤ cap) → capped cap most v w ≡ (most, w))
capped-bound cap most v w = (ground arith, λ h. ground (arith, h), λ h. ground (arith, h))

module _ {T W : Type 0} (outside : Outside T W) where
  abbrev InRange : ℤ → Type 0
  InRange cap = (cap ≡ pos 0) ⊎ ((pos 1 ≤ℤ cap) × (cap ≤ℤ pos 16384))

  clipped :
      (value : ℤ) (b : Bool)
      → InRange (if b || (ltb_ℤ value (pos 1) || ltb_ℤ (pos 16384) value) then pos 0 else value)
  clipped value b = ground arith

  configured_token_cap-InRange : (w : W) → InRange (configured_token_cap outside w)
  unfolding configured_token_cap
  configured_token_cap-InRange w = elim (Option-cases (outside.token_cap_text w)) [
    | inl unset ↦ rw (unset, configured_token_cap) (inl refl)
    | inr (raw, set) ↦ elim (Option-cases (outside.strtol raw)) [
      | inl unread ↦ rw (set, configured_token_cap, unread, configured_token_cap) (inl refl)
      | inr (value, read) ↦
          rw (set, configured_token_cap, read, configured_token_cap) (clipped value (is_empty raw))
    ]
  ]

  -- The cap of the environment is 0, which stands for none, or between 1 and 16384. The tokens of a task
  -- are never more than the persona's, nor than a cap that is set; and they are the persona's, with the
  -- outside as it was, where no cap is set or the persona stays within it.
  pub capped_tokens-bound :
      (p : AgentPersona T) (w : W)
      → (let cap = configured_token_cap outside w in
          let r = capped_tokens outside p w in
          (r.0 ≤ℤ p.max_tokens)
          × (pos 1 ≤ℤ cap → r.0 ≤ℤ cap)
          × ((cap ≤ℤ pos 0) ⊎ (p.max_tokens ≤ℤ cap) → r ≡ (p.max_tokens, w))
          × ((cap ≡ pos 0) ⊎ ((pos 1 ≤ℤ cap) × (cap ≤ℤ pos 16384))))
  unfolding capped_tokens
  capped_tokens-bound p w =
      let cap = configured_token_cap outside w in
      let b = capped-bound cap p.max_tokens (note_capped outside p cap w) w in
      (b.0, b.1, b.2, configured_token_cap-InRange w)
