-- ===== src/Sensor/Adapters.antt =====
-- Which adapter a start captures from.
use astartis_codex_control_p.Base.{
  ℕ, suc, String, ◌≡◌, refl, sym, ◌∙◌, subst, ◌≢◌, ◌⊎◌, inl, inr, Bool, true, false, ◌&&◌, not,
  Option, none, some, List, [], ◌∷◌, arith, ◌==◌, eq_iff, is_some, if_cases, is_empty, get_elem?,
}
use mathlib.Core.Bool.{true≢false}
use astartis_codex_control_p.Callbacks.{AuditAdder}
use astartis_codex_control_p.Doubles.{Doubles}
use astartis_codex_control_p.Rules.{EntropyWindow}
use astartis_codex_control_p.Sensor.{
  CaptureAdapter, Pcap, PacketSensor, choose, opened, start, start_with, chosen_of, with_name,
}

-- The device is one of those, and the one that is wanted: the name that the hint gives, and without a
-- hint one that is up and no loopback.
pub record IsWanted (hint : String) (ds : List CaptureAdapter) (d : CaptureAdapter) : Type 0 where
  pub place : ℕ
  pub there : get_elem? ds place ≡ some d
  pub named : hint ≢ "" → d.name ≡ hint
  pub usable : hint ≡ "" → (d.up ≡ true) × (d.loopback ≡ false)

module _ (hint : String) (x : CaptureAdapter) (ds : List CaptureAdapter) (d : CaptureAdapter) where
  first-IsWanted :
      (hint ≢ "" → x.name ≡ hint)
      → (hint ≡ "" → (x.up ≡ true) × (x.loopback ≡ false))
      → some x ≡ some d
      → IsWanted hint (x ∷ ds) d
  first-IsWanted named usable e =
      let same : x ≡ d = cc in
      subst (λ y. IsWanted hint (x ∷ ds) y) same
        (record { place = 0; there = refl; named = named; usable = usable })

  named-IsWanted :
      not (is_empty hint) && hint == x.name ≡ true → some x ≡ some d → IsWanted hint (x ∷ ds) d
  named-IsWanted same =
      first-IsWanted (λ h. ground (arith, same, eq_iff hint x.name, eq_iff hint ""))
        (λ h. ground (arith, same, eq_iff hint ""))

  usable-IsWanted :
      is_empty hint && (not x.loopback && x.up) ≡ true → some x ≡ some d → IsWanted hint (x ∷ ds) d
  usable-IsWanted fits =
      first-IsWanted (λ h. ground (arith, fits, eq_iff hint "", h)) (λ h. ground (arith, fits))

  later-IsWanted : IsWanted hint ds d → IsWanted hint (x ∷ ds) d
  later-IsWanted h = record {
    place = suc h.place;
    there = h.there;
    named = h.named;
    usable = h.usable;
  }

choose-IsWanted :
    (hint : String) (ds : List CaptureAdapter) (d : CaptureAdapter)
    → choose hint ds ≡ some d
    → IsWanted hint ds d
unfolding choose
choose-IsWanted hint [] d h = cc
choose-IsWanted hint (x ∷ ds) d h =
    if_cases (λ (o : Option CaptureAdapter). o ≡ some d → IsWanted hint (x ∷ ds) d)
      (not (is_empty hint) && hint == x.name) _ _ (λ same. named-IsWanted hint x ds d same)
      (λ _.
        if_cases (λ (o : Option CaptureAdapter). o ≡ some d → IsWanted hint (x ∷ ds) d)
          (is_empty hint && (not x.loopback && x.up)) _ _ (λ fits. usable-IsWanted hint x ds d fits)
          (λ _ e. later-IsWanted hint x ds d (choose-IsWanted hint ds d e)))
      h

module _ (D : Doubles) {W : Type 0} (window_cb : EntropyWindow D.Double → W → W)
    (audit_adder : AuditAdder W) (pcap : Pcap W) where
  -- A real adapter among those that were found: the one that is wanted, with its handle.
  abbrev pub IsReal : String → Option (List CaptureAdapter) → PacketSensor D.Double → Type 0
  IsReal hint found s =
      (ds : List CaptureAdapter) × (d : CaptureAdapter) × (found ≡ some ds)
      × IsWanted hint ds d
      × (s.adapter_name ≡ d.name)
      × (is_some s.pcap_handle ≡ true)
      × (s.synthetic_mode ≡ false)

  -- The synthetic injector in place of an adapter.
  abbrev pub IsSynthetic : PacketSensor D.Double → Type 0
  IsSynthetic s =
      (s.adapter_name ≡ "synthetic") × (s.pcap_handle ≡ none) × (s.synthetic_mode ≡ true)

  abbrev Started : String → Option (List CaptureAdapter) → Bool × PacketSensor D.Double × W → Type 0
  Started hint found r =
      (r.1.running ≡ true)
      × (((r.0 ≡ true) × IsReal hint found r.1) ⊎ ((r.0 ≡ false) × IsSynthetic r.1))

  start_with-Started :
      (hint : String) (found : Option (List CaptureAdapter)) (c : Option CaptureAdapter)
      (handle : Option ℕ) (s : PacketSensor D.Double) (w : W)
      → ((d : CaptureAdapter)
          → c ≡ some d
          → (ds : List CaptureAdapter) × (found ≡ some ds) × IsWanted hint ds d)
      → (d : CaptureAdapter) → c ≡ some d
      → Started hint found (start_with D window_cb audit_adder pcap (with_name d.name handle) s w)
  unfolding start_with with_name
  start_with-Started hint found c none s w wanted d e = (refl, inr (refl, (refl, refl, refl)))
  start_with-Started hint found c (some h) s w wanted d e =
      let k = wanted d e in (refl, inl (refl, (k.0, d, k.1, k.2, refl, refl, refl)))

  chosen_of-IsWanted :
      (hint : String) (found : Option (List CaptureAdapter)) (d : CaptureAdapter)
      → chosen_of hint found ≡ some d
      → (ds : List CaptureAdapter) × (found ≡ some ds) × IsWanted hint ds d
  unfolding chosen_of
  chosen_of-IsWanted hint none d h = cc
  chosen_of-IsWanted hint (some ds) d h = (ds, refl, choose-IsWanted hint ds d h)

  opened-Started :
      (hint : String) (found : Option (List CaptureAdapter)) (c : Option CaptureAdapter)
      (s : PacketSensor D.Double) (w : W)
      → ((d : CaptureAdapter)
          → c ≡ some d
          → (ds : List CaptureAdapter) × (found ≡ some ds) × IsWanted hint ds d)
      → Started hint found
          (let o = opened pcap c w in start_with D window_cb audit_adder pcap o.0 s o.1)
  unfolding opened start_with with_name
  opened-Started hint found none s w wanted = (refl, inr (refl, (refl, refl, refl)))
  opened-Started hint found (some d) s w wanted =
      start_with-Started hint found (some d) (pcap.open_live d.name w).0 s
        (pcap.open_live d.name w).1 wanted d refl

  -- A start of a sensor that is not running leaves it running. It returns true with a real adapter: one
  -- of those found, named as the hint says, or, without a hint, one that is up and no loopback. It
  -- returns false with the synthetic injector.
  pub start-adapter :
      (s : PacketSensor D.Double) (w : W)
      → s.running ≡ false
      → Started s.iface_hint (pcap.find_all_devs w).0 (start D window_cb audit_adder pcap s w)
  unfolding start
  start-adapter s w h =
      if_cases (Started s.iface_hint (pcap.find_all_devs w).0) s.running _ _
        (λ running. absurd (true≢false (sym running ∙ h)))
        (λ _.
          opened-Started s.iface_hint (pcap.find_all_devs w).0
            (chosen_of s.iface_hint (pcap.find_all_devs w).0) s (pcap.find_all_devs w).1
            (chosen_of-IsWanted s.iface_hint (pcap.find_all_devs w).0))
