-- ===== src/Chaos/Windows.antt =====
-- Any samples and flushes on a new detector.
use astartis_codex_control_p.Base.{
  ℕ, ◌+◌, ◌%◌, ◌<◌, ◌≡◌, refl, ap, ◌∙◌, subst, Bool, true, false, ◌&&◌, ◌||◌, not, Option, none,
  some, List, [], ◌∷◌, ◌++◌, arith, ltb, leb, nat_eq, if◌then◌else◌, u64_mod, inc64-mod, if_cases,
  length, length-append,
}
use astartis_codex_control_p.Callbacks.{AuditAdder, Log, entries_of}
use astartis_codex_control_p.Doubles.{Doubles, bind}
use astartis_codex_control_p.Rules.{ChaosWindow}
use astartis_codex_control_p.Chaos.{ChaosDetector, new_detector, emit, scored, flush_window, push}
use astartis_codex_control_p.Chaos.Score.{compute_K}
use astartis_codex_control_p.Chaos.Lyapunov.{compute_lyapunov}
use astartis_codex_control_p.Chaos.Defined.{IsDefined, compute_K-IsDefined}
use astartis_codex_control_p.Chaos.Neighbours.{compute_lyapunov-IsDefined}

pub data DetectorCall (E : Type 0) : Type 0 where
  push_call : E → Bool → DetectorCall E
  flush_call : Bool → DetectorCall E

abbrev pub brought : {E : Type 0} → DetectorCall E → ℕ
brought (DetectorCall.push_call value synthetic) = 1
brought (DetectorCall.flush_call force) = 0

unfoldable pub total_brought : {E : Type 0} → List (DetectorCall E) → ℕ
total_brought [] = 0
total_brought (c ∷ cs) = brought c + total_brought cs

-- The most samples that can be pending: a window that is not forced has ten.
abbrev pub capacity : ℕ → ℕ
capacity size = if ltb size 10 then 10 else size

not_full : (a b c : ℕ) → leb a b ≡ false → a ≡ c → b < capacity c
not_full a b c h e = ground arith

short : (b c : ℕ) (force : Bool) → ltb b 10 && not force ≡ true → b < capacity c
short b c force h = ground arith

empty_fits : (c : ℕ) → 0 < capacity c
empty_fits c = ground arith

module _ (D : Doubles) where
  pub record Seen : Type 0 where
    pub windows : List (ChaosWindow D.Double)
    pub log : Log

  abbrev pub see : ChaosWindow D.Double → Seen → Seen
  see window w = record w { windows = window ∷ w.windows }

  abbrev pub note : AuditAdder Seen
  note event_type payload w = ("", record w { log = (event_type, payload) ∷ w.log })

  abbrev pub nothing : Seen
  nothing = record { windows = []; log = [] }

  unfoldable pub samples_in : List (ChaosWindow D.Double) → ℕ
  samples_in [] = 0
  samples_in (w ∷ ws) = w.sample_count + samples_in ws

  abbrev pub State : Type 0
  State = ChaosDetector D.Double × Seen

  unfoldable pub after : DetectorCall D.Double → State → Option State
  unfolding push flush_window
  after (DetectorCall.push_call value synthetic) (d, w) = push D see note value synthetic d w
  after (DetectorCall.flush_call force) (d, w) = flush_window D see note force d w

  unfoldable pub run : List (DetectorCall D.Double) → State → Option State
  unfolding after bind
  run [] s = some s
  run (c ∷ cs) s = bind (after c s) λ t. run cs t

  -- `n` samples have come, of which the last are pending.
  record IsFilling (n size : ℕ) (d : ChaosDetector D.Double) (w : Seen) : Type 0 where
    pub sized : d.window_size ≡ size
    pub total : samples_in w.windows + length d.samples ≡ n
    pub indexed : d.window_index ≡ length w.windows % u64_mod
    pub logged : entries_of "chaos_window" w.log ≡ length w.windows

  abbrev IsCounted : ℕ → ℕ → State → Type 0
  IsCounted n size s = IsFilling n size s.0 s.1 × (length s.0.samples < capacity size)

  -- A call that returns, and leaves the samples counted.
  abbrev Counts : ℕ → ℕ → Option State → Type 0
  Counts n size o = (s : State) × (o ≡ some s) × IsCounted n size s

  emit-IsCounted :
      (n size : ℕ) (K lambda1 : D.Double) (d : ChaosDetector D.Double) (w : Seen)
      → IsFilling n size d w
      → IsCounted n size (emit D see note K lambda1 d w)
  unfolding emit samples_in
  emit-IsCounted n size K lambda1 d w h = (
    record {
      sized = h.sized;
      total = omega (arith, h.total);
      indexed =
          rw h.indexed (inc64-mod (length w.windows) ∙ ap (λ (k : ℕ). k % u64_mod) (omega arith));
      logged = omega (arith, h.logged);
    },
    empty_fits size,
  )

  bind-Counts :
      {A : Type 0} (n size : ℕ) (m : Option A) (f : A → Option State)
      → IsDefined m
      → ((a : A) → Counts n size (f a))
      → Counts n size (bind m f)
  unfolding bind
  bind-Counts n size none f h k = cc
  bind-Counts n size (some a) f h k = k a

  scored-Counts :
      (n size : ℕ) (d : ChaosDetector D.Double) (w : Seen)
      → IsFilling n size d w
      → Counts n size (scored D see note d w)
  unfolding scored
  scored-Counts n size d w h =
      bind-Counts n size (compute_K D d.samples []) _ (compute_K-IsDefined D d.samples []) λ K.
        bind-Counts n size (compute_lyapunov D d.samples 3 1) _
          (compute_lyapunov-IsDefined D d.samples 3 1 (omega arith))
          λ lambda1. (emit D see note K lambda1 d w, refl, emit-IsCounted n size K lambda1 d w h)

  flush_window-Counts :
      (n size : ℕ) (force : Bool) (d : ChaosDetector D.Double) (w : Seen)
      → IsFilling n size d w
      → Counts n size (flush_window D see note force d w)
  unfolding flush_window
  flush_window-Counts n size force d w h =
      if_cases (Counts n size) (ltb (length d.samples) 10 && not force) _ _
        (λ few. ((d, w), refl, (h, short (length d.samples) size force few)))
        λ _.
          if_cases (Counts n size) (nat_eq (length d.samples) 0) _ _
            (λ empty. ((d, w), refl, (h, ground (arith, empty, empty_fits size))))
            (λ _. scored-Counts n size d w h)

  push-Counts :
      (n size : ℕ) (value : D.Double) (synthetic : Bool) (d : ChaosDetector D.Double) (w : Seen)
      → IsFilling n size d w
      → Counts (n + 1) size (push D see note value synthetic d w)
  unfolding push
  push-Counts n size value synthetic d w h =
      let d1 : ChaosDetector D.Double = record d {
        samples = d.samples ++ value ∷ [];
        any_synthetic = synthetic || d.any_synthetic;
      } in
      let longer = length-append d.samples (value ∷ []) in
      let filling : IsFilling (n + 1) size d1 w = record {
        sized = h.sized;
        total = omega (arith, longer, h.total);
        indexed = h.indexed;
        logged = h.logged;
      } in
      if_cases (Counts (n + 1) size) (leb d1.window_size (length d1.samples)) _ _
        (λ _. flush_window-Counts (n + 1) size false d1 w filling)
        (λ more. ((d1, w), refl, (filling, not_full _ _ size more h.sized)))

  after-Counts :
      (c : DetectorCall D.Double) (n size : ℕ) (s : State)
      → IsCounted n size s
      → Counts (n + brought c) size (after c s)
  unfolding after
  after-Counts (DetectorCall.push_call value synthetic) n size (d, w) h =
      push-Counts n size value synthetic d w h.0
  after-Counts (DetectorCall.flush_call force) n size (d, w) h =
      subst (λ (k : ℕ). Counts k size (flush_window D see note force d w)) (omega arith)
        (flush_window-Counts n size force d w h.0)

  run-Counts :
      (cs : List (DetectorCall D.Double)) (n size : ℕ) (s : State)
      → IsCounted n size s
      → Counts (n + total_brought cs) size (run cs s)
  unfolding run total_brought bind
  run-Counts [] n size s h = (s, refl, subst (λ (k : ℕ). IsCounted k size s) (omega arith) h)
  run-Counts (c ∷ cs) n size s h =
      let first = after-Counts c n size s h in
      let rest = run-Counts cs (n + brought c) size first.0 first.2 in
      rw (first.1, run) (subst (λ (k : ℕ). Counts k size (run cs first.0)) (omega arith) rest)

  -- Any samples and flushes on a new detector of any window size return, so that no score reads out of
  -- the range of a vector; every sample is then in exactly one window or still pending, with fewer
  -- pending than the window size or than ten; and the number of windows modulo 2^64 is windows_emitted,
  -- each with its chaos_window entry.
  pub run_new-samples :
      (cs : List (DetectorCall D.Double)) (size : ℕ)
      → (d : ChaosDetector D.Double) × (w : Seen) × (run cs (new_detector size, nothing)
          ≡ some (d, w))
        × (samples_in w.windows + length d.samples ≡ total_brought cs)
        × (length d.samples < capacity size)
        × (d.window_index ≡ length w.windows % u64_mod)
        × (entries_of "chaos_window" w.log ≡ length w.windows)
  unfolding samples_in
  run_new-samples cs size =
      let start : IsCounted 0 size (new_detector size, nothing) =
        (record { sized = refl; total = refl; indexed = refl; logged = refl }, empty_fits size) in
      let end = run-Counts cs 0 size (new_detector size, nothing) start in
      (
        end.0.0,
        end.0.1,
        end.1,
        omega (arith, end.2.0.total),
        end.2.1,
        end.2.0.indexed,
        end.2.0.logged,
      )
