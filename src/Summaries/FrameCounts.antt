-- ===== src/Summaries/FrameCounts.antt =====
-- How many frames a summary can use.
use mathlib.Core.Option.{none-ne-some}
use panoptic.Common.{
  ℕ, ◌+◌, ◌≤◌, ◌≡◌, refl, sym, ap, map, ◌∙◌, Bool, true, Option, none, some, some-injective, List,
  [], ◌∷◌, ◌++◌, if◌then◌else◌, ◌==◌, length, length-map, length-append, Bool-cases, inl, inr,
  arith,
}
use panoptic.Float.{Float}
use panoptic.Summaries.Frames.{
  SummaryBucket, SummaryTask, present, resolve_candidates, decide_summary_mode, Fetched, frame,
  missing, network_error, raised, add_frame, add_fetched, fetch_frames, ContinuumFrame,
  fetch_continuum_frames, FrameResponse, fetch_usable_frames, Frames, no_frames, continuum_frames,
  keyframe_frames, option_map, fetch_with, is_usable_frame,
}
use panoptic.Summaries.Execute.{succeeded, degraded, Agent, state_of_mode}

-- A loop over the candidates fetches at most one frame for each.
module _ {ℓ} {A : Type ℓ} (ok : A → Bool) where
  add_frame-le :
      (f : A) (o : Option (List A)) (fs : List A) (n : ℕ)
      → ((gs : List A) → o ≡ some gs → length gs ≤ n)
      → add_frame f o ≡ some fs
      → length fs ≤ n + 1
  add_frame-le f none fs n ih h = absurd (none-ne-some fs h)
  add_frame-le f (some gs) fs n ih h = rw (sym (some-injective _ _ h)) (omega (arith, ih gs refl))

  add_fetched-le :
      (x : Fetched A) (o : Option (List A)) (fs : List A) (n : ℕ)
      → ((gs : List A) → o ≡ some gs → length gs ≤ n)
      → add_fetched ok x o ≡ some fs
      → length fs ≤ n + 1
  add_fetched-le (frame f) o fs n ih h = elim (Bool-cases (ok f)) [
    | inl e ↦ add_frame-le f o fs n ih (rw e at h)
    | inr e ↦ omega (arith, ih fs (rw e at h))
  ]
  add_fetched-le missing o fs n ih h = omega (arith, ih fs h)
  add_fetched-le network_error o fs n ih h = omega (arith, ih fs h)
  add_fetched-le raised o fs n ih h = absurd (none-ne-some fs h)

  fetch_frames-le :
      (fetch : ℕ → Fetched A) (ts : List ℕ) (fs : List A)
      → fetch_frames ok fetch ts ≡ some fs
      → length fs ≤ length ts
  unfolding fetch_frames
  fetch_frames-le fetch [] fs h = rw (sym (some-injective _ _ h)) (omega arith)
  fetch_frames-le fetch (t ∷ ts) fs h = omega (
    arith,
    add_fetched-le (fetch t) (fetch_frames ok fetch ts) fs (length ts) (fetch_frames-le fetch ts) h,
  )

-- The times of the candidates' frames that can be used, in order.
module _ {ℓ} {A : Type ℓ} (ok : A → Bool) (time : A → ℕ) where
  abbrev pub time_of : Fetched A → List ℕ
  time_of (frame f) = if ok f then time f ∷ [] else []
  time_of missing = []
  time_of network_error = []
  time_of raised = []

  abbrev pub frame_times : (ℕ → Fetched A) → List ℕ → List ℕ
  frame_times fetch [] = []
  frame_times fetch (t ∷ ts) = time_of (fetch t) ++ frame_times fetch ts

  add_frame-times :
      (f : A) (o : Option (List A)) (fs : List A) (rest : List ℕ)
      → ((gs : List A) → o ≡ some gs → map time gs ≡ rest)
      → add_frame f o ≡ some fs
      → map time fs ≡ time f ∷ rest
  add_frame-times f none fs rest ih h = absurd (none-ne-some fs h)
  add_frame-times f (some gs) fs rest ih h =
      ap (map time) (sym (some-injective _ _ h)) ∙ ap (λ l. time f ∷ l) (ih gs refl)

  add_fetched-times :
      (x : Fetched A) (o : Option (List A)) (fs : List A) (rest : List ℕ)
      → ((gs : List A) → o ≡ some gs → map time gs ≡ rest)
      → add_fetched ok x o ≡ some fs
      → map time fs ≡ time_of x ++ rest
  add_fetched-times (frame f) o fs rest ih h = elim (Bool-cases (ok f)) [
    | inl e ↦ rw e (add_frame-times f o fs rest ih (rw e at h))
    | inr e ↦ rw e (ih fs (rw e at h))
  ]
  add_fetched-times missing o fs rest ih h = ih fs h
  add_fetched-times network_error o fs rest ih h = ih fs h
  add_fetched-times raised o fs rest ih h = absurd (none-ne-some fs h)

  fetch_frames-times :
      (fetch : ℕ → Fetched A) (ts : List ℕ) (fs : List A)
      → fetch_frames ok fetch ts ≡ some fs
      → map time fs ≡ frame_times fetch ts
  unfolding fetch_frames
  fetch_frames-times fetch [] fs h = ap (map time) (sym (some-injective _ _ h))
  fetch_frames-times fetch (t ∷ ts) fs h =
      add_fetched-times (fetch t) (fetch_frames ok fetch ts) fs (frame_times fetch ts)
        (fetch_frames-times fetch ts) h

present-le : (o : Option ℕ) → length (present o) ≤ 1
present-le none = omega arith
present-le (some t) = omega arith

pub resolve_candidates-le : (b : SummaryBucket) → length (resolve_candidates b) ≤ 3
unfolding resolve_candidates
resolve_candidates-le b = omega (
  arith,
  length-append (present b.baseline_ts) (present b.peak_ts ++ present b.change_ts),
  length-append (present b.peak_ts) (present b.change_ts),
  present-le b.baseline_ts,
  present-le b.peak_ts,
  present-le b.change_ts,
)

pub state_of_decided :
    (n : ℕ) → state_of_mode (decide_summary_mode n) ≡ (if n == 0 then degraded else succeeded)
unfolding decide_summary_mode
state_of_decided n = ground arith

module _ (F : Float) (A : Agent F) where
  -- As many times as uris, and no more than there are candidates.
  abbrev pub IsFew : Frames F → Type 0
  IsFew frames = (length frames.timestamps ≡ length frames.uris) × (length frames.uris ≤ 3)

  continuum-IsFew :
      (o : Option (List ContinuumFrame)) (frames : Frames F)
      → ((fs : List ContinuumFrame) → o ≡ some fs → length fs ≤ 3)
      → option_map (continuum_frames F) o ≡ some frames
      → IsFew frames
  unfolding continuum_frames
  continuum-IsFew none frames le h = absurd (none-ne-some frames h)
  continuum-IsFew (some fs) frames le h = rw (sym (some-injective _ _ h)) (
    length-map (λ f. f.requested_ts) fs ∙ sym (length-map (λ f. f.data_uri) fs),
    omega (arith, length-map (λ (f : ContinuumFrame). f.data_uri) fs, le fs refl),
  )

  keyframe-IsFew :
      (o : Option (List (FrameResponse F))) (frames : Frames F)
      → ((fs : List (FrameResponse F)) → o ≡ some fs → length fs ≤ 3)
      → option_map (keyframe_frames F) o ≡ some frames
      → IsFew frames
  unfolding keyframe_frames
  keyframe-IsFew none frames le h = absurd (none-ne-some frames h)
  keyframe-IsFew (some fs) frames le h = rw (sym (some-injective _ _ h)) (
    length-map (λ f. f.actual_ts) fs ∙ sym (length-map (λ f. f.uri) fs),
    omega (arith, length-map (λ (f : FrameResponse F). f.uri) fs, le fs refl),
  )

  no_frames-IsFew : (frames : Frames F) → some (no_frames F) ≡ some frames → IsFew frames
  no_frames-IsFew frames h = rw (sym (some-injective _ _ h)) (refl, omega arith)

  pub fetch_with-IsFew :
      (continuum : Option (ℕ → ℕ → ℕ → Fetched ContinuumFrame))
      (keyframe : Option (ℕ → ℕ → Fetched (FrameResponse F))) (task : SummaryTask) (ts : List ℕ)
      (frames : Frames F)
      → length ts ≤ 3
      → fetch_with F continuum keyframe task ts ≡ some frames
      → IsFew frames
  unfolding fetch_with fetch_continuum_frames fetch_usable_frames
  fetch_with-IsFew continuum keyframe task [] frames le h = no_frames-IsFew frames h
  fetch_with-IsFew (some fetch) keyframe task (t ∷ ts) frames le h =
      continuum-IsFew _ frames (λ fs e. omega (arith, fetch_frames-le (λ _. true) _ (t ∷ ts) fs e))
        h
  fetch_with-IsFew none (some fetch) task (t ∷ ts) frames le h =
      keyframe-IsFew _ frames (λ fs e. omega (arith, fetch_frames-le _ _ (t ∷ ts) fs e)) h
  fetch_with-IsFew none none task (t ∷ ts) frames le h = no_frames-IsFew frames h

  -- The times that a summary keeps: of a Continuum frame the time that was asked for, and of a usable
  -- keyframe its own.
  abbrev pub fetched_times :
      Option (ℕ → ℕ → ℕ → Fetched ContinuumFrame)
      → Option (ℕ → ℕ → Fetched (FrameResponse F))
      → SummaryTask
      → List ℕ
      → List ℕ
  fetched_times (some fetch) keyframe task ts =
      frame_times (λ _. true) (λ (f : ContinuumFrame). f.requested_ts)
        (fetch task.serial_number task.camera_id) ts
  fetched_times none (some fetch) task ts =
      frame_times (is_usable_frame F) (λ (f : FrameResponse F). f.actual_ts) (fetch task.camera_id)
        ts
  fetched_times none none task ts = []

  mapped_times {ℓ} :
      {B : Type ℓ} (f : B → Frames F) (time : B → List ℕ) (o : Option B) (frames : Frames F)
      (times : List ℕ)
      → ((x : B) → (f x).timestamps ≡ time x)
      → ((x : B) → o ≡ some x → time x ≡ times)
      → option_map f o ≡ some frames
      → frames.timestamps ≡ times
  mapped_times f time none frames times own all h = absurd (none-ne-some frames h)
  mapped_times f time (some x) frames times own all h =
      ap (λ (fs : Frames F). fs.timestamps) (sym (some-injective _ _ h)) ∙ own x ∙ all x refl

  pub fetch_with-times :
      (continuum : Option (ℕ → ℕ → ℕ → Fetched ContinuumFrame))
      (keyframe : Option (ℕ → ℕ → Fetched (FrameResponse F))) (task : SummaryTask) (ts : List ℕ)
      (frames : Frames F)
      → fetch_with F continuum keyframe task ts ≡ some frames
      → frames.timestamps ≡ fetched_times continuum keyframe task ts
  unfolding fetch_with fetch_continuum_frames fetch_usable_frames continuum_frames keyframe_frames
  fetch_with-times (some fetch) keyframe task [] frames h =
      ap (λ (fs : Frames F). fs.timestamps) (sym (some-injective _ _ h))
  fetch_with-times none (some fetch) task [] frames h =
      ap (λ (fs : Frames F). fs.timestamps) (sym (some-injective _ _ h))
  fetch_with-times none none task [] frames h =
      ap (λ (fs : Frames F). fs.timestamps) (sym (some-injective _ _ h))
  fetch_with-times (some fetch) keyframe task (t ∷ ts) frames h =
      mapped_times (continuum_frames F) (map (λ (f : ContinuumFrame). f.requested_ts)) _ frames _
        (λ x. refl) (fetch_frames-times _ _ _ (t ∷ ts)) h
  fetch_with-times none (some fetch) task (t ∷ ts) frames h =
      mapped_times (keyframe_frames F) (map (λ (f : FrameResponse F). f.actual_ts)) _ frames _
        (λ x. refl) (fetch_frames-times _ _ _ (t ∷ ts)) h
  fetch_with-times none none task (t ∷ ts) frames h =
      ap (λ (fs : Frames F). fs.timestamps) (sym (some-injective _ _ h))
