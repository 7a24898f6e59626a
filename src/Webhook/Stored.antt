-- ===== src/Webhook/Stored.antt =====
-- What receive_image leaves behind.
use panoptic.Common.{
  ℕ, ◌<◌, ◌≤◌, ◌≡◌, refl, ap, ◌∙◌, ◌⊎◌, inl, inr, Bool, true, false, not, ◌&&◌, ◌||◌, if◌then◌else◌,
  Option, none, some, List, [], ◌∷◌, ◌++◌, ltb, ◌==◌, ==_refl, length, Bool-cases, arith,
}
use panoptic.Jobs.Model.{JobType, image_caption, event_produce}
use panoptic.Ingest.{enqueue_new}
use panoptic.Ingest.Tables.{
  KeyedJob, pending_job, insert_job, has_key, image_caption_key, event_produce_image_key,
}
use panoptic.Ingest.Rerun.{insert_job-own, insert_job-keeps}
use panoptic.Ingest.Created.{
  Creates, Creates-nil, insert_job-Creates, Creates-append, pending_job-IsNew,
}
use panoptic.Webhook.Images.{
  FileWrite, written, unopened, cut, ImageCalls, add_file, unwritten, write_image, not_jpeg,
  empty_image, too_large, server_error, duplicate_image, makes_event, ImageMetadata, ImageIdentity,
  ImageRow, Upload, Images, ImageResponse, accepted_image, storage_path_of, has_image, delete_image,
  is_void, Handled, refused, generate_image_id, image_row, caption_job, image_event_job,
  insert_image_event_job, enqueue_image, store_image, check_image, receive_metadata, receive_image,
}

delete_image_last :
    (row : ImageRow) (rows : List ImageRow)
    → has_image row.image_id rows ≡ false
    → delete_image row.image_id (rows ++ row ∷ []) ≡ rows
delete_image_last row [] h = rw (==_refl row.image_id) refl
delete_image_last row (r ∷ rows) h = elim (Bool-cases (r.image_id == row.image_id)) [
  | inl e ↦ absurd (found e)
  | inr e ↦ rw e (ap (λ rest. r ∷ rest) (delete_image_last row rows (rw e at h)))
]
  where
    found : (r.image_id == row.image_id) ≡ true → ⊥
    found e = ground arith

abbrev pub is_accepted : ImageResponse → Bool
is_accepted (accepted_image id) = true
is_accepted _ = false

filled : (bytes : List ℕ) → is_void bytes ≡ false → 0 < length bytes
filled [] v = ground arith
filled (b ∷ bytes) v = omega arith

module _ (digest : ImageIdentity → ℕ) (dimensions_of : List ℕ → Option (ℕ × ℕ))
    (max_size max_attempts : ℕ) (up : JobType → Bool) where
  insert_image_event_job-Creates :
      (e : ℕ) (m : ImageMetadata) (jobs : List KeyedJob)
      → 0 < max_attempts
      → Creates up jobs
          (insert_image_event_job digest dimensions_of max_size max_attempts e m jobs).0
          (enqueue_new
            (insert_image_event_job digest dimensions_of max_size max_attempts e m jobs).1
            up
            event_produce
            e
            m.serial_number)
  unfolding insert_image_event_job enqueue_new image_event_job pending_job
  insert_image_event_job-Creates e m jobs h = elim (Bool-cases (makes_event m.trigger)) [
    | inl q ↦ rw q (
        insert_job-Creates up (image_event_job digest dimensions_of max_size max_attempts e m) jobs
          (pending_job-IsNew e event_produce m.serial_number max_attempts h))
    | inr q ↦ rw q (Creates-nil up jobs)
  ]

  caption_job-Creates :
      (j : ℕ) (m : ImageMetadata) (jobs : List KeyedJob)
      → 0 < max_attempts
      → Creates up jobs
          (insert_job (caption_job digest dimensions_of max_size max_attempts j m) jobs).0
          (enqueue_new
            (insert_job (caption_job digest dimensions_of max_size max_attempts j m) jobs).1
            up
            image_caption
            j
            m.serial_number)
  unfolding caption_job pending_job
  caption_job-Creates j m jobs h =
      insert_job-Creates up (caption_job digest dimensions_of max_size max_attempts j m) jobs
        (pending_job-IsNew j image_caption m.serial_number max_attempts h)

  -- A new image of the allowed kind and size.
  abbrev pub may_store : ImageCalls → Upload → Images → Option (Option ImageMetadata) → Bool
  may_store calls u st none = false
  may_store calls u st (some none) = false
  may_store calls u st (some (some m)) =
      u.is_jpeg
      && (not (is_void u.bytes)
          && (not (ltb max_size (length u.bytes))
              && (calls.insert_up
                  && not (
                      has_image (generate_image_id digest dimensions_of max_size max_attempts m)
                        st.rows))))

  -- The image is not one to store, or no file was opened for it, and nothing was stored.
  abbrev pub IsRefused : ImageCalls → Upload → Images → Handled → Type 0
  IsRefused calls u st out =
      ((may_store calls u st u.metadata ≡ false) ⊎ (calls.write ≡ unopened))
      × (is_accepted out.response ≡ false)
      × (out.images ≡ st)
      × (out.added ≡ [])

  -- Only a file is left behind: what a write that raised has left, or all of it where the jobs' INSERTs
  -- or their commit raised.
  abbrev pub IsOrphaned : ImageCalls → Upload → Images → Handled → Type 0
  IsOrphaned calls u st out =
      (m : ImageMetadata) × (left : List ℕ) × (u.metadata ≡ some (some m))
      × (may_store calls u st u.metadata ≡ true)
      × ((calls.write ≡ cut left)
          ⊎ ((calls.write ≡ written) × (calls.jobs_up ≡ false) × (left ≡ u.bytes)))
      × (is_accepted out.response ≡ false)
      × (out.images
          ≡ add_file
              (storage_path_of m (generate_image_id digest dimensions_of max_size max_attempts m))
              left st)
      × (out.added ≡ [])

  -- A new image of the allowed kind and size, with its row, its file, its caption job, its event job
  -- where the trigger makes one, and the messages of the new jobs.
  abbrev pub IsStored : ImageCalls → Upload → Images → Handled → Type 0
  IsStored calls u st out =
      (m : ImageMetadata) × (u.metadata ≡ some (some m))
      × (may_store calls u st u.metadata ≡ true)
      × (calls.write ≡ written)
      × (0 < length u.bytes)
      × (length u.bytes ≤ max_size)
      × (out.response
          ≡ accepted_image (generate_image_id digest dimensions_of max_size max_attempts m))
      × (out.images.rows
          ≡ st.rows ++ image_row digest dimensions_of max_size max_attempts m u.bytes ∷ [])
      × (out.images.files
          ≡ (
            storage_path_of m (generate_image_id digest dimensions_of max_size max_attempts m),
            u.bytes,
          )
            ∷ st.files)
      × (has_key
            (image_caption_key (generate_image_id digest dimensions_of max_size max_attempts m))
            out.images.jobs
          ≡ true)
      × ((not (makes_event m.trigger)
            || has_key
                (event_produce_image_key
                  (generate_image_id digest dimensions_of max_size max_attempts m))
                out.images.jobs)
          ≡ true)
      × Creates up st.jobs out.images.jobs out.added

  caption_there :
      (j e : ℕ) (m : ImageMetadata) (jobs : List KeyedJob)
      → has_key
          (image_caption_key (generate_image_id digest dimensions_of max_size max_attempts m))
          (insert_image_event_job digest dimensions_of max_size max_attempts e m
            (insert_job (caption_job digest dimensions_of max_size max_attempts j m) jobs).0).0
        ≡ true
  unfolding insert_image_event_job
  caption_there j e m jobs =
      let key =
        image_caption_key (generate_image_id digest dimensions_of max_size max_attempts m) in
      let own : has_key key
            (insert_job (caption_job digest dimensions_of max_size max_attempts j m) jobs).0
          ≡ true =
        unfold caption_job in
        insert_job-own (caption_job digest dimensions_of max_size max_attempts j m) jobs in
      elim (Bool-cases (makes_event m.trigger)) [
        | inl q ↦ rw q (
            insert_job-keeps key (image_event_job digest dimensions_of max_size max_attempts e m) _
              own)
        | inr q ↦ rw q own
      ]

  event_there :
      (e : ℕ) (m : ImageMetadata) (jobs : List KeyedJob)
      → (not (makes_event m.trigger)
          || has_key
              (event_produce_image_key
                (generate_image_id digest dimensions_of max_size max_attempts m))
              (insert_image_event_job digest dimensions_of max_size max_attempts e m jobs).0)
        ≡ true
  unfolding insert_image_event_job
  event_there e m jobs = elim (Bool-cases (makes_event m.trigger)) [
    | inl q ↦ rw q (
        unfold image_event_job in
        insert_job-own (image_event_job digest dimensions_of max_size max_attempts e m) jobs)
    | inr q ↦ rw q refl
  ]

  module _ (calls : ImageCalls) (j e : ℕ) (u : Upload) where
    -- The three ways in which an upload ends.
    abbrev pub Ends : Images → Handled → Type 0
    Ends st out = IsRefused calls u st out ⊎ IsOrphaned calls u st out ⊎ IsStored calls u st out

    refused-Ends :
        (st : Images) (response : ImageResponse)
        → may_store calls u st u.metadata ≡ false
        → is_accepted response ≡ false
        → Ends st (refused st response)
    unfolding refused
    refused-Ends st response h a = inl (inl h, a, refl, refl)

    if-Ends :
        (b : Bool) (st : Images) (x y : Handled)
        → (b ≡ true → Ends st x)
        → (b ≡ false → Ends st y)
        → Ends st (if b then x else y)
    if-Ends true st x y hx hy = hx refl
    if-Ends false st x y hx hy = hy refl

    module _ (m : ImageMetadata) (st : Images) (pos : 0 < max_attempts)
        (meta : u.metadata ≡ some (some m)) where
      -- What the except branch leaves is what the write has left.
      unwritten_lem :
          (files : Images)
          → files.rows ≡ st.rows
          → has_image (generate_image_id digest dimensions_of max_size max_attempts m) st.rows
            ≡ false
          → let out = unwritten digest dimensions_of max_size max_attempts calls m u.bytes files in
            (is_accepted out.response ≡ false) × (out.images ≡ files) × (out.added ≡ [])
      unfolding unwritten refused image_row
      unwritten_lem files rows new = elim (Bool-cases calls.delete_up) [
        | inl q ↦ rw q (
          refl,
          ap (λ r. record files { rows = r })
              (delete_image_last (image_row digest dimensions_of max_size max_attempts m u.bytes)
                files.rows (unfold image_row in (ap (has_image _) rows ∙ new))),
          refl,
        )
        | inr q ↦ rw q (refl, refl, refl)
      ]

      module _
          (new : has_image (generate_image_id digest dimensions_of max_size max_attempts m) st.rows
            ≡ false)
          (may : may_store calls u st u.metadata ≡ true) (some_bytes : is_void u.bytes ≡ false)
          (few : ltb max_size (length u.bytes) ≡ false) where
        write_image-Ends :
            (w : FileWrite)
            → calls.write ≡ w
            → Ends st
                (write_image digest dimensions_of max_size max_attempts up calls w j e m u.bytes st)
        unfolding write_image enqueue_image refused add_file
        write_image-Ends written h =
            if-Ends calls.jobs_up st _ _
              (λ q. inr (
                inr (
                  m,
                  meta,
                  may,
                  h,
                  filled u.bytes some_bytes,
                  ground (arith, few),
                  refl,
                  refl,
                  refl,
                  caption_there j e m st.jobs,
                  event_there e m _,
                  Creates-append up _ _ _ _ _ (caption_job-Creates j m st.jobs pos)
                      (insert_image_event_job-Creates e m _ pos),
                )))
              (λ q. inr (inl (m, u.bytes, meta, may, inr (h, q, refl), refl, refl, refl)))
        write_image-Ends unopened h =
            let (a, b, c) = unwritten_lem st refl new in inl (inr h, a, b, c)
        write_image-Ends (cut left) h =
            let (a, b, c) =
              unwritten_lem
                (add_file
                  (storage_path_of m
                    (generate_image_id digest dimensions_of max_size max_attempts m))
                  left st)
                refl new in
            inr (inl (m, left, meta, may, inl h, a, b, c))

      check_image-Ends :
          Ends st (check_image digest dimensions_of max_size max_attempts up calls j e u m st)
      unfolding check_image store_image
      check_image-Ends =
          let because : may_store calls u st (some (some m)) ≡ false
              → may_store calls u st u.metadata ≡ false =
            λ h. ap (may_store calls u st) meta ∙ h in
          if-Ends (not u.is_jpeg) st _ _
            (λ h. refused-Ends st not_jpeg (because (ground arith)) refl)
            (λ jpeg.
              if-Ends (is_void u.bytes) st _ _
                (λ h. refused-Ends st empty_image (because (ground arith)) refl)
                (λ v.
                  if-Ends (ltb max_size (length u.bytes)) st _ _
                    (λ h. refused-Ends st too_large (because (ground arith)) refl)
                    (λ l.
                      if-Ends (not calls.insert_up) st _ _
                        (λ h. refused-Ends st server_error (because (ground arith)) refl)
                        (λ up.
                          if-Ends
                            (has_image
                              (generate_image_id digest dimensions_of max_size max_attempts m)
                              st.rows)
                            st _ _
                            (λ h. refused-Ends st (duplicate_image _) (because (ground arith)) refl)
                            (λ new.
                              write_image-Ends new (ap (may_store calls u st) meta ∙ ground arith) v
                                l calls.write refl)))))

  -- An upload ends in one of three ways. It is refused, and rows, jobs, files and streams stay as they
  -- were: because its metadata, its content type or its size is not allowed, its id is there already,
  -- the INSERT raises, or no file is opened for it. Or it was allowed, but the write of the file raises
  -- or the jobs' INSERTs or their commit do; then it is not accepted either and only a file is left,
  -- with what was written. Or it is accepted: it was allowed and new, and what is added is its row, its
  -- file, and new jobs, each with the message for it if its XADD goes through; the caption job is there,
  -- and so is the event job where the trigger makes an event.
  pub receive_image-cases :
      (calls : ImageCalls) (j e : ℕ) (u : Upload) (st : Images)
      → 0 < max_attempts
      → Ends calls j e u st
          (receive_image digest dimensions_of max_size max_attempts up calls j e u st)
  unfolding receive_image receive_metadata
  receive_image-cases calls j e u st h = of_metadata u.metadata refl
    where
      of_metadata :
          (meta : Option (Option ImageMetadata))
          → u.metadata ≡ meta
          → Ends calls j e u st
              (receive_metadata digest dimensions_of max_size max_attempts up calls j e u meta st)
      of_metadata none q = refused-Ends calls j e u st _ (ap (may_store calls u st) q) refl
      of_metadata (some none) q = refused-Ends calls j e u st _ (ap (may_store calls u st) q) refl
      of_metadata (some (some m)) q = check_image-Ends calls j e u m st h q
