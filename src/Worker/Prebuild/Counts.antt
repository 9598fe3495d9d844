-- ===== src/Worker/Prebuild/Counts.antt =====
-- How much `build` of crates/cvd-worker/src/prebuild/metadata.rs makes, and where.
use cvdbench.Base.{
  ℕ, zero, suc, ◌+◌, ◌*◌, ◌≡◌, refl, ap, ◌∙◌, List, [], ◌∷◌, ◌++◌, Text, length, arith,
  length-append, length-map,
}
use cvdbench.Proto.Specs
use cvdbench.Spec.{MetadataConfig}
use cvdbench.Spec.Validate.Layout.{dirs_below}
use cvdbench.Worker.Prebuild.{
  Pieces, up_from, concat_map, children, next_layer, layers, files_of, root_of, build,
}

length-up_from : (i n : ℕ) → length (up_from i n) ≡ n
length-up_from i zero = refl
length-up_from i (suc n) = omega (arith, length-up_from (suc i) n)

-- Each path gives `n` others.
length-concat_map :
    (f : Pieces → List Pieces) (n : ℕ)
    → ((p : Pieces) → length (f p) ≡ n)
    → (ps : List Pieces) → length (concat_map f ps) ≡ length ps * n
length-concat_map f n each [] = omega arith
length-concat_map f n each (p ∷ ps) =
    grind (arith, length-append (f p) (concat_map f ps), each p, length-concat_map f n each ps)

-- A path inside a directory.
abbrev pub Under : Pieces → Pieces → Type 0
Under root p = (name : Text) × (rest : Pieces) × (p ≡ root ++ name ∷ rest)

module _ (show4 : ℕ → Text) where
  length-children : (width : ℕ) (p : Pieces) → length (children show4 width p) ≡ width
  unfolding children
  length-children width p = length-map _ (up_from 0 width) ∙ length-up_from 0 width

  length-files_of : (n : ℕ) (p : Pieces) → length (files_of show4 n p) ≡ n
  unfolding files_of
  length-files_of n p = length-map _ (up_from 0 n) ∙ length-up_from 0 n

  length-next_layer :
      (width : ℕ) (layer : List Pieces)
      → length (next_layer show4 width layer) ≡ length layer * width
  unfolding next_layer
  length-next_layer width layer =
      length-concat_map (children show4 width) width (length-children width) layer

  length-layers :
      (depth width : ℕ) (all_dirs layer : List Pieces)
      → length (layers show4 depth width all_dirs layer)
        ≡ length all_dirs + dirs_below depth width (length layer)
  unfolding layers dirs_below
  length-layers zero width all_dirs layer = omega arith
  length-layers (suc depth) width all_dirs layer =
      let next = next_layer show4 width layer in
      length-layers depth width (all_dirs ++ next) next
      ∙ rw (length-next_layer width layer)
          (omega (arith, length-append all_dirs next, length-next_layer width layer))

  -- The build makes the directories of a tree with the given depth, each layer the width times as large
  -- as the one above, and in each of them the given number of files; and a directory for each task.
  pub length-build :
      (mount : Pieces) (config : MetadataConfig) (worker_id job_id : Text)
      → let l = build show4 mount config worker_id job_id in
        (length l.directories ≡ dirs_below config.depth config.width 1)
        × (length l.files ≡ dirs_below config.depth config.width 1 * config.files_per_dir)
        × (length l.task_roots ≡ config.concurrency)
  unfolding build
  length-build mount config worker_id job_id =
      let root = root_of show4 mount config worker_id job_id in
      let dirs = layers show4 config.depth config.width [] (root ∷ []) in
      let counted : length dirs ≡ dirs_below config.depth config.width 1 =
        length-layers config.depth config.width [] (root ∷ []) ∙ omega arith in
      (
        counted,
        length-concat_map (files_of show4 config.files_per_dir) config.files_per_dir
              (length-files_of config.files_per_dir) dirs
            ∙ ap (λ n. n * config.files_per_dir) counted,
        length-map _ (up_from 0 config.concurrency) ∙ length-up_from 0 config.concurrency,
      )
