-- ===== src/Worker/Prebuild.antt =====
-- The working set of a metadata workload: `build` of crates/cvd-worker/src/prebuild/metadata.rs. A path
-- is the pieces that `join` puts together; `show4 i` is `format!("{i:04}")`. An I/O error ends the build, and is not in this
-- model; `mkdir_many` and `create_many` make what they are given, in any order.
pub mod Counts
use cvdbench.Base.{ℕ, zero, suc, ◌+◌, List, [], ◌∷◌, ◌++◌, Text, codes, map}
use cvdbench.Spec.{MetadataConfig}

abbrev pub Pieces : Type 0
Pieces = List Text

pub record Layout : Type 0 where
  pub root : Pieces
  pub directories : List Pieces
  pub files : List Pieces
  pub task_roots : List Pieces

abbrev pub join : Pieces → Text → Pieces
join p name = p ++ name ∷ []

-- `0..n`.
abbrev pub up_from : ℕ → ℕ → List ℕ
up_from i zero = []
up_from i (suc n) = i ∷ up_from (suc i) n

abbrev pub concat_map : (Pieces → List Pieces) → List Pieces → List Pieces
concat_map f [] = []
concat_map f (p ∷ ps) = f p ++ concat_map f ps

module _ (show4 : ℕ → Text) where
  unfoldable pub children : ℕ → Pieces → List Pieces
  children width parent = map (λ i. join parent (codes "d_" ++ show4 i)) (up_from 0 width)

  unfoldable pub next_layer : ℕ → List Pieces → List Pieces
  unfolding children
  next_layer width layer = concat_map (children width) layer

  -- The loop over the levels: all directories so far, and the current layer.
  unfoldable pub layers : ℕ → ℕ → List Pieces → List Pieces → List Pieces
  unfolding next_layer
  layers zero width all_dirs layer = all_dirs
  layers (suc depth) width all_dirs layer =
      layers depth width (all_dirs ++ next_layer width layer) (next_layer width layer)

  unfoldable pub files_of : ℕ → Pieces → List Pieces
  files_of n dir = map (λ i. join dir (codes "f_" ++ show4 i ++ codes ".dat")) (up_from 0 n)

  unfoldable pub root_of : Pieces → MetadataConfig → Text → Text → Pieces
  root_of mount config worker_id job_id = join (join (join mount config.dir) worker_id) job_id

  unfoldable pub build : Pieces → MetadataConfig → Text → Text → Layout
  unfolding layers files_of root_of
  build mount config worker_id job_id =
      let root = root_of mount config worker_id job_id in
      let dirs = layers config.depth config.width [] (root ∷ []) in
      record {
        root = root;
        directories = dirs;
        files = concat_map (files_of config.files_per_dir) dirs;
        task_roots =
            map (λ i. join (join root (codes "_tasks")) (codes "t_" ++ show4 i))
              (up_from 0 config.concurrency);
      }
