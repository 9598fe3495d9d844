-- ===== src/Spec/Validate/Layout.antt =====
-- `total_dirs`: the loop with saturating arithmetic and an early exit counts the directories of the
-- layout, up to the greatest u64.
use cvdbench.Base.{ℕ, zero, suc, ◌+◌, ◌*◌, ◌≤◌, ◌≡◌, min, arith}
use cvdbench.Parse.Number.{max_u64}
use cvdbench.Spec.Validate.{add_layers, total_dirs}

-- The directories below one of which there are `layer`, in `depth` further layers.
unfoldable pub dirs_below : ℕ → ℕ → ℕ → ℕ
dirs_below zero width layer = 0
dirs_below (suc depth) width layer = layer * width + dirs_below depth width (layer * width)

add_layers-exact :
    (depth width sum layer : ℕ)
    → sum ≤ max_u64
    → add_layers depth width sum layer ≡ min max_u64 (sum + dirs_below depth width layer)
unfolding add_layers dirs_below
add_layers-exact zero width sum layer h = omega arith
add_layers-exact (suc depth) width sum layer h =
    ground (arith, add_layers-exact depth width (sum + layer * width) (layer * width))

-- The number of directories that the check on the layout uses is that of all directories below the
-- root of a tree with the given depth, each layer the width times as large as the one above, or the
-- greatest u64 where that is larger.
pub total_dirs-exact :
    (depth width : ℕ) → total_dirs depth width ≡ min max_u64 (dirs_below depth width 1)
unfolding total_dirs
total_dirs-exact depth width = omega (arith, add_layers-exact depth width 0 1)
