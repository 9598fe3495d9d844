-- ===== src/Tests/Parts.antt =====
-- The smaller parts at concrete inputs.
use cvdbench.Base.{ℕ, ◌≤◌, ◌≡◌, List, [], ◌∷◌, ◌++◌, length}
use cvdbench.PathSafe.{validate_relative}
use cvdbench.Parse.Duration.{sum_segments}
use cvdbench.Parse.Duration.Fuel.{sum_segments-enough}
use cvdbench.Base.{
  has_char, starts_with_char, same, refl, true, min, codes, some, none, ◌↔◌, is_empty, byte_len,
  false, arith,
}
use cvdbench.Spec.{BenchSpec, seq, create, stat}
use cvdbench.Spec.Validate
use cvdbench.Spec.Validate.{default_context}
use cvdbench.Spec.Validate.Accepted.{IsSound, LayoutFits, validate-IsSound}
use cvdbench.WorkerId.{validate, valid, generate, max_len}
use cvdbench.WorkerId.Accepted.{AllAllowed, generate-valid, validate-valid}
use cvdbench.Parse.Number.{max_u64}
use cvdbench.Spec.Validate.{total_dirs}
use cvdbench.Spec.Validate.Layout.{dirs_below, total_dirs-exact}
use cvdbench.Queues.Bounded.Interleaved.{
  Move, started, stored, taken, returned, shut, moves, started_empty, new-moves,
}

-- Two pushes and a drain that overlap, on a queue for two.
abbrev overlapping : List (Move ℕ)
overlapping =
    started ∷ started ∷ stored 7 ∷ taken 5 ∷ stored 8 ∷ returned 1 ∷ started ∷ shut ∷ stored 9 ∷ []

new-moves_example :
    let t = moves (started_empty 2) overlapping in
    (length t.queue.items ≤ 2) × (t.got ++ t.queue.items ≡ t.put)
new-moves_example = new-moves 2 overlapping

-- 3 + 9 directories in two layers.
total_dirs-exact_example : total_dirs 2 3 ≡ min max_u64 (dirs_below 2 3 1)
total_dirs-exact_example = total_dirs-exact 2 3

-- A specification with a metadata workload of two layers.
abbrev good : BenchSpec
good = record {
  fs_name = codes "fs";
  io_mode = seq;
  io_aligned = true;
  direct_io = true;
  block_size = 4_096;
  duration = 60_000_000_000;
  warmup = 5_000_000_000;
  target_workers = 2;
  read = none;
  write = none;
  metadata = some (record {
    concurrency = 4;
    dir = codes "a/b";
    dir_manifest = none;
    ops = create ∷ stat ∷ [];
    read_only = false;
    read_only_scan_limit = 0;
    depth = 2;
    width = 3;
    files_per_dir = 10;
    layout_concurrency = 4;
    think_time = none;
    rate_limit = none;
  });
}

validate-IsSound_example : IsSound good × LayoutFits default_context.layout_caps good.metadata
unfolding Validate.validate is_empty validate_relative has_char starts_with_char same
validate-IsSound_example = validate-IsSound good default_context refl

generate-valid_example :
    validate (generate (codes "node 7") (codes "4242") (codes "0a1b2c3d")) ≡ valid
generate-valid_example =
    generate-valid (codes "node 7") (codes "4242") (codes "0a1b2c3d") (omega arith)
      (refl, (refl, (refl, (refl, tt)))) (omega arith)
      (refl, (refl, (refl, (refl, (refl, (refl, (refl, (refl, tt)))))))) refl

validate-valid_example : (validate (codes "node-7") ≡ valid) ↔ (
    (is_empty (codes "node-7") ≡ false)
    × (byte_len (codes "node-7") ≤ max_len)
    × AllAllowed (codes "node-7"))
validate-valid_example = validate-valid (codes "node-7")

sum_segments-enough_example :
    sum_segments (codes "1h30m") 5 0 (codes "1h30m")
    ≡ sum_segments (codes "1h30m") 100 0 (codes "1h30m")
sum_segments-enough_example =
    sum_segments-enough (codes "1h30m") (codes "1h30m") 5 100 0 (omega arith) (omega arith)
