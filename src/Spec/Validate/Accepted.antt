-- ===== src/Spec/Validate/Accepted.antt =====
-- What a specification is that passes the validation.
use cvdbench.Base.{
  ℕ, zero, suc, ◌*◌, ◌%◌, ◌≤◌, ◌<◌, ◌≡◌, refl, ◌⊎◌, Bool, true, false, ◌&&◌, ◌||◌, not, Bool-cases,
  inl, inr, List, [], ◌∷◌, ◌++◌, Option, none, some, Text, is_empty, arith, ltb, ◌==◌,
}
use cvdbench.Base.Map.{is_some}
use cvdbench.Base.Results.{ok}
use cvdbench.Spec.{MetadataConfig, BenchSpec}
use cvdbench.Spec.Validate.Layout.{dirs_below, total_dirs-exact}
use cvdbench.Spec.Validate.{
  Violation, LayoutCaps, ValidationContext, check_common, check_block_size, check_totals,
  check_layout, check_bound, validate_read, validate_write, validate_metadata, total_dirs,
  saturating_mul, violations, report, validate,
}

pub append-left : (xs ys : List Violation) → (xs ++ ys ≡ []) → xs ≡ []
append-left [] ys e = refl
append-left (x ∷ xs) ys e = cc e

pub append-right : (xs ys : List Violation) → (xs ++ ys ≡ []) → ys ≡ []
append-right [] ys e = e
append-right (x ∷ xs) ys e = cc e

pub report-ok : (vs : List Violation) → report vs ≡ ok tt → vs ≡ []
unfolding report
report-ok [] e = refl
report-ok (v ∷ vs) e = cc e

-- What holds of every accepted specification, whatever its workloads.
pub record IsSound (spec : BenchSpec) : Type 0 where
  pub named : is_empty spec.fs_name ≡ false
  pub lasting : 0 < spec.duration
  pub warm_up : (spec.warmup ≡ 0) ⊎ (spec.warmup < spec.duration)
  pub block_size : 0 < spec.block_size
  pub aligned : spec.block_size % 512 ≡ 0
  pub direct : spec.direct_io && not spec.io_aligned ≡ false
  pub works : is_some spec.read || is_some spec.write || is_some spec.metadata ≡ true

warm_up_cases : (w d : ℕ) → not (w == 0) && not (ltb w d) ≡ false → (w ≡ 0) ⊎ (w < d)
warm_up_cases w d e = elim (Bool-cases (w == 0)) [
  | inl z ↦ inl (ground arith)
  | inr n ↦ inr (ground arith)
]

check_common-IsSound : (spec : BenchSpec) → check_common spec ≡ [] → IsSound spec
unfolding check_common check_block_size
check_common-IsSound spec e = record {
  named = ground arith;
  lasting = ground arith;
  warm_up = warm_up_cases spec.warmup spec.duration (ground arith);
  block_size = ground arith;
  aligned = ground arith;
  direct = ground arith;
  works = ground arith;
}

-- The layout of a metadata workload is within the caps.
pub record FitsCaps (caps : LayoutCaps) (meta : MetadataConfig) : Type 0 where
  pub depth : meta.depth ≤ caps.max_depth
  pub width : meta.width ≤ caps.max_width
  pub files_per_dir : meta.files_per_dir ≤ caps.max_files_per_dir
  pub dirs : total_dirs meta.depth meta.width ≤ caps.max_total_dirs
  pub files :
      saturating_mul (total_dirs meta.depth meta.width) meta.files_per_dir ≤ caps.max_total_files

abbrev pub LayoutFits : LayoutCaps → Option MetadataConfig → Type 0
LayoutFits caps none = Unit
LayoutFits caps (some meta) = FitsCaps caps meta

no_width : (depth layer : ℕ) → dirs_below depth 0 layer ≡ 0
unfolding dirs_below
no_width zero layer = refl
no_width (suc depth) layer = omega (arith, no_width depth (layer * 0))

-- Without depth or width there is no directory.
no_dirs : (depth width : ℕ) → ltb 0 depth && ltb 0 width ≡ false → total_dirs depth width ≡ 0
unfolding dirs_below
no_dirs zero width e = omega (arith, total_dirs-exact 0 width)
no_dirs (suc depth) zero e = omega (arith, total_dirs-exact (suc depth) 0, no_width (suc depth) 1)
no_dirs (suc depth) (suc width) e = absurd (ground arith)

check_totals-fits :
    (meta : MetadataConfig) (caps : LayoutCaps)
    → check_totals meta caps ≡ []
    → (total_dirs meta.depth meta.width ≤ caps.max_total_dirs)
      × (saturating_mul (total_dirs meta.depth meta.width) meta.files_per_dir
          ≤ caps.max_total_files)
unfolding check_totals
check_totals-fits meta caps e = elim (Bool-cases (ltb 0 meta.depth && ltb 0 meta.width)) [
  | inl b ↦ (ground arith, ground arith)
  | inr b ↦ let z = no_dirs meta.depth meta.width b in (omega (arith, z), rw z (ground arith))
]

within_bound :
    (builds : Bool) (field : Text) (n cap : ℕ) → check_bound builds field n cap ≡ [] → n ≤ cap
unfolding check_bound
within_bound builds field n cap e = ground arith

check_layout-FitsCaps :
    (meta : MetadataConfig) (caps : LayoutCaps) → check_layout meta caps ≡ [] → FitsCaps caps meta
unfolding check_layout check_bound
check_layout-FitsCaps meta caps e =
    let totals = check_totals-fits meta caps (ground arith) in
    record {
      depth = ground arith;
      width = ground arith;
      files_per_dir = ground arith;
      dirs = totals.0;
      files = totals.1;
    }

validate_metadata-FitsCaps :
    (meta : MetadataConfig) (caps : LayoutCaps)
    → validate_metadata meta caps ≡ []
    → FitsCaps caps meta
unfolding validate_metadata
validate_metadata-FitsCaps meta caps e = check_layout-FitsCaps meta caps (ground arith)

metadata-LayoutFits :
    (ctx : ValidationContext) (o : Option MetadataConfig)
    → (elim o [ none ↦ [] | some meta ↦ validate_metadata meta ctx.layout_caps ]) ≡ []
    → LayoutFits ctx.layout_caps o
metadata-LayoutFits ctx none h = tt
metadata-LayoutFits ctx (some meta) h = validate_metadata-FitsCaps meta ctx.layout_caps h

-- A specification that passes the validation has a name for its file system, a duration above zero, a
-- warm-up of zero or below the duration, a block size above zero and a multiple of 512, direct I/O only
-- if it is aligned, and a workload; and the layout of its metadata workload is within all five caps.
pub validate-IsSound :
    (spec : BenchSpec) (ctx : ValidationContext)
    → validate spec ctx ≡ ok tt
    → IsSound spec × LayoutFits ctx.layout_caps spec.metadata
unfolding validate violations
validate-IsSound spec ctx e =
    let r : List Violation = elim spec.read [
      | none ↦ []
      | some read ↦ validate_read ctx.allow_redacted_consistency_credentials read
    ] in
    let w : List Violation = elim spec.write [ none ↦ [] | some write ↦ validate_write write ] in
    let m : List Violation = elim spec.metadata [
      | none ↦ []
      | some meta ↦ validate_metadata meta ctx.layout_caps
    ] in
    let c = check_common spec in
    let all : c ++ r ++ w ++ m ≡ [] = report-ok (violations spec ctx) e in
    (
      check_common-IsSound spec
          (append-left c r (append-left (c ++ r) w (append-left (c ++ r ++ w) m all))),
      metadata-LayoutFits ctx spec.metadata (append-right (c ++ r ++ w) m all),
    )
