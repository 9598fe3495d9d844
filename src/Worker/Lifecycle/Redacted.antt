-- ===== src/Worker/Lifecycle/Redacted.antt =====
-- The specification that the master stores, without its credentials, and the worker's check on it:
-- crates/cvd-common/src/spec.rs, src/spec/redact.rs, src/spec/validate.rs of the same crate,
-- crates/cvd-master/src/service/cli_rpc.rs and crates/cvd-worker/src/lifecycle.rs.
pub mod Stored
use cvdbench.Base.{
  ℕ, ◌≡◌, refl, ap, subst, if_rule, zero, suc, arith, ◌∙◌, Bool, true, false, List, [], ◌∷◌, ◌++◌,
  Option, none, some, codes, is_empty, same,
}
use cvdbench.Base.Int.{ℤ, pos, negsuc, is_positive}
use cvdbench.Base.Results.{ok, err, ◌>>=◌, traverse}
use cvdbench.Proto.Specs
use cvdbench.Spec.{
  BenchSpec, ReadConfig, WriteConfig, MetadataConfig, ConsistencyConfig, ReadSource, IoMode,
}
use cvdbench.Spec.Convert.{
  Converted, consistency_from_proto, source_from, convert_concurrency, parse_optional_duration,
  parse_optional_rate, read_from_proto, write_from_proto, metadata_from_proto, normal_workers,
  io_mode_from, parse_required_size, parse_required_duration, try_from_proto,
}
use cvdbench.Spec.Redact.{redacted_mark, redact_check, redact_read, redacted}
use cvdbench.Spec.Validate.{
  Violation, default_context, check_common, validate_consistency, check_key, validate_read,
  violations, report, validate, lacks,
}
use cvdbench.Spec.Validate.Accepted.{report-ok}
use cvdbench.Parse.Rate.{RateLimit}
use cvdbench.Master.Create.{spec_for_storage}
use cvdbench.Worker.Lifecycle.{parse_and_validate, worker_context}
use cvdbench.Worker.Lifecycle.Redacted.Stored.{
  mask_check, mask_checks, mask_read, mask_reads, masked, stored-converted,
}

consistency-valid :
    (c : ConsistencyConfig)
    → validate_consistency false c ≡ []
    → validate_consistency true (mask_check c) ≡ []
unfolding validate_consistency check_key is_empty same
consistency-valid c e = ground arith

lacks-masked : (o : Option ReadConfig) → lacks (mask_reads o) ≡ lacks o
lacks-masked none = refl
lacks-masked (some r) = refl

common-masked : (s : BenchSpec) → check_common (masked s) ≡ check_common s
unfolding check_common
common-masked s = rw (lacks-masked s.read) refl

replaced_last : (xs ys zs : List Violation) → (xs ++ ys ≡ []) → (ys ≡ [] → zs ≡ []) → xs ++ zs ≡ []
replaced_last [] ys zs e h = h e
replaced_last (x ∷ xs) ys zs e h = cc

replaced_second :
    (xs ys zs vs ws : List Violation)
    → (xs ++ ys ++ vs ++ ws ≡ [])
    → (ys ≡ [] → zs ≡ [])
    → xs ++ zs ++ vs ++ ws ≡ []
replaced_second [] [] zs vs ws e h = rw (h refl) e
replaced_second [] (y ∷ ys) zs vs ws e h = cc
replaced_second (x ∷ xs) ys zs vs ws e h = cc

checks-valid :
    (o : Option ConsistencyConfig)
    → (elim o as (λ x. List Violation) [ none ↦ [] | some c ↦ validate_consistency false c ]) ≡ []
    → (elim (mask_checks o) as (λ x. List Violation) [
      | none ↦ []
      | some c ↦ validate_consistency true c
    ])
      ≡ []
checks-valid none e = refl
checks-valid (some c) e = consistency-valid c e

read-valid : (r : ReadConfig) → validate_read false r ≡ [] → validate_read true (mask_read r) ≡ []
unfolding validate_read
read-valid r e = replaced_last _ _ _ e (checks-valid r.s3_consistency_check)

reads-valid :
    (o : Option ReadConfig)
    → (elim o as (λ x. List Violation) [ none ↦ [] | some r ↦ validate_read false r ]) ≡ []
    → (elim (mask_reads o) as (λ x. List Violation) [ none ↦ [] | some r ↦ validate_read true r ])
      ≡ []
reads-valid none e = refl
reads-valid (some r) e = read-valid r e

masked-violations :
    (s : BenchSpec) → violations s default_context ≡ [] → violations (masked s) worker_context ≡ []
unfolding violations
masked-violations s e = rw (common-masked s) (
    replaced_second (check_common s) _
      (elim (mask_reads s.read) as (λ x. List Violation) [
        | none ↦ []
        | some r ↦ validate_read true r
      ])
      _ _ e (reads-valid s.read))

masked-valid :
    (s : BenchSpec)
    → validate s default_context ≡ ok tt
    → validate (masked s) worker_context ≡ ok tt
unfolding validate report
masked-valid s e = ap report (masked-violations s (report-ok (violations s default_context) e))

-- The specification that is stored for a job whose specification the master has accepted, without its
-- credentials and with one worker at least, is accepted by the workers too, as the same specification
-- but for the marks in place of the credentials.
pub parse_and_validate-stored :
    (p : Specs.BenchSpec) (s : BenchSpec)
    → try_from_proto p ≡ ok s
    → validate s default_context ≡ ok tt
    → parse_and_validate (some (spec_for_storage p)) ≡ ok (masked s)
unfolding parse_and_validate
parse_and_validate-stored p s e valid = rw (stored-converted p s e, masked-valid s valid) refl
