-- ===== src/Worker/Lifecycle/Redacted/Stored.antt =====
-- The conversion of a specification without its credentials: crates/cvd-common/src/spec.rs and
-- src/spec/redact.rs.
use cvdbench.Base.{
  ℕ, ◌≡◌, refl, ap, subst, if_rule, zero, suc, arith, ◌∙◌, Bool, false, Option, none, some, codes,
}
use cvdbench.Base.Int.{ℤ, pos, negsuc, is_positive}
use cvdbench.Base.Results.{ok, err, ◌>>=◌, traverse}
use cvdbench.Proto.Specs
use cvdbench.Spec.{
  BenchSpec, ReadConfig, WriteConfig, MetadataConfig, ConsistencyConfig, ReadSource, IoMode,
}
use cvdbench.Spec.Convert.{
  Converted, consistency_from_proto, source_from, convert_concurrency, parse_optional_duration,
  parse_optional_rate, read_from_proto, write_from_proto, metadata_from_proto, normal_workers,
  io_mode_from, parse_required_size, parse_required_duration, try_from_proto,
}
use cvdbench.Spec.Redact.{redacted_mark, redact_check, redact_read, redacted}
use cvdbench.Parse.Rate.{RateLimit}
use cvdbench.Master.Create.{spec_for_storage}

-- The specification with marks for its credentials.
abbrev pub mask_check : ConsistencyConfig → ConsistencyConfig
mask_check c = record c {
  access_key = redacted_mark;
  secret_key = redacted_mark;
  session_token = redacted_mark;
}

abbrev pub mask_checks : Option ConsistencyConfig → Option ConsistencyConfig
mask_checks none = none
mask_checks (some c) = some (mask_check c)

abbrev pub mask_read : ReadConfig → ReadConfig
mask_read r = record r { s3_consistency_check = mask_checks r.s3_consistency_check }

abbrev pub mask_reads : Option ReadConfig → Option ReadConfig
mask_reads none = none
mask_reads (some r) = some (mask_read r)

abbrev pub masked : BenchSpec → BenchSpec
masked s = record s { read = mask_reads s.read }

same_value : {A : Type 0} {a b : A} → ◌≡◌ {A = Converted A} (ok a) (ok b) → a ≡ b
same_value e = cc

read_chain :
    (a : Converted ReadSource) (b : Converted ℕ) (c : Converted (Option ℕ))
    (d : Converted (Option RateLimit)) (s s' : Option ConsistencyConfig) (loop_files : Bool)
    (x : ReadConfig)
    → mask_checks s ≡ s'
    → (a >>= λ source. b >>= λ concurrency. c >>= λ think_time. d >>= λ rate_limit. ok (record {
      concurrency = concurrency;
      source = source;
      think_time = think_time;
      rate_limit = rate_limit;
      s3_consistency_check = s;
      loop_files = loop_files;
    }))
      ≡ ok x
    → (a >>= λ source. b >>= λ concurrency. c >>= λ think_time. d >>= λ rate_limit. ok (record {
      concurrency = concurrency;
      source = source;
      think_time = think_time;
      rate_limit = rate_limit;
      s3_consistency_check = s';
      loop_files = loop_files;
    }))
      ≡ ok (mask_read x)
read_chain (ok a) (ok b) (ok c) (ok d) s s' loop_files x m e =
    subst
      (λ (t : Option ConsistencyConfig).
        ◌≡◌ {A = Converted ReadConfig}
          (ok (record {
            concurrency = b;
            source = a;
            think_time = c;
            rate_limit = d;
            s3_consistency_check = t;
            loop_files = loop_files;
          }))
          (ok (mask_read x)))
      m (ap (λ (y : ReadConfig). ok (mask_read y)) (same_value e))
read_chain (ok a) (ok b) (ok c) (err d) s s' loop_files x m e = cc
read_chain (ok a) (ok b) (err c) d s s' loop_files x m e = cc
read_chain (ok a) (err b) c d s s' loop_files x m e = cc
read_chain (err a) b c d s s' loop_files x m e = cc

mask-consistency :
    (o : Option Specs.ConsistencyConfig)
    → mask_checks (elim o as (λ x. Option ConsistencyConfig) [
      | none ↦ none
      | some c ↦ some (consistency_from_proto c)
    ])
      ≡ (elim (elim o as (λ x. Option Specs.ConsistencyConfig) [
        | none ↦ none
        | some c ↦ some (redact_check c)
      ])
          as (λ x. Option ConsistencyConfig) [
            | none ↦ none
            | some c ↦ some (consistency_from_proto c)
          ])
unfolding consistency_from_proto redact_check
mask-consistency none = refl
mask-consistency (some c) = refl

read_from_proto-redacted :
    (r : Specs.ReadConfig) (x : ReadConfig)
    → read_from_proto r ≡ ok x
    → read_from_proto (redact_read r) ≡ ok (mask_read x)
unfolding read_from_proto redact_read
read_from_proto-redacted r x e =
    read_chain (source_from r.file_manifest r.dir_manifest)
      (convert_concurrency (codes "read.concurrency") r.concurrency)
      (parse_optional_duration (codes "read.think_time") r.think_time)
      (parse_optional_rate (codes "read.rate_limit") r.rate_limit) _ _ r.loop_files x
      (mask-consistency r.s3_consistency_check) e

some_chain :
    (m m' : Converted ReadConfig) (x : Option ReadConfig)
    → ((y : ReadConfig) → m ≡ ok y → m' ≡ ok (mask_read y))
    → (m >>= λ r. ok (some r)) ≡ ok x
    → (m' >>= λ r. ok (some r)) ≡ ok (mask_reads x)
some_chain (err f) m' x later e = cc
some_chain (ok y) m' x later e =
    ap (λ (n : Converted ReadConfig). n >>= λ r. ok (some r)) (later y refl)
    ∙ ap (λ (z : Option ReadConfig). ok (mask_reads z)) (same_value e)

reads-redacted :
    (o : Option Specs.ReadConfig) (x : Option ReadConfig)
    → traverse read_from_proto o ≡ ok x
    → traverse read_from_proto
        (elim o as (λ p. Option Specs.ReadConfig) [ none ↦ none | some r ↦ some (redact_read r) ])
      ≡ ok (mask_reads x)
reads-redacted none x e = ap (λ (y : Option ReadConfig). ok (mask_reads y)) (same_value e)
reads-redacted (some r) x e =
    some_chain (read_from_proto r) (read_from_proto (redact_read r)) x (read_from_proto-redacted r)
      e

-- The whole conversion, its parts given.
abbrev assemble :
    Specs.BenchSpec
    → Converted IoMode
    → Converted ℕ
    → Converted ℕ
    → Converted (Option ℕ)
    → Converted (Option ReadConfig)
    → Converted (Option WriteConfig)
    → Converted (Option MetadataConfig)
    → ℕ
    → Converted BenchSpec
assemble p a b c d r w m workers = do
  io_mode ← a
  block_size ← b
  duration ← c
  warmup ← d
  read ← r
  write ← w
  metadata ← m
  ok (record {
    fs_name = p.fs_name;
    io_mode = io_mode;
    io_aligned = p.io_aligned;
    direct_io = p.direct_io;
    block_size = block_size;
    duration = duration;
    warmup = elim warmup [ none ↦ 0 | some w ↦ w ];
    target_workers = workers;
    read = read;
    write = write;
    metadata = metadata;
  })

assemble-masked :
    (p : Specs.BenchSpec) (a : Converted IoMode) (b c : Converted ℕ) (d : Converted (Option ℕ))
    (r r' : Converted (Option ReadConfig)) (w : Converted (Option WriteConfig))
    (m : Converted (Option MetadataConfig)) (workers : ℕ) (s : BenchSpec)
    → ((y : Option ReadConfig) → r ≡ ok y → r' ≡ ok (mask_reads y))
    → assemble p a b c d r w m workers ≡ ok s
    → assemble p a b c d r' w m workers ≡ ok (masked s)
assemble-masked p (ok a) (ok b) (ok c) (ok d) (ok r) r' (ok w) (ok m) workers s later e =
    ap
      (λ (n : Converted (Option ReadConfig)).
        assemble p (ok a) (ok b) (ok c) (ok d) n (ok w) (ok m) workers)
      (later r refl)
    ∙ ap (λ (z : BenchSpec). ok (masked z)) (same_value e)
assemble-masked p (ok a) (ok b) (ok c) (ok d) (ok r) r' (ok w) (err m) workers s later e = cc
assemble-masked p (ok a) (ok b) (ok c) (ok d) (ok r) r' (err w) m workers s later e = cc
assemble-masked p (ok a) (ok b) (ok c) (ok d) (err r) r' w m workers s later e = cc
assemble-masked p (ok a) (ok b) (ok c) (err d) r r' w m workers s later e = cc
assemble-masked p (ok a) (ok b) (err c) d r r' w m workers s later e = cc
assemble-masked p (ok a) (err b) c d r r' w m workers s later e = cc
assemble-masked p (err a) b c d r r' w m workers s later e = cc

-- Also with another target that comes to the same number of workers.
redacted-converted :
    (p : Specs.BenchSpec) (s : BenchSpec) (n : ℤ)
    → normal_workers p.target_workers ≡ normal_workers n
    → try_from_proto p ≡ ok s
    → try_from_proto (record (redacted p) { target_workers = n }) ≡ ok (masked s)
unfolding try_from_proto redacted
redacted-converted p s n h e =
    subst
      (λ (k : ℕ).
        assemble p (io_mode_from p.io_mode) (parse_required_size (codes "block_size") p.block_size)
          (parse_required_duration (codes "duration") p.duration)
          (parse_optional_duration (codes "warmup") p.warmup)
          (traverse read_from_proto (elim p.read as (λ x. Option Specs.ReadConfig) [
            | none ↦ none
            | some r ↦ some (redact_read r)
          ]))
          (traverse write_from_proto p.write) (traverse metadata_from_proto p.metadata) k
        ≡ ok (masked s))
      h
      (assemble-masked p (io_mode_from p.io_mode)
        (parse_required_size (codes "block_size") p.block_size)
        (parse_required_duration (codes "duration") p.duration)
        (parse_optional_duration (codes "warmup") p.warmup) (traverse read_from_proto p.read) _
        (traverse write_from_proto p.write) (traverse metadata_from_proto p.metadata)
        (normal_workers p.target_workers) s (reads-redacted p.read) e)

one_worker : (n : ℤ) → is_positive n ≡ false → normal_workers n ≡ 1
one_worker (pos zero) e = refl
one_worker (pos (suc n)) e = absurd (ground arith)
one_worker (negsuc n) e = refl

pub stored-converted :
    (p : Specs.BenchSpec) (s : BenchSpec)
    → try_from_proto p ≡ ok s
    → try_from_proto (spec_for_storage p) ≡ ok (masked s)
unfolding spec_for_storage redacted
stored-converted p s e =
    if_rule (λ q. try_from_proto q ≡ ok (masked s)) (is_positive p.target_workers) (redacted p)
      (record (redacted p) { target_workers = pos 1 })
      (λ f. redacted-converted p s p.target_workers refl e)
      (λ f. redacted-converted p s (pos 1) (one_worker p.target_workers f) e)
