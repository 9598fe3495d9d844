-- ===== src/Master/Config/Accepted.antt =====
-- What holds of every configuration that crates/cvd-master/src/config.rs accepts.
use cvdbench.Base.{
  ℕ, ◌<◌, ◌≡◌, ◌≢◌, refl, ◌∙◌, subst, ap, Bool, true, false, List, [], ◌∷◌, Option, none, some,
  Text, codes, if◌then◌else◌, All, arith,
}
use cvdbench.Base.Map.{Map, lookup, insert, lookup-insert, lookup-insert_self, lookup-insert_ne}
use cvdbench.Base.Results.{Result, ok, err, ok_or, traverse, ◌>>=◌}
use cvdbench.Master.State.{SchedulerConfig, MasterConfig}
use cvdbench.Master.Config.{
  RawScheduler, RawFilesystem, RawConfig, ConfigError, duplicate_fs, non_absolute_mount, bad_toml,
  bad_listen, bad_metrics_listen, Loaded, default_scheduler, positive_or, apply_scheduler,
  canonical_or_same, add_filesystems, all_filesystems, parse_str,
}

-- No two entries have one name.
abbrev pub Distinct : List RawFilesystem → Type 0
Distinct [] = Unit
Distinct (fs ∷ rest) = All (λ (g : RawFilesystem). fs.name ≢ g.name) rest × Distinct rest

same_map : (a b : Map Text) → ◌≡◌ {A = Result ConfigError (Map Text)} (ok a) (ok b) → a ≡ b
same_map a b e = cc

other_key : (m : Map Text) (j k v : Text) → j ≡ k → lookup j m ≡ none → lookup k m ≡ some v → ⊥
other_key m j k v p n h = cc

insert-none :
    (j k v : Text) (m : Map Text) → lookup j (insert k v m) ≡ none → (k ≢ j) × (lookup j m ≡ none)
insert-none j k v m h =
    (ground (arith, lookup-insert j k v m), ground (arith, lookup-insert j k v m))

All-unzip :
    {A : Type 0} (P Q R : A → Type 0)
    → ((x : A) → P x → Q x × R x)
    → (xs : List A) → All P xs
    → All Q xs × All R xs
All-unzip P Q R f [] h = (tt, tt)
All-unzip P Q R f (x ∷ xs) h =
    let (q, r) = f x h.0 in let (qs, rs) = All-unzip P Q R f xs h.1 in ((q, qs), (r, rs))

positive_or-positive :
    (default : ℕ) (field : Text) (o : Option ℕ) (v : ℕ)
    → 0 < default
    → positive_or default field o ≡ ok v
    → 0 < v
unfolding positive_or
positive_or-positive default field none v h e = ground arith
positive_or-positive default field (some w) v h e = ground arith

scheduler_chain :
    (a b c : Result ConfigError ℕ) (w x y z : ℕ) (s : SchedulerConfig)
    → (a >>= λ files. b >>= λ dirs. c >>= λ scans. ok (record {
      worker_staleness = w;
      job_retention = x;
      prepare_timeout = y;
      start_delay = z;
      file_queue_capacity = files;
      dir_queue_capacity = dirs;
      dir_scan_concurrency = scans;
    }))
      ≡ ok s
    → (a ≡ ok s.file_queue_capacity)
      × (b ≡ ok s.dir_queue_capacity)
      × (c ≡ ok s.dir_scan_concurrency)
scheduler_chain (ok a) (ok b) (ok c) w x y z s e = (
  ap (λ (r : Result ConfigError SchedulerConfig). r >>= λ t. ok t.file_queue_capacity) e,
  ap (λ (r : Result ConfigError SchedulerConfig). r >>= λ t. ok t.dir_queue_capacity) e,
  ap (λ (r : Result ConfigError SchedulerConfig). r >>= λ t. ok t.dir_scan_concurrency) e,
)
scheduler_chain (ok a) (ok b) (err c) w x y z s e = cc
scheduler_chain (ok a) (err b) c w x y z s e = cc
scheduler_chain (err a) b c w x y z s e = cc

apply_scheduler-positive :
    (raw : RawScheduler) (s : SchedulerConfig)
    → apply_scheduler default_scheduler raw ≡ ok s
    → (0 < s.file_queue_capacity) × (0 < s.dir_queue_capacity) × (0 < s.dir_scan_concurrency)
unfolding apply_scheduler
apply_scheduler-positive raw s e =
    let (f, d, c) =
      scheduler_chain (positive_or 100_000 (codes "file_queue_capacity") raw.file_queue_capacity)
        (positive_or 50_000 (codes "dir_queue_capacity") raw.dir_queue_capacity)
        (positive_or 8 (codes "dir_scan_concurrency") raw.dir_scan_concurrency) _ _ _ _ s e in
    (
      positive_or-positive 100_000 (codes "file_queue_capacity") raw.file_queue_capacity
          s.file_queue_capacity (omega arith) f,
      positive_or-positive 50_000 (codes "dir_queue_capacity") raw.dir_queue_capacity
          s.dir_queue_capacity (omega arith) d,
      positive_or-positive 8 (codes "dir_scan_concurrency") raw.dir_scan_concurrency
          s.dir_scan_concurrency (omega arith) c,
    )

module _ (is_absolute : Text → Bool) (canonicalize : Text → Option Text) where
  abbrev add : Map Text → List RawFilesystem → Result ConfigError (Map Text)
  add = add_filesystems is_absolute canonicalize

  abbrev canon : RawFilesystem → Text
  canon fs = canonical_or_same is_absolute canonicalize fs.mount_point

  added_cases :
      (b : Bool) (o : Option Text) (name : Text) (later : Result ConfigError (Map Text))
      (m : Map Text)
      → (if b
          then (elim o as (λ x. Result ConfigError (Map Text)) [
            | none ↦ later
            | some old ↦ err (duplicate_fs name)
          ])
          else err (non_absolute_mount name))
        ≡ ok m
      → (b ≡ true) × (o ≡ none) × (later ≡ ok m)
  added_cases true none name later m e = (refl, refl, e)
  added_cases true (some old) name later m e = cc
  added_cases false o name later m e = cc

  added :
      (known m : Map Text) (fs : RawFilesystem) (rest : List RawFilesystem)
      → add known (fs ∷ rest) ≡ ok m
      → (is_absolute fs.mount_point ≡ true)
        × (lookup fs.name known ≡ none)
        × (add (insert fs.name (canon fs) known) rest ≡ ok m)
  unfolding add_filesystems
  added known m fs rest e =
      added_cases (is_absolute fs.mount_point) (lookup fs.name known) fs.name _ m e

  kept :
      (known m : Map Text) (raws : List RawFilesystem) (k v : Text)
      → add known raws ≡ ok m
      → lookup k known ≡ some v
      → lookup k m ≡ some v
  unfolding add_filesystems
  kept known m [] k v e h = subst (λ (n : Map Text). lookup k n ≡ some v) (same_map known m e) h
  kept known m (fs ∷ rest) k v e h =
      let (a, n, l) = added known m fs rest e in
      kept (insert fs.name (canon fs) known) m rest k v l
        (lookup-insert_ne k fs.name (canon fs) known (λ p. other_key known fs.name k v p n h) ∙ h)

  fresh :
      (known m : Map Text) (raws : List RawFilesystem)
      → add known raws ≡ ok m
      → All (λ (g : RawFilesystem). lookup g.name known ≡ none) raws × Distinct raws
  fresh known m [] e = (tt, tt)
  fresh known m (fs ∷ rest) e =
      let (a, n, l) = added known m fs rest e in
      let (new, distinct) = fresh (insert fs.name (canon fs) known) m rest l in
      let (other, news) =
        All-unzip _ (λ (g : RawFilesystem). fs.name ≢ g.name)
          (λ (g : RawFilesystem). lookup g.name known ≡ none)
          (λ g. insert-none g.name fs.name (canon fs) known) rest new in
      ((n, news), (other, distinct))

  found :
      (known m : Map Text) (raws : List RawFilesystem)
      → add known raws ≡ ok m
      → All (λ fs. (is_absolute fs.mount_point ≡ true) × (lookup fs.name m ≡ some (canon fs))) raws
  found known m [] e = tt
  found known m (fs ∷ rest) e =
      let (a, n, l) = added known m fs rest e in
      (
        (
          a,
          kept (insert fs.name (canon fs) known) m rest fs.name (canon fs) l
              (lookup-insert_self fs.name (canon fs) known),
        ),
        found (insert fs.name (canon fs) known) m rest l,
      )

  -- What an accepted configuration has.
  pub record IsAccepted (raw : RawConfig) (c : MasterConfig) : Type 0 where
    pub file_queue : 0 < c.scheduler.file_queue_capacity
    pub dir_queue : 0 < c.scheduler.dir_queue_capacity
    pub scans : 0 < c.scheduler.dir_scan_concurrency
    pub some_filesystem : raw.filesystems ≢ []
    pub distinct : Distinct raw.filesystems
    pub mounts :
        All
          (λ fs.
            (is_absolute fs.mount_point ≡ true)
            × (lookup fs.name c.filesystems
                ≡ some (canonical_or_same is_absolute canonicalize fs.mount_point)))
          raw.filesystems

  all-found :
      (raws : List RawFilesystem) (m : Map Text)
      → all_filesystems is_absolute canonicalize raws ≡ ok m
      → (raws ≢ [])
        × Distinct raws
        × All
            (λ fs. (is_absolute fs.mount_point ≡ true) × (lookup fs.name m ≡ some (canon fs)))
            raws
  unfolding all_filesystems
  all-found [] m e = cc
  all-found (fs ∷ rest) m e = (λ z. cc, (fresh [] m (fs ∷ rest) e).1, found [] m (fs ∷ rest) e)

  parts :
      {A : Type 0} (raw : RawConfig) (a : Result ConfigError A) (b : Result ConfigError (Option A))
      (s : Result ConfigError SchedulerConfig) (f : Result ConfigError (Map Text)) (l : Loaded A)
      → (a >>= λ listen. b >>= λ metrics. s >>= λ scheduler. f >>= λ filesystems. ok (record {
        listen = listen;
        metrics_listen = metrics;
        config = record { scheduler = scheduler; filesystems = filesystems };
      }))
        ≡ ok l
      → (s ≡ ok l.config.scheduler) × (f ≡ ok l.config.filesystems)
  parts {A} raw (ok a) (ok b) (ok s) (ok f) l e = (
    ap (λ (r : Result ConfigError (Loaded A)). r >>= λ t. ok t.config.scheduler) e,
    ap (λ (r : Result ConfigError (Loaded A)). r >>= λ t. ok t.config.filesystems) e,
  )
  parts raw (ok a) (ok b) (ok s) (err f) l e = cc
  parts raw (ok a) (ok b) (err s) f l e = cc
  parts raw (ok a) (err b) s f l e = cc
  parts raw (err a) b s f l e = cc

  -- A configuration that is accepted comes from a file that the TOML reader reads, and has positive
  -- capacities and a positive number of scanners; the file has a file system at least, no two of them
  -- have one name, all mount points are absolute, and each name leads to its canonical mount point, or
  -- to the mount point as it stands where there is no canonical one.
  pub parse_str-IsAccepted :
      {A : Type 0} (from_str : Text → Option RawConfig) (parse_address : Text → Option A)
      (content : Text) (l : Loaded A)
      → parse_str is_absolute canonicalize from_str parse_address content ≡ ok l
      → (raw : RawConfig) × (from_str content ≡ some raw) × IsAccepted raw l.config
  unfolding parse_str
  parse_str-IsAccepted {A} from_str parse_address content l e = by_file (from_str content) refl e
    where
      by_file :
          (o : Option RawConfig)
          → from_str content ≡ o
          → (ok_or o bad_toml >>= λ raw.
              ok_or (parse_address raw.server_listen) (bad_listen raw.server_listen) >>= λ listen.
              traverse (λ m. ok_or (parse_address m) (bad_metrics_listen m)) raw.metrics_listen
              >>= λ metrics. apply_scheduler default_scheduler raw.scheduler >>= λ scheduler.
                  all_filesystems is_absolute canonicalize raw.filesystems >>= λ filesystems.
                  ok (record {
                    listen = listen;
                    metrics_listen = metrics;
                    config = record { scheduler = scheduler; filesystems = filesystems };
                  }))
            ≡ ok l
          → (raw : RawConfig) × (from_str content ≡ some raw) × IsAccepted raw l.config
      by_file none f g = cc
      by_file (some raw) f g =
          let (s, m) =
            parts raw (ok_or (parse_address raw.server_listen) (bad_listen raw.server_listen))
              (traverse (λ t. ok_or (parse_address t) (bad_metrics_listen t)) raw.metrics_listen)
              (apply_scheduler default_scheduler raw.scheduler)
              (all_filesystems is_absolute canonicalize raw.filesystems) l g in
          let (fq, dq, sc) = apply_scheduler-positive raw.scheduler l.config.scheduler s in
          let (some_fs, distinct, mounts) = all-found raw.filesystems l.config.filesystems m in
          (
            raw,
            f,
            record {
              file_queue = fq;
              dir_queue = dq;
              scans = sc;
              some_filesystem = some_fs;
              distinct = distinct;
              mounts = mounts;
            },
          )
