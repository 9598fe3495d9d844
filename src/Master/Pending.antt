-- ===== src/Master/Pending.antt =====
-- crates/cvd-master/src/state/pending.rs: the FIFO of jobs that still take workers.
use cvdbench.Base.{Bool, true, false, List, [], ◌∷◌, ◌++◌, Option, none, some, Text, text_eq, ite}

unfoldable pub push_back : List Text → Text → List Text
push_back queue job_id = queue ++ job_id ∷ []

unfoldable pub peek_front : List Text → Option Text
peek_front [] = none
peek_front (j ∷ queue) = some j

unfoldable pub pop_if_front : List Text → Text → List Text × Bool
pop_if_front [] expected = ([], false)
pop_if_front (j ∷ queue) expected = ite (text_eq j expected) (queue, true) (j ∷ queue, false)

-- The first occurrence goes.
unfoldable pub remove : List Text → Text → List Text × Bool
remove [] job_id = ([], false)
remove (j ∷ queue) job_id =
    let rest = remove queue job_id in ite (text_eq j job_id) (queue, true) (j ∷ rest.0, rest.1)
