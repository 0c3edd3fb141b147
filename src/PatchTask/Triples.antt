-- ===== src/PatchTask/Triples.antt =====
-- Rules for the monad of the patch task: what a chain of calls does, from what its calls do.
use osconfig.Base.{String}
use osconfig.PatchTask.{Error, Machine, Exit, done, fail, panic, halted, M, resume, attempt}

-- What is asked of a call: from a machine with `P`, how it ends and where satisfies `Q`.
abbrev pub Triple : {A : Type 0} → (Machine → Type 0) → M A → (Exit A → Machine → Type 0) → Type 0
Triple P m Q = (s : Machine) → P s → Q (m s).0 (m s).1

-- `m` keeps a property of the machine, however it ends.
abbrev pub Keeps : {A : Type 0} → (Machine → Type 0) → M A → Type 0
Keeps P m = Triple P m (λ _ s. P s)

pub attempt-Triple :
    {A B : Type 0} {P : Machine → Type 0} (Q : Exit A → Machine → Type 0)
    (R : Exit B → Machine → Type 0) {m : M A} {h : Error → M B} {k : A → M B}
    → Triple P m Q
    → ((e : Error) → Triple (Q (fail e)) (h e) R)
    → ((a : A) → Triple (Q (done a)) (k a) R)
    → ((p : String) (s : Machine) → Q (panic p) s → R (panic p) s)
    → ((s : Machine) → Q halted s → R halted s)
    → Triple P (attempt m h k) R
unfolding attempt
attempt-Triple {A} {B} Q R {m} {h} {k} first on_fail on_done on_panic on_halt s p =
    after (m s).0 (m s).1 (first s p)
  where
    after : (r : Exit A) (s' : Machine) → Q r s' → R (resume h k r s').0 (resume h k r s').1
    after (done a) s' q = on_done a s' q
    after (fail e) s' q = on_fail e s' q
    after (panic t) s' q = on_panic t s' q
    after halted s' q = on_halt s' q

pub attempt-Keeps :
    {A B : Type 0} (P : Machine → Type 0) (m : M A) (h : Error → M B) (k : A → M B)
    → Keeps P m
    → ((e : Error) → Keeps P (h e))
    → ((a : A) → Keeps P (k a))
    → Keeps P (attempt m h k)
attempt-Keeps P m h k keep on_fail on_done =
    attempt-Triple (λ _ s. P s) (λ _ s. P s) keep on_fail on_done (λ _ _ p. p) (λ _ p. p)
