-- ===== src/KWorkerPool/Counting.antt =====
-- How often a task stands in a sequence.
use k_h.Base.{ℕ, suc, ◌+◌, ◌≡◌, Bool, List, [], ◌∷◌, ◌++◌, arith, ◌==◌, ◌&&◌}
use k_h.KObject.Counts.{one_if}
use k_h.KWorkerPool.{KWorkerPoolTask}

abbrev pub same_task : KWorkerPoolTask → KWorkerPoolTask → Bool
same_task t u = (t.task == u.task) && (t.user_data == u.user_data)

abbrev pub count : KWorkerPoolTask → List KWorkerPoolTask → ℕ
count t [] = 0
count t (u ∷ tasks) = one_if (same_task t u) + count t tasks

pub count-append :
    (t : KWorkerPoolTask) (xs ys : List KWorkerPoolTask)
    → count t (xs ++ ys) ≡ count t xs + count t ys
count-append t [] ys = omega arith
count-append t (x ∷ xs) ys = omega (arith, count-append t xs ys)

abbrev pub length : List KWorkerPoolTask → ℕ
length [] = 0
length (task ∷ tasks) = suc (length tasks)

pub length-append : (xs ys : List KWorkerPoolTask) → length (xs ++ ys) ≡ length xs + length ys
length-append [] ys = omega arith
length-append (x ∷ xs) ys = omega (arith, length-append xs ys)
