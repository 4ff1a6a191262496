-- ===== src/Session/Queue.antt =====
-- The jobs and the priority queue: `get` takes the least by priority and then by sequence.
use switch_ops.Prelude.{
  ℕ, ◌+◌, ◌≡◌, refl, Bool, true, false, ◌&&◌, ◌||◌, Option, none, some, List, [], ◌∷◌, ◌++◌, arith,
  ltb, ◌==◌, if◌then◌else◌, All, All-mono, length, Bool-cases, inl, inr, Result,
}
use switch_ops.Text.{Text}

-- The work of a job gets the device, as a state W of the world, and returns or raises.
pub record Job (W A : Type 0) : Type 0 where
  pub priority : ℕ
  pub sequence : ℕ
  pub kind : Text
  pub work : W → Result A × W

module _ {W A : Type 0} where
  -- The order of the dataclass, over its two fields that are compared.
  unfoldable pub precedes : Job W A → Job W A → Bool
  precedes a b =
      ltb a.priority b.priority || (a.priority == b.priority && ltb a.sequence b.sequence)

  pick : Job W A → Option (Job W A × List (Job W A)) → Job W A × List (Job W A)
  unfolding precedes
  pick job none = (job, [])
  pick job (some (best, rest)) =
      if precedes best job then (best, job ∷ rest) else (job, best ∷ rest)

  -- `PriorityQueue.get`: the first job in order, and the others.
  unfoldable pub get : List (Job W A) → Option (Job W A × List (Job W A))
  unfolding pick
  get [] = none
  get (job ∷ jobs) = some (pick job (get jobs))

  -- How often a number stands among those of the jobs.
  unfoldable pub waiting : ℕ → List (Job W A) → ℕ
  waiting n [] = 0
  waiting n (job ∷ jobs) = (if job.sequence == n then 1 else 0) + waiting n jobs

  pub waiting-append :
      (n : ℕ) (a b : List (Job W A)) → waiting n (a ++ b) ≡ waiting n a + waiting n b
  unfolding waiting
  waiting-append n [] b = omega arith
  waiting-append n (x ∷ a) b = let h = waiting-append n a b in omega (arith, h)

  not_before :
      (a b c : Job W A) → precedes a b ≡ false → precedes b c ≡ false → precedes a c ≡ false
  unfolding precedes
  not_before a b c h k = ground arith

  not_after : (a b : Job W A) → precedes a b ≡ true → precedes b a ≡ false
  unfolding precedes
  not_after a b h = ground arith

  -- No other job precedes the one that is taken, and each number stands as often as before.
  pub record IsFirst (taken : Job W A) (others jobs : List (Job W A)) : Type 0 where
    pub same : (n : ℕ) → waiting n jobs ≡ waiting n (taken ∷ others)
    pub size : length jobs ≡ length others + 1
    pub first : All (λ j. precedes j taken ≡ false) others

  -- What `get` gives: nothing for no jobs, or a first one.
  abbrev pub Gets : List (Job W A) → Option (Job W A × List (Job W A)) → Type 0
  Gets jobs none = jobs ≡ []
  Gets jobs (some (taken, others)) = IsFirst taken others jobs

  pick-IsFirst :
      (job : Job W A) (jobs : List (Job W A)) (found : Option (Job W A × List (Job W A)))
      → Gets jobs found
      → IsFirst (pick job found).0 (pick job found).1 (job ∷ jobs)
  unfolding pick waiting
  pick-IsFirst job jobs none h = rw h (record { same = λ n. refl; size = omega arith; first = tt })
  pick-IsFirst job jobs (some (best, rest)) h = elim (Bool-cases (precedes best job)) [
    | inl e ↦ rw e (record {
      same = λ n. let k = h.same n in omega (arith, k);
      size = let k = h.size in omega (arith, k);
      first = (not_after best job e, h.first);
    })
    | inr e ↦ rw e (record {
      same = λ n. let k = h.same n in omega (arith, k);
      size = let k = h.size in omega (arith, k);
      first = (
        e,
        All-mono (λ j. precedes j best ≡ false) (λ j. precedes j job ≡ false)
            (λ j k. not_before j best job k e) rest h.first,
      );
    })
  ]

  -- `get` blocks on no jobs only; otherwise it takes a job that none of the others precedes, and
  -- leaves all the others.
  pub get-Gets : (jobs : List (Job W A)) → Gets jobs (get jobs)
  unfolding get
  get-Gets [] = refl
  get-Gets (job ∷ jobs) = pick-IsFirst job jobs (get jobs) (get-Gets jobs)
