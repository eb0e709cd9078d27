-- ===== src/FairnessQueue/Admission.antt =====
-- Permits of the semaphore: pkg/kthena-router/datastore/fairness_queue.go
use kthena.Common.{
  ℕ, suc, ◌+◌, ◌≤◌, ◌<◌, ◌≡◌, refl, Bool, true, false, not, ◌&&◌, List, [], ◌∷◌, ◌++◌,
  if◌then◌else◌, arith, All, All-append,
}
use kthena.FairnessQueue.{
  Stage, queued, popped, permitted, finished, Request, new_request, at_stage, commit_admission,
  abandon, release, QueueState, state, Step, push, pop, drop_cancelled, requeue, acquire, admit,
  refuse, give_up, release_permit, release_again, Reachable, start, next,
}

abbrev at_permit : Stage → ℕ
at_permit permitted = 1
at_permit queued = 0
at_permit popped = 0
at_permit finished = 0

-- The permits that a request accounts for: it is in flight, or the loop has one for it.
abbrev pub in_flight : Request → Bool
in_flight r = r.admitted && not r.released

abbrev pub holds : Request → ℕ
holds r = (if in_flight r then 1 else 0) + at_permit r.stage

abbrev pub total : List Request → ℕ
total [] = 0
total (r ∷ rs) = holds r + total rs

abbrev pub early : Stage → Bool
early queued = true
early popped = true
early permitted = true
early finished = false

-- Only a request that is through the loop is admitted, only an admitted one is released, and an
-- abandoned one is not admitted.
abbrev pub Consistent : Request → Type 0
Consistent r =
    ((early r.stage && r.admitted) ≡ false)
    × ((r.released && not r.admitted) ≡ false)
    × ((r.abandoned && r.admitted) ≡ false)

abbrev pub IsValid : ℕ → QueueState → Type 0
IsValid max_concurrent s =
    (s.sem ≡ total s.requests) × (s.sem ≤ max_concurrent) × All Consistent s.requests

total-append : (xs ys : List Request) → total (xs ++ ys) ≡ total xs + total ys
total-append [] ys = omega arith
total-append (x ∷ xs) ys = omega (arith, total-append xs ys)

-- A request in the middle is replaced.
All-middle : (xs ys : List Request) (r : Request) → All Consistent (xs ++ (r ∷ ys)) → Consistent r
All-middle [] ys r h = h.0
All-middle (x ∷ xs) ys r h = All-middle xs ys r h.1

All-replace :
    (xs ys : List Request) (r r' : Request)
    → Consistent r'
    → All Consistent (xs ++ (r ∷ ys))
    → All Consistent (xs ++ (r' ∷ ys))
All-replace [] ys r r' c h = (c, h.1)
All-replace (x ∷ xs) ys r r' c h = (h.0, All-replace xs ys r r' c h.1)

replace-IsValid :
    (max_concurrent sem sem' : ℕ) (xs ys : List Request) (r r' : Request)
    → (Consistent r
        → sem ≤ max_concurrent
        → Consistent r' × (sem' + holds r ≡ sem + holds r') × (sem' ≤ max_concurrent))
    → IsValid max_concurrent (state sem (xs ++ (r ∷ ys)))
    → IsValid max_concurrent (state sem' (xs ++ (r' ∷ ys)))
replace-IsValid max_concurrent sem sem' xs ys r r' f v =
    let (c, e, le) = f (All-middle xs ys r v.2) v.1 in
    let before = total-append xs (r ∷ ys) in
    let after = total-append xs (r' ∷ ys) in
    (omega (arith, v.0, e, before, after), le, All-replace xs ys r r' c v.2)

-- What a step asks of the request that it changes.
abbrev Changes : ℕ → ℕ → ℕ → Request → Request → Type 0
Changes max_concurrent sem sem' r r' =
    Consistent r
    → sem ≤ max_concurrent
    → Consistent r' × (sem' + holds r ≡ sem + holds r') × (sem' ≤ max_concurrent)

early-moves :
    (max sem : ℕ) (r : Request) (stage : Stage)
    → early r.stage ≡ true
    → at_permit r.stage ≡ 0
    → at_permit stage ≡ 0
    → Changes max sem sem r (at_stage stage r)
early-moves max sem r stage e z z' c le =
    ((ground (arith, e, c), c.1, c.2), omega (arith, z, z'), le)

acquire-Changes :
    (max sem : ℕ) (r : Request)
    → r.stage ≡ popped
    → sem < max
    → Changes max sem (suc sem) r (at_stage permitted r)
acquire-Changes max sem r e room c le =
    ((ground (arith, e, c), c.1, c.2), ground (arith, e), omega (arith, room))

admit-Changes :
    (max sem : ℕ) (r : Request)
    → r.stage ≡ permitted
    → (commit_admission r).1 ≡ true
    → Changes max sem sem r (at_stage finished (commit_admission r).0)
unfolding commit_admission
admit-Changes max sem r e ok c le =
    ((ground arith, ground arith, ground arith), ground arith, ground arith)

refuse-Changes :
    (max sem : ℕ) (r : Request)
    → r.stage ≡ permitted
    → (commit_admission r).1 ≡ false
    → Changes max (suc sem) sem r (at_stage finished (commit_admission r).0)
unfolding commit_admission
refuse-Changes max sem r e ok c le =
    ((ground arith, ground arith, ground arith), ground arith, ground arith)

abandon-Changes : (max sem : ℕ) (r : Request) → Changes max sem sem r (abandon r).0
unfolding abandon
abandon-Changes max sem r c le =
    ((ground arith, ground arith, ground arith), ground arith, ground arith)

release-Changes :
    (max sem : ℕ) (r : Request)
    → r.admitted ≡ true
    → (release r).1 ≡ true
    → Changes max (suc sem) sem r (release r).0
unfolding release
release-Changes max sem r a ok c le =
    ((ground arith, ground arith, ground arith), ground arith, ground arith)

release_again-Changes :
    (max sem : ℕ) (r : Request) → (release r).1 ≡ false → Changes max sem sem r (release r).0
unfolding release
release_again-Changes max sem r again c le =
    ((ground arith, ground arith, ground arith), ground arith, ground arith)

Step-IsValid : (max : ℕ) (s t : QueueState) → Step max s t → IsValid max s → IsValid max t
unfolding new_request
Step-IsValid max _ _ (push sem rs) v =
    let more = total-append rs (new_request ∷ []) in
    (
      omega (arith, more, v.0),
      v.1,
      All-append Consistent rs (new_request ∷ []) v.2 ((refl, refl, refl), tt),
    )
Step-IsValid max _ _ (pop sem xs ys r h) v =
    replace-IsValid max sem sem xs ys r (at_stage popped r)
      (early-moves max sem r popped (ground (arith, h)) (ground (arith, h)) refl) v
Step-IsValid max _ _ (drop_cancelled sem xs ys r h) v =
    replace-IsValid max sem sem xs ys r (at_stage finished r)
      (early-moves max sem r finished (ground (arith, h)) (ground (arith, h)) refl) v
Step-IsValid max _ _ (requeue sem xs ys r h) v =
    replace-IsValid max sem sem xs ys r (at_stage queued r)
      (early-moves max sem r queued (ground (arith, h)) (ground (arith, h)) refl) v
Step-IsValid max _ _ (acquire sem xs ys r h room) v =
    replace-IsValid max sem (suc sem) xs ys r (at_stage permitted r)
      (acquire-Changes max sem r h room) v
Step-IsValid max _ _ (admit sem xs ys r h ok) v =
    replace-IsValid max sem sem xs ys r _ (admit-Changes max sem r h ok) v
Step-IsValid max _ _ (refuse sem xs ys r h ok) v =
    replace-IsValid max (suc sem) sem xs ys r _ (refuse-Changes max sem r h ok) v
Step-IsValid max _ _ (give_up sem xs ys r) v =
    replace-IsValid max sem sem xs ys r _ (abandon-Changes max sem r) v
Step-IsValid max _ _ (release_permit sem xs ys r a ok) v =
    replace-IsValid max (suc sem) sem xs ys r _ (release-Changes max sem r a ok) v
Step-IsValid max _ _ (release_again sem xs ys r a again) v =
    replace-IsValid max sem sem xs ys r _ (release_again-Changes max sem r again) v

-- Whatever the order of the loop's and the callers' steps: the semaphore has as many permits as
-- there are requests in flight or about to be admitted, and at most its capacity. So no more than
-- that many requests are in flight, and no permit is lost when a caller gives up. No abandoned
-- request is admitted, and none is released before it is admitted.
pub admission_lem : (max : ℕ) (s : QueueState) → Reachable max s → IsValid max s
admission_lem max _ start = (refl, omega arith, tt)
admission_lem max _ (next s t r step) = Step-IsValid max s t step (admission_lem max s r)
