-- ===== src/TokenTracker/Counts.antt =====
-- The request counts of the tracker: pkg/kthena-router/datastore/token_tracker.go
use kthena.Common.{
  ℕ, zero, suc, ◌+◌, ◌/◌, ◌≤◌, ◌≡◌, refl, sym, ap, ◌∙◌, Bool, true, false, ◌&&◌, List, [], ◌∷◌, ltb,
  leb, if◌then◌else◌, length, arith, Bool-cases, inl, inr, text_eq,
}
use kthena.Common.Int.{ℤ, pos, ◌+ℤ◌, ◌-ℤ◌, int_laws}
use kthena.TokenTracker.{
  FloatOps, BucketNode, UserBucketData, drop, count_expired, req_before, tokens_before, rebase,
  prune, active_request_count, update_data,
}
use kthena.TokenTracker.Buckets.{
  Sums, Sorted, Skipped, sum, window, total-req_before, sum-scan, scan-Skipped, Skipped-mono,
  window-drop, drop-Sorted, compact-Sums, rebase-Sorted, window-rebase,
}
use kthena.TokenTracker.Recording.{record-Sums, record-Sorted, record-Skipped, window-record}

module _ {F : Type 0} (ops : FloatOps F) where
  -- The data after calls up to the time `last` whose cutoffs were at most `cutoff`.
  abbrev pub IsValid : UserBucketData F → ℕ → ℕ → Type 0
  IsValid d last cutoff =
      Sums (pos 0) d.buckets × Sorted 0 d.buckets last × Skipped cutoff d.start d.buckets

  drop-beyond : (k : ℕ) (bs : List (BucketNode F)) → length bs ≤ k → sum (drop k bs) ≡ pos 0
  drop-beyond zero [] h = refl
  drop-beyond zero (b ∷ bs) h = absurd (omega (arith, h))
  drop-beyond (suc k) [] h = refl
  drop-beyond (suc k) (b ∷ bs) h = drop-beyond k bs (omega (arith, h))

  minus_zero : (x : ℤ) → x -ℤ pos 0 ≡ x
  minus_zero x = grind int_laws

  -- The scan and the difference of two sums compute the sum over the window.
  pub active-window :
      (d : UserBucketData F) (last c0 c : ℕ)
      → IsValid d last c0
      → c0 ≤ c
      → active_request_count ops d c ≡ window c d.buckets
  unfolding active_request_count req_before
  active-window d last c0 c v h =
      by_cases (d.start + count_expired ops c (drop d.start d.buckets)) (omega arith)
        (total-req_before ops (pos 0) _ d.buckets v.0)
        (sum-scan ops c 0 last d.start d.buckets v.1
          (Skipped-mono ops c0 c d.start d.buckets h v.2))
    where
      total : ℤ
      total = req_before ops (pos 0) (length d.buckets) d.buckets

      at_zero :
          (n : ℕ)
          → leb (length d.buckets) n ≡ false
          → d.start ≤ n
          → ltb 0 n ≡ false
          → total -ℤ req_before ops (pos 0) n d.buckets ≡ sum (drop n d.buckets)
          → sum (drop n d.buckets) ≡ window c d.buckets
          → (if leb (length d.buckets) d.start
              then pos 0
              else if leb (length d.buckets) n
              then pos 0
              else if ltb 0 n
              then total -ℤ req_before ops (pos 0) n d.buckets
              else total)
            ≡ window c d.buckets
      at_zero zero inside le z diff scan =
          let more : leb (length d.buckets) d.start ≡ false = ground (arith, inside, le) in
          rw (more, inside) (sym (minus_zero total) ∙ diff ∙ scan)
      at_zero (suc n) inside le z diff scan = absurd (ground (arith, z))

      by_cases :
          (n : ℕ)
          → d.start ≤ n
          → total -ℤ req_before ops (pos 0) n d.buckets ≡ sum (drop n d.buckets)
          → sum (drop n d.buckets) ≡ window c d.buckets
          → (if leb (length d.buckets) d.start
              then pos 0
              else if leb (length d.buckets) n
              then pos 0
              else if ltb 0 n
              then total -ℤ req_before ops (pos 0) n d.buckets
              else total)
            ≡ window c d.buckets
      by_cases n le diff scan = elim (Bool-cases (leb (length d.buckets) n)) [
        | inl beyond ↦
            let none_left = drop-beyond n d.buckets (ground (arith, beyond)) in
            ground (arith, beyond, none_left, scan)
        | inr inside ↦ elim (Bool-cases (ltb 0 n)) [
          | inl some_before ↦
              let more : leb (length d.buckets) d.start ≡ false = ground (arith, inside, le) in
              rw (more, inside, some_before) (diff ∙ scan)
          | inr none_before ↦ at_zero n inside le none_before diff scan
        ]
      ]

  prune-IsValid :
      (d : UserBucketData F) (last c0 c : ℕ)
      → IsValid d last c0
      → c0 ≤ c
      → IsValid (prune ops d c) last c
        × ((c' : ℕ) → c ≤ c' → window c' (prune ops d c).buckets ≡ window c' d.buckets)
  unfolding prune
  prune-IsValid d last c0 c v h =
      by_cases (leb (length d.buckets) d.start) (ltb 0 n && leb (length d.buckets / 2) n)
    where
      n : ℕ
      n = d.start + count_expired ops c (drop d.start d.buckets)

      skip : Skipped c d.start d.buckets
      skip = Skipped-mono ops c0 c d.start d.buckets h v.2

      scanned : Skipped c n d.buckets
      scanned = scan-Skipped ops c d.start d.buckets skip

      compacted : UserBucketData F
      compacted = record {
        buckets =
            rebase ops (tokens_before ops ops.zero_f n d.buckets)
              (req_before ops (pos 0) n d.buckets) (drop n d.buckets);
        start = 0;
      }

      by_cases :
          (empty compact : Bool)
          → (let d' = if empty then d else if compact then compacted else record d { start = n } in
              IsValid d' last c × ((c' : ℕ) → c ≤ c' → window c' d'.buckets ≡ window c' d.buckets))
      by_cases true compact = ((v.0, v.1, skip), λ c' k. refl)
      by_cases false true = (
        (
          compact-Sums ops _ n d.buckets v.0,
          rebase-Sorted ops _ _ 0 last (drop n d.buckets) (drop-Sorted ops 0 last n d.buckets v.1),
          tt,
        ),
        λ c' k.
            window-rebase ops _ _ c' (drop n d.buckets)
            ∙ window-drop ops c c' n d.buckets k scanned,
      )
      by_cases false false = ((v.0, v.1, scanned), λ c' k. refl)

  pub update-IsValid :
      (d : UserBucketData F) (last c0 now c : ℕ) (tokens : F)
      → IsValid d last c0
      → c0 ≤ c
      → last ≤ now
      → IsValid (update_data ops d now c tokens) now c
        × ((c' : ℕ)
            → c ≤ c'
            → window c' (update_data ops d now c tokens).buckets
              ≡ window c' d.buckets +ℤ (if leb c' now then pos 1 else pos 0))
  unfolding update_data
  update-IsValid d last c0 now c tokens v h k =
      let ((sums, sorted, skipped), same) = prune-IsValid d last c0 c v h in
      let bs = (prune ops d c).buckets in
      (
        (
          record-Sums ops now tokens bs sums,
          record-Sorted ops 0 last now tokens bs k sorted,
          record-Skipped ops c (prune ops d c).start now tokens bs skipped,
        ),
        λ c' l.
            window-record ops c' now tokens bs
            ∙ ap (λ w. w +ℤ (if leb c' now then pos 1 else pos 0)) (same c' l),
      )
