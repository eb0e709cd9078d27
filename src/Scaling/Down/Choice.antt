-- ===== src/Scaling/Down/Choice.antt =====
-- The replicas that are chosen: scaleDownServingGroups and scaleDownRoles of
-- pkg/model-serving-controller/controller/model_serving_controller.go
use kthena.Common.{
  ℕ, ◌+◌, ◌-◌, ◌≤◌, ◌≡◌, Bool, true, false, not, List, [], ◌++◌, ltb, ◌⊎◌, inl, inr, Bool-cases,
  arith, All, All-append, All-map, All-and, length, take, drop, count, select, Pairs, Ordered,
  Pairs-of_Ordered, length-count, length-append, length-take, count-append, count-select,
  count-take-drop, All-of_count, count-select_self, count-select-not, length-select, All-take,
  All-drop, drop-length, ◌∙◌, sym,
}
use kthena.Common.Int.{ℤ, pos, ltb_ℤ}
use kthena.Scaling.Scores.{
  Score, sort_groups, sort_groups-IsOrder, NotBehind, NotBehind→Ahead, Ahead,
}
use kthena.Scaling.Down.{
  SortScores, min_ℕ, non_protected_scores, protected_scores, num_protected_to_delete, targets,
}

-- What goes before what: a replica that is not protected before one that is, and otherwise by status,
-- deletion cost and falling ordinal.
abbrev pub GoesFirst : (Score → Bool) → Score → Score → Type 0
GoesFirst protected t u =
    ((protected t ≡ false) × (protected u ≡ true)) ⊎ ((protected t ≡ protected u) × Ahead t u)

module _ (slices : SortScores) (protected : Score → Bool) (partition : ℤ)
    (all_scores : List Score) where
  -- The scores whose replicas stay.
  abbrev pub kept : ℕ → List Score
  kept total =
      drop (min_ℕ total (length (non_protected_scores slices protected partition all_scores)))
        (non_protected_scores slices protected partition all_scores)
      ++ drop (num_protected_to_delete slices protected partition all_scores total)
          (protected_scores slices protected partition all_scores)

  abbrev non : List Score
  non = non_protected_scores slices protected partition all_scores

  abbrev prot : List Score
  prot = protected_scores slices protected partition all_scores

  count-parts : (test : Score → Bool) → count test non + count test prot ≡ count test all_scores
  unfolding non_protected_scores protected_scores
  count-parts test = omega (
    arith,
    count-select test protected all_scores,
    slices.count-sort sort_groups (select (λ s. not (protected s)) all_scores) test,
    slices.count-sort sort_groups (select protected all_scores) test,
  )

  non-unprotected : All (λ s. protected s ≡ false) non
  unfolding non_protected_scores
  non-unprotected = All-of_count protected non (
      slices.count-sort sort_groups (select (λ s. not (protected s)) all_scores) protected
      ∙ count-select-not protected all_scores)

  prot-protected : All (λ s. protected s ≡ true) prot
  unfolding protected_scores
  prot-protected =
      All-map prot (λ s h. ground (arith, h))
        (All-of_count (λ s. not (protected s)) prot
          (slices.count-sort sort_groups (select protected all_scores) (λ s. not (protected s))
            ∙ count-select_self protected all_scores))

  length-parts : length non + length prot ≡ length all_scores
  length-parts =
      omega (
        arith,
        count-parts (λ _. true),
        length-count non,
        length-count prot,
        length-count all_scores,
      )

  split-count :
      (total : ℕ) (test : Score → Bool)
      → count test (targets slices protected partition all_scores total) + count test (kept total)
        ≡ count test all_scores
  unfolding targets
  split-count total test =
      let n = min_ℕ total (length non) in
      let k = num_protected_to_delete slices protected partition all_scores total in
      omega (
        arith,
        count-parts test,
        count-take-drop test n non,
        count-take-drop test k prot,
        count-append test (take n non) (take k prot),
        count-append test (drop n non) (drop k prot),
      )

  abbrev pub Unguarded : Type 0
  Unguarded = ltb_ℤ (pos 0) partition ≡ false → count protected all_scores ≡ 0

  no_prot : Unguarded → ltb_ℤ (pos 0) partition ≡ false → length prot ≡ 0
  unfolding protected_scores
  no_prot unguarded off =
      let sorted = slices.count-sort sort_groups (select protected all_scores) (λ _. true) in
      omega (
        arith,
        sorted,
        length-count prot,
        length-count (select protected all_scores),
        length-select protected all_scores,
        unguarded off,
      )

  number-protected :
      (total : ℕ)
      → total ≤ length all_scores
      → Unguarded
      → (num_protected_to_delete slices protected partition all_scores total
          ≡ total - min_ℕ total (length non))
        × (total - min_ℕ total (length non) ≤ length prot)
  unfolding num_protected_to_delete
  number-protected total fits unguarded =
      let parts = length-parts in
      elim (Bool-cases (ltb_ℤ (pos 0) partition)) [
        | inl on ↦ ground (arith, parts, on)
        | inr off ↦ ground (arith, parts, off, no_prot unguarded off)
      ]

  targets-length :
      (total : ℕ)
      → total ≤ length all_scores
      → Unguarded
      → length (targets slices protected partition all_scores total) ≡ total
  unfolding targets
  targets-length total fits unguarded =
      let n = min_ℕ total (length non) in
      let k = num_protected_to_delete slices protected partition all_scores total in
      let (number, room) = number-protected total fits unguarded in
      let first = length-take n non (ground arith) in
      let second = length-take k prot (omega (arith, number, room)) in
      let both = length-append (take n non) (take k prot) in
      ground (arith, number, room, first, second, both)

  one_side :
      (side : Bool) (n : ℕ) (l : List Score)
      → All (λ s. protected s ≡ side) l
      → Ordered (NotBehind sort_groups) l
      → Pairs (GoesFirst protected) (take n l) (drop n l)
  one_side side n l same ordered =
      All-map (take n l)
        (λ t h.
          All-map (drop n l) (λ u k. inr (h.0 ∙ sym k.0, NotBehind→Ahead t u k.1))
            (All-and _ _ (drop n l) (All-drop (λ s. protected s ≡ side) n l same) h.1))
        (All-and _ _ (take n l) (All-take (λ s. protected s ≡ side) n l same)
          (Pairs-of_Ordered (NotBehind sort_groups) n l ordered))

  non-Ordered : Ordered (NotBehind sort_groups) non
  unfolding non_protected_scores
  non-Ordered =
      slices.sort-Ordered sort_groups (select (λ s. not (protected s)) all_scores)
        sort_groups-IsOrder

  prot-Ordered : Ordered (NotBehind sort_groups) prot
  unfolding protected_scores
  prot-Ordered = slices.sort-Ordered sort_groups (select protected all_scores) sort_groups-IsOrder

  first_part :
      (n k : ℕ) → All (λ t. All (GoesFirst protected t) (drop n non ++ drop k prot)) (take n non)
  first_part n k =
      All-map (take n non)
        (λ t h. All-append (GoesFirst protected t) (drop n non) (drop k prot) h.1 (
          All-map (drop k prot) (λ u later. inl (h.0, later))
            (All-drop (λ s. protected s ≡ true) k prot prot-protected)))
        (All-and _ _ (take n non) (All-take (λ s. protected s ≡ false) n non non-unprotected)
          (one_side false n non non-unprotected non-Ordered))

  second_part :
      (n k : ℕ)
      → (k ≡ 0) ⊎ (drop n non ≡ [])
      → All (λ t. All (GoesFirst protected t) (drop n non ++ drop k prot)) (take k prot)
  second_part n k (inl none') = rw none' tt
  second_part n k (inr nothing) = rw nothing (one_side true k prot prot-protected prot-Ordered)

  targets-first :
      (total : ℕ)
      → total ≤ length all_scores
      → Unguarded
      → Pairs
          (GoesFirst protected)
          (targets slices protected partition all_scores total)
          (kept total)
  unfolding targets
  targets-first total fits unguarded =
      let n = min_ℕ total (length non) in
      let k = num_protected_to_delete slices protected partition all_scores total in
      let number = (number-protected total fits unguarded).0 in
      All-append (λ t. All (GoesFirst protected t) (kept total)) (take n non) (take k prot)
        (first_part n k)
        (second_part n k (elim (Bool-cases (ltb (length non) total)) [
          | inl over ↦ inr (drop-length n non (ground (arith, over)))
          | inr under ↦ inl (ground (arith, under, number))
        ]))

  -- A scale down by `total` replicas of the list chooses exactly so many, every replica is either
  -- chosen or kept, and every chosen one goes before every kept one.
  pub choice_lem :
      (total : ℕ)
      → total ≤ length all_scores
      → Unguarded
      → (length (targets slices protected partition all_scores total) ≡ total)
        × ((test : Score → Bool)
            → count test (targets slices protected partition all_scores total)
                + count test (kept total)
              ≡ count test all_scores)
        × Pairs
            (GoesFirst protected)
            (targets slices protected partition all_scores total)
            (kept total)
  choice_lem total fits unguarded =
      (targets-length total fits unguarded, split-count total, targets-first total fits unguarded)
