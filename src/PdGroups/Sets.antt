-- ===== src/PdGroups/Sets.antt =====
-- Sets of pods as lists without repetition, where the library's sets are wanted for a run.
use kthena.Common.{
  ◌≡◌, refl, Any, Bool, true, false, List, [], ◌∷◌, ◌==◌, ==-iff, if◌then◌else◌, arith, inl, inr,
  Bool-cases, sym, length,
}
use kthena.GroupStore.{NamespacedName, name_eq}
use kthena.PdGroups.{PodSets}

abbrev pub member : NamespacedName → List NamespacedName → Bool
member q [] = false
member q (p ∷ ps) = if p == q then true else member q ps

pub member→Any :
    (q : NamespacedName) (ps : List NamespacedName) → member q ps ≡ true → Any (λ p. q ≡ p) ps
member→Any q [] e = cc
member→Any q (p ∷ ps) e = elim (Bool-cases (p == q)) [
  | inl same ↦ inl (sym ((==-iff p q).0 same))
  | inr other ↦ inr (member→Any q ps (ground (arith, e, other)))
]

pub Any→member :
    (q : NamespacedName) (ps : List NamespacedName) → Any (λ p. q ≡ p) ps → member q ps ≡ true
Any→member q [] h = elim h [ ]
Any→member q (p ∷ ps) (inl e) = ground (arith, ==-iff p q, e)
Any→member q (p ∷ ps) (inr h) = ground (arith, Any→member q ps h)

unfoldable pub put : NamespacedName → List NamespacedName → List NamespacedName
put p s = if member p s then s else p ∷ s

unfoldable pub remove : NamespacedName → List NamespacedName → List NamespacedName
remove p [] = []
remove p (q ∷ s) = let rest = remove p s in if q == p then rest else q ∷ rest

pub member-put :
    (p q : NamespacedName) (s : List NamespacedName)
    → member q (put p s) ≡ (if p == q then true else member q s)
unfolding put
member-put p q s = ground (arith, ==-iff p q)

pub member-remove :
    (p q : NamespacedName) (s : List NamespacedName)
    → member q (remove p s) ≡ (if p == q then false else member q s)
unfolding remove
member-remove p q [] = ground arith
member-remove p q (x ∷ s) = ground (arith, ==-iff p q, ==-iff x p, ==-iff x q, member-remove p q s)

pub member_none : (p : NamespacedName) (s : List NamespacedName) → length s ≡ 0 → member p s ≡ false
member_none p [] h = refl
member_none p (q ∷ s) h = absurd (omega arith)

abbrev pub list_sets : PodSets (List NamespacedName)
list_sets = record {
  new_set = [];
  put = put;
  remove = remove;
  contains = member;
  len = length;
  unsorted_list = λ s. s;
  contains_new = λ p. refl;
  contains_put = member-put;
  contains_remove = member-remove;
  contains_none = member_none;
  listed = λ p s. (Any→member p s, member→Any p s);
}
