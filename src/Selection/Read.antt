-- ===== src/Selection/Read.antt =====
-- The server that a read is sent to.
use sandook.Base.{
  ℕ, ◌≡◌, refl, sym, ◌<◌, Bool, false, if◌then◌else◌, List, [], ◌∷◌, map, length, length-map, arith,
  subst,
}
use sandook.Status.{Status, ok, err, Error}
use sandook.Types.{ServerId, ServerArray}
use sandook.Selection.{
  ServerSet, set_intersection, is_empty, at, get_valid_servers, random_read, weighted_read,
}
use sandook.Selection.Members.{
  In, In-set_intersection, set_intersection-In, at_lem, All-In, IsCandidate,
  get_valid_servers-IsCandidate, get_valid_servers-In,
}

-- The outcome of a choice among some servers, given the ones that are eligible.
pub data Chooses (Eligible : ServerId → Type 0) : Status ServerId → Type 0 where
  none_eligible : ((a : ServerId) → ¬ Eligible a) → Chooses Eligible (err Error.enoent)
  chosen : (a : ServerId) → Eligible a → Chooses Eligible (ok a)

module _ {W : Type 0} (is_invalid : W → Bool) (weights : ServerArray W) (subset : ServerSet) where
  -- A server of the subset with a valid weight.
  abbrev pub IsEligible : ServerId → Type 0
  IsEligible a = IsCandidate is_invalid weights 1 a × In a subset

  choice_lem :
      (choices : List ServerId) (idx : ℕ)
      → set_intersection (get_valid_servers is_invalid weights) subset ≡ choices
      → ((0 < length choices) → idx < length choices)
      → Chooses IsEligible (if is_empty choices then err Error.enoent else at choices idx)
  unfolding is_empty
  choice_lem [] idx e h = none_eligible λ a c. subst (In a) e (
      set_intersection-In (get_valid_servers is_invalid weights) subset a
        (get_valid_servers-In is_invalid weights a c.0) c.1)
  choice_lem (x ∷ xs) idx e h =
      let (a, q, m) = at_lem (x ∷ xs) idx (h (omega arith)) in
      let (p, r) =
        In-set_intersection (get_valid_servers is_invalid weights) subset a
          (subst (In a) (sym e) m) in
      subst (Chooses IsEligible) (sym q) (
        chosen a (
          All-In (IsCandidate is_invalid weights 1) _ a
              (get_valid_servers-IsCandidate is_invalid weights) p,
          r,
        ))

  not-empty : (xs : List ServerId) (a : ServerId) → In a xs → is_empty xs ≡ false
  unfolding is_empty
  not-empty [] a m = absurd m
  not-empty (x ∷ xs) a m = refl

  -- If some server has a valid weight, `RandomRead` returns a server of the subset with a valid
  -- weight, and `ENOENT` only where there is none, as long as the drawn index is in range.
  pub random_read-Chooses :
      (draw : ℕ → ℕ) (a : ServerId)
      → ((n : ℕ) → 0 < n → draw n < n)
      → IsCandidate is_invalid weights 1 a
      → Chooses IsEligible (random_read is_invalid draw weights subset)
  unfolding random_read
  random_read-Chooses draw a h c =
      rw
        (not-empty (get_valid_servers is_invalid weights) a
          (get_valid_servers-In is_invalid weights a c))
        (choice_lem (set_intersection (get_valid_servers is_invalid weights) subset) _ refl (h _))

  -- If some server has a valid weight, `WeightedRead` returns a server of the subset with a valid
  -- weight, and `ENOENT` only where there is none, as long as the drawn index is in range.
  pub weighted_read-Chooses :
      (draw : List W → ℕ) (a : ServerId)
      → ((ws : List W) → 0 < length ws → draw ws < length ws)
      → IsCandidate is_invalid weights 1 a
      → Chooses IsEligible (weighted_read is_invalid draw weights subset)
  unfolding weighted_read
  weighted_read-Chooses draw a h c =
      let choices = set_intersection (get_valid_servers is_invalid weights) subset in
      rw
        (not-empty (get_valid_servers is_invalid weights) a
          (get_valid_servers-In is_invalid weights a c))
        (choice_lem choices _ refl (λ p.
          subst (λ n. draw (map weights choices) < n) (length-map choices weights)
            (h (map weights choices) (subst (λ n. 0 < n) (sym (length-map choices weights)) p))))
