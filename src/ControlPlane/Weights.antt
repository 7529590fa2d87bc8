-- ===== src/ControlPlane/Weights.antt =====
-- Which servers the isolation schemes give weights to.
use sandook.Base.{
  ℕ, ◌≡◌, ◌≢◌, refl, subst, ne_of_==, ◌∙◌, ◌<◌, ◌≤◌, ◌⊎◌, inl, inr, true, false, ◌==◌, List, [],
  ◌∷◌, All, length, arith, Bool-cases, ==_iff, lt→ltb,
}
use sandook.Status.{ok}
use sandook.Types.{ServerId, ServerArray, put, ServerMode, ServerStats}
use sandook.ControlPlane.Policies.{
  Direction, filter_mode_of, same_mode, count_valid, weigh_valid, weigh_all, weak_weights,
  strict_weights,
}

same_mode_lem :
    (a b : ServerMode) → ((same_mode a b ≡ true) × (a ≡ b)) ⊎ ((same_mode a b ≡ false) × (a ≢ b))
unfolding same_mode
same_mode_lem ServerMode.mix ServerMode.mix = inl (refl, refl)
same_mode_lem ServerMode.read ServerMode.read = inl (refl, refl)
same_mode_lem ServerMode.write ServerMode.write = inl (refl, refl)
same_mode_lem ServerMode.mix ServerMode.read = inr (refl, λ e. cc e)
same_mode_lem ServerMode.mix ServerMode.write = inr (refl, λ e. cc e)
same_mode_lem ServerMode.read ServerMode.mix = inr (refl, λ e. cc e)
same_mode_lem ServerMode.read ServerMode.write = inr (refl, λ e. cc e)
same_mode_lem ServerMode.write ServerMode.mix = inr (refl, λ e. cc e)
same_mode_lem ServerMode.write ServerMode.read = inr (refl, λ e. cc e)

-- Which modes take an operation.
abbrev pub MayTake : Direction → ServerMode → Type 0
MayTake Direction.reads mode = (mode ≡ ServerMode.mix) ⊎ (mode ≡ ServerMode.read)
MayTake Direction.writes mode = (mode ≡ ServerMode.mix) ⊎ (mode ≡ ServerMode.write)

MayTake_lem :
    (op : Direction) (mode : ServerMode)
    → (mode ≢ filter_mode_of op → MayTake op mode) × (MayTake op mode → mode ≢ filter_mode_of op)
MayTake_lem Direction.reads ServerMode.mix = ((λ n. inl refl), (λ m e. cc e))
MayTake_lem Direction.reads ServerMode.read = ((λ n. inr refl), (λ m e. cc e))
MayTake_lem Direction.reads ServerMode.write =
    ((λ n. absurd (n refl)), (λ m. elim m [ inl x ↦ cc x | inr x ↦ cc x ]))
MayTake_lem Direction.writes ServerMode.mix = ((λ n. inl refl), (λ m e. cc e))
MayTake_lem Direction.writes ServerMode.write = ((λ n. inr refl), (λ m e. cc e))
MayTake_lem Direction.writes ServerMode.read =
    ((λ n. absurd (n refl)), (λ m. elim m [ inl x ↦ cc x | inr x ↦ cc x ]))

module _ {W : Type 0} where
  -- The server is among those that are not in the mode.
  abbrev pub Valid : ServerMode → List (ServerStats W) → ServerId → Type 0
  Valid filter_mode [] id = ⊥
  Valid filter_mode (s ∷ ss) id =
      ((s.server_id ≡ id) × (s.mode ≢ filter_mode)) ⊎ Valid filter_mode ss id

  abbrev pub InRange : List (ServerStats W) → Type 0
  InRange = All (λ s. s.server_id < 20)

  -- Each server of a set has the weight, and each other one what the array held.
  abbrev pub Weighs : (ServerId → Type 0) → W → ServerArray W → ServerArray W → Type 0
  Weighs Q weight start w =
      (id : ServerId) → (Q id × (w id ≡ weight)) ⊎ ((¬ Q id) × (w id ≡ start id))

  -- One more server gets the weight.
  weigh_more :
      (weight : W) (start w : ServerArray W) (Q R : ServerId → Type 0) (j : ServerId)
      → (R j)
      → ((id : ServerId) → Q id → R id)
      → ((id : ServerId) → R id → (j ≡ id) ⊎ Q id)
      → Weighs Q weight (put start j weight) w
      → Weighs R weight start w
  weigh_more weight start w Q R j r into from h id = elim (h id) [
    | inl (q, e) ↦ inl (into id q, e)
    | inr (n, e) ↦ elim (Bool-cases (j == id)) [
      | inl z ↦ inl (subst R ((==_iff j id).0 z) r, e ∙ rw z refl)
      | inr z ↦
          inr ((λ x. elim (from id x) [ inl y ↦ ne_of_== j id z y | inr q ↦ n q ]), e ∙ rw z refl)
    ]
  ]

  weigh_valid_lem :
      (filter_mode : ServerMode) (weight : W) (ss : List (ServerStats W)) (start : ServerArray W)
      → InRange ss
      → (w : ServerArray W) × (weigh_valid filter_mode weight ss start ≡ ok w)
        × Weighs (Valid filter_mode ss) weight start w
  unfolding weigh_valid
  weigh_valid_lem filter_mode weight [] start h = (start, refl, λ id. inr ((λ b. b), refl))
  weigh_valid_lem filter_mode weight (s ∷ ss) start h = elim (same_mode_lem s.mode filter_mode) [
    | inl (e, q) ↦
        let (w, f, k) = weigh_valid_lem filter_mode weight ss start h.1 in
        (
          w,
          rw e f,
          λ id. elim (k id) [
            | inl (v, z) ↦ inl (inr v, z)
            | inr (n, z) ↦ inr ((λ x. elim x [ inl y ↦ y.1 q | inr v ↦ n v ]), z)
          ],
        )
    | inr (e, q) ↦
        let (w, f, k) = weigh_valid_lem filter_mode weight ss (put start s.server_id weight) h.1 in
        (
          w,
          rw (e, lt→ltb s.server_id 20 h.0) f,
          weigh_more weight start w (Valid filter_mode ss) (Valid filter_mode (s ∷ ss)) s.server_id
              (inl (refl, q)) (λ id v. inr v) (λ id v. elim v [ inl y ↦ inl y.0 | inr y ↦ inr y ])
              k,
        )
  ]

  -- The server is in the statistics.
  abbrev pub Reported : List (ServerStats W) → ServerId → Type 0
  Reported [] id = ⊥
  Reported (s ∷ ss) id = (s.server_id ≡ id) ⊎ Reported ss id

  weigh_all_lem :
      (weight : W) (ss : List (ServerStats W)) (start : ServerArray W)
      → InRange ss
      → (w : ServerArray W) × (weigh_all weight ss start ≡ ok w)
        × Weighs (Reported ss) weight start w
  unfolding weigh_all
  weigh_all_lem weight [] start h = (start, refl, λ id. inr ((λ b. b), refl))
  weigh_all_lem weight (s ∷ ss) start h =
      let (w, f, k) = weigh_all_lem weight ss (put start s.server_id weight) h.1 in
      (
        w,
        rw (lt→ltb s.server_id 20 h.0) f,
        weigh_more weight start w (Reported ss) (Reported (s ∷ ss)) s.server_id (inl refl)
            (λ id v. inr v) (λ id v. v) k,
      )

  -- The divisor is not 0 where there is a server to weigh.
  count_valid-pos :
      (filter_mode : ServerMode) (ss : List (ServerStats W)) (id : ServerId)
      → Valid filter_mode ss id
      → 1 ≤ count_valid filter_mode ss
  unfolding count_valid
  count_valid-pos filter_mode [] id v = absurd v
  count_valid-pos filter_mode (s ∷ ss) id v = elim (same_mode_lem s.mode filter_mode) [
    | inr (e, q) ↦ rw e (omega arith)
    | inl (e, q) ↦
        rw e (elim v [ inl y ↦ absurd (y.1 q) | inr y ↦ count_valid-pos filter_mode ss id y ])
  ]

  -- A server in the statistics that may take the operation.
  abbrev pub Takers : Direction → List (ServerStats W) → ServerId → Type 0
  Takers op [] id = ⊥
  Takers op (s ∷ ss) id = ((s.server_id ≡ id) × MayTake op s.mode) ⊎ Takers op ss id

  Valid-Takers :
      (op : Direction) (ss : List (ServerStats W)) (id : ServerId)
      → (Valid (filter_mode_of op) ss id → Takers op ss id)
        × (Takers op ss id → Valid (filter_mode_of op) ss id)
  Valid-Takers op [] id = ((λ b. b), (λ b. b))
  Valid-Takers op (s ∷ ss) id =
      let (f, g) = Valid-Takers op ss id in
      (
        (λ v. elim v [ inl y ↦ inl (y.0, (MayTake_lem op s.mode).0 y.1) | inr y ↦ inr (f y) ]),
        (λ v. elim v [ inl y ↦ inl (y.0, (MayTake_lem op s.mode).1 y.1) | inr y ↦ inr (g y) ]),
      )

  -- With strict isolation, for servers below the maximum, the weights of an operation are computed without
  -- an exception. A server that is mixed or in the mode of the operation gets one over the number that the
  -- loop counts, which is not 0. The entry of each other server is what the array held before.
  pub strict_weights-Weighs :
      (inverse : ℕ → W) (stats : List (ServerStats W)) (op : Direction) (uninit : ServerArray W)
      → InRange stats
      → (w : ServerArray W) × (strict_weights inverse stats op uninit ≡ ok w)
        × Weighs (Takers op stats) (inverse (count_valid (filter_mode_of op) stats)) uninit w
        × ((id : ServerId) → Takers op stats id → 1 ≤ count_valid (filter_mode_of op) stats)
  unfolding strict_weights
  strict_weights-Weighs inverse stats op uninit h =
      let (w, e, k) =
        weigh_valid_lem (filter_mode_of op) (inverse (count_valid (filter_mode_of op) stats)) stats
          uninit h in
      (
        w,
        e,
        (λ id. elim (k id) [
          | inl (v, z) ↦ inl ((Valid-Takers op stats id).0 v, z)
          | inr (n, z) ↦ inr ((λ v. n ((Valid-Takers op stats id).1 v)), z)
        ]),
        (λ id v. count_valid-pos (filter_mode_of op) stats id ((Valid-Takers op stats id).1 v)),
      )

  -- With weak isolation, for servers below the maximum, every server of the statistics gets one over their
  -- number for reads, whatever its mode, and the weights for writes are those of strict isolation.
  pub weak_weights-Weighs :
      (inverse : ℕ → W) (stats : List (ServerStats W)) (uninit : ServerArray W)
      → InRange stats
      → ((w : ServerArray W) × (weak_weights inverse stats Direction.reads uninit ≡ ok w)
          × Weighs (Reported stats) (inverse (length stats)) uninit w)
        × (weak_weights inverse stats Direction.writes uninit
            ≡ strict_weights inverse stats Direction.writes uninit)
  unfolding weak_weights strict_weights
  weak_weights-Weighs inverse stats uninit h =
      (weigh_all_lem (inverse (length stats)) stats uninit h, refl)
