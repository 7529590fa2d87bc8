-- ===== src/ControlPlane/Promises.antt =====
-- The isolation schemes as policies.
use sandook.Base.{
  ℕ, ◌+◌, ◌^◌, ◌≡◌, refl, ap, ◌∙◌, ◌<◌, ◌⊎◌, inl, inr, leb, List, length, arith, Bool-cases,
}
use sandook.Status.{Error}
use sandook.Types.{ServerId, ServerMode, ServerStats, ServerArray}
use sandook.Isolation
use sandook.Isolation.{RwIsolation, SystemLoad, compute_modes, add_server}
use sandook.Isolation.Modes.{compute_modes-IsWindow}
use sandook.Isolation.State.{compute_modes_state, compute_modes_few}
use sandook.ControlPlane.Policies.{
  Ambient, Direction, weak_weights, rw_isolation_weak, rw_isolation_strict,
}
use sandook.ControlPlane.Weights.{InRange, strict_weights-Weighs, weak_weights-Weighs}
use sandook.ControlPlane.Upkeep.{Returns, Keeps}

-- The scheme counts `n` servers, and its first write server is one of them.
pub Counts : RwIsolation → ℕ → Type 0
Counts s n = (s.num_servers ≡ n) × ((n ≡ 0) ⊎ (s.last_write_server_idx < n))

first_lem :
    (s : RwIsolation) (n : ℕ)
    → s.num_servers ≡ n
    → 2 < n
    → (n ≡ 0) ⊎ (s.last_write_server_idx < n)
    → s.last_write_server_idx < s.num_servers
first_lem s n e l (inl z) = absurd (omega (arith, z, l))
first_lem s n e l (inr f) = omega (arith, f, e)

-- Without servers there is nothing to count.
pub init-Counts : (now : ℕ) (load : SystemLoad) → Counts (Isolation.init now load) 0
unfolding Counts Isolation.init
init-Counts now load = (refl, inl refl)

joins_lem : (s : RwIsolation) (n : ℕ) → Counts s n → Counts (add_server s) (n + 1)
unfolding Counts add_server
joins_lem s n (e, i) = (ap (λ k. k + 1) e, inr (omega arith))

module _ {W : Type 0} where
  weak_lem :
      (inverse : ℕ → W) (stats : List (ServerStats W)) (op : Direction) (uninit : ServerArray W)
      → InRange stats
      → Returns (weak_weights inverse stats op uninit)
  weak_lem inverse stats Direction.reads uninit h =
      let ((w, e, _), f) = weak_weights-Weighs inverse stats uninit h in inl (w, e)
  weak_lem inverse stats Direction.writes uninit h =
      let (_, f) = weak_weights-Weighs inverse stats uninit h in
      let (w, e, _, _) = strict_weights-Weighs inverse stats Direction.writes uninit h in
      inl (w, f ∙ e)

module _ {W : Type 0} (peak_iops : ServerId → ServerMode → ℕ) where
  modes_lem :
      (s : RwIsolation) (stats : List (ServerStats W)) (load : SystemLoad) (env : Ambient W)
      → Counts s (length stats)
      → length stats < 20
      → load.read_ops < 2 ^ 63
      → load.write_ops < 2 ^ 63
      → let r = compute_modes peak_iops s stats load env.now env.later env.uninit_modes in
        Returns r.0 × Counts r.1 (length stats)
  unfolding Counts
  modes_lem s stats load env (e, i) few rd wr = elim (Bool-cases (leb (length stats) 2)) [
    | inl l ↦
        rw (compute_modes_few peak_iops s stats load env.now env.later env.uninit_modes l)
          (inl ((λ _. ServerMode.mix), refl), (e, i))
    | inr l ↦
        let many : 2 < length stats = ground (arith, l) in
        let first : s.last_write_server_idx < s.num_servers = first_lem s (length stats) e many i in
        let (v, n, _, _) =
          compute_modes_state peak_iops s stats load env.now env.later env.uninit_modes
            (record { in_ring = first }) in
        (
          elim (compute_modes-IsWindow peak_iops s stats load env.now env.later env.uninit_modes e
              many few first (omega (arith, rd, wr))) [
                | inl x ↦ inr (Error.eagain, x)
                | inr (modes, x, _) ↦ inl (modes, x)
              ],
          (n ∙ e, inr (omega (arith, v.in_ring, n, e))),
        )
  ]

  pub strict-Keeps : (inverse : ℕ → W) → Keeps (rw_isolation_strict inverse peak_iops) Counts
  unfolding rw_isolation_strict
  strict-Keeps inverse = record {
    joins = λ s n id i. (add_server s, refl, joins_lem s n i);
    modes = modes_lem;
    weights = λ s stats op load env h.
        let (w, e, _, _) = strict_weights-Weighs inverse stats op env.uninit_weights h in
        inl (w, e);
  }

  pub weak-Keeps : (inverse : ℕ → W) → Keeps (rw_isolation_weak inverse peak_iops) Counts
  unfolding rw_isolation_weak
  weak-Keeps inverse = record {
    joins = λ s n id i. (add_server s, refl, joins_lem s n i);
    modes = modes_lem;
    weights = λ s stats op load env h. weak_lem inverse stats op env.uninit_weights h;
  }
