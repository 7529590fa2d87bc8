-- ===== src/Isolation/Modes.antt =====
-- Which servers get which mode.
use native.Mathlib.Nat.{mod-lt, mod-eq_of_lt, mod-add-mod, add-mod_right, mod-eq-sub-mod, add-zero}
use sandook.Base.{
  ℕ, zero, suc, ◌+◌, ◌-◌, ◌%◌, ◌≡◌, ap, sym, ◌∙◌, ◌<◌, ◌≤◌, ◌≢◌, ◌⊎◌, inl, inr, not, ◌&&◌,
  if◌then◌else◌, ltb, List, length, arith, Bool-cases, lt→ltb, not-ltb→le,
}
use sandook.Status.{ok, err, Error}
use sandook.Types.{ServerId, ServerMode, ServerStats, ServerArray, put, u64_mod}
use sandook.Isolation.Allocation.{get_allocation_total}
use sandook.Isolation.{
  RwIsolation, ServerAllocation, SystemLoad, get_allocation, assign_modes, switch_modes,
  compute_modes, is_allocation_changed, is_time_to_mode_switch,
}

mod_wrap : (a n : ℕ) → a < n + n → ((a < n) × (a % n ≡ a)) ⊎ ((n ≤ a) × (a % n + n ≡ a))
mod_wrap a n h = elim (Bool-cases (ltb a n)) [
  | inl e ↦ let l : a < n = ground arith in inl (l, mod-eq_of_lt l)
  | inr e ↦
      let l : n ≤ a = ground arith in
      let r : (a - n) % n ≡ a - n = mod-eq_of_lt (omega arith) in
      inr (l, omega (arith, mod-eq-sub-mod l, r))
]

-- The next server of the ring, and the one before it.
ring_shift : (num sid j : ℕ) → (sid + suc j) % num ≡ ((sid + 1) % num + j) % num
ring_shift num sid j =
    let e : sid + suc j ≡ sid + 1 + j = omega arith in
    ap (λ n. n % num) e ∙ sym (mod-add-mod (sid + 1) num j)

ring_back : (num sid : ℕ) → sid < num → ((sid + 1) % num + (num - 1)) % num ≡ sid
ring_back num sid l =
    let e : sid + 1 + (num - 1) ≡ sid + num = omega arith in
    mod-add-mod (sid + 1) num (num - 1)
    ∙ ap (λ n. n % num) e
    ∙ add-mod_right sid num
    ∙ mod-eq_of_lt l

ring_ne : (num sid j : ℕ) → suc j < num → sid < num → ((sid + 1) % num + j) % num ≢ sid
ring_ne num sid j q l e =
    let f = ring_shift num sid j ∙ e in
    absurd (omega (arith, f, mod_wrap (sid + suc j) num (omega arith)))

-- The array after `k` steps of the assignment.
paint : ServerMode → ℕ → ServerArray ServerMode → ServerId → ℕ → ServerArray ServerMode
paint mode num modes sid zero = modes
paint mode num modes sid (suc k) = paint mode num (put modes (sid + 1) mode) ((sid + 1) % num) k

assign_modes_lem :
    (mode : ServerMode) (num k : ℕ) (modes : ServerArray ServerMode) (sid : ServerId)
    → num < 20
    → sid < num
    → k ≤ num
    → assign_modes mode num k (modes, sid) ≡ ok (paint mode num modes sid k, (sid + k) % num)
unfolding assign_modes paint
assign_modes_lem mode num zero modes sid b l h =
    ap (λ n. ok (modes, n)) (sym (mod-eq_of_lt l) ∙ ap (λ n. n % num) (sym (add-zero sid)))
assign_modes_lem mode num (suc k) modes sid b l h = rw (lt→ltb (sid + 1) 20 (omega arith)) (
    assign_modes_lem mode num k (put modes (sid + 1) mode) ((sid + 1) % num) b
      (mod-lt (sid + 1) (omega arith)) (omega arith)
    ∙ ap (λ n. ok (paint mode num (put modes (sid + 1) mode) ((sid + 1) % num) k, n))
        (sym (ring_shift num sid k)))

paint_at :
    (mode : ServerMode) (num k : ℕ) (modes : ServerArray ServerMode) (sid j : ℕ)
    → sid < num
    → k ≤ num
    → j < num
    → paint mode num modes sid k ((sid + j) % num + 1)
      ≡ (if ltb j k then mode else modes ((sid + j) % num + 1))
unfolding paint
paint_at mode num zero modes sid j l h q = ground arith
paint_at mode num (suc k) modes sid zero l h q =
    let here : (sid + 0) % num ≡ sid = ap (λ n. n % num) (add-zero sid) ∙ mod-eq_of_lt l in
    let ih =
      paint_at mode num k (put modes (sid + 1) mode) ((sid + 1) % num) (num - 1)
        (mod-lt (sid + 1) q) (omega arith) (omega arith) in
    let at_sid = rw (ring_back num sid l) at ih in rw here (ground (arith, at_sid))
paint_at mode num (suc k) modes sid (suc j) l h q =
    let ih =
      paint_at mode num k (put modes (sid + 1) mode) ((sid + 1) % num) j
        (mod-lt (sid + 1) (omega arith)) (omega arith) (omega arith) in
    rw (ring_shift num sid j) (ground (arith, ih, ring_ne num sid j q l))

-- The servers of a ring of `num` from `first` on: `n_w` for writes, and the others for reads.
abbrev pub IsWindow : ℕ → ℕ → ℕ → ServerArray ServerMode → Type 0
IsWindow num first n_w modes =
    (i : ℕ)
    → i < num
    → modes ((first + i) % num + 1) ≡ (if ltb i n_w then ServerMode.write else ServerMode.read)

window_lem :
    (num first n_w n_r : ℕ) (uninit : ServerArray ServerMode)
    → first < num
    → n_r + n_w ≡ num
    → IsWindow num first n_w (
        paint ServerMode.read num
          (paint ServerMode.write num uninit first n_w)
          ((first + n_w) % num)
          n_r)
window_lem num first n_w n_r uninit l e i b = elim (Bool-cases (ltb i n_w)) [
  | inl t ↦
      let pos : (first + i) % num ≡ ((first + n_w) % num + (n_r + i)) % num =
        sym (add-mod_right (first + i) num)
        ∙ ap (λ n. n % num) (omega arith)
        ∙ sym (mod-add-mod (first + n_w) num (n_r + i)) in
      let painted = paint_at ServerMode.write num n_w uninit first i l (omega arith) b in
      let kept =
        paint_at ServerMode.read num n_r (paint ServerMode.write num uninit first n_w)
          ((first + n_w) % num) (n_r + i) (mod-lt (first + n_w) (omega arith)) (omega arith)
          (ground arith) in
      let kept' = rw (← pos) at kept in rw t (ground (arith, kept', painted))
  | inr t ↦
      let pos : (first + i) % num ≡ ((first + n_w) % num + (i - n_w)) % num =
        ap (λ n. n % num) (omega (arith, not-ltb→le i n_w t))
        ∙ sym (mod-add-mod (first + n_w) num (i - n_w)) in
      let painted =
        paint_at ServerMode.read num n_r (paint ServerMode.write num uninit first n_w)
          ((first + n_w) % num) (i - n_w) (mod-lt (first + n_w) (omega arith)) (omega arith)
          (omega arith) in
      rw (pos, t) (ground (arith, painted))
]

module _ (peak_iops : ServerId → ServerMode → ℕ) where
  switch_modes_lem :
      (st : RwIsolation) (a : ServerAllocation) (now : ℕ) (uninit : ServerArray ServerMode)
      → st.num_servers < 20
      → st.last_write_server_idx < st.num_servers
      → a.n_r_servers + a.n_w_servers ≡ st.num_servers
      → (modes : ServerArray ServerMode) × ((switch_modes peak_iops st a now uninit).0 ≡ ok modes)
        × IsWindow st.num_servers st.last_write_server_idx a.n_w_servers modes
  unfolding switch_modes
  switch_modes_lem st a now uninit b l e = (
    paint ServerMode.read st.num_servers
        (paint ServerMode.write st.num_servers uninit st.last_write_server_idx a.n_w_servers)
        ((st.last_write_server_idx + a.n_w_servers) % st.num_servers) a.n_r_servers,
    rw (
      assign_modes_lem ServerMode.write st.num_servers a.n_w_servers uninit st.last_write_server_idx
          b l (omega arith),
      assign_modes_lem ServerMode.read st.num_servers a.n_r_servers
          (paint ServerMode.write st.num_servers uninit st.last_write_server_idx a.n_w_servers)
          ((st.last_write_server_idx + a.n_w_servers) % st.num_servers) b (mod-lt _ (omega arith))
          (omega arith),
    ),
    window_lem st.num_servers st.last_write_server_idx a.n_w_servers a.n_r_servers uninit l e,
  )

  -- With more than two and fewer than twenty servers, all of them in the statistics, a first index
  -- in the ring and a total load of 64 bits, the scheduler either leaves the modes alone, with
  -- `EAGAIN`, or gives every server a mode of its own: the write servers are a window of the ring
  -- of servers that starts at the last index and has the size that the allocation asks for, and
  -- all others are read servers.
  pub compute_modes-IsWindow :
      {W : Type 0} (st : RwIsolation) (stats : List (ServerStats W)) (load : SystemLoad)
      (now later : ℕ) (uninit : ServerArray ServerMode)
      → st.num_servers ≡ length stats
      → 2 < length stats
      → length stats < 20
      → st.last_write_server_idx < st.num_servers
      → load.read_ops + load.write_ops < u64_mod
      → ((compute_modes peak_iops st stats load now later uninit).0 ≡ err Error.eagain)
        ⊎ ((modes : ServerArray ServerMode) × ((compute_modes peak_iops st stats load now later
                uninit).0
              ≡ ok modes)
            × IsWindow st.num_servers st.last_write_server_idx
                (get_allocation peak_iops st stats load).n_w_servers
                modes)
  unfolding compute_modes
  compute_modes-IsWindow st stats load now later uninit e g b l t =
      elim (get_allocation_total peak_iops st stats load t) [
        | inr (idle, _, _) ↦ inl (ground (arith, idle))
        | inl (busy, sum) ↦
            elim (Bool-cases (
              not
                (is_allocation_changed st.last_allocation (get_allocation peak_iops st stats load))
              && not (is_time_to_mode_switch st now))) [
                | inl stay ↦ inl (ground (arith, busy, stay))
                | inr switch ↦
                    let (modes, p, w) =
                      switch_modes_lem (record st { prev_system_load = load })
                        (get_allocation peak_iops st stats load) later uninit (omega arith) l
                        (omega (arith, sum)) in
                    inr (modes, ground (arith, busy, sum, switch, p), w)
              ]
      ]
