-- ===== src/DiskModel.antt =====
-- disk_model/disk_model.h: DiskModel, the measured latencies of a disk at some loads, from which the latency at
-- a load and the peak load are estimated. What doubles compute is a parameter; the files that the models
-- are read from are not modelled.
pub mod Segments
pub mod Monotone
mod Tests
use sandook.Base.{
  ℕ, zero, suc, ◌+◌, ◌-◌, ◌%◌, Bool, true, false, not, if◌then◌else◌, ltb, leb, ◌==◌, min, List, [],
  ◌∷◌, length,
}
use sandook.Status.{Status, ok, err, fault, ◌>>=◌, ◌>>◌, check}
use sandook.Types.{ServerMode, OpType, u64_mod}

-- `kSaturationLatencyUs` and `kSaturationLatencyPenaltyUs`.
abbrev pub k_saturation_latency_us : ℕ
k_saturation_latency_us = 1000

abbrev pub k_saturation_latency_penalty_us : ℕ
k_saturation_latency_penalty_us = 1050

-- `scale r a b` is the integer part of `r * (a / b)`, and `dampen` that of a product by
-- `kPeakLoadDampeningFactor`, as doubles compute them.
pub record Scales : Type 1 where
  pub scale : ℕ → ℕ → ℕ → ℕ
  pub dampen : ℕ → ℕ
  pub Num : Type 0
  pub lt : Num → Num → Bool
  pub le : Num → Num → Bool
  pub zero_ratio : Num
  pub one_ratio : Num

pub record LoadLatency : Type 0 where
  pub load : List ℕ
  pub latency : List ℕ

pub is_empty : List ℕ → Bool
is_empty [] = true
is_empty (x ∷ xs) = false

-- `std::vector::at`.
pub value_at : List ℕ → ℕ → Status ℕ
value_at [] i = fault
value_at (x ∷ xs) zero = ok x
value_at (x ∷ xs) (suc i) = value_at xs i

-- The loop that looks for the first load that is not below the current one.
pub find_load : ℕ → List ℕ → ℕ
find_load cur [] = 0
find_load cur (x ∷ xs) = let rest = find_load cur xs in if leb cur x then 0 else suc rest

-- The three assertions.
pub check_model : LoadLatency → Status (Unit {0})
unfolding is_empty
check_model m = do
  check (not (is_empty m.load))
  check (not (is_empty m.latency))
  check (length m.load == length m.latency)

-- `a - b` of 64-bit words.
abbrev pub sub64 : ℕ → ℕ → ℕ
sub64 a b = (a + u64_mod - b) % u64_mod

module _ (k : Scales) where
  -- The interpolation between two points.
  pub interpolate : ℕ → ℕ → ℕ → ℕ → ℕ → ℕ
  interpolate cur start_load end_load start_latency end_latency =
      (start_latency
        + k.scale (sub64 end_latency start_latency) (sub64 cur start_load)
            (sub64 end_load start_load))
      % u64_mod

  -- The branch that interpolates, at the index after `i`.
  pub interpolate_at : ℕ → LoadLatency → ℕ → Status ℕ
  unfolding value_at interpolate
  interpolate_at cur m i = do
    start_load ← value_at m.load i
    end_load ← value_at m.load (suc i)
    start_latency ← value_at m.latency i
    end_latency ← value_at m.latency (suc i)
    ok (interpolate cur start_load end_load start_latency end_latency)

  pub latency_at : ℕ → LoadLatency → ℕ → Status ℕ
  unfolding value_at interpolate_at
  latency_at cur m zero = value_at m.latency 0
  latency_at cur m (suc i) = interpolate_at cur m i

  -- `GetLatency` of one model.
  pub get_latency : ℕ → LoadLatency → Status ℕ
  unfolding check_model find_load latency_at
  get_latency cur m = do
    check_model m
    let idx = find_load cur m.load
    cur_latency ←
        if idx == length m.load then ok k_saturation_latency_penalty_us else latency_at cur m idx
    ok (min cur_latency k_saturation_latency_penalty_us)

  -- The loop of `GetPeakIOPS` from index `i` on, where `before` is the load before it.
  pub peak_from : List ℕ → List ℕ → ℕ → ℕ → Status ℕ
  peak_from loads [] before last = if is_empty loads then ok last else fault
  peak_from [] (v ∷ vs) before last = ok last
  peak_from (l ∷ ls) (v ∷ vs) before last =
      let rest = peak_from ls vs l last in if leb k_saturation_latency_us v then ok before else rest

  -- `back()`.
  pub last_of : List ℕ → ℕ → ℕ
  last_of [] d = d
  last_of (x ∷ xs) d = last_of xs x

  -- `GetPeakIOPS` of one model.
  pub get_points_peak_iops : LoadLatency → Status ℕ
  unfolding check_model peak_from last_of
  get_points_peak_iops m = do
    check_model m
    ret ← peak_from m.load m.latency 0 (last_of m.load 0)
    ok (k.dampen ret)

  pub record MixModel : Type 0 where
    pub write_ratio_bucket : k.Num
    pub points : LoadLatency

  pub record DiskModel : Type 0 where
    pub read : LoadLatency
    pub write : LoadLatency
    pub mix_models : List MixModel

  -- `SelectMixModel` after the ratio is clamped, with the model before the ones that are left.
  pub select_from : k.Num → MixModel → List MixModel → MixModel
  select_from ratio last [] = last
  select_from ratio last (m ∷ ms) =
      let rest = select_from ratio m ms in if k.le ratio m.write_ratio_bucket then m else rest

  pub clamp : k.Num → k.Num
  clamp ratio =
      let r = if k.lt ratio k.zero_ratio then k.zero_ratio else ratio in
      if k.lt k.one_ratio r then k.one_ratio else r

  pub select_mix_model : List MixModel → k.Num → Status MixModel
  unfolding select_from clamp
  select_mix_model [] ratio = fault
  select_mix_model (m ∷ ms) ratio = ok (select_from (clamp ratio) m (m ∷ ms))

  get_latency_mix : DiskModel → ℕ → k.Num → Status ℕ
  unfolding select_mix_model get_latency
  get_latency_mix d cur ratio = do
    mix ← select_mix_model d.mix_models ratio
    get_latency cur mix.points

  -- `GetLatency`.
  pub get_latency_of : DiskModel → ℕ → OpType → ServerMode → k.Num → Status ℕ
  unfolding get_latency_mix get_latency
  get_latency_of d cur OpType.read ServerMode.read ratio = get_latency cur d.read
  get_latency_of d cur OpType.write ServerMode.write ratio = get_latency cur d.write
  get_latency_of d cur op mode ratio = get_latency_mix d cur ratio

  -- `GetPeakIOPS`.
  pub get_peak_iops_of : DiskModel → ServerMode → k.Num → Status ℕ
  unfolding get_points_peak_iops select_mix_model
  get_peak_iops_of d ServerMode.read ratio = get_points_peak_iops d.read
  get_peak_iops_of d ServerMode.write ratio = get_points_peak_iops d.write
  get_peak_iops_of d ServerMode.mix ratio = do
    mix ← select_mix_model d.mix_models ratio
    get_points_peak_iops mix.points
