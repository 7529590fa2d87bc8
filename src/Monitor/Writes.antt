-- ===== src/Monitor/Writes.antt =====
-- When a server does not take writes, and when it is congested.
use sandook.Base.{ℕ, ◌≡◌, refl, ap, Bool, true, false}
use sandook.Types.{ServerMode, CongestionState}
use sandook.Monitor.{
  Ratios, DiskMonitor, is_congested, allows_writes, is_allowing_writes, is_mode_switch_grace_period,
}

allows_writes_lem :
    (s : ServerMode) (g : Bool) → allows_writes s g ≡ false → (s ≡ ServerMode.read) × (g ≡ false)
unfolding allows_writes
allows_writes_lem ServerMode.read g e = (refl, e)
allows_writes_lem ServerMode.write g e = cc
allows_writes_lem ServerMode.mix g e = cc

pub not-is_allowing_writes :
    (r : Ratios) (m : DiskMonitor r) (now : ℕ)
    → is_allowing_writes r m now ≡ false
    → (m.mode ≡ ServerMode.read) × (is_mode_switch_grace_period r m now ≡ false)
unfolding is_allowing_writes
not-is_allowing_writes r m now e = allows_writes_lem m.mode (is_mode_switch_grace_period r m now) e

pub is_allowing_writes-refuses :
    (r : Ratios) (m : DiskMonitor r) (now : ℕ)
    → m.mode ≡ ServerMode.read
    → is_mode_switch_grace_period r m now ≡ false
    → is_allowing_writes r m now ≡ false
unfolding is_allowing_writes allows_writes
is_allowing_writes-refuses r m now e g = rw g (ap (λ s. allows_writes s false) e)

-- Whether a congestion state is the congested one.
abbrev pub congested : CongestionState → Bool
congested CongestionState.congested = true
congested CongestionState.congested_unstable = false
congested CongestionState.congested_stable = false
congested CongestionState.uncongested = false
congested CongestionState.invalid = false

pub is_congested_lem :
    (r : Ratios) (m : DiskMonitor r) → is_congested r m ≡ congested m.congestion_state
unfolding is_congested
is_congested_lem r m = go m.congestion_state
  where
    go :
        (s : CongestionState)
        → (elim s [ CongestionState.congested ↦ true | _ ↦ false ]) ≡ congested s
    go CongestionState.congested = refl
    go CongestionState.congested_unstable = refl
    go CongestionState.congested_stable = refl
    go CongestionState.uncongested = refl
    go CongestionState.invalid = refl
