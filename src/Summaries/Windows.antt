-- ===== src/Summaries/Windows.antt =====
-- The test of equality of windows.
use panoptic.Common.{◌≡◌, refl, true, arith}
use panoptic.Summaries.{SummaryWindow, window_eq, level_eq, Level, camera, hour, day, site}

level_eq→≡ : (a b : Level) → level_eq a b ≡ true → a ≡ b
level_eq→≡ camera camera h = refl
level_eq→≡ hour hour h = refl
level_eq→≡ day day h = refl
level_eq→≡ site site h = refl
level_eq→≡ camera hour h = cc
level_eq→≡ camera day h = cc
level_eq→≡ camera site h = cc
level_eq→≡ hour camera h = cc
level_eq→≡ hour day h = cc
level_eq→≡ hour site h = cc
level_eq→≡ day camera h = cc
level_eq→≡ day hour h = cc
level_eq→≡ day site h = cc
level_eq→≡ site camera h = cc
level_eq→≡ site hour h = cc
level_eq→≡ site day h = cc

level_eq_refl : (a : Level) → level_eq a a ≡ true
level_eq_refl camera = refl
level_eq_refl hour = refl
level_eq_refl day = refl
level_eq_refl site = refl

pub window_eq→≡ : (v w : SummaryWindow) → window_eq v w ≡ true → v ≡ w
unfolding window_eq
window_eq→≡ v w h = ground (arith, level_eq→≡ v.level w.level)

pub window_eq_refl : (v : SummaryWindow) → window_eq v v ≡ true
unfolding window_eq
window_eq_refl v = ground (arith, level_eq_refl v.level)
