-- ===== src/DriverConfig/Tests.antt =====
-- Runs of the functions of src/driver_config.h, and the theorems about them at concrete inputs.
use raspa.Prelude.{◌≡◌, refl, ◌↔◌, ◌⊎◌, ◌∷◌, [], true, arith}
use raspa.Prelude.Int.{pos, negsuc, ltb_ℤ, ◌≤ℤ◌}
use raspa.DriverConfig.Params.{
  Sysfs, audio_ver_maj, audio_ver_min, audio_buffer_size, read_driver_param, check_driver_version,
  atoi,
}
use raspa.DriverConfig.Atoi.{plain, read_driver_param-decimal}
use raspa.DriverConfig.Version.{check_driver_version_iff, failed_read_accepted}

-- Every file holds "64\n".
abbrev sixty_four : Sysfs
sixty_four = record {
  open_fd = λ p. pos 3;
  read_count = λ p. pos 3;
  errno = λ p. pos 0;
  contents = λ p. b'6' ∷ b'4' ∷ b'\n' ∷ [];
}

-- Every read fails with EPERM.
abbrev not_permitted : Sysfs
not_permitted = record sixty_four { read_count = λ p. negsuc 0; errno = λ p. pos 1 }

atoi_runs :
    (atoi (b' ' ∷ b'-' ∷ b'1' ∷ b'2' ∷ b'x' ∷ []) ≡ negsuc 11)
    × (atoi (b'+' ∷ b'7' ∷ []) ≡ pos 7)
    × (atoi (b'x' ∷ []) ≡ pos 0)
unfolding atoi
atoi_runs = (refl, refl, refl)

read_driver_param-decimal_example : read_driver_param sixty_four audio_buffer_size ≡ pos 64
read_driver_param-decimal_example =
    read_driver_param-decimal sixty_four audio_buffer_size plain b'6' (b'4' ∷ []) refl refl
      (refl, (refl, tt)) (omega arith) (omega arith) refl

check_driver_version_iff_example :
    let (accepted, code) = check_driver_version sixty_four in
    let major = read_driver_param sixty_four audio_ver_maj in
    let minor = read_driver_param sixty_four audio_ver_min in
    ((accepted ≡ true) ↔ ((major ≡ pos 1) × (pos 1 ≤ℤ minor)))
    × ((ltb_ℤ code (pos 0) ≡ true) ↔ ((ltb_ℤ major (pos 0) ≡ true) ⊎ (ltb_ℤ minor (pos 0) ≡ true)))
check_driver_version_iff_example = check_driver_version_iff sixty_four

failed_read_accepted_example : check_driver_version not_permitted ≡ (true, pos 0)
failed_read_accepted_example = failed_read_accepted not_permitted (λ p. (refl, refl, refl))
