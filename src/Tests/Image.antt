-- ===== src/Tests/Image.antt =====
-- A disk of 2 GiB that is to have 50.
use qudata_agent.Common.{refl, false, none, [], arith, pos, negsuc, ◌≡◌}
use qudata_agent.Qemu.Image.{ImageEnv, virtual_size, target_bytes, succeeds, resize_disk}
use qudata_agent.Qemu.Image.Resize.{Grows, resize_disk-Grows}
use qudata_agent.Common.Text.{codes}
use qudata_agent.Domain.{ok}

abbrev images : ImageEnv
images = record {
  mkdir_all = none;
  stat_base = none;
  qemu_img = λ args. succeeds [];
  parse_info = λ out. ok (pos 2147483648);
  remove = none;
  is_not_exist = λ e. false;
}

two_gib : virtual_size images (codes "/d") ≡ ok (pos 2147483648)
unfolding virtual_size
two_gib = refl

resize_disk-Grows_example :
    Grows 50 (codes "/d") 2147483648 (resize_disk images (codes "/d") (pos 50))
resize_disk-Grows_example =
    resize_disk-Grows images (codes "/d") 50 2147483648 (omega arith) two_gib

-- The product of the source wraps, and a disk of 2^33 GiB is not made.
wraps : target_bytes (pos 8589934592) ≡ negsuc 9223372036854775807
unfolding target_bytes
wraps = refl
