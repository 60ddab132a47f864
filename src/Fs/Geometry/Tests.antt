-- ===== src/Fs/Geometry/Tests.antt =====
-- Runs of `DiskGeometry` for the size of a floppy disk.
use amitools.Prelude.{◌≡◌, refl, ◌≤◌, true, none, some, arith}
use amitools.Fs.Geometry.{
  DiskGeometry, Options, answer, answer_false, value_error, setup, detect, guess_for_size,
  guess_for_size2, run_algo, first, get_num_bytes,
}
use amitools.Fs.Geometry.Best.{guess_for_size-best, guess_for_size2-low}
use amitools.Fs.Geometry.Detect.{detect-setup}

abbrev empty_disk : DiskGeometry
empty_disk = record { cyls = 0; heads = 0; secs = 0; block_bytes = 512 }

abbrev floppy : DiskGeometry
floppy = record { cyls = 55; heads = 1; secs = 32; block_bytes = 512 }

abbrev size_only : Options
size_only = record {
  bs = none;
  chs = none;
  c = none;
  cylinders = none;
  h = none;
  heads = none;
  s = none;
  sectors = none;
  algo = none;
  image_size = none;
  size = some (some 901120);
}

setup-run : setup (some size_only) none none none empty_disk ≡ answer (some 901120) floppy
unfolding setup
setup-run = refl

detect-setup_example :
    (g : DiskGeometry) × (detect 901120 (some size_only) empty_disk ≡ answer (some 901120) g)
    × (get_num_bytes g ≡ 901120)
detect-setup_example =
    detect-setup size_only 901120 empty_disk floppy empty_disk (omega arith) refl setup-run

guess-run : guess_for_size 901120 true none none none empty_disk ≡ (some 901120, floppy)
unfolding guess_for_size
guess-run = refl

first-run : (run_algo first 901120 true none none empty_disk).0 ≡ some 516096
unfolding run_algo
first-run = refl

guess_for_size-best_example : (516096 ≤ 901120) × (901120 ≤ 901120)
guess_for_size-best_example =
    guess_for_size-best 901120 901120 516096 first none none empty_disk floppy guess-run first-run

guess_for_size2-low-run : (guess_for_size2 4000000000000 true none none empty_disk).1.cyls ≤ 65535
guess_for_size2-low-run = guess_for_size2-low 4000000000000 none none empty_disk

setup-none : setup none none none none empty_disk ≡ answer_false
unfolding setup
setup-none = refl

detect-block_size :
    detect 901120 (some (record size_only { bs = some 1000 })) empty_disk ≡ value_error
unfolding detect
detect-block_size = refl
