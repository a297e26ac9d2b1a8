-- ===== src/Tests/Windows.antt =====
-- The Windows branches over a small system.
use k_h.Base.{ℕ, ◌*◌, ◌-◌, ◌%◌, ◌^◌, ◌<◌, ◌≡◌, ◌↔◌, refl, true, false, some}
use k_h.World.{done}
use k_h.World.Returns.{Returns, returns}
use k_h.KObject.Made.{IsPlain}
use k_h.KFileHandle.{KFileHandle}
use k_h.KFileHandle.Windows.{WindowsFiles, get_size, new_mapping}
use k_h.KFileHandle.Windows.Size.{get_size-small}
use k_h.KFileHandle.Windows.Viewed.{IsViewed, new_mapping-IsViewed}
use k_h.Tests.{generous, generous-IsLeaf, start}

-- The file behind a handle has a GiB for each number.
abbrev gigabytes : ℕ → ℕ
gigabytes handle = handle * 2 ^ 30

abbrev volume : WindowsFiles
volume = record {
  generic_read = 2 ^ 31;
  generic_write = 2 ^ 30;
  page_readonly = 2;
  page_readwrite = 4;
  page_execute_readwrite = 64;
  file_map_read = 4;
  file_map_write = 2;
  file_map_all_access = 983071;
  create_file = λ name access w. done (some 3) w;
  close_handle = λ handle w. done 1 w;
  get_file_size = λ handle w. done (gigabytes handle % 2 ^ 32) w;
  create_file_mapping = λ handle prot w. done (some 8) w;
  map_view_of_file = λ map_handle access size w. done (some 4096) w;
  unmap_view_of_file = λ mapping w. done 1 w;
}

abbrev file : KFileHandle
file = record { handle = 5; closed = false }

five_gigabytes :
    (get_size volume (some file) true start ≡ done (some (gigabytes 5)) start)
    ↔ (gigabytes 5 < 2 ^ 32 - 1)
five_gigabytes = get_size-small volume gigabytes (λ handle w. refl) file start refl

generous-IsPlain : IsPlain generous 9
generous-IsPlain obj w = returns (refl, refl)

viewed :
    Returns
      (IsViewed generous 9 8 4096 100 start)
      (new_mapping generous volume 9 (some file) 100 2 start)
viewed =
    new_mapping-IsViewed generous generous-IsLeaf volume 9 file 100 2 8 start refl refl 4096
      generous-IsPlain refl (λ h. absurd cc) refl
