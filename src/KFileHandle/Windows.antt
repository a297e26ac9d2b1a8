-- ===== src/KFileHandle/Windows.antt =====
-- kfile_handle.c, its Windows branches: open files and mappings of them. `none` is NULL.
pub mod Used
pub mod Size
pub mod Viewed
use k_h.Base.{
  ℕ, ◌-◌, ◌^◌, Bool, true, false, not, ◌||◌, Option, none, some, List, bit_or, ◌==◌, if◌then◌else◌,
}
use k_h.World.{Ptr, null, KObjectRef, Cmd, pure, ◌>>=◌, ◌>>◌, Env, k_assert}
use k_h.KString.{KString, c_string}
use k_h.KFilePath.{KFilePath, new_string_representation_with_separator}
use k_h.KMapping.{KMapping}
use k_h.KFileHandle.{
  KFilePermission, read_only, write_only, read_write, KFileHandle, alloc, has_bit, or_if,
  wrap_mapping,
}

-- The calls of the system, and its constants. `CreateFile` answers none for `INVALID_HANDLE_VALUE`,
-- the calls for mappings for NULL; a `BOOL` is a number, 0 for a failure.
pub record WindowsFiles : Type 0 where
  pub generic_read : ℕ
  pub generic_write : ℕ
  pub page_readonly : ℕ
  pub page_readwrite : ℕ
  pub page_execute_readwrite : ℕ
  pub file_map_read : ℕ
  pub file_map_write : ℕ
  pub file_map_all_access : ℕ
  pub create_file : (name : List ℕ) (desired_access : ℕ) → Cmd (Option ℕ)
  pub close_handle : (handle : ℕ) → Cmd ℕ
  pub get_file_size : (handle : ℕ) → Cmd ℕ
  pub create_file_mapping : (handle prot : ℕ) → Cmd (Option ℕ)
  pub map_view_of_file : (map_handle access size : ℕ) → Cmd (Option Ptr)
  pub unmap_view_of_file : (mapping : Ptr) → Cmd ℕ

abbrev pub desired_access : WindowsFiles → KFilePermission → ℕ
desired_access system read_only = bit_or 0 system.generic_read
desired_access system write_only = bit_or 0 system.generic_write
desired_access system read_write = bit_or (bit_or 0 system.generic_read) system.generic_write

abbrev pub open_string : Env → WindowsFiles → KFilePermission → KString → Cmd (Option KFileHandle)
open_string env system permission string = do
  name ← c_string string.buffer
  raw_handle ← system.create_file name (desired_access system permission)
  elim raw_handle [ none ↦ pure none | some raw_handle ↦ alloc env raw_handle ]

-- `new_sep` makes the string of the separator, `\`.
unfoldable pub new :
    Env
    → WindowsFiles
    → (new_sep : Cmd (Option KString)) → Option KFilePath
    → KFilePermission
    → Cmd (Option KFileHandle)
new env system new_sep none permission = pure none
new env system new_sep (some path) permission = do
  string ← new_string_representation_with_separator env new_sep (some path)
  elim string [ none ↦ pure none | some string ↦ open_string env system permission string ]

unfoldable pub close : WindowsFiles → Option KFileHandle → Cmd (Bool × Option KFileHandle)
close system none = pure (false, none)
close system (some handle) = if handle.closed then pure (true, some handle) else do
  result ← system.close_handle handle.handle
  pure (not (result == 0), some (record handle { closed = not (result == 0) }))

-- The deinitialiser.
unfoldable pub deinit : WindowsFiles → KFileHandle → Cmd (Unit {0})
unfolding close
deinit system handle = do (is_closed, _) ← close system (some handle); k_assert is_closed

abbrev pub invalid_file_size : ℕ
invalid_file_size = 2 ^ 32 - 1

-- `has_out` says whether `size_out` is not NULL; the result is what is written there, if anything.
unfoldable pub get_size : WindowsFiles → Option KFileHandle → (has_out : Bool) → Cmd (Option ℕ)
get_size system none has_out = pure none
get_size system (some handle) has_out = if handle.closed || not has_out then pure none else do
  file_size ← system.get_file_size handle.handle
  if file_size == invalid_file_size then pure none else pure (some file_size)

-- The bits are tested from `kMapProtectionNone` on, which asks for nothing.
abbrev pub prot_of : WindowsFiles → ℕ → ℕ
prot_of system protections =
    let prot = or_if (has_bit protections 1) 0 system.page_readonly in
    let prot = or_if (has_bit protections 2) prot system.page_readwrite in
    or_if (has_bit protections 3) prot system.page_execute_readwrite

abbrev pub access_of : WindowsFiles → ℕ → ℕ
access_of system protections =
    let access = or_if (has_bit protections 1) 0 system.file_map_read in
    let access = or_if (has_bit protections 2) access system.file_map_write in
    or_if (has_bit protections 3) access system.file_map_all_access

pub record FileView : Type 0 where
  pub handle : ℕ
  pub mapping : Ptr
  pub valid : Bool

unfoldable pub file_view_deinit : WindowsFiles → FileView → Cmd (Unit {0})
file_view_deinit system view = if not view.valid then pure tt else do
  unmapped ← system.unmap_view_of_file view.mapping
  k_assert (unmapped == 1)
  closed ← system.close_handle view.handle
  k_assert (closed == 1)

abbrev no_view : FileView
no_view = record { handle = 0; mapping = null; valid = false }

-- The steps after `CreateFileMapping`; those that make the objects are those of the other systems.
unfoldable pub map_view :
    Env
    → WindowsFiles
    → (clasz : Ptr) (map_handle access size : ℕ) → Cmd (Option KMapping × KObjectRef × FileView)
map_view env system clasz map_handle access size = do
  mapping ← system.map_view_of_file map_handle access size
  elim mapping [
    | none ↦ do
      closed ← system.close_handle map_handle
      k_assert (closed == 1)
      pure (none, null, no_view)
    | some mapping ↦ do
      (result, file_mapping, _) ← wrap_mapping env clasz mapping size
      pure (result, file_mapping, record { handle = map_handle; mapping = mapping; valid = true })
  ]

unfoldable pub new_mapping :
    Env
    → WindowsFiles
    → (clasz : Ptr) → Option KFileHandle
    → (size protections : ℕ) → Cmd (Option KMapping × KObjectRef × FileView)
unfolding map_view
new_mapping env system clasz none size protections = pure (none, null, no_view)
new_mapping env system clasz (some handle) size protections =
    if handle.closed then pure (none, null, no_view) else do
      map_handle ← system.create_file_mapping handle.handle (prot_of system protections)
      elim map_handle [
        | none ↦ pure (none, null, no_view)
        | some map_handle ↦ map_view env system clasz map_handle (access_of system protections) size
      ]
