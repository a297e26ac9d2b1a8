-- ===== src/KFileHandle.antt =====
-- kfile_handle.c, its POSIX branches: open files and mappings of them. `none` is NULL.
pub mod Closed
pub mod Mapped
pub mod Windows
pub mod Uses
use k_h.Base.{
  ℕ, zero, suc, ◌+◌, ◌/◌, ◌%◌, ◌^◌, Bool, true, false, not, ◌||◌, Option, none, some, List, bit_or,
  ◌==◌, if◌then◌else◌,
}
use k_h.World.{
  Ptr, null, KObjectRef, done, fault, out_of_fuel, Cmd, pure, ◌>>=◌, ◌>>◌, Env, allocate, k_assert,
}
use k_h.KObject
use k_h.KString.{KString, c_string}
use k_h.KFilePath.{KFilePath, new_string_representation_with_separator}
use k_h.KMapping
use k_h.KMapping.{KMapping}

-- What a system call answers: -1 with `EINTR`, -1 with another error, or a result.
pub data Answer : Type 0 where
  interrupted : Answer
  failed : Answer
  answered : ℕ → Answer

-- The calls of the system, and its constants. A call that is repeated knows the attempt's number.
pub record Files : Type 0 where
  pub o_cloexec : ℕ
  pub o_rdonly : ℕ
  pub o_wronly : ℕ
  pub o_rdwr : ℕ
  pub prot_none : ℕ
  pub prot_read : ℕ
  pub prot_write : ℕ
  pub prot_exec : ℕ
  pub open_file : (name : List ℕ) (flags attempt : ℕ) → Cmd Answer
  pub close_file : (handle attempt : ℕ) → Cmd Answer
  pub fstat : (handle : ℕ) → Cmd (Option ℕ)
  pub mmap : (size prot handle : ℕ) → Cmd (Option Ptr)
  pub munmap : (mapping : Ptr) (size : ℕ) → Cmd (Unit {0})

-- `K_HANDLE_EINTR` of kplatform.h, from a given attempt on; `none` is -1.
unfoldable pub handle_eintr : (ℕ → Cmd Answer) → (fuel attempt : ℕ) → Cmd (Option ℕ)
handle_eintr call zero attempt = λ _. out_of_fuel
handle_eintr call (suc fuel) attempt = do
  answer ← call attempt
  elim answer [
    | interrupted ↦ handle_eintr call fuel (suc attempt)
    | failed ↦ pure none
    | answered result ↦ pure (some result)
  ]

pub data KFilePermission : Type 0 where
  read_only : KFilePermission
  write_only : KFilePermission
  read_write : KFilePermission

pub record KFileHandle : Type 0 where
  pub handle : ℕ
  pub closed : Bool

abbrev pub flags : Files → KFilePermission → ℕ
flags system read_only = bit_or system.o_cloexec system.o_rdonly
flags system write_only = bit_or system.o_cloexec system.o_wronly
flags system read_write = bit_or system.o_cloexec system.o_rdwr

-- `KFileHandleAlloc` and the writes to the object, through NULL if there is no memory.
abbrev pub alloc : Env → ℕ → Cmd (Option KFileHandle)
alloc env raw_handle = do
  handle ← allocate env
  if handle == null
      then (λ _. fault)
      else pure (some (record { handle = raw_handle; closed = false }))

abbrev pub open_string :
    Env → Files → (fuel : ℕ) → KFilePermission → KString → Cmd (Option KFileHandle)
open_string env system fuel permission string = do
  name ← c_string string.buffer
  raw_handle ← handle_eintr (system.open_file name (flags system permission)) fuel 0
  elim raw_handle [ none ↦ pure none | some raw_handle ↦ alloc env raw_handle ]

-- `new_sep` makes the string of the separator, `/`.
unfoldable pub new :
    Env
    → Files
    → (new_sep : Cmd (Option KString)) → (fuel : ℕ) → Option KFilePath
    → KFilePermission
    → Cmd (Option KFileHandle)
new env system new_sep fuel none permission = pure none
new env system new_sep fuel (some path) permission = do
  string ← new_string_representation_with_separator env new_sep (some path)
  elim string [ none ↦ pure none | some string ↦ open_string env system fuel permission string ]

-- `close` answers 0 on success.
abbrev pub is_zero : Option ℕ → Bool
is_zero none = false
is_zero (some result) = result == 0

unfoldable pub close : Files → (fuel : ℕ) → Option KFileHandle → Cmd (Bool × Option KFileHandle)
close system fuel none = pure (false, none)
close system fuel (some handle) = if handle.closed then pure (true, some handle) else do
  result ← handle_eintr (system.close_file handle.handle) fuel 0
  pure (is_zero result, some (record handle { closed = is_zero result }))

-- The deinitialiser.
unfoldable pub deinit : Files → (fuel : ℕ) → KFileHandle → Cmd (Unit {0})
unfolding close
deinit system fuel handle = do (is_closed, _) ← close system fuel (some handle); k_assert is_closed

-- `has_out` says whether `size_out` is not NULL; the result is what is written there, if anything.
unfoldable pub get_size : Files → Option KFileHandle → (has_out : Bool) → Cmd (Option ℕ)
get_size system none has_out = pure none
get_size system (some handle) has_out =
    if handle.closed || not has_out then pure none else system.fstat handle.handle

-- Whether bit `k` of `protections` is set.
abbrev pub has_bit : ℕ → ℕ → Bool
has_bit protections k = protections / 2 ^ k % 2 == 1

abbrev pub or_if : Bool → ℕ → ℕ → ℕ
or_if true prot flag = bit_or prot flag
or_if false prot flag = prot

abbrev pub prot_of : Files → ℕ → ℕ
prot_of system protections =
    let prot = or_if (has_bit protections 0) 0 system.prot_none in
    let prot = or_if (has_bit protections 1) prot system.prot_read in
    let prot = or_if (has_bit protections 2) prot system.prot_write in
    or_if (has_bit protections 3) prot system.prot_exec

pub record FileMapping : Type 0 where
  pub mapping : Ptr
  pub size : ℕ

unfoldable pub file_mapping_deinit : Files → FileMapping → Cmd (Unit {0})
file_mapping_deinit system file_mapping = system.munmap file_mapping.mapping file_mapping.size

-- The steps after `mmap`: the mapping's object, of class `clasz`, is kept by the result alone.
unfoldable pub wrap_mapping :
    Env
    → (clasz : Ptr) (mapping : Ptr) (size : ℕ) → Cmd (Option KMapping × KObjectRef × FileMapping)
wrap_mapping env clasz mapping size = do
  file_mapping ← KObject.new env clasz
  k_assert (not (file_mapping == null))
  result ← KMapping.new env mapping size file_mapping
  KObject.release env file_mapping
  pure (result, file_mapping, record { mapping = mapping; size = size })

unfoldable pub new_mapping :
    Env
    → Files
    → (clasz : Ptr) → Option KFileHandle
    → (size protections : ℕ) → Cmd (Option KMapping × KObjectRef × FileMapping)
unfolding wrap_mapping
new_mapping env system clasz none size protections =
    pure (none, null, record { mapping = null; size = 0 })
new_mapping env system clasz (some handle) size protections =
    if handle.closed then pure (none, null, record { mapping = null; size = 0 }) else do
      mapping ← system.mmap size (prot_of system protections) handle.handle
      elim mapping [
        | none ↦ pure (none, null, record { mapping = null; size = 0 })
        | some mapping ↦ wrap_mapping env clasz mapping size
      ]
