-- ===== src/Tests/Files.antt =====
-- File handles and threads over a small system.
use k_h.Base.{ℕ, zero, suc, ◌+◌, ◌≡◌, refl, true, false, some, List, [], ◌∷◌}
use k_h.World.{fault, pure, done, Cmd}
use k_h.World.Returns.{Returns, returns}
use k_h.KString
use k_h.KFilePath.{new_string_representation_with_separator, append_all}
use k_h.KFileHandle
use k_h.KFileHandle.{KFilePermission, Answer, Files, KFileHandle, handle_eintr, close, new_mapping}
use k_h.KFileHandle.Uses.{Use, refused, perform}
use k_h.KFileHandle.Closed.{posix, close-refused}
use k_h.KFileHandle.Mapped.{IsWrapped, new_mapping-IsWrapped}
use k_h.KThread.{Threads, Nap, new}
use k_h.KThread.Life.{Started, IsQuiet, new-Started}
use k_h.KObject.Made.{IsPlain}
use k_h.Tests.{generous, generous-IsLeaf, start}

-- `close` succeeds when it has been interrupted twice.
abbrev closing_third : ℕ → Cmd Answer
closing_third zero w = done Answer.interrupted w
closing_third (suc zero) w = done Answer.interrupted w
closing_third (suc (suc attempt)) w = done (Answer.answered 0) w

abbrev disk : Files
disk = record {
  o_cloexec = 524288;
  o_rdonly = 0;
  o_wronly = 1;
  o_rdwr = 2;
  prot_none = 0;
  prot_read = 1;
  prot_write = 2;
  prot_exec = 4;
  open_file = λ name flags attempt w. done (Answer.answered 3) w;
  close_file = λ handle. closing_third;
  fstat = λ handle w. done (some 100) w;
  mmap = λ size prot handle w. done (some (4096 + prot)) w;
  munmap = λ mapping size w. done tt w;
}

abbrev file : KFileHandle
file = record { handle = 3; closed = false }

abbrev closed_file : KFileHandle
closed_file = record { handle = 3; closed = true }

closed_here : close disk 5 (some file) start ≡ done (true, some closed_file) start
unfolding close handle_eintr
closed_here = refl

abbrev uses : List Use
uses = Use.sizing true ∷ Use.closing ∷ Use.mapping 9 100 6 ∷ []

used_after_close :
    perform (posix generous disk 5) uses (some closed_file) start
    ≡ done (refused uses, some closed_file) start
used_after_close =
    close-refused generous disk 5 (some file) (some closed_file) start closed_here uses start

generous-IsPlain : IsPlain generous 9
generous-IsPlain obj w = returns (refl, refl)

read_and_write :
    Returns
      (IsWrapped generous 9 4099 100 start)
      (new_mapping generous disk 9 (some file) 100 6 start)
read_and_write =
    new_mapping-IsWrapped generous generous-IsLeaf disk 9 file 100 6 4099 start generous-IsPlain
      refl (λ h. absurd cc) refl refl

abbrev machine : Threads
machine = record {
  pthread_create = λ thread w. done (some 77) w;
  pthread_join = λ handle w. done tt w;
  sysconf = λ w. done (some 4) w;
  nanosleep = λ tv_sec tv_nsec w. done Nap.slept w;
}

machine-IsQuiet : IsQuiet machine
machine-IsQuiet thread w = returns refl

two_references : Returns (Started generous machine 5 6 start) (new generous machine 9 5 6 start)
two_references =
    new-Started generous machine generous-IsLeaf machine-IsQuiet 9 5 6 start generous-IsPlain refl
      (λ h. absurd cc)

-- The string of the root directory has no NUL, so the open reads beyond it.
root_directory :
    KFileHandle.new generous disk
      (pure (some (record { size = 1; buffer = 47 ∷ 0 ∷ [] })))
      5
      (some (record { components = []; is_absolute = true }))
      KFilePermission.read_only
      start
    ≡ fault
unfolding KFileHandle.new new_string_representation_with_separator append_all KString.copy
    KString.new_with_data KString.c_string
root_directory = refl
