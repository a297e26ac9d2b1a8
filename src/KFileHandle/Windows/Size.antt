-- ===== src/KFileHandle/Windows/Size.antt =====
-- `KFileHandleGetSize` of kfile_handle.c on Windows, which asks for the low word of the size alone.
use k_h.Base.{
  ℕ, ◌-◌, ◌%◌, ◌^◌, ◌<◌, ◌≡◌, ◌↔◌, refl, true, false, Option, none, some, arith, ◌==◌, inl, inr,
  Bool-cases,
}
use k_h.World.{World, Run, done}
use k_h.KFileHandle.{KFileHandle}
use k_h.KFileHandle.Windows.{WindowsFiles, invalid_file_size, get_size}

-- What is documented of `GetFileSize` without an address for the high word, where files have the
-- sizes `size_of`.
abbrev pub AnswersLowWord : WindowsFiles → (ℕ → ℕ) → Type 0
AnswersLowWord system size_of =
    (handle : ℕ) (w : World) → system.get_file_size handle w ≡ done (size_of handle % 2 ^ 32) w

answered :
    {a b : ℕ} {w : World} → ◌≡◌ {A = Run (Option ℕ)} (done (some a) w) (done (some b) w) → a ≡ b
answered h = cc

unanswered : {b : ℕ} {w : World} → ◌≡◌ {A = Run (Option ℕ)} (done none w) (done (some b) w) → ⊥
unanswered h = cc

module _ (system : WindowsFiles) (size_of : ℕ → ℕ) (low : AnswersLowWord system size_of)
    (handle : KFileHandle) (w : World) (is_open : handle.closed ≡ false) where
  -- On Windows, where `GetFileSize` answers the low 32 bits of a file's size, `KFileHandleGetSize`
  -- of an open handle answers that size exactly if it is below 2 ^ 32 - 1.
  pub get_size-small :
      (get_size system (some handle) true w ≡ done (some (size_of handle.handle)) w)
      ↔ (size_of handle.handle < 2 ^ 32 - 1)
  unfolding get_size
  get_size-small = elim (Bool-cases (size_of handle.handle % 2 ^ 32 == invalid_file_size)) [
    | inl e ↦ rw (is_open, low handle.handle w, e) (λ h. absurd (unanswered h), λ h. ground arith)
    | inr e ↦
        rw (is_open, low handle.handle w, e)
          (
            λ h. let same = answered h in ground (arith, same),
            λ h.
                let same : size_of handle.handle % 2 ^ 32 ≡ size_of handle.handle = omega arith in
                rw same refl,
          )
  ]
