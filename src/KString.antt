-- ===== src/KString.antt =====
-- kstring.c: byte strings with a length. A string object is its record; `none` is NULL.
-- `buffer` holds the bytes that were written, from the start of the allocated block.
pub mod Keys
use k_h.Base.{
  ℕ, suc, ◌+◌, ◌^◌, Bool, true, false, not, ◌||◌, ◌&&◌, Option, none, some, List, [], ◌∷◌, ◌++◌,
  ◌==◌, if◌then◌else◌, ltb, length, take,
}
use k_h.World.{null, KObjectRef, World, done, fault, Cmd, pure, ◌>>=◌, Env, allocate}
use k_h.KHash

pub record KString : Type 0 where
  pub size : ℕ
  pub buffer : List ℕ

-- The bytes that `KStringGetData` and `KStringGetLength` give access to.
abbrev pub content : KString → List ℕ
content string = take string.size string.buffer

-- What C reads from an address up to a NUL; beyond the bytes that were written it is undefined.
unfoldable pub c_string : List ℕ → Cmd (List ℕ)
c_string [] = λ _. fault
c_string (byte ∷ bytes) =
    if byte == 0 then pure [] else do rest ← c_string bytes; pure (byte ∷ rest)

-- With no memory for the bytes, `memcpy` writes through NULL unless there are none.
unfoldable pub new_with_data : Env → List ℕ → Cmd (Option KString)
new_with_data env bytes = do
  str ← allocate env
  if str == null then pure none else do
    buffer ← allocate env
    if buffer == null
        then (if length bytes == 0 then pure none else (λ _. fault))
        else pure (some (record { size = length bytes; buffer = bytes }))

unfoldable pub new : Env → Cmd (Option KString)
unfolding new_with_data
new env = new_with_data env []

-- `formatted` is what `vsnprintf` makes of the format and its arguments, and writes with a NUL.
unfoldable pub new_with_format : Env → (formatted : List ℕ) → Cmd (Option KString)
new_with_format env formatted = do
  str ← allocate env
  if str == null then pure none else do
    buffer ← allocate env
    if buffer == null
        then pure none
        else pure (some (record { size = length formatted; buffer = formatted ++ 0 ∷ [] }))

unfoldable pub copy : Env → Option KString → Cmd (Option KString)
unfolding new_with_data
copy env none = pure none
copy env (some string) = new_with_data env (content string)

-- The bytes of the longer string, which gets a NUL behind them unless it is empty.
abbrev pub joined : (string suffix : KString) → KString
joined string suffix = record {
  size = string.size + suffix.size;
  buffer =
      content string ++ content suffix ++ (if string.size + suffix.size == 0 then [] else 0 ∷ []);
}

-- A sum of sizes that wraps would ask for too small a block, and the copy would leave it.
unfoldable pub append : Env → (string suffix : Option KString) → Cmd (Bool × Option KString)
append env none suffix = pure (false, none)
append env (some string) none = pure (false, some string)
append env (some string) (some suffix) = do
  realloced ← allocate env
  if realloced == null
      then pure (false, some string)
      else (if ltb (string.size + suffix.size + 1) (2 ^ 64)
          then pure (true, some (joined string suffix))
          else (λ _. fault))

unfoldable pub get_length : KString → ℕ
get_length str = str.size

-- Strings as objects: each lies under its address.
abbrev pub Strings : Type 0
Strings = KObjectRef → KString

unfoldable pub get_hash : Strings → KObjectRef → ℕ
get_hash strings str =
    if str == null then 31 else KHash.combine (KHash.create (content (strings str))) 31

-- `memcmp(...) == 0`
unfoldable pub bytes_equal : List ℕ → List ℕ → Bool
bytes_equal [] [] = true
bytes_equal [] (b ∷ ys) = false
bytes_equal (a ∷ xs) [] = false
bytes_equal (a ∷ xs) (b ∷ ys) = (a == b) && bytes_equal xs ys

unfoldable pub is_equal : Strings → (lhs rhs : KObjectRef) → Bool
unfolding bytes_equal get_length
is_equal strings lhs rhs =
    if (lhs == null) || (rhs == null)
    then false
    else (if lhs == rhs
        then true
        else (if not (get_length (strings lhs) == get_length (strings rhs))
            then false
            else (if get_length (strings lhs) == 0
                then true
                else bytes_equal (content (strings lhs)) (content (strings rhs)))))
