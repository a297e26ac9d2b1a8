-- ===== src/KFilePath.antt =====
-- kfile_path.c: a path as a list of components. `none` is NULL. Components are values, since no
-- function hands one out.
pub mod Pieces
pub mod Range
pub mod Split
pub mod Print
pub mod Printed
pub mod RoundTrip
use k_h.Base.{
  ℕ, zero, suc, ◌+◌, ◌-◌, Bool, true, false, not, ◌||◌, ◌&&◌, Option, none, some, List, [], ◌∷◌,
  ◌++◌, ◌==◌, if◌then◌else◌, ltb, length, get_or, take, drop,
}
use k_h.World.{null, World, Run, done, aborted, Cmd, pure, ◌>>=◌, ◌>>◌, Env, allocate, k_assert}
use k_h.KString
use k_h.KString.{KString, content}

pub record KFilePath : Type 0 where
  pub components : List KString
  pub is_absolute : Bool

-- `KFilePathAlloc` and the assertions that the object and its list are there.
unfoldable pub alloc : Env → Cmd KFilePath
alloc env = do
  path ← allocate env
  k_assert (not (path == null))
  list ← allocate env
  k_assert (not (list == null))
  pure (record { components = []; is_absolute = false })

abbrev pub with_component : KFilePath → KString → KFilePath
with_component path comp = record path { components = path.components ++ comp ∷ [] }

-- `K_ASSERT(KListAddObject(path->components, comp))`, which fails for NULL and without memory.
unfoldable pub add_string : Env → KFilePath → Option KString → Cmd KFilePath
add_string env path none = λ _. aborted
add_string env path (some comp) = do
  entry ← allocate env
  k_assert (not (entry == null))
  pure (with_component path comp)

unfoldable pub add_range : Env → List ℕ → (start count : ℕ) → KFilePath → Cmd KFilePath
unfolding add_string
add_range env buffer start count path = do
  comp ← KString.new_with_data env (take count (drop start buffer))
  add_string env path comp

-- `/` and `\`
abbrev pub is_separator : ℕ → Bool
is_separator byte = (byte == 47) || (byte == 92)

abbrev pub set_absolute : Bool → KFilePath → KFilePath
set_absolute true path = record path { is_absolute = true }
set_absolute false path = path

-- `left` rounds from index `i` on; the result is the last `start` and the path.
unfoldable pub split_loop : Env → List ℕ → (left i start : ℕ) → KFilePath → Cmd (ℕ × KFilePath)
split_loop env buffer zero i start path = pure (start, path)
split_loop env buffer (suc left) i start path =
    let separator = is_separator (get_or buffer i 0) in
    let path = set_absolute ((i == 0) && separator) path in
    if not separator then split_loop env buffer left (i + 1) start path else do
      path ← if ltb 0 (i - start) then add_range env buffer start (i - start) path else pure path
      split_loop env buffer left (i + 1) (i + 1) path

unfoldable pub new_with_string : Env → Option KString → Cmd (Option KFilePath)
new_with_string env none = pure none
new_with_string env (some str) = do
  path ← alloc env
  (start, path) ← split_loop env (content str) (KString.get_length str) 0 0 path
  path ←
      if ltb start (KString.get_length str)
      then add_range env (content str) start (KString.get_length str - start) path
      else pure path
  pure (some path)

unfoldable pub new_with_format : Env → (formatted : List ℕ) → Cmd (Option KFilePath)
unfolding new_with_string
new_with_format env formatted = do
  string ← KString.new_with_format env formatted
  new_with_string env string

unfoldable pub is_absolute : Option KFilePath → Bool
is_absolute none = false
is_absolute (some path) = path.is_absolute

-- `K_ASSERT(KStringAppend(...))`
unfoldable pub append_all :
    Env → (sep : Option KString) → List KString → Option KString → Cmd (Option KString)
append_all env sep [] result = pure result
append_all env sep (comp ∷ []) result = do
  (added, result) ← KString.append env result (some comp)
  k_assert added
  pure result
append_all env sep (comp ∷ next ∷ components) result = do
  (added, result) ← KString.append env result (some comp)
  k_assert added
  (added, result) ← KString.append env result sep
  k_assert added
  append_all env sep (next ∷ components) result

-- `KStringNewWithFormat("%c", sep_char)`, which is given, makes the separator.
unfoldable pub new_string_representation_with_separator :
    Env → (new_sep : Cmd (Option KString)) → Option KFilePath → Cmd (Option KString)
unfolding append_all
new_string_representation_with_separator env new_sep none = pure none
new_string_representation_with_separator env new_sep (some path) = do
  sep ← new_sep
  result ← if path.is_absolute then KString.copy env sep else KString.new env
  append_all env sep path.components result

-- `kPathSeparator`: `\` on Windows and `/` elsewhere.
abbrev pub path_separator : (on_windows : Bool) → ℕ
path_separator true = 92
path_separator false = 47

unfoldable pub new_string_representation :
    Env
    → (on_windows : Bool) → (new_sep : ℕ → Cmd (Option KString)) → Option KFilePath
    → Cmd (Option KString)
unfolding new_string_representation_with_separator
new_string_representation env on_windows new_sep path =
    new_string_representation_with_separator env (new_sep (path_separator on_windows)) path

unfoldable pub count_components : Option KFilePath → ℕ
count_components none = 0
count_components (some path) = length path.components
