-- ===== src/KFilePath/Split.antt =====
-- `KFilePathNewWithString` of kfile_path.c against a split of the bytes that keeps no indices.
use mathlib.Core.List.{append_assoc, append-nil}
use k_h.Base.{
  ℕ, ◌+◌, ◌-◌, ◌≡◌, refl, Bool, true, false, ◌||◌, ◌&&◌, some, List, [], ◌∷◌, ◌++◌, map, arith, ap,
  sym, ◌∙◌, ◌==◌, ltb, if◌then◌else◌, length, length-append, get_or, Bool-cases, inl, inr,
}
use k_h.World.{World, Env, and_then, pure, ◌>>=◌}
use k_h.World.Returns
use k_h.World.Returns.{Returns, returns}
use k_h.KString
use k_h.KString.{KString, content}
use k_h.KFilePath.{
  KFilePath, alloc, add_range, is_separator, set_absolute, split_loop, new_with_string,
}
use k_h.World.{Grants}
use k_h.KFilePath.Pieces.{flush, pieces, begins, made, get_or-here, map-append, one_more, passed}
use k_h.KFilePath.Range.{granted, asks, flush_range, pending_range}

set_absolute_components :
    (t : Bool) (path : KFilePath) → (set_absolute t path).components ≡ path.components
set_absolute_components true path = refl
set_absolute_components false path = refl

set_absolute_absolute :
    (t : Bool) (path : KFilePath) → (set_absolute t path).is_absolute ≡ (t || path.is_absolute)
set_absolute_absolute true path = refl
set_absolute_absolute false path = refl

not_first : (i : ℕ) → (i + 1 == 0) ≡ false
not_first i = ground arith

absolute_later :
    (t u v : Bool) (path : KFilePath)
    → ((false && t) || (set_absolute (u && v) path).is_absolute) ≡ ((u && v) || path.is_absolute)
absolute_later t u v path = set_absolute_absolute (u && v) path

absolute_end : (u v : Bool) → v ≡ ((u && false) || v)
absolute_end true v = refl
absolute_end false v = refl

path_eq :
    (path : KFilePath) {components : List KString} {absolute : Bool}
    → path.components ≡ components
    → path.is_absolute ≡ absolute
    → path ≡ record { components = components; is_absolute = absolute }
path_eq path {components} e f =
    ap (λ t. record { components = t; is_absolute = path.is_absolute }) e
    ∙ ap (λ t. record { components = components; is_absolute = t }) f

or_false : (b : Bool) → (b || false) ≡ b
or_false true = refl
or_false false = refl

module _ (env : Env) (grants : Grants env) where
  -- Where the loop ends: with `pending` behind the last separator.
  pub record Split (buffer rest pending : List ℕ) (first : Bool) (path : KFilePath)
      (r : ℕ × KFilePath) (w w' : World) : Type 0 where
    pub front : List ℕ
    pub last : List ℕ
    pub found : List (List ℕ)
    pub whole : buffer ≡ front ++ last
    pub start : r.0 ≡ length front
    pub components : r.1.components ≡ path.components ++ map made found
    pub all : found ++ flush last ≡ pieces rest pending
    pub absolute : r.1.is_absolute ≡ ((first && begins rest) || path.is_absolute)
    pub blocks : w'.blocks ≡ w.blocks

  split_loop-Split :
      (rest front pending buffer : List ℕ) (i start : ℕ) (path : KFilePath) (w : World)
      → buffer ≡ (front ++ pending) ++ rest
      → i ≡ length (front ++ pending)
      → start ≡ length front
      → Returns
          (λ r w'. Split buffer rest pending (i == 0) path r w w')
          (split_loop env buffer (length rest) i start path w)
  unfolding split_loop
  split_loop-Split [] front pending buffer i start path w whole at from = returns (record {
    front = front;
    last = pending;
    found = [];
    whole = whole ∙ append-nil (front ++ pending);
    start = from;
    components = sym (append-nil path.components);
    all = refl;
    absolute = absolute_end (i == 0) path.is_absolute;
    blocks = refl;
  })
  split_loop-Split (b ∷ rest) front pending buffer i start path w whole at from =
      let read : get_or buffer i 0 ≡ b =
        ap (λ t. get_or t i 0) whole
        ∙ ap (λ (k : ℕ). get_or ((front ++ pending) ++ b ∷ rest) k 0) at
        ∙ get_or-here (front ++ pending) rest b 0 in
      elim (Bool-cases (is_separator b)) [
        | inr byte ↦
            rw (read, byte)
              (Returns.mono
                (split_loop-Split rest front (pending ++ b ∷ []) buffer (i + 1) start
                  (set_absolute ((i == 0) && false) path) w (whole ∙ one_more front pending rest b)
                  (omega (
                    arith,
                    at,
                    length-append front pending,
                    length-append front (pending ++ b ∷ []),
                    length-append pending (b ∷ []),
                  ))
                  from)
                λ r w' s. record {
                  front = s.front;
                  last = s.last;
                  found = s.found;
                  whole = s.whole;
                  start = s.start;
                  components =
                      s.components
                      ∙ ap (λ t. t ++ map made s.found)
                          (set_absolute_components ((i == 0) && false) path);
                  all = s.all ∙ rw byte refl;
                  absolute =
                      s.absolute
                      ∙ ap
                          (λ t.
                            (t && begins rest)
                            || (set_absolute ((i == 0) && false) path).is_absolute)
                          (not_first i)
                      ∙ absolute_later (begins rest) (i == 0) false path
                      ∙ ap (λ t. ((i == 0) && t) || path.is_absolute) (sym byte);
                  blocks = s.blocks;
                })
        | inl separator ↦
            rw (read, separator)
              (Returns.bind
                (flush_range env grants (b ∷ rest) front pending buffer i start
                  (set_absolute ((i == 0) && true) path) w whole at from)
                λ p₁ w₁ (components, absolute, same).
                  Returns.mono
                    (split_loop-Split rest ((front ++ pending) ++ b ∷ []) [] buffer (i + 1) (i + 1)
                      p₁ w₁ (whole ∙ passed (front ++ pending) rest b)
                      (omega (
                        arith,
                        at,
                        length-append (front ++ pending) (b ∷ []),
                        length-append ((front ++ pending) ++ b ∷ []) [],
                      ))
                      (omega (arith, at, length-append (front ++ pending) (b ∷ []))))
                    λ r w' s. record {
                      front = s.front;
                      last = s.last;
                      found = flush pending ++ s.found;
                      whole = s.whole;
                      start = s.start;
                      components =
                          s.components
                          ∙ ap (λ t. t ++ map made s.found)
                              (components
                                ∙ ap (λ t. t ++ map made (flush pending))
                                    (set_absolute_components ((i == 0) && true) path))
                          ∙ append_assoc path.components (map made (flush pending))
                              (map made s.found)
                          ∙ ap (λ t. path.components ++ t)
                              (sym (map-append (flush pending) s.found));
                      all =
                          append_assoc (flush pending) s.found (flush s.last)
                          ∙ ap (λ t. flush pending ++ t) s.all
                          ∙ rw separator refl;
                      absolute =
                          s.absolute
                          ∙ ap (λ t. (t && begins rest) || p₁.is_absolute) (not_first i)
                          ∙ absolute
                          ∙ set_absolute_absolute ((i == 0) && true) path
                          ∙ ap (λ t. ((i == 0) && t) || path.is_absolute) (sym separator);
                      blocks = s.blocks ∙ same;
                    })
      ]

  read_bytes :
      (bytes : List ℕ) (n : ℕ) (w : World)
      → n ≡ length bytes
      → Returns
          (λ r w'.
            (r
              ≡ some
                  (record { components = map made (pieces bytes []); is_absolute = begins bytes }))
            × (w'.blocks ≡ w.blocks))
          (and_then
            (split_loop env bytes n 0 0 (record { components = []; is_absolute = false }) w)
            λ x. (if ltb x.0 n then add_range env bytes x.0 (n - x.0) x.1 else pure x.1) >>= λ path.
              pure (some path))
  read_bytes bytes n w size = rw size (
      Returns.bind (split_loop-Split bytes [] [] bytes 0 0 _ w refl refl refl) λ r w₁ s.
        Returns.bind
          (pending_range env grants s.front s.last bytes (length bytes) r.0 r.1 w₁ s.whole refl
            s.start)
          λ p w₂ (components, absolute, same). returns (
            ap some (
                path_eq p
                  (components
                    ∙ ap (λ t. t ++ map made (flush s.last)) s.components
                    ∙ sym (map-append s.found (flush s.last))
                    ∙ ap (map made) s.all)
                  (absolute ∙ s.absolute ∙ or_false (begins bytes))),
            same ∙ s.blocks,
          ))

  -- Where there is memory, `KFilePathNewWithString` of a string whose bytes are all there makes a
  -- path whose components are the runs of bytes between separators that have a byte, in order, and
  -- which is absolute exactly if the string begins with a separator; no object is changed.
  pub new_with_string-pieces :
      (str : KString) (w : World)
      → str.size ≡ length (content str)
      → Returns
          (λ r w'.
            (r
              ≡ some (record {
                components = map made (pieces (content str) []);
                is_absolute = begins (content str);
              }))
            × (w'.blocks ≡ w.blocks))
          (new_with_string env (some str) w)
  unfolding new_with_string alloc KString.get_length
  new_with_string-pieces str w whole_size =
      rw (granted env grants w, granted env grants (asks env grants 1 w))
        (read_bytes (content str) str.size _ whole_size)
