-- ===== src/Fs/Root/Current.antt =====
-- The current directory: what `set_current_dir` does to it.
use chenlongos.Prelude.{
  ◌≡◌, refl, sym, ap, ◌∙◌, subst, Bool, true, false, not, Option, none, some, [], ◌∷◌, ◌++◌,
  reverse-append, >>=-eq-some, if◌then◌else◌, Str, is_empty, str_eq, str_eq→≡, starts_with,
  ends_with, split,
}
use chenlongos.Fs.Types.{
  AxError, AxResult, ok, err, not_found, not_a_directory, permission_denied, is_dir,
  owner_executable,
}
use chenlongos.Fs.Path.{canonicalize}
use chenlongos.Fs.Path.Stack.{walk, render, Stack}
use chenlongos.Fs.Path.Canonical.{canonicalize-walk, absolute_path?}
use chenlongos.Fs.Root.{VfsNodes, Outcome, and_do, reading}
use chenlongos.Fs.Root.Calls.{
  RootState, at_root, at_node, slash_path, lookup_at, parent_node_of, absolute_path, attr_in,
  lookup, with_current, with_slash, enter, set_current_dir,
}

-- What holds of an outcome, if there is one.
abbrev pub After : {S A : Type 0} → (S × AxResult A → Type 0) → Outcome S A → Type 0
After {S = S} {A = A} P o = (r : S × AxResult A) → o ≡ some r → P r

module _ {S A : Type 0} where
  pub After-some : (P : S × AxResult A → Type 0) (r : S × AxResult A) → P r → After P (some r)
  After-some P r h q e = let same : r ≡ q = cc in subst P same h

  pub After-if :
      (P : S × AxResult A → Type 0) (b : Bool) (x y : Outcome S A)
      → After P x
      → After P y
      → After P (if b then x else y)
  After-if P true x y hx hy = hx
  After-if P false x y hx hy = hy

-- The operator `?`: an error is passed on, and a result goes to what follows.
pub After-and_do :
    {S A B : Type 0} (P : S × AxResult A → Type 0) (Q : S × AxResult B → Type 0) (m : Outcome S A)
    (f : S → A → Outcome S B)
    → After P m
    → ((s : S) (e : AxError) → P (s, err e) → Q (s, err e))
    → ((s : S) (a : A) → P (s, ok a) → After Q (f s a))
    → After Q (and_do m f)
After-and_do P Q none f hm he hf r e = cc
After-and_do P Q (some (s, err x)) f hm he hf r e =
    After-some Q (s, err x) (he s x (hm (s, err x) refl)) r e
After-and_do P Q (some (s, ok a)) f hm he hf r e = hf s a (hm (s, ok a) refl) r e

module _ (V : VfsNodes) where
  module _ (s : RootState V) where
    abbrev Same : {A : Type 0} → RootState V × AxResult A → Type 0
    Same r = r.0 ≡ s

    reading-Same :
        {A : Type 0} (t : RootState V) (o : Option (AxResult A)) → t ≡ s → After Same (reading t o)
    reading-Same t none h r e = cc
    reading-Same t (some x) h r e = After-some Same (t, x) h r e

    -- Looking for a node changes nothing.
    lookup-Same : (base : Option V.Node) (path : Str) → After Same (lookup V s base path)
    unfolding lookup
    lookup-Same base path =
        After-if Same (is_empty path) (some (s, err not_found)) _
          (After-some Same (s, err not_found) refl)
          (After-and_do Same Same (reading s (lookup_at V s (parent_node_of V s base path) path)) _
            (reading-Same s (lookup_at V s (parent_node_of V s base path) path) refl) (λ t e h. h)
            (λ t node h.
              After-if Same (ends_with path slash_path) _ (some (t, ok node))
                (After-and_do Same Same (attr_in V t node) _
                  (After-some Same (t, V.get_attr t.files node) h) (λ u e k. k)
                  (λ u attr k.
                    After-some Same (u, if is_dir attr.ty then ok node else err not_a_directory) k))
                (After-some Same (t, ok node) h)))

    -- The current path is the new one, or nothing has changed.
    abbrev pub Moved : Str → RootState V × AxResult (Unit {0}) → Type 0
    Moved p (t, ok u) = t.current_path ≡ p
    Moved p (t, err e) = t ≡ s

    enter-Moved : (p : Str) → After (Moved p) (enter V s p)
    enter-Moved p =
        After-and_do Same (Moved p) (lookup V s none p) _ (lookup-Same none p) (λ t e h. h)
          (λ t node h.
            After-and_do Same (Moved p) (attr_in V t node) _
              (After-some Same (t, V.get_attr t.files node) h) (λ u e k. k)
              (λ u attr k.
                After-if (Moved p) (not (is_dir attr.ty)) (some (u, err not_a_directory)) _
                  (After-some (Moved p) (u, err not_a_directory) k)
                  (After-if (Moved p) (not (owner_executable attr.mode))
                    (some (u, err permission_denied)) _
                    (After-some (Moved p) (u, err permission_denied) k)
                    (After-some (Moved p) (with_current V u (at_node node) p, ok tt) refl))))

    changed_to :
        (p : Str)
        → After (Moved p) (
            if str_eq p slash_path
            then some (with_current V s at_root slash_path, ok tt)
            else enter V s p)
    changed_to p = by (str_eq p slash_path) refl
      where
        by :
            (b : Bool)
            → str_eq p slash_path ≡ b
            → After
                (Moved p)
                (if b then some (with_current V s at_root slash_path, ok tt) else enter V s p)
        by true e =
            After-some (Moved p) (with_current V s at_root slash_path, ok tt)
              (sym (str_eq→≡ p slash_path e))
        by false e = enter-Moved p

    -- When `set_current_dir` returns, the path had a canonical form from the current directory; after a
    -- success the current path is that form with a separator at its end, and after an error nothing
    -- has changed.
    pub set_current_dir-Moved :
        (path : Str) (r : RootState V × AxResult (Unit {0}))
        → set_current_dir V s path ≡ some r
        → (p : Str) × (absolute_path V s path ≡ some p) × Moved (with_slash V p) r
    unfolding set_current_dir
    set_current_dir-Moved path r e =
        let found =
          >>=-eq-some (absolute_path V s path)
            (λ p.
              if str_eq (with_slash V p) slash_path
              then some (with_current V s at_root slash_path, ok tt)
              else enter V s (with_slash V p))
            e in
        (found.0, found.1, changed_to (with_slash V found.0) r found.2)

    -- The current path is absolute and ends with a separator.
    pub record CurrentAbsolute : Type 0 where
      pub starts : starts_with s.current_path slash_path ≡ true
      pub ends : ends_with s.current_path slash_path ≡ true

starts-append :
    (a b : Str) → starts_with a slash_path ≡ true → starts_with (a ++ b) slash_path ≡ true
starts-append [] b h = cc
starts-append (c ∷ cs) b h = h

canonicalize-absolute :
    (path p : Str)
    → starts_with path slash_path ≡ true
    → canonicalize path ≡ some p
    → starts_with p slash_path ≡ true
canonicalize-absolute path p h e =
    let found =
      >>=-eq-some (walk [] (split 47 path)) (λ (st : Stack). some (render (absolute_path? path) st))
        (sym (canonicalize-walk path) ∙ e) in
    let same : render (absolute_path? path) found.0 ≡ p = cc in
    subst (λ (q : Str). starts_with q slash_path ≡ true) same
      (ap (λ (b : Bool). starts_with (render b found.0) slash_path) h)

ends-slash : (p : Str) → ends_with (p ++ slash_path) slash_path ≡ true
ends-slash p = ap (λ (r : Str). starts_with r slash_path) (reverse-append p slash_path)

module _ (V : VfsNodes) where
  with_slash-starts :
      (p : Str) → starts_with p slash_path ≡ true → starts_with (with_slash V p) slash_path ≡ true
  with_slash-starts p h = by (ends_with p slash_path)
    where
      by : (b : Bool) → starts_with (if b then p else p ++ slash_path) slash_path ≡ true
      by true = h
      by false = starts-append p slash_path h

  with_slash-ends : (p : Str) → ends_with (with_slash V p) slash_path ≡ true
  with_slash-ends p = by (ends_with p slash_path) refl
    where
      by :
          (b : Bool)
          → ends_with p slash_path ≡ b
          → ends_with (if b then p else p ++ slash_path) slash_path ≡ true
      by true e = e
      by false e = ends-slash p

  absolute_path-starts :
      (s : RootState V) (path p : Str)
      → CurrentAbsolute V s
      → absolute_path V s path ≡ some p
      → starts_with p slash_path ≡ true
  unfolding absolute_path
  absolute_path-starts s path p c e = by (starts_with path slash_path) refl e
    where
      by :
          (b : Bool)
          → starts_with path slash_path ≡ b
          → (if b then canonicalize path else canonicalize (s.current_path ++ path)) ≡ some p
          → starts_with p slash_path ≡ true
      by true h q = canonicalize-absolute path p h q
      by false h q =
          canonicalize-absolute (s.current_path ++ path) p
            (starts-append s.current_path path c.starts) q

  -- Whatever path `set_current_dir` is given and however it returns, an absolute current path with a
  -- separator at its end stays one.
  pub set_current_dir-CurrentAbsolute :
      (s : RootState V) (path : Str) (r : RootState V × AxResult (Unit {0}))
      → CurrentAbsolute V s
      → set_current_dir V s path ≡ some r
      → CurrentAbsolute V r.0
  set_current_dir-CurrentAbsolute s path r c e =
      let moved = set_current_dir-Moved V s path r e in
      by moved.0 r.1 moved.2 (absolute_path-starts s path moved.0 c moved.1)
    where
      by :
          (p : Str) (x : AxResult (Unit {0}))
          → Moved V s (with_slash V p) (r.0, x)
          → starts_with p slash_path ≡ true
          → CurrentAbsolute V r.0
      by p (ok u) m h = record {
        starts = ap (λ (q : Str). starts_with q slash_path) m ∙ with_slash-starts p h;
        ends = ap (λ (q : Str). ends_with q slash_path) m ∙ with_slash-ends p;
      }
      by p (err x) m h = subst (λ (t : RootState V). CurrentAbsolute V t) (sym m) c
