-- ===== src/Fs/Path/Tests.antt =====
-- Paths on concrete strings, those of the source's tests among them.
use chenlongos.Prelude.{◌≡◌, refl, false, Option, none, some, [], ◌∷◌, ◌++◌, Str, codes}
use chenlongos.Fs.Path.{
  slash, canonicalize, add_part, add_parts, pop_name, separated, is_skipped, is_up, finish,
}
use chenlongos.Fs.Path.Stack.{render}
use chenlongos.Fs.Path.Canonical.{canonicalize-walk}
use chenlongos.Fs.Path.Idempotence.{canonicalize_two}

abbrev Canonical : Str → Option Str → Type 0
Canonical path r = canonicalize path ≡ r

dots : Canonical (codes "/test//./foo/bar/../x") (some (codes "/test/foo/x"))
unfolding canonicalize add_part add_parts pop_name separated is_skipped is_up finish
dots = refl

above_root : Canonical (codes "/bleh/bar/../../foo/..") (some (codes "/"))
unfolding canonicalize add_part add_parts pop_name separated is_skipped is_up finish
above_root = refl

relative : Canonical (codes ".././a") (some (codes "a"))
unfolding canonicalize add_part add_parts pop_name separated is_skipped is_up finish
relative = refl

canonicalize-walk_example : canonicalize (codes "a/../b") ≡ some (render false (codes "b" ∷ []))
unfolding is_skipped is_up
canonicalize-walk_example = canonicalize-walk (codes "a/../b")

-- A directory named with one character beyond ASCII.
canonicalize_two_example : canonicalize (slash ∷ ((233 ∷ []) ++ slash ∷ codes "a")) ≡ none
unfolding is_skipped is_up
canonicalize_two_example = canonicalize_two (233 ∷ []) (codes "a") refl refl
