-- ===== src/Fs/Path.antt =====
-- Canonical paths, crates/axfs_vfs/src/path.rs. The buffer is a string that grows and shrinks at its
-- end, and is held here with its last character first. `none` is a panic: a slice of the buffer's
-- last byte where a character takes more than one.
pub mod Stack
pub mod Canonical
pub mod Idempotence
mod Tests
use chenlongos.Prelude.{
  ℕ, Bool, true, false, ◌&&◌, ◌||◌, Option, none, some, List, [], ◌∷◌, reverse, ltb, ◌==◌,
  if◌then◌else◌, ◌>>=◌, Str, codes, is_empty, str_eq, starts_with, split,
}

abbrev pub slash : ℕ
slash = 47

-- `String::push_str`
abbrev pub push_str : Str → Str → Str
push_str buf [] = buf
push_str buf (c ∷ cs) = push_str (c ∷ buf) cs

-- The loop of the arm for "..".
unfoldable pub pop_name : Str → Str
pop_name [] = []
pop_name (c ∷ cs) =
    let rest = pop_name cs in
    if str_eq (c ∷ cs) (slash ∷ []) then c ∷ cs else (if c == slash then cs else rest)

-- Before a name: a separator unless there is one. A character from 128 takes several bytes.
unfoldable pub separated : Bool → Str → Option Str
separated absolute [] = some (if absolute then slash ∷ [] else [])
separated absolute (c ∷ cs) =
    if ltb c 128 then some (if c == slash then c ∷ cs else slash ∷ c ∷ cs) else none

unfoldable pub is_skipped : Str → Bool
is_skipped part = is_empty part || str_eq part (codes ".")

unfoldable pub is_up : Str → Bool
is_up part = str_eq part (codes "..")

unfoldable pub add_part : Bool → Str → Str → Option Str
add_part absolute buf part =
    if is_skipped part
    then some buf
    else (if is_up part
        then some (pop_name buf)
        else (separated absolute buf >>= λ b. some (push_str b part)))

unfoldable pub add_parts : Bool → Str → List Str → Option Str
add_parts absolute buf [] = some buf
add_parts absolute buf (p ∷ ps) = add_part absolute buf p >>= λ b. add_parts absolute b ps

unfoldable pub finish : Bool → Str → Str
finish absolute buf = if absolute && is_empty buf then slash ∷ [] else buf

unfoldable pub canonicalize : Str → Option Str
unfolding finish
canonicalize path =
    let absolute = starts_with path (slash ∷ []) in
    add_parts absolute [] (split slash path) >>= λ buf. some (reverse (finish absolute buf))
