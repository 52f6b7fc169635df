-- ===== src/Fs/Path/Canonical.antt =====
-- `canonicalize` against the stack of names.
use chenlongos.Prelude.{
  ℕ, ◌≡◌, inl, inr, refl, sym, ap, ◌∙◌, subst, Bool, true, false, ◌&&◌, Option, none, some, List,
  [], ◌∷◌, ◌++◌, reverse, if◌then◌else◌, ◌>>=◌, Str, is_empty, lacks, split, split_first,
  starts_with, arith, append_assoc, append-nil, ◌==◌, reverse-append,
}
use chenlongos.Fs.Path.{
  slash, push_str, pop_name, separated, is_skipped, is_up, add_part, add_parts, finish,
  canonicalize,
}
use chenlongos.Fs.Path.Stack.{
  Stack, pop, blocked, walk_part, walk, render, root, spelled, is_name, all, Spells,
  pop_name-spelled, pop_name-nil, separated-spelled, separated-nil, before_name, is_empty-spelled,
}

-- What a part makes of a buffer that spells a stack, against what it makes of the stack.
abbrev StepSpells : Bool → Option Stack → Option Str → Type 0
StepSpells absolute none b = b ≡ none
StepSpells absolute (some st) b =
    (buf : Str) × (b ≡ some buf) × (all is_name st ≡ true) × Spells absolute st buf

push-spelled :
    (absolute : Bool) (st : Stack) (n : Str)
    → push_str (before_name absolute st) n ≡ spelled absolute (n ∷ st)
push-spelled absolute [] n = refl
push-spelled absolute (m ∷ st) n = refl

-- A name on the stack and in the buffer.
name_step :
    (absolute : Bool) (st : Stack) (buf n : Str) (wide : Bool)
    → is_name n ≡ true
    → all is_name st ≡ true
    → separated absolute buf ≡ (if wide then none else some (before_name absolute st))
    → StepSpells absolute
        (if wide then none else some (n ∷ st))
        (separated absolute buf >>= λ b. some (push_str b n))
name_step absolute st buf n true h k e = rw e refl
name_step absolute st buf n false h k e = (
  spelled absolute (n ∷ st),
  rw e (ap some (push-spelled absolute st n)),
  ground (arith, h, k),
  inl refl,
)

up_step :
    (absolute : Bool) (st : Stack) (buf : Str)
    → all is_name st ≡ true
    → Spells absolute st buf
    → (all is_name (pop st) ≡ true) × Spells absolute (pop st) (pop_name buf)
up_step absolute [] buf k (inl e) = (k, inl (ap pop_name e ∙ pop_name-spelled absolute [] k))
up_step absolute (n ∷ st) buf k (inl e) =
    (ground (arith, k), inl (ap pop_name e ∙ pop_name-spelled absolute (n ∷ st) k))
up_step absolute [] buf k (inr (_, e)) = (k, inr (refl, ap pop_name e ∙ pop_name-nil))
up_step absolute (n ∷ st) buf k (inr (e, _)) = cc

separated_step :
    (absolute : Bool) (st : Stack) (buf : Str)
    → all is_name st ≡ true
    → Spells absolute st buf
    → separated absolute buf ≡ (if blocked st then none else some (before_name absolute st))
separated_step absolute st buf k (inl e) =
    ap (separated absolute) e ∙ separated-spelled absolute st k
separated_step absolute [] buf k (inr (_, e)) = ap (separated absolute) e ∙ separated-nil absolute
separated_step absolute (n ∷ st) buf k (inr (e, _)) = cc

part_step :
    (absolute : Bool) (st : Stack) (buf part : Str) (skipped up : Bool)
    → lacks slash part ≡ true
    → is_skipped part ≡ skipped
    → is_up part ≡ up
    → all is_name st ≡ true
    → Spells absolute st buf
    → StepSpells absolute
        (if skipped
          then some st
          else (if up then some (pop st) else (if blocked st then none else some (part ∷ st))))
        (if skipped
          then some buf
          else (if up
              then some (pop_name buf)
              else (separated absolute buf >>= λ b. some (push_str b part))))
part_step absolute st buf part true up l s u k sp = (buf, refl, k, sp)
part_step absolute st buf part false true l s u k sp =
    let popped = up_step absolute st buf k sp in (pop_name buf, refl, popped.0, popped.1)
part_step absolute st buf part false false l s u k sp =
    name_step absolute st buf part (blocked st) (ground (arith, l, s, u)) k
      (separated_step absolute st buf k sp)

add_part-StepSpells :
    (absolute : Bool) (st : Stack) (buf part : Str)
    → lacks slash part ≡ true
    → all is_name st ≡ true
    → Spells absolute st buf
    → StepSpells absolute (walk_part st part) (add_part absolute buf part)
unfolding add_part
add_part-StepSpells absolute st buf part l k sp =
    part_step absolute st buf part (is_skipped part) (is_up part) l refl refl k sp

abbrev all_lack : List Str → Bool
all_lack ps = all (lacks slash) ps

module _ (absolute : Bool) where
  -- The rest of the loop, from one part's outcome.
  rest_step :
      (next : Option Stack) (b : Option Str) (ps : List Str)
      → ((st : Stack) (buf : Str)
          → all is_name st ≡ true
          → Spells absolute st buf
          → StepSpells absolute (walk st ps) (add_parts absolute buf ps))
      → StepSpells absolute next b
      → StepSpells absolute (next >>= λ n. walk n ps) (b >>= λ c. add_parts absolute c ps)
  rest_step none b ps loop s = rw s refl
  rest_step (some st) b ps loop (buf, e, k, sp) = rw e (loop st buf k sp)

  add_parts-StepSpells :
      (st : Stack) (buf : Str) (ps : List Str)
      → all_lack ps ≡ true
      → all is_name st ≡ true
      → Spells absolute st buf
      → StepSpells absolute (walk st ps) (add_parts absolute buf ps)
  unfolding add_parts
  add_parts-StepSpells st buf [] l k sp = (buf, refl, k, sp)
  add_parts-StepSpells st buf (p ∷ ps) l k sp =
      rest_step (walk_part st p) (add_part absolute buf p) ps
        (λ t b. add_parts-StepSpells t b ps (ground (arith, l)))
        (add_part-StepSpells absolute st buf p (ground (arith, l)) k sp)

-- The parts of a split hold no separator.
abbrev parts_lack : Str × List Str → Bool
parts_lack (p, ps) = lacks slash p && all_lack ps

consed_lacks :
    (c : ℕ) (b : Bool) (rest : Str × List Str)
    → (c == slash) ≡ b
    → parts_lack rest ≡ true
    → parts_lack (if b then ([], rest.0 ∷ rest.1) else (c ∷ rest.0, rest.1)) ≡ true
consed_lacks c true (p, ps) e h = h
consed_lacks c false (p, ps) e h = ground (arith, e, h)

split-lacks : (s : Str) → parts_lack (split_first slash s) ≡ true
split-lacks [] = refl
split-lacks (c ∷ cs) = consed_lacks c (c == slash) (split_first slash cs) refl (split-lacks cs)

reverse-push_str : (buf n : Str) → reverse (push_str buf n) ≡ reverse buf ++ n
reverse-push_str buf [] = sym (append-nil (reverse buf))
reverse-push_str buf (c ∷ cs) =
    reverse-push_str (c ∷ buf) cs
    ∙ ap (λ (r : Str). r ++ cs) (reverse-append (c ∷ []) buf)
    ∙ append_assoc (reverse buf) (c ∷ []) cs

reverse-spelled :
    (absolute : Bool) (st : Stack) → reverse (spelled absolute st) ≡ render absolute st
reverse-spelled true [] = refl
reverse-spelled false [] = refl
reverse-spelled true (n ∷ []) = reverse-push_str (root true) n
reverse-spelled false (n ∷ []) = reverse-push_str (root false) n
reverse-spelled absolute (n ∷ m ∷ st) =
    reverse-push_str (slash ∷ spelled absolute (m ∷ st)) n
    ∙ ap (λ (r : Str). r ++ n) (reverse-append (slash ∷ []) (spelled absolute (m ∷ st)))
    ∙ append_assoc (reverse (spelled absolute (m ∷ st))) (slash ∷ []) n
    ∙ ap (λ (r : Str). r ++ slash ∷ n) (reverse-spelled absolute (m ∷ st))
    ∙ deeper absolute
  where
    deeper : (a : Bool) → render a (m ∷ st) ++ slash ∷ n ≡ render a (n ∷ m ∷ st)
    deeper true = refl
    deeper false = refl

finish-full : (absolute : Bool) (buf : Str) → is_empty buf ≡ false → finish absolute buf ≡ buf
unfolding finish
finish-full absolute [] h = cc
finish-full true (c ∷ cs) h = refl
finish-full false (c ∷ cs) h = refl

finish-root : (absolute : Bool) → reverse (finish absolute (root absolute)) ≡ render absolute []
unfolding finish
finish-root true = refl
finish-root false = refl

finish-nil : (absolute : Bool) → reverse (finish absolute []) ≡ render absolute []
unfolding finish
finish-nil true = refl
finish-nil false = refl

finish-Spells :
    (absolute : Bool) (st : Stack) (buf : Str)
    → all is_name st ≡ true
    → Spells absolute st buf
    → reverse (finish absolute buf) ≡ render absolute st
finish-Spells absolute [] buf k (inl e) =
    ap (λ (b : Str). reverse (finish absolute b)) e ∙ finish-root absolute
finish-Spells absolute (n ∷ st) buf k (inl e) =
    ap (λ (b : Str). reverse (finish absolute b)) e
    ∙ ap reverse (
        finish-full absolute (spelled absolute (n ∷ st))
          (is_empty-spelled absolute n st (ground (arith, k))))
    ∙ reverse-spelled absolute (n ∷ st)
finish-Spells absolute [] buf k (inr (_, e)) =
    ap (λ (b : Str). reverse (finish absolute b)) e ∙ finish-nil absolute
finish-Spells absolute (n ∷ st) buf k (inr (e, _)) = cc

abbrev pub absolute_path? : Str → Bool
absolute_path? path = starts_with path (slash ∷ [])

finished :
    (absolute : Bool) (st : Option Stack) (b : Option Str)
    → StepSpells absolute st b
    → (b >>= λ buf. some (reverse (finish absolute buf))) ≡ (st >>= λ s. some (render absolute s))
finished absolute none b e = rw e refl
finished absolute (some st) b (buf, e, k, sp) = rw e (ap some (finish-Spells absolute st buf k sp))

-- The names left at the end have no separator and are neither skipped nor "..".
pub walk-is_name :
    (path : Str) {st : Stack} → walk [] (split slash path) ≡ some st → all is_name st ≡ true
walk-is_name path {st = st} e =
    let s : StepSpells true (walk [] (split slash path)) (add_parts true [] (split slash path)) =
      add_parts-StepSpells true [] [] (split slash path) (split-lacks path) refl
        (inr (refl, refl)) in
    let found : StepSpells true (some st) (add_parts true [] (split slash path)) =
      subst (λ (o : Option Stack). StepSpells true o (add_parts true [] (split slash path))) e s in
    found.2

-- For every path, `canonicalize` gives the names that are left after "." and empty parts are passed
-- over and each ".." takes the last name off, from the root if the path starts there; it panics just
-- when a name comes behind one whose last character takes more than one byte.
pub canonicalize-walk :
    (path : Str)
    → canonicalize path
      ≡ (walk [] (split slash path) >>= λ st. some (render (absolute_path? path) st))
unfolding canonicalize
canonicalize-walk path =
    finished (absolute_path? path) (walk [] (split slash path))
      (add_parts (absolute_path? path) [] (split slash path))
      (add_parts-StepSpells (absolute_path? path) [] [] (split slash path) (split-lacks path) refl
        (inr (refl, refl)))
