-- ===== src/Fs/Path/Stack.antt =====
-- A path as a stack of names, the innermost first, and the buffer that spells it.
use chenlongos.Prelude.{
  ℕ, ◌≡◌, ◌⊎◌, refl, ◌∙◌, Bool, true, false, ◌&&◌, not, Option, none, some, List, [], ◌∷◌, ◌++◌,
  ltb, ◌==◌, if◌then◌else◌, ◌>>=◌, Str, is_empty, lacks, arith,
}
use chenlongos.Fs.Path.{slash, push_str, pop_name, separated, is_skipped, is_up}

abbrev pub Stack : Type 0
Stack = List Str

abbrev pub pop : Stack → Stack
pop [] = []
pop (n ∷ st) = st

-- The last character takes more than one byte.
abbrev pub wide_end : Str → Bool
wide_end [] = false
wide_end (c ∷ []) = not (ltb c 128)
wide_end (c ∷ d ∷ ds) = wide_end (d ∷ ds)

-- No name can follow the innermost one.
abbrev pub blocked : Stack → Bool
blocked [] = false
blocked (n ∷ st) = wide_end n

abbrev pub walk_part : Stack → Str → Option Stack
walk_part st part =
    if is_skipped part
    then some st
    else (if is_up part then some (pop st) else (if blocked st then none else some (part ∷ st)))

abbrev pub walk : Stack → List Str → Option Stack
walk st [] = some st
walk st (p ∷ ps) = walk_part st p >>= λ next. walk next ps

-- The names from the outermost, with a separator between them.
abbrev pub joined : Stack → Str
joined [] = []
joined (n ∷ []) = n
joined (n ∷ m ∷ st) = joined (m ∷ st) ++ slash ∷ n

abbrev pub render : Bool → Stack → Str
render absolute st = if absolute then slash ∷ joined st else joined st

abbrev pub root : Bool → Str
root absolute = if absolute then slash ∷ [] else []

-- The same path in the buffer, last character first.
abbrev pub spelled : Bool → Stack → Str
spelled absolute [] = root absolute
spelled absolute (n ∷ []) = push_str (root absolute) n
spelled absolute (n ∷ m ∷ st) = push_str (slash ∷ spelled absolute (m ∷ st)) n

-- A part that is a name: not skipped, not "..", without a separator.
abbrev pub is_name : Str → Bool
is_name n = not (is_skipped n) && (not (is_up n) && lacks slash n)

abbrev pub all : (Str → Bool) → List Str → Bool
all f [] = true
all f (x ∷ xs) = f x && all f xs

-- Before the first name the buffer may still be empty.
abbrev pub Spells : Bool → Stack → Str → Type 0
Spells absolute st buf = (buf ≡ spelled absolute st) ⊎ ((st ≡ []) × (buf ≡ []))

pop_name-cons : (c : ℕ) (buf : Str) → (c == slash) ≡ false → pop_name (c ∷ buf) ≡ pop_name buf
unfolding pop_name
pop_name-cons c buf h = rw h refl

-- The loop for ".." eats a whole name.
pub pop_name-push_str :
    (buf n : Str) → lacks slash n ≡ true → pop_name (push_str buf n) ≡ pop_name buf
pop_name-push_str buf [] h = refl
pop_name-push_str buf (c ∷ cs) h =
    let here : (c == slash) ≡ false = ground (arith, h) in
    let rest : lacks slash cs ≡ true = ground (arith, h) in
    pop_name-push_str (c ∷ buf) cs rest ∙ pop_name-cons c buf here

pub separated-push_str :
    (absolute : Bool) (c : ℕ) (cs buf : Str)
    → lacks slash (c ∷ cs) ≡ true
    → separated absolute (push_str (c ∷ buf) cs)
      ≡ (if wide_end (c ∷ cs) then none else some (slash ∷ push_str (c ∷ buf) cs))
unfolding separated
separated-push_str absolute c [] buf h =
    let here : (c == slash) ≡ false = ground (arith, h) in rw here (ground arith)
separated-push_str absolute c (d ∷ ds) buf h =
    let rest : lacks slash (d ∷ ds) ≡ true = ground (arith, h) in
    separated-push_str absolute d ds (c ∷ buf) rest

pop_name-root : (absolute : Bool) → pop_name (root absolute) ≡ root absolute
unfolding pop_name
pop_name-root true = refl
pop_name-root false = refl

pub pop_name-nil : pop_name [] ≡ []
unfolding pop_name
pop_name-nil = refl

pop_name-slash : (buf : Str) → is_empty buf ≡ false → pop_name (slash ∷ buf) ≡ buf
unfolding pop_name
pop_name-slash [] h = cc
pop_name-slash (c ∷ buf) h = refl

is_empty-push_str : (buf n : Str) → is_empty buf ≡ false → is_empty (push_str buf n) ≡ false
is_empty-push_str buf [] h = h
is_empty-push_str buf (c ∷ cs) h = is_empty-push_str (c ∷ buf) cs refl

name-lacks : (n : Str) → is_name n ≡ true → lacks slash n ≡ true
name-lacks n h = ground (arith, h)

pub is_empty-spelled :
    (absolute : Bool) (n : Str) (st : Stack)
    → is_name n ≡ true
    → is_empty (spelled absolute (n ∷ st)) ≡ false
unfolding is_skipped
is_empty-spelled absolute [] st h = cc
is_empty-spelled absolute (c ∷ cs) [] h = is_empty-push_str (c ∷ root absolute) cs refl
is_empty-spelled absolute (c ∷ cs) (m ∷ st) h =
    is_empty-push_str (c ∷ slash ∷ spelled absolute (m ∷ st)) cs refl

-- ".." on the buffer takes the innermost name off the stack.
pub pop_name-spelled :
    (absolute : Bool) (st : Stack)
    → all is_name st ≡ true
    → pop_name (spelled absolute st) ≡ spelled absolute (pop st)
pop_name-spelled absolute [] h = pop_name-root absolute
pop_name-spelled absolute (n ∷ []) h =
    pop_name-push_str (root absolute) n (name-lacks n (ground (arith, h))) ∙ pop_name-root absolute
pop_name-spelled absolute (n ∷ m ∷ st) h =
    pop_name-push_str (slash ∷ spelled absolute (m ∷ st)) n (name-lacks n (ground (arith, h)))
    ∙ pop_name-slash (spelled absolute (m ∷ st))
        (is_empty-spelled absolute m st (ground (arith, h)))

separated-root : (absolute : Bool) → separated absolute (root absolute) ≡ some (root absolute)
unfolding separated
separated-root true = refl
separated-root false = refl

-- The buffer before a name: unchanged at the root, else with a separator.
abbrev pub before_name : Bool → Stack → Str
before_name absolute [] = root absolute
before_name absolute (n ∷ st) = slash ∷ spelled absolute (n ∷ st)

pub separated-spelled :
    (absolute : Bool) (st : Stack)
    → all is_name st ≡ true
    → separated absolute (spelled absolute st)
      ≡ (if blocked st then none else some (before_name absolute st))
unfolding is_skipped
separated-spelled absolute [] h = separated-root absolute
separated-spelled absolute ([] ∷ st) h = cc
separated-spelled absolute ((c ∷ cs) ∷ []) h =
    separated-push_str absolute c cs (root absolute) (name-lacks (c ∷ cs) (ground (arith, h)))
separated-spelled absolute ((c ∷ cs) ∷ m ∷ st) h =
    separated-push_str absolute c cs (slash ∷ spelled absolute (m ∷ st))
      (name-lacks (c ∷ cs) (ground (arith, h)))

-- At the start the buffer is empty, and a first separator makes it the root.
pub separated-nil : (absolute : Bool) → separated absolute [] ≡ some (root absolute)
unfolding separated
separated-nil absolute = refl
