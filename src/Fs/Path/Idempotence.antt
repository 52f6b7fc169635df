-- ===== src/Fs/Path/Idempotence.antt =====
-- A canonical path is canonical already.
use chenlongos.Prelude.{
  ℕ, ◌≡◌, refl, sym, ap, ◌∙◌, subst, Bool, true, false, ◌&&◌, not, Option, none, some, List, [],
  ◌∷◌, ◌++◌, if◌then◌else◌, ◌>>=◌, >>=-eq-some, Str, is_empty, lacks, split, split_first, arith,
  ◌==◌,
}
use chenlongos.Fs.Path.{slash, is_skipped, is_up, canonicalize}
use chenlongos.Fs.Path.Stack.{
  Stack, pop, blocked, walk_part, walk, joined, render, is_name, all, wide_end,
}
use chenlongos.Fs.Path.Canonical.{absolute_path?, walk-is_name, canonicalize-walk}

-- Every name but the innermost can be followed by another.
abbrev chained : Stack → Bool
chained [] = true
chained (n ∷ st) = not (blocked st) && chained st

walk_part-chained :
    (st : Stack) (part : Str) {next : Stack}
    → chained st ≡ true
    → walk_part st part ≡ some next
    → chained next ≡ true
walk_part-chained st part h e = parted (is_skipped part) (is_up part) (blocked st) refl e
  where
    popped : (s : Stack) → chained s ≡ true → chained (pop s) ≡ true
    popped [] k = refl
    popped (n ∷ s) k = ground (arith, k)

    parted :
        (skipped up wide : Bool) {next : Stack}
        → blocked st ≡ wide
        → (if skipped
            then some st
            else (if up then some (pop st) else (if wide then none else some (part ∷ st))))
          ≡ some next
        → chained next ≡ true
    parted true up wide b d = ground (arith, h, d)
    parted false true wide {next = next} b d =
        let same : pop st ≡ next = cc in subst (λ (s : Stack). chained s ≡ true) same (popped st h)
    parted false false true b d = cc
    parted false false false b d = ground (arith, h, b, d)

walk-chained :
    (st : Stack) (ps : List Str) {last : Stack}
    → chained st ≡ true
    → walk st ps ≡ some last
    → chained last ≡ true
walk-chained st [] h e = ground (arith, h, e)
walk-chained st (p ∷ ps) h e =
    let next = >>=-eq-some (walk_part st p) (λ n. walk n ps) e in
    walk-chained next.0 ps (walk_part-chained st p h next.1) next.2

walk_on :
    (o : Option Stack) (ps qs : List Str)
    → ((n : Stack) → walk n (ps ++ qs) ≡ (walk n ps >>= λ next. walk next qs))
    → (o >>= λ n. walk n (ps ++ qs)) ≡ ((o >>= λ n. walk n ps) >>= λ next. walk next qs)
walk_on none ps qs keeps = refl
walk_on (some n) ps qs keeps = keeps n

walk-append :
    (st : Stack) (ps qs : List Str) → walk st (ps ++ qs) ≡ (walk st ps >>= λ next. walk next qs)
walk-append st [] qs = refl
walk-append st (p ∷ ps) qs = walk_on (walk_part st p) ps qs (λ n. walk-append n ps qs)

split_first-lacking : (n : Str) → lacks slash n ≡ true → split_first slash n ≡ (n, [])
split_first-lacking [] k = refl
split_first-lacking (c ∷ cs) k =
    let here : (c == slash) ≡ false = ground (arith, k) in
    rw here (rw (split_first-lacking cs (ground (arith, k))) refl)

abbrev with_part : Str → Str × List Str → Str × List Str
with_part n r = (r.0, r.1 ++ n ∷ [])

abbrev consed : ℕ → Bool → Str × List Str → Str × List Str
consed c b rest = if b then ([], rest.0 ∷ rest.1) else (c ∷ rest.0, rest.1)

consed-with_part :
    (c : ℕ) (b : Bool) (n : Str) (less : Str × List Str)
    → consed c b (with_part n less) ≡ with_part n (consed c b less)
consed-with_part c true n less = refl
consed-with_part c false n less = refl

split_first-append :
    (a n : Str)
    → split_first slash n ≡ (n, [])
    → split_first slash (a ++ slash ∷ n) ≡ with_part n (split_first slash a)
split_first-append [] n e = ap (λ (r : Str × List Str). ([], r.0 ∷ r.1)) e
split_first-append (c ∷ cs) n e =
    ap (consed c (c == slash)) (split_first-append cs n e)
    ∙ consed-with_part c (c == slash) n (split_first slash cs)

walk_part-name :
    (st : Stack) (n : Str) → is_name n ≡ true → blocked st ≡ false → walk_part st n ≡ some (n ∷ st)
walk_part-name st n h b = ground (arith, h, b)

abbrev walk_split : Str × List Str → Option Stack
walk_split r = walk [] (r.0 ∷ r.1)

walk_one : (st : Stack) (n : Str) → walk st (n ∷ []) ≡ walk_part st n
walk_one st n = on_part (walk_part st n)
  where
    on_part : (o : Option Stack) → (o >>= λ next. walk next []) ≡ o
    on_part none = refl
    on_part (some s) = refl

name-split : (n : Str) → is_name n ≡ true → split_first slash n ≡ (n, [])
name-split n h = split_first-lacking n (ground (arith, h))

walk_nil : walk [] ([] ∷ []) ≡ some []
unfolding is_skipped
walk_nil = refl

-- Walking the names from the outermost builds the stack again.
walk-joined :
    (st : Stack)
    → all is_name st ≡ true
    → chained st ≡ true
    → walk_split (split_first slash (joined st)) ≡ some st
walk-joined [] h k = walk_nil
walk-joined (n ∷ []) h k =
    ap walk_split (name-split n (ground (arith, h)))
    ∙ walk_one [] n
    ∙ walk_part-name [] n (ground (arith, h)) refl
walk-joined (n ∷ m ∷ st) h k =
    let e : split_first slash (joined (m ∷ st) ++ slash ∷ n)
        ≡ with_part n (split_first slash (joined (m ∷ st))) =
      split_first-append (joined (m ∷ st)) n (name-split n (ground (arith, h))) in
    ap walk_split e
    ∙ walk-append [] (split slash (joined (m ∷ st))) (n ∷ [])
    ∙ ap (λ (o : Option Stack). o >>= λ next. walk next (n ∷ []))
        (walk-joined (m ∷ st) (ground (arith, h)) (ground (arith, k)))
    ∙ walk_one (m ∷ st) n
    ∙ walk_part-name (m ∷ st) n (ground (arith, h)) (ground (arith, k))

-- A relative path of names does not start with a separator.
starts_relative :
    (st : Stack) (n : Str)
    → all is_name (n ∷ st) ≡ true
    → (is_empty (joined (n ∷ st)) ≡ false) × (absolute_path? (joined (n ∷ st)) ≡ false)
unfolding is_skipped
starts_relative [] [] h = cc
starts_relative [] (c ∷ cs) h = (refl, ground (arith, h))
starts_relative (m ∷ st) n h =
    longer (joined (m ∷ st)) (slash ∷ n) (starts_relative st m (ground (arith, h)))
  where
    longer :
        (a b : Str)
        → (is_empty a ≡ false) × (absolute_path? a ≡ false)
        → (is_empty (a ++ b) ≡ false) × (absolute_path? (a ++ b) ≡ false)
    longer [] b (e, _) = cc
    longer (c ∷ cs) b (e, r) = (refl, r)

walk_skips_root : (r : Str) → walk [] (split slash (slash ∷ r)) ≡ walk [] (split slash r)
unfolding is_skipped
walk_skips_root r = refl

canonicalize-render :
    (absolute : Bool) (st : Stack)
    → all is_name st ≡ true
    → chained st ≡ true
    → canonicalize (render absolute st) ≡ some (render absolute st)
canonicalize-render true st h k =
    canonicalize-walk (slash ∷ joined st)
    ∙ ap (λ (o : Option Stack). o >>= λ s. some (render true s))
        (walk_skips_root (joined st) ∙ walk-joined st h k)
canonicalize-render false [] h k =
    canonicalize-walk []
    ∙ ap (λ (o : Option Stack). o >>= λ s. some (render false s)) (walk-joined [] h k)
canonicalize-render false (n ∷ st) h k =
    canonicalize-walk (joined (n ∷ st))
    ∙ ap (λ (o : Option Stack). o >>= λ s. some (render (absolute_path? (joined (n ∷ st))) s))
        (walk-joined (n ∷ st) h k)
    ∙ ap (λ (b : Bool). some (render b (n ∷ st))) (starts_relative st n h).1

-- What `canonicalize` gives it gives back: a canonical path is not changed.
pub canonicalize_idem : (path r : Str) → canonicalize path ≡ some r → canonicalize r ≡ some r
canonicalize_idem path r e =
    let found =
      >>=-eq-some (walk [] (split slash path)) (λ st. some (render (absolute_path? path) st))
        (sym (canonicalize-walk path) ∙ e) in
    let same : render (absolute_path? path) found.0 ≡ r = cc in
    subst (λ (s : Str). canonicalize s ≡ some s) same
      (canonicalize-render (absolute_path? path) found.0 (walk-is_name path found.1)
        (walk-chained [] (split slash path) refl found.1))

-- Two names behind a first separator are canonical if the first ends in a character of one byte;
-- if it ends in a longer one, `canonicalize` panics.
pub canonicalize_two :
    (p q : Str)
    → is_name p ≡ true
    → is_name q ≡ true
    → canonicalize (slash ∷ (p ++ slash ∷ q))
      ≡ (if wide_end p then none else some (slash ∷ (p ++ slash ∷ q)))
canonicalize_two p q hp hq =
    canonicalize-walk (slash ∷ (p ++ slash ∷ q))
    ∙ ap (λ (o : Option Stack). o >>= λ s. some (render true s))
        (walk_skips_root (p ++ slash ∷ q)
          ∙ ap walk_split (split_first-append p q (name-split q hq))
          ∙ walk-append [] (split slash p) (q ∷ [])
          ∙ ap (λ (o : Option Stack). o >>= λ next. walk next (q ∷ []))
              (walk-joined (p ∷ []) (ground (arith, hp)) refl)
          ∙ walk_one (p ∷ []) q)
    ∙ second (wide_end p) refl
  where
    second :
        (wide : Bool)
        → wide_end p ≡ wide
        → (walk_part (p ∷ []) q >>= λ s. some (render true s))
          ≡ (if wide then none else some (slash ∷ (p ++ slash ∷ q)))
    second true w = ground (arith, hq, w)
    second false w =
        ap (λ (o : Option Stack). o >>= λ s. some (render true s)) (walk_part-name (p ∷ []) q hq w)
