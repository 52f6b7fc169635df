-- ===== src/Fs/Fops/Access.antt =====
-- The rights of open files and directories of modules/axfs/src/fops.rs.
use chenlongos.Prelude.{
  ℕ, ◌≡◌, ◌≢◌, refl, ap, ◌∙◌, ◌⊎◌, inl, inr, Bool, true, false, not, ◌||◌, Option, List,
  if◌then◌else◌, if-true, if-false, Bool-cases, arith,
}
use chenlongos.Fs.Types.{AxResult, ok, err, invalid_input, already_exists, permission_denied}
use chenlongos.Fs.Options.{OpenOptions, is_valid, cap_of}
use chenlongos.Fs.Fops.{
  FileSystem, File, Directory, and_then, on_ok, then_ok, find_node, finish_open, opened, open_at,
  file_truncate, file_read, file_read_at, file_write, file_write_at, file_flush, open_dir_at,
  is_absolute, access_at, open_file_at, check_dir, check_file,
}

-- What a chain that succeeds went through.
and_then-ok :
    {S A B : Type 0} (r : S × AxResult A) (k : S → A → S × AxResult B) {s' : S} {b : B}
    → and_then r k ≡ (s', ok b)
    → (s : S) × (a : A) × (k s a ≡ (s', ok b))
and_then-ok (s, ok a) k e = (s, a, e)
and_then-ok (s, err x) k e = cc

on_ok-ok :
    {S A B : Type 0} (s : S) (r : AxResult A) (k : A → S × AxResult B) {s' : S} {b : B}
    → on_ok s r k ≡ (s', ok b)
    → (a : A) × (k a ≡ (s', ok b))
on_ok-ok s (ok a) k e = (a, e)
on_ok-ok s (err x) k e = cc

if-ok :
    {S A : Type 0} (b : Bool) (r r' : S × AxResult A) {s' : S} {a : A}
    → (r' ≢ (s', ok a))
    → (if b then r else r') ≡ (s', ok a)
    → (b ≡ true) × (r ≡ (s', ok a))
if-ok true r r' n e = (refl, e)
if-ok false r r' n e = absurd (n e)

ok_inj : {S A : Type 0} (s s' : S) (a b : A) → Path (S × AxResult A) (s, ok a) (s', ok b) → b ≡ a
ok_inj s s' a b e = cc e

else-ok :
    {S A : Type 0} (b : Bool) (r r' : S × AxResult A) {s' : S} {a : A}
    → r ≢ (s', ok a)
    → (if b then r else r') ≡ (s', ok a)
    → r' ≡ (s', ok a)
else-ok true r r' n e = absurd (n e)
else-ok false r r' n e = e

or_true : (b : Bool) → (b || true) ≡ true
or_true true = refl
or_true false = refl

module _ (F : FileSystem) where
  finish_open-opened :
      (s : F.State) (o : OpenOptions) (node : F.Node) {s' : F.State} {f : File F.Node}
      → finish_open F s o node ≡ (s', ok f)
      → f ≡ opened F o node
  unfolding finish_open
  finish_open-opened s o node {s'} {f} e =
      let last : F.State → Unit {0} → F.State × AxResult (File F.Node) =
        λ s2 u2. (s2, ok (opened F o node)) in
      let second : F.State → Unit {0} → F.State × AxResult (File F.Node) =
        λ s1 u1. and_then (if o.truncate then F.truncate s1 node 0 else (s1, ok tt)) last in
      let (u, e1) =
        on_ok-ok s (then_ok (F.get_attr s node) (check_file F o))
          (λ u. and_then (F.open_node s node) second) {s' = s'} {b = f} e in
      let (s1, u1, e2) = and_then-ok (F.open_node s node) second {s' = s'} {b = f} e1 in
      let (s2, u2, e3) =
        and_then-ok (if o.truncate then F.truncate s1 node 0 else (s1, ok tt)) last {s' = s'}
          {b = f} e2 in
      ok_inj s2 s' (opened F o node) f e3

  open_at-opened :
      (s : F.State) (dir : Option F.Node) (path : List ℕ) (o : OpenOptions) {s' : F.State}
      {f : File F.Node}
      → open_at F s dir path o ≡ (s', ok f)
      → (node : F.Node) × (is_valid o ≡ true) × (f ≡ opened F o node)
  unfolding open_at
  open_at-opened s dir path o {s'} {f} e =
      let after : F.State → F.Node → F.State × AxResult (File F.Node) =
        λ s1 node. finish_open F s1 o node in
      let (valid, e1) =
        if-ok (is_valid o) (and_then (find_node F s dir path o) after) (s, err invalid_input)
          {s' = s'} {a = f} (λ h. cc h) e in
      let (s1, node, e2) = and_then-ok (find_node F s dir path o) after {s' = s'} {b = f} e1 in
      (node, valid, finish_open-opened s1 o node e2)

  denied_write :
      (o : OpenOptions) (node : F.Node) (t : F.State)
      → (o.write || o.append) ≡ false
      → (buf : List ℕ) (at size : ℕ)
      → (file_write F t (opened F o node) buf ≡ (t, err permission_denied))
        × (file_write_at F t (opened F o node) at buf ≡ (t, err permission_denied))
        × (file_truncate F t (opened F o node) size ≡ (t, err permission_denied))
        × (file_flush F t (opened F o node) ≡ err permission_denied)
  unfolding file_write file_write_at file_truncate file_flush
  denied_write o node t e buf at size = rw e (refl, refl, refl, refl)

  denied_read :
      (o : OpenOptions) (node : F.Node) (t : F.State)
      → o.read ≡ false
      → (at len : ℕ)
      → (file_read F t (opened F o node) len ≡ err permission_denied)
        × (file_read_at F t (opened F o node) at len ≡ err permission_denied)
  unfolding file_read file_read_at
  denied_read o node t e at len = rw e (refl, refl)

  -- A file that was opened neither to write nor to append cannot be changed: in whatever state of the
  -- file systems, `write`, `write_at`, `truncate` and `flush` are denied and change nothing.
  pub open_at_read_only :
      (s : F.State) (dir : Option F.Node) (path : List ℕ) (o : OpenOptions) (s' : F.State)
      (f : File F.Node)
      → open_at F s dir path o ≡ (s', ok f)
      → (o.write || o.append) ≡ false
      → (t : F.State) (buf : List ℕ) (at size : ℕ)
      → (file_write F t f buf ≡ (t, err permission_denied))
        × (file_write_at F t f at buf ≡ (t, err permission_denied))
        × (file_truncate F t f size ≡ (t, err permission_denied))
        × (file_flush F t f ≡ err permission_denied)
  open_at_read_only s dir path o s' f e h t buf at size =
      let (node, valid, is_f) = open_at-opened s dir path o e in
      rw is_f (denied_write o node t h buf at size)

  -- A file that was opened without the option to read cannot be read, in whatever state of the
  -- file systems.
  pub open_at_write_only :
      (s : F.State) (dir : Option F.Node) (path : List ℕ) (o : OpenOptions) (s' : F.State)
      (f : File F.Node)
      → open_at F s dir path o ≡ (s', ok f)
      → o.read ≡ false
      → (t : F.State) (at len : ℕ)
      → (file_read F t f len ≡ err permission_denied)
        × (file_read_at F t f at len ≡ err permission_denied)
  open_at_write_only s dir path o s' f e h t at len =
      let (node, valid, is_f) = open_at-opened s dir path o e in
      rw is_f (denied_read o node t h at len)

  find_node-exists :
      (s : F.State) (dir : Option F.Node) (path : List ℕ) (o : OpenOptions) (node : F.Node)
      → F.lookup s dir path ≡ ok node
      → o.create_new ≡ true
      → find_node F s dir path o ≡ (s, err already_exists)
  unfolding find_node
  find_node-exists s dir path o node there new = rw (there, new, or_true o.create) refl

  -- With `create_new`, a path that exists is never opened: the call is refused, as invalid or
  -- because the path exists, and changes nothing.
  pub create_new_refuses :
      (s : F.State) (dir : Option F.Node) (path : List ℕ) (o : OpenOptions) (node : F.Node)
      → F.lookup s dir path ≡ ok node
      → o.create_new ≡ true
      → (open_at F s dir path o ≡ (s, err invalid_input))
        ⊎ (open_at F s dir path o ≡ (s, err already_exists))
  unfolding open_at
  create_new_refuses s dir path o node there new =
      let after : F.State → F.Node → F.State × AxResult (File F.Node) =
        λ s1 node. finish_open F s1 o node in
      elim (Bool-cases (is_valid o)) [
        | inl e ↦ inr (
            if-true (and_then (find_node F s dir path o) after) (s, err invalid_input) e
            ∙ ap (λ r. and_then r after) (find_node-exists s dir path o node there new))
        | inr e ↦
            inl (if-false (and_then (find_node F s dir path o) after) (s, err invalid_input) e)
      ]

  open_dir_at-opened :
      (s : F.State) (dir : Option F.Node) (path : List ℕ) (o : OpenOptions) {s' : F.State}
      {d : Directory F.Node}
      → open_dir_at F s dir path o ≡ (s', ok d)
      → d.node.cap.executes ≡ false
  unfolding open_dir_at
  open_dir_at-opened s dir path o {s'} {d} e =
      let made : F.Node → Directory F.Node =
        λ node. record { node = record { inner = node; cap = cap_of o }; entry_idx = 0 } in
      let last : F.Node → F.State → Unit {0} → F.State × AxResult (Directory F.Node) =
        λ node s1 u1. (s1, ok (made node)) in
      let second : F.Node → Unit {0} → F.State × AxResult (Directory F.Node) =
        λ node u. and_then (F.open_node s node) (last node) in
      let first : F.Node → F.State × AxResult (Directory F.Node) =
        λ node. on_ok s (then_ok (F.get_attr s node) (check_dir F o)) (second node) in
      let refused =
        not o.read || (o.create || (o.create_new || (o.write || (o.append || o.truncate)))) in
      let e1 =
        else-ok refused (s, err invalid_input) (on_ok s (F.lookup s dir path) first) {s' = s'}
          {a = d} (λ h. cc h) e in
      let (node, e2) = on_ok-ok s (F.lookup s dir path) first {s' = s'} {b = d} e1 in
      let (u, e3) =
        on_ok-ok s (then_ok (F.get_attr s node) (check_dir F o)) (second node) {s' = s'} {b = d}
          e2 in
      let (s1, u1, e4) = and_then-ok (F.open_node s node) (last node) {s' = s'} {b = d} e3 in
      ap (λ (x : Directory F.Node). x.node.cap.executes) (ok_inj s1 s' (made node) d e4)

  access_at-denied :
      (d : Directory F.Node) (name : List ℕ)
      → is_absolute F name ≡ false
      → d.node.cap.executes ≡ false
      → access_at F d name ≡ err permission_denied
  unfolding access_at
  access_at-denied d name h never = ground (arith, h, never)

  -- No file can be opened by a relative path from a directory that `open_dir_at` opened:
  -- `access_at` asks for the right to execute, which `open_dir_at` never gives.
  pub relative_open_denied :
      (s : F.State) (dir : Option F.Node) (path : List ℕ) (o : OpenOptions) (s' : F.State)
      (d : Directory F.Node)
      → open_dir_at F s dir path o ≡ (s', ok d)
      → (t : F.State) (name : List ℕ) (o' : OpenOptions) → is_absolute F name ≡ false
      → (access_at F d name ≡ err permission_denied)
        × (open_file_at F t d name o' ≡ (t, err permission_denied))
  unfolding open_file_at
  relative_open_denied s dir path o s' d e t name o' h =
      let denied = access_at-denied d name h (open_dir_at-opened s dir path o e) in
      (denied, ap (λ r. on_ok t r (λ from. open_at F t from name o')) denied)
