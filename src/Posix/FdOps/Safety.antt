-- ===== src/Posix/FdOps/Safety.antt =====
-- Sequences of calls on file descriptors.
use chenlongos.Prelude.{
  ◌==◌, ◌||◌, ℕ, ◌<◌, ◌≡◌, refl, sym, ◌∙◌, inl, inr, Bool, false, Option, some, leb, ◌>>=◌, arith,
  Option-cases, Bool-cases, List, [], ◌∷◌,
}
use chenlongos.Prelude.Int.{ℤ, pos, negsuc}
use chenlongos.FlattenObjects.{FlattenObjects, add_at}
use chenlongos.FlattenObjects.Bitmap.{BitmapOps, BitmapLaws}
use chenlongos.FlattenObjects.Ids.{view, IsValid}
use chenlongos.FlattenObjects.Alloc.{add_at_lem}
use chenlongos.Posix.FdOps.{
  ebadf, emfile, LinuxResult, ok, err, as_usize, file_limit, neg, code, syscall_body, ok_or, IsCInt,
  get_file_like, sys_dup, sys_fcntl, sys_dup2, Call, close, dup, dup2, fcntl, call, run,
  wants_nonblock, eq_ℤ, is_std, f_dupfd, f_dupfd_cloexec, f_setfl,
}
use chenlongos.Posix.FdOps.Calls.{
  Safe, Safe-refl, Safe-trans, Assigned-Safe, Returned, get_file_like_lem, close-Returned,
  dup-Returned,
}

module _ {ℓ} {B : BitmapOps} {F : Type ℓ} where
  Returned-self : (t : FlattenObjects B F) (r : ℤ) → IsValid t → Returned t (some (t, r))
  Returned-self t r v = (t, r, refl, Safe-refl t v)

  Returned-file :
      (t : FlattenObjects B F) (fd : ℤ) (k : LinuxResult F → Option (FlattenObjects B F × ℤ))
      → IsValid t
      → Returned t (k (err ebadf))
      → ((f : F) → Returned t (k (ok f)))
      → Returned t (get_file_like t fd >>= k)
  Returned-file t fd k v p q = elim (Option-cases (view t (as_usize fd))) [
    | inl e ↦ rw (get_file_like_lem t fd v, e) p
    | inr (f, e) ↦ rw (get_file_like_lem t fd v, e) (q f)
  ]

  set-Returned :
      (t : FlattenObjects B F) (r : LinuxResult (Unit {0}))
      → IsValid t
      → Returned t (elim r [ ok u ↦ some (t, pos 0) | err e ↦ some (t, neg (code e)) ])
  set-Returned t (ok u) v = Returned-self t (pos 0) v
  set-Returned t (err e) v = Returned-self t (neg (code e)) v

below_limit : (id : ℕ) {limit : ℕ} → limit ≡ file_limit → leb file_limit id ≡ false → id < limit
below_limit id e h = ground arith

-- The numbers of a call are ones that a `c_int` can hold.
abbrev pub HasCInts : Call → Type 0
HasCInts (close fd) = IsCInt fd
HasCInts (dup fd) = IsCInt fd
HasCInts (dup2 old_fd new_fd) = IsCInt old_fd × IsCInt new_fd
HasCInts (fcntl fd cmd arg) = IsCInt fd

abbrev pub AllCInts : List Call → Type 0
AllCInts [] = Unit {0}
AllCInts (c ∷ cs) = HasCInts c × AllCInts cs

module _ {ℓ} {B : BitmapOps} {F : Type ℓ}
    (set_nonblocking : F → Bool → LinuxResult (Unit {0})) where
  -- `dup2` of a descriptor onto itself succeeds and changes nothing, whether or not it is open.
  pub dup2_same :
      (t : FlattenObjects B F) (fd : ℤ) → sys_dup2 set_nonblocking t fd fd ≡ some (t, fd)
  unfolding sys_dup2 sys_fcntl
  dup2_same t (pos n) = ground arith
  dup2_same t (negsuc n) = ground arith

module _ {ℓ} {B : BitmapOps} {F : Type ℓ} (L : BitmapLaws B)
    (set_nonblocking : F → Bool → LinuxResult (Unit {0})) where
  fcntl-Returned :
      (t : FlattenObjects B F) (fd : ℤ) (cmd arg : ℕ)
      → IsValid t
      → Returned t (sys_fcntl set_nonblocking t fd cmd arg)
  unfolding sys_fcntl sys_dup
  fcntl-Returned t fd cmd arg v = elim (Bool-cases (cmd == f_dupfd || cmd == f_dupfd_cloexec)) [
    | inl e ↦ rw e (dup-Returned L t fd v)
    | inr e ↦ elim (Bool-cases (cmd == f_setfl)) [
      | inl set ↦ elim (Bool-cases (is_std fd)) [
        | inl std ↦ rw (e, set, std) (Returned-self t (pos 0) v)
        | inr file ↦
            rw (e, set, file)
              (Returned-file t fd _ v (Returned-self t (neg 9) v)
                (λ f. set-Returned t (set_nonblocking f (wants_nonblock arg)) v))
      ]
      | inr ignored ↦ rw (e, ignored) (Returned-self t (pos 0) v)
    ]
  ]

  add_at-Returned :
      (t : FlattenObjects B F) (id : ℕ) (f : F) (r : ℤ)
      → IsValid t
      → id < t.cap
      → Returned t
          (add_at t id f >>= λ (t', o). some (t', syscall_body (ok_or (o >>= λ id. some r) emfile)))
  add_at-Returned t id f r v h =
      let (free, taken, out) = add_at_lem L t id f v in
      elim (Option-cases (view t id)) [
        | inl e ↦
            let (t', runs, a) = free h e in
            (t', r, rw (runs, ◌>>=◌) refl, Assigned-Safe t id f t' e a)
        | inr (g, e) ↦ (t, neg 24, rw (taken (λ n. cc (sym n ∙ e)), ◌>>=◌) refl, Safe-refl t v)
      ]

  dup2-Returned :
      (t : FlattenObjects B F) (old_fd new_fd : ℤ)
      → IsValid t
      → t.cap ≡ file_limit
      → Returned t (sys_dup2 set_nonblocking t old_fd new_fd)
  unfolding sys_dup2 sys_fcntl
  dup2-Returned t old_fd new_fd v c = elim (Bool-cases (eq_ℤ old_fd new_fd)) [
    | inl e ↦ rw e (Returned-self t old_fd v)
    | inr e ↦ elim (Bool-cases (leb file_limit (as_usize new_fd))) [
      | inl big ↦ rw (e, big) (Returned-self t (neg 9) v)
      | inr small ↦
          rw (e, small)
            (Returned-file t old_fd _ v (Returned-self t (neg 9) v) (λ f.
              add_at-Returned t (as_usize new_fd) f new_fd v
                (below_limit (as_usize new_fd) c small)))
    ]
  ]

  call-Returned :
      (t : FlattenObjects B F) (c : Call)
      → IsValid t
      → t.cap ≡ file_limit
      → HasCInts c
      → Returned t (call set_nonblocking t c)
  unfolding call
  call-Returned t (close fd) v l h = close-Returned L t fd v h
  call-Returned t (dup fd) v l h = dup-Returned L t fd v
  call-Returned t (dup2 old_fd new_fd) v l h = dup2-Returned t old_fd new_fd v l
  call-Returned t (fcntl fd cmd arg) v l h = fcntl-Returned t fd cmd arg v

  -- No sequence of `close`, `dup`, `dup2` and `fcntl`, with descriptors that a `c_int` can hold,
  -- panics on a valid table of 1024 entries; the table stays valid, and each standard stream that
  -- is open refers to the same file.
  pub run-Safe :
      (t : FlattenObjects B F) (cs : List Call)
      → IsValid t
      → t.cap ≡ file_limit
      → AllCInts cs
      → (t' : FlattenObjects B F) × (rs : List ℤ) × (run set_nonblocking t cs ≡ some (t', rs))
        × Safe t t'
  unfolding run
  run-Safe t [] v l h = (t, [], refl, Safe-refl t v)
  run-Safe t (c ∷ cs) v l h =
      let (t1, r, runs, s) = call-Returned t c v l h.0 in
      let (t2, rs, rest, s2) = run-Safe t1 cs s.valid (s.limit ∙ l) h.1 in
      (t2, r ∷ rs, rw (runs, ◌>>=◌, rest) refl, Safe-trans s s2)
