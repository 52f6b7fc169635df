-- ===== src/Posix/FdOps/Calls.antt =====
-- Each call on file descriptors, on a valid table.
use chenlongos.Prelude.{
  ℕ, ◌<◌, ◌≤◌, ◌≡◌, ◌≢◌, refl, ◌∙◌, inl, inr, false, Option, none, some, ◌>>=◌, arith, Option-cases,
  Bool-cases,
}
use chenlongos.Prelude.Int.{ℤ, pos, negsuc}
use chenlongos.FlattenObjects.{FlattenObjects}
use chenlongos.FlattenObjects.Bitmap.{BitmapOps, BitmapLaws}
use chenlongos.FlattenObjects.Ids.{view, IsValid, get_lem, Assigned}
use chenlongos.FlattenObjects.Alloc.{Added, under, table_full, add_lem}
use chenlongos.FlattenObjects.Free.{Removed, remove_lem}
use chenlongos.Posix.FdOps.{
  ebadf, emfile, LinuxResult, ok, err, as_usize, is_std, neg, syscall_body, IsCInt, get_file_like,
  add_file_like, close_file_like, sys_close, dup_fd, sys_dup,
}

above_std : (fd : ℤ) → IsCInt fd → is_std fd ≡ false → 3 ≤ as_usize fd
above_std (pos n) c e = ground arith
above_std (negsuc n) c e = omega arith

module _ {ℓ} {B : BitmapOps} {F : Type ℓ} where
  -- A call has returned: the table is valid, and no descriptor that was open has changed, but for
  -- one above 2 that may have been closed.
  pub record Safe (t t' : FlattenObjects B F) : Type ℓ where
    pub valid : IsValid t'
    pub limit : t'.cap ≡ t.cap
    pub std_kept : (i : ℕ) → i < 3 → view t i ≢ none → view t' i ≡ view t i

  pub Safe-refl : (t : FlattenObjects B F) → IsValid t → Safe t t
  Safe-refl t v = record { valid = v; limit = refl; std_kept = λ i h o. refl }

  pub Safe-trans : {t u w : FlattenObjects B F} → Safe t u → Safe u w → Safe t w
  Safe-trans p q = record {
    valid = q.valid;
    limit = q.limit ∙ p.limit;
    std_kept = λ i h o. q.std_kept i h (rw (p.std_kept i h o) o) ∙ p.std_kept i h o;
  }

  pub Assigned-Safe :
      (t : FlattenObjects B F) (id : ℕ) (f : F) (t' : FlattenObjects B F)
      → view t id ≡ none
      → Assigned t id f t'
      → Safe t t'
  Assigned-Safe t id f t' free a = record {
    valid = a.valid;
    limit = a.same_cap;
    std_kept = λ i h o. a.elsewhere i (λ e. o (rw e free));
  }

  Removed-Safe :
      (t : FlattenObjects B F) (id : ℕ) (t' : FlattenObjects B F)
      → 3 ≤ id
      → Removed t id t'
      → Safe t t'
  Removed-Safe t id t' h r = record {
    valid = r.valid;
    limit = r.same_cap;
    std_kept = λ i p o. r.elsewhere i (omega arith);
  }

  pub get_file_like_lem :
      (t : FlattenObjects B F) (fd : ℤ)
      → IsValid t
      → get_file_like t fd ≡ some (elim (view t (as_usize fd)) [ none ↦ err ebadf | some f ↦ ok f ])
  unfolding get_file_like
  get_file_like_lem t fd v = rw (get_lem t (as_usize fd) v) (ground arith)

  -- `dup_fd` and `add_file_like`: a free descriptor was found, or the table was full.
  pub data Dupped (t : FlattenObjects B F) (f : F) (m : Option (FlattenObjects B F × LinuxResult ℤ))
      : Type ℓ where
    at_lowest :
        (id : ℕ) (t' : FlattenObjects B F)
        → m ≡ some (t', ok (pos id))
        → id < t.cap
        → view t id ≡ none
        → ((j : ℕ) → j < id → view t j ≢ none)
        → Assigned t id f t'
        → Dupped t f m
    too_many : m ≡ some (t, err emfile) → ((j : ℕ) → j < t.cap → view t j ≢ none) → Dupped t f m

  abbrev pub Returned : FlattenObjects B F → Option (FlattenObjects B F × ℤ) → Type ℓ
  Returned t m = (t' : FlattenObjects B F) × (r : ℤ) × (m ≡ some (t', r)) × Safe t t'

module _ {ℓ} {B : BitmapOps} {F : Type ℓ} (L : BitmapLaws B) where
  add_file_like_lem : (t : FlattenObjects B F) (f : F) → IsValid t → Dupped t f (add_file_like t f)
  unfolding add_file_like
  add_file_like_lem t f v = cases (add_lem L t f v)
    where
      cases : Added t f → Dupped t f (add_file_like t f)
      cases (under id t' runs h free least a) = at_lowest id t' (rw runs refl) h free least a
      cases (table_full runs all n) = too_many (rw runs refl) all

  -- On a valid table, a duplicate of an open descriptor is the lowest that is free, and refers to
  -- the same file; all others stay. With none free the result is EMFILE, and of a descriptor that
  -- is not open EBADF.
  pub dup_fd_lem :
      (t : FlattenObjects B F) (fd : ℤ)
      → IsValid t
      → (view t (as_usize fd) ≡ none → dup_fd t fd ≡ some (t, err ebadf))
        × ((f : F) → view t (as_usize fd) ≡ some f → Dupped t f (dup_fd t fd))
  unfolding dup_fd
  dup_fd_lem t fd v = (
    λ e. rw (get_file_like_lem t fd v, e) refl,
    λ f e. rw (get_file_like_lem t fd v, e) (add_file_like_lem t f v),
  )

  pub close-Returned :
      (t : FlattenObjects B F) (fd : ℤ) → IsValid t → IsCInt fd → Returned t (sys_close t fd)
  unfolding sys_close close_file_like
  close-Returned t fd v c = elim (Bool-cases (is_std fd)) [
    | inl e ↦ (t, pos 0, rw e refl, Safe-refl t v)
    | inr e ↦
        let (found, missing) = remove_lem L t (as_usize fd) v in
        elim (Option-cases (view t (as_usize fd))) [
          | inl none_there ↦ (t, neg 9, rw (e, missing none_there) refl, Safe-refl t v)
          | inr (f, there) ↦
              let (t', runs, r) = found f there in
              (t', pos 0, rw (e, runs) refl, Removed-Safe t (as_usize fd) t' (above_std fd c e) r)
        ]
  ]

  dup_fd-Returned :
      (t : FlattenObjects B F) (fd : ℤ)
      → IsValid t
      → (t' : FlattenObjects B F) × (r : LinuxResult ℤ) × (dup_fd t fd ≡ some (t', r)) × Safe t t'
  dup_fd-Returned t fd v =
      let (missing, found) = dup_fd_lem t fd v in
      elim (Option-cases (view t (as_usize fd))) [
        | inl e ↦ (t, err ebadf, missing e, Safe-refl t v)
        | inr (f, e) ↦ cases f (found f e)
      ]
    where
      cases :
          (f : F)
          → Dupped t f (dup_fd t fd)
          → (t' : FlattenObjects B F) × (r : LinuxResult ℤ) × (dup_fd t fd ≡ some (t', r))
            × Safe t t'
      cases f (at_lowest id t' runs h free least a) =
          (t', ok (pos id), runs, Assigned-Safe t id f t' free a)
      cases f (too_many runs all) = (t, err emfile, runs, Safe-refl t v)

  pub dup-Returned : (t : FlattenObjects B F) (fd : ℤ) → IsValid t → Returned t (sys_dup t fd)
  unfolding sys_dup
  dup-Returned t fd v =
      let (t', r, runs, s) = dup_fd-Returned t fd v in
      (t', syscall_body r, rw (runs, ◌>>=◌) refl, s)
